-- ===== src/Bridge/Mdns/Search.antt =====
-- The search of components/nev_bridge/src/nev_mdns.c: nev_mdns_start, nev_mdns_poll and nev_mdns_stop. What
-- the network answers, and the datagrams that wait at a poll, are arguments; what is asked is an answer.
use nev_os.Base.{
  ℕ, ◌+◌, Bool, true, false, not, ◌&&◌, Option, none, some, List, [], ◌∷◌, ltb, leb, if◌then◌else◌,
  take, sub32,
}
use nev_os.Bridge.Mdns.{build_query}
use nev_os.Bridge.Mdns.Parse.{Found, parse}

-- nev_mdns_t: `live` is a valid socket.
pub record Search : Type 0 where
  pub live : Bool
  pub last_query_ms : ℕ
  pub queries_sent : ℕ

abbrev pub query_interval_ms : ℕ
query_interval_ms = 1500

abbrev pub max_queries : ℕ
max_queries = 40

abbrev pub stop : Search → Search
stop m = record m { live = false }

-- Port 5353, an ephemeral one if that fails, and the first query; `taken` answers its sending.
unfoldable pub start : Bool → Bool → Bool → ℕ → Bool × Search
start fixed ephemeral taken now =
    let m : Search = record {
      live = if fixed then true else ephemeral;
      last_query_ms = 0;
      queries_sent = 0;
    } in
    if not m.live then (false, m) else elim (build_query 128) [
      | none ↦ (false, stop m)
      | some query ↦
          if not taken
          then (false, stop m)
          else (true, record m { last_query_ms = now; queries_sent = 1 })
    ]

-- The datagrams up to the first in which a daemon is found, each cut to the buffer; one of no bytes ends
-- the loop as well.
unfoldable pub first_reply : List (List ℕ) → Option Found × List (List ℕ)
first_reply [] = (none, [])
first_reply ([] ∷ ds) = (none, ds)
first_reply ((b ∷ bs) ∷ ds) = elim (parse (take 600 (b ∷ bs))) [
  | some found ↦ (some found, ds)
  | none ↦ first_reply ds
]

-- Asks again, at most forty times; the answer is the query, where one is sent.
unfoldable pub ask_again : Search → ℕ → Option (List ℕ) × Search
ask_again m now =
    if ltb m.queries_sent max_queries && leb query_interval_ms (sub32 now m.last_query_ms)
    then (build_query 128, record m { last_query_ms = now; queries_sent = m.queries_sent + 1 })
    else (none, m)

-- What was found, the datagrams that are left, the query that is sent, and the search after it.
unfoldable pub poll :
    Search → ℕ → List (List ℕ) → Option Found × List (List ℕ) × Option (List ℕ) × Search
poll m now waiting =
    if not m.live
    then (none, waiting, none, m)
    else (let (answer, left) = first_reply waiting in
        elim answer [
          | some found ↦ (some found, left, none, m)
          | none ↦ let (query, m') = ask_again m now in (none, left, query, m')
        ])
