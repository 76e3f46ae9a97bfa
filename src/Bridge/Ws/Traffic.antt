-- ===== src/Bridge/Ws/Traffic.antt =====
-- What the client may rely on of the socket, and what its sending keeps.
use nev_os.Base.{
  ◌<◌, take-drop, length-drop, Option-cases, inl, inr, ℕ, zero, suc, ◌+◌, ◌-◌, ◌≤◌, ◌≡◌, refl, sym,
  ap, ◌∙◌, none, some, List, [], ◌∷◌, ◌++◌, length, take, drop, arith, ltb, append_assoc,
  append-nil, Bool-cases,
}
use nev_os.Bridge.Ws.Frame.{tx_cap, frame_write}
use nev_os.Bridge.Ws.Client.{Port, Client, flush_rounds, flushed, flush_tx}

-- nev_net.h: a send takes at most what it is offered, a receive fills at most what it is given, and
-- `sent` is what was taken of all that was offered.
pub record IsPort {S : Type 0} (port : Port S) (sent : S → List ℕ) : Type 0 where
  pub send_some :
      (s : S) (xs : List ℕ) (n : ℕ)
      → (port.send s xs).0 ≡ some n
      → (n ≤ length xs) × (sent (port.send s xs).1 ≡ sent s ++ take n xs)
  pub send_none :
      (s : S) (xs : List ℕ) → (port.send s xs).0 ≡ none → sent (port.send s xs).1 ≡ sent s
  pub recv_some : (s : S) (n : ℕ) (xs : List ℕ) → (port.recv s n).0 ≡ some xs → length xs ≤ n
  pub recv_sent : (s : S) (n : ℕ) → sent (port.recv s n).1 ≡ sent s
  pub connect_sent : (s : S) → sent (port.connect s).1 ≡ sent s
  pub connect_poll_sent : (s : S) → sent (port.connect_poll s).1 ≡ sent s
  pub hang_up_sent : (s : S) → sent (port.hang_up s) ≡ sent s
  pub random_sent : (s : S) (n : ℕ) → sent (port.random s n).1 ≡ sent s

-- The upgrade request and whole frames after it.
pub data Stream (request : List ℕ) : List ℕ → Type 0 where
  asked : Stream request request
  framed :
      (xs bytes : List ℕ) (opcode : ℕ) (payload mask : List ℕ)
      → Stream request xs
      → frame_write tx_cap opcode payload mask ≡ some bytes
      → Stream request (xs ++ bytes)

-- What the socket does not have yet.
abbrev pub owed : {S : Type 0} → Client S → List ℕ
owed c = drop c.tx_sent c.tx

drop-nil : (i : ℕ) → drop {A = ℕ} i [] ≡ []
drop-nil zero = refl
drop-nil (suc i) = refl

pub drop-drop : (i n : ℕ) (xs : List ℕ) → drop n (drop i xs) ≡ drop (i + n) xs
drop-drop zero n xs = ap (λ k. drop k xs) (omega arith)
drop-drop (suc i) n [] = drop-nil n ∙ sym (drop-nil (suc i + n))
drop-drop (suc i) n (x ∷ xs) =
    let e : suc (i + n) ≡ suc i + n = omega arith in drop-drop i n xs ∙ ap (λ k. drop k (x ∷ xs)) e

pub drop-all : (i : ℕ) (xs : List ℕ) → length xs ≤ i → drop i xs ≡ []
drop-all zero [] h = refl
drop-all zero (x ∷ xs) h = absurd (omega arith)
drop-all (suc i) [] h = refl
drop-all (suc i) (x ∷ xs) h = drop-all i xs (omega arith)

moved_by :
    (n i : ℕ) (xs before after : List ℕ)
    → after ≡ before ++ take n (drop i xs)
    → after ++ drop (i + n) xs ≡ before ++ drop i xs
moved_by n i xs before after e =
    ap (λ l. l ++ drop (i + n) xs) e
    ∙ append_assoc before (take n (drop i xs)) (drop (i + n) xs)
    ∙ ap (λ l. before ++ (take n (drop i xs) ++ l)) (sym (drop-drop i n xs))
    ∙ ap (λ l. before ++ l) (take-drop n (drop i xs))

module _ {S : Type 0} (port : Port S) (sent : S → List ℕ) (law : IsPort port sent) where
  -- What a flush leaves alone, and that it moves bytes from what is owed to what was sent.
  pub record Flushed (c c' : Client S) : Type 0 where
    pub same_state : c'.state ≡ c.state
    pub same_live : c'.live ≡ c.live
    pub same_rx : c'.rx ≡ c.rx
    pub same_pending : c'.pending_consume ≡ c.pending_consume
    pub same_failed : c'.failed ≡ c.failed
    pub sent_in : c'.tx_sent ≤ length c'.tx
    pub tx_fits : length c'.tx ≤ tx_cap
    pub moved : sent c'.net ++ owed c' ≡ sent c.net ++ owed c

  further :
      (c d e : Client S)
      → d.state ≡ c.state
      → d.live ≡ c.live
      → d.rx ≡ c.rx
      → d.pending_consume ≡ c.pending_consume
      → d.failed ≡ c.failed
      → sent d.net ++ owed d ≡ sent c.net ++ owed c
      → Flushed d e
      → Flushed c e
  further c d e h0 h1 h2 h3 h4 h5 f = ground arith

  flush_rounds-Flushed :
      (fuel : ℕ) (z c : Client S)
      → length c.tx - c.tx_sent < fuel
      → c.tx_sent ≤ length c.tx
      → length c.tx ≤ tx_cap
      → Flushed c (flushed port z (flush_rounds port fuel c)).1
  unfolding flush_rounds
  flush_rounds-Flushed zero z c h i k = absurd (omega arith)
  flush_rounds-Flushed (suc fuel) z c h i k =
      let none_owed = drop-all c.tx_sent c.tx in
      let r = port.send c.net (drop c.tx_sent c.tx) in
      elim (Bool-cases (ltb c.tx_sent (length c.tx))) [
        | inr e ↦ rw (flush_rounds, e) (ground (arith, none_owed))
        | inl e ↦ elim (Option-cases r.0) [
          | inl e1 ↦
              rw (flush_rounds, e)
                (rw e1 (ground (arith, law.send_none c.net (drop c.tx_sent c.tx) e1)))
          | inr (zero, e1) ↦
              rw (flush_rounds, e)
                (rw e1 (
                  ground (
                    arith,
                    append-nil (sent c.net),
                    law.send_some c.net (drop c.tx_sent c.tx) 0 e1,
                  )))
          | inr (suc n, e1) ↦
              let took = law.send_some c.net (drop c.tx_sent c.tx) (suc n) e1 in
              let more : c.tx_sent < length c.tx = ground (arith, e) in
              rw (flush_rounds, e)
                (rw e1 (
                  further c (record c { tx_sent = c.tx_sent + suc n; net = r.1 }) _ refl refl refl
                    refl refl (moved_by (suc n) c.tx_sent c.tx (sent c.net) (sent r.1) took.1)
                    (flush_rounds-Flushed fuel z
                      (record c { tx_sent = c.tx_sent + suc n; net = r.1 }) (omega arith)
                      (omega (arith, took, length-drop c.tx_sent c.tx)) k)))
        ]
      ]

  pub flush_tx-Flushed :
      (c : Client S)
      → c.tx_sent ≤ length c.tx
      → length c.tx ≤ tx_cap
      → Flushed c (flush_tx port c).1
  unfolding flush_tx
  flush_tx-Flushed c i k =
      flush_rounds-Flushed (suc (length c.tx - c.tx_sent)) c c (omega arith) i k
