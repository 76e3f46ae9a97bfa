-- ===== src/Bridge/Mdns/Tests.antt =====
-- A reply of a daemon, and a name that points at itself.
use nev_os.Base.{◌≢◌, ℕ, ◌+◌, ◌<◌, ◌≤◌, ◌≡◌, refl, none, some, List, [], ◌∷◌, ◌++◌, length, arith}
use nev_os.Bridge.Mdns.{read_name, name_rounds, turn, known, endless, outside}
use nev_os.Bridge.Mdns.Parse.{
  Found, parse, records, one_record, on_record, on_ptr, on_srv, on_a, conclude, skip_question,
  skip_questions, be16,
}
use nev_os.Bridge.Mdns.Names.{read_name_safe}
use nev_os.Bridge.Mdns.Answers.{IsDaemon}
use nev_os.Bridge.Mdns.Replies.{parse-IsDaemon}

-- A pointer to the byte before it, which is a label of one byte: it leads back to itself.
abbrev looping : List ℕ
looping = 1 ∷ 97 ∷ 0xC0 ∷ 0 ∷ []

looping-read : read_name looping 0 128 ≡ none
unfolding read_name name_rounds turn
looping-read = refl

read_name_safe_example :
    ((extra : ℕ)
      → let r = name_rounds (128 + 9 + extra) looping 128 0 0 0 [] in
        (r ≢ endless) × (r ≢ outside) × (read_name looping 0 128 ≡ known r))
    × ((past : ℕ) (name : List ℕ)
        → read_name looping 0 128 ≡ some (past, name)
        → (0 < past) × (past ≤ 4) × (length name < 128))
read_name_safe_example = read_name_safe looping 128 0 (omega arith)

-- "a._nevos._tcp.local", labels first.
abbrev instance_wire : List ℕ
instance_wire =
    1 ∷ 97 ∷ 6 ∷ 95 ∷ 110 ∷ 101 ∷ 118 ∷ 111 ∷ 115 ∷ 4 ∷ 95 ∷ 116 ∷ 99 ∷ 112 ∷ 5 ∷ 108 ∷ 111 ∷ 99
    ∷ 97 ∷ 108 ∷ 0 ∷ []

-- Two answers: SRV at port 4821 with the target "h", and A of "h".
abbrev reply : List ℕ
reply =
    0
    ∷ 0
    ∷ 0x84
    ∷ 0
    ∷ 0
    ∷ 0
    ∷ 0
    ∷ 2
    ∷ 0
    ∷ 0
    ∷ 0
    ∷ 0
    ∷ (instance_wire
        ++ (0 ∷ 33 ∷ 0 ∷ 1 ∷ 0 ∷ 0 ∷ 0 ∷ 9 ∷ 0 ∷ 9 ∷ 0 ∷ 0 ∷ 0 ∷ 0 ∷ 18 ∷ 213 ∷ 1 ∷ 104 ∷ 0 ∷ [])
        ++ (1 ∷ 104 ∷ 0 ∷ 0 ∷ 1 ∷ 0 ∷ 1 ∷ 0 ∷ 0 ∷ 0 ∷ 9 ∷ 0 ∷ 4 ∷ 192 ∷ 168 ∷ 1 ∷ 5 ∷ []))

abbrev daemon : Found
daemon = record { ipv4 = 3232235781; port = 4821; name = 97 ∷ [] }

reply-parse : parse reply ≡ some daemon
unfolding parse records one_record on_record on_ptr on_srv on_a conclude skip_question
    skip_questions read_name name_rounds turn
reply-parse = refl

parse-IsDaemon_example :
    (from : ℕ) × (skip_questions (be16 reply 4) reply 12 ≡ some from)
    × IsDaemon reply from (be16 reply 6 + be16 reply 8 + be16 reply 10) daemon
parse-IsDaemon_example = parse-IsDaemon reply (ground arith) daemon reply-parse
