-- ===== src/Bridge/Proto/Tests.antt =====
-- A pairing message, one with a field appended, and its frame.
use nev_os.Base.{
  ◌≡◌, refl, arith, [], ◌∷◌, ◌++◌, replicate, ℕ, ◌<◌, ◌≤◌, List, length, ltb, if◌then◌else◌, take,
}
use nev_os.Bridge.Proto.{text, u32, Schema, ok, no_space, encode, decode}
use nev_os.Bridge.Proto.Messages.{pair}
use nev_os.Bridge.Proto.Frame.{frame, timeout, frame_wrap, frame_split}
use nev_os.Bridge.Proto.Peers.{round_trip, newer_peer}
use nev_os.Bridge.Proto.Payload.{AllInRange, payload, IsSchema, encode_exact}
use nev_os.Bridge.Proto.Decoded.{Delivers, decode-AllInRange}
use nev_os.Bridge.Proto.Stream.{frame_stream}

abbrev code : List ℕ
code = 49 ∷ 50 ∷ []

abbrev pair_bytes : List ℕ
pair_bytes = 0x82 ∷ 3 ∷ 0x62 ∷ 49 ∷ 50 ∷ []

pair-payload : payload pair (code, tt) ≡ pair_bytes
pair-payload = refl

encode_exact_example :
    (length (payload pair (code, tt)) ≤ 8
      → encode pair (code, tt) (replicate 8 0) 8 ≡ ok (payload pair (code, tt)))
    × (8 < length (payload pair (code, tt)) → encode pair (code, tt) (replicate 8 0) 8 ≡ no_space)
encode_exact_example =
    encode_exact pair (code, tt) (replicate 8 0) 8 ((omega arith, omega arith), tt) (omega arith)

fits : encode pair (code, tt) (replicate 8 0) 8 ≡ ok pair_bytes
fits = encode_exact_example.0 (omega arith)

pair-IsSchema : IsSchema pair
pair-IsSchema = record { id_in = omega arith; few = omega arith }

round_trip_example : decode pair pair_bytes ≡ ok (code, tt)
round_trip_example =
    round_trip pair (code, tt) (replicate 8 0) 8 pair_bytes pair-IsSchema
      ((omega arith, omega arith), tt) (omega arith) fits

abbrev grown : Schema
grown = record { id = 3; fields = text 13 ∷ u32 ∷ [] }

grown-IsSchema : IsSchema grown
grown-IsSchema = record { id_in = omega arith; few = omega arith }

newer_peer_example : decode pair (payload grown (code, (70000, tt))) ≡ ok (code, tt)
newer_peer_example =
    newer_peer 3 (text 13 ∷ []) (u32 ∷ []) (code, tt) (70000, tt) grown-IsSchema
      ((omega arith, omega arith), tt) (omega arith, tt)

frame_stream_example :
    (buf' : List ℕ) × (frame_wrap code (replicate 8 0) 8 ≡ frame (buf', 6))
    × (length buf' ≡ 8)
    × (frame_split (take 5 (take 6 buf' ++ 7 ∷ []))
        ≡ (if ltb 5 6 then timeout else frame (code, 6)))
frame_stream_example =
    frame_stream code (replicate 8 0) (7 ∷ []) 8 5 (omega arith) (omega arith) (omega arith)
      (omega arith)

decode-AllInRange_example : Delivers (AllInRange pair.fields) (decode pair pair_bytes)
decode-AllInRange_example = decode-AllInRange pair pair_bytes (omega arith, tt) (ground arith)
