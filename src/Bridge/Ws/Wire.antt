-- ===== src/Bridge/Ws/Wire.antt =====
-- Frames on the wire, after RFC 6455: what the client writes, and exactly what it accepts.
use nev_os.Base.{
  ℕ, zero, suc, ◌+◌, ◌*◌, ◌/◌, ◌%◌, ◌^◌, ◌≤◌, ◌<◌, ◌≡◌, refl, sym, ap, ◌∙◌, List, [], ◌∷◌, ◌++◌,
  ltb, leb, if◌then◌else◌, if_then, if_else, length, get_or, take, u8_mod, arith, length-take,
  length-append, bit_and-low_seven, bit_and-high, bit_and-nibble, bit_and-high_nibble,
}
use native.Mathlib.Decide.{dec_le}
use nev_os.Bridge.Ws.Frame.{rx_cap, Parsed, frame, need_more, body, read_length, frame_read}

-- A length that is at most 0xFFFF, in its shortest form.
abbrev pub short_length : ℕ → List ℕ
short_length n = if leb n 125 then n ∷ [] else 126 ∷ n / 2 ^ 8 % u8_mod ∷ n % u8_mod ∷ []

-- A server's frame: the last of its message, with no mask.
abbrev pub server_frame : ℕ → List ℕ → List ℕ
server_frame opcode payload = (128 + opcode) ∷ (short_length (length payload) ++ payload)

abbrev pub payload_at : ℕ → ℕ
payload_at n = if leb n 125 then 2 else 4

frame_read-head :
    (op b1 : ℕ) (q : List ℕ)
    → op < 16
    → b1 < 128
    → frame_read ((128 + op) ∷ b1 ∷ q) ≡ read_length op b1 ((128 + op) ∷ b1 ∷ q)
unfolding frame_read
frame_read-head op b1 q h k =
    let n = bit_and-nibble (128 + op) (omega arith) in
    ground
      (arith, n, bit_and-high b1 (omega arith), bit_and-high_nibble op h, bit_and-low_seven b1 k)

-- The answer for a payload of `n` bytes at index `at`, of which `k` bytes have arrived.
abbrev pub answer : ℕ → ℕ → ℕ → ℕ → Parsed
answer op at n k = if ltb k (at + n) then need_more else frame op at n (at + n)

read_length-short :
    (op n : ℕ) (buf : List ℕ) → n ≤ 125 → read_length op n buf ≡ answer op 2 n (length buf)
unfolding read_length
read_length-short op n buf h = ground arith

read_length-long :
    (op n : ℕ) (buf : List ℕ)
    → 125 < n
    → n ≤ rx_cap
    → 4 ≤ length buf
    → get_or buf 2 0 ≡ n / 2 ^ 8 % u8_mod
    → get_or buf 3 0 ≡ n % u8_mod
    → read_length op 126 buf ≡ answer op 4 n (length buf)
unfolding read_length
read_length-long op n buf h k l e f =
    let two : get_or buf 2 0 * 2 ^ 8 + get_or buf 3 0 ≡ n = omega (arith, e, f) in
    if_else (ltb (length buf) 4) _ _ (ground arith)
    ∙ if_else (leb (get_or buf 2 0 * 2 ^ 8 + get_or buf 3 0) 125) _ _ (ground (arith, two))
    ∙ ap (λ m. body op 4 m buf) two
    ∙ if_else (ltb rx_cap n) _ _ (ground arith)

stream-short :
    (op : ℕ) (payload rest : List ℕ) (k : ℕ)
    → op < 16
    → length payload ≤ 125
    → k ≤ 2 + length payload + length rest
    → frame_read (take k ((128 + op) ∷ length payload ∷ (payload ++ rest)))
      ≡ answer op 2 (length payload) k
unfolding frame_read
stream-short op payload rest zero h small room =
    sym (if_then (ltb 0 (2 + length payload)) _ _ (ground arith))
stream-short op payload rest (suc zero) h small room =
    sym (if_then (ltb 1 (2 + length payload)) _ _ (ground arith))
stream-short op payload rest (suc (suc k)) h small room =
    let n = length payload in
    let q = take k (payload ++ rest) in
    let len : length q ≡ k =
      omega (arith, length-take k (payload ++ rest), length-append payload rest) in
    frame_read-head op n q h (omega arith)
    ∙ read_length-short op n ((128 + op) ∷ n ∷ q) small
    ∙ ap (answer op 2 n) (omega (arith, len))

stream-long :
    (op : ℕ) (payload rest : List ℕ) (k : ℕ)
    → op < 16
    → 125 < length payload
    → length payload ≤ rx_cap
    → k ≤ 4 + length payload + length rest
    → frame_read (
        take k (
          (128 + op)
          ∷ 126
          ∷ length payload / 2 ^ 8 % u8_mod
          ∷ length payload % u8_mod
          ∷ (payload ++ rest)))
      ≡ answer op 4 (length payload) k
unfolding frame_read read_length
stream-long op payload rest zero h large small room =
    sym (if_then (ltb 0 (4 + length payload)) _ _ (ground arith))
stream-long op payload rest (suc zero) h large small room =
    sym (if_then (ltb 1 (4 + length payload)) _ _ (ground arith))
stream-long op payload rest (suc (suc zero)) h large small room =
    frame_read-head op 126 [] h (omega arith)
    ∙ sym (if_then (ltb 2 (4 + length payload)) _ _ (ground arith))
stream-long op payload rest (suc (suc (suc zero))) h large small room =
    frame_read-head op 126 (length payload / 2 ^ 8 % u8_mod ∷ []) h (omega arith)
    ∙ sym (if_then (ltb 3 (4 + length payload)) _ _ (ground arith))
stream-long op payload rest (suc (suc (suc (suc k)))) h large small room =
    let n = length payload in
    let q = take k (payload ++ rest) in
    let len : length q ≡ k =
      omega (arith, length-take k (payload ++ rest), length-append payload rest) in
    let r = n / 2 ^ 8 % u8_mod ∷ n % u8_mod ∷ q in
    frame_read-head op 126 r h (omega arith)
    ∙ read_length-long op n ((128 + op) ∷ 126 ∷ r) large small (omega arith) refl refl
    ∙ ap (answer op 4 n) (omega (arith, len))

-- The first `k` bytes of a frame and what follows it are answered with need_more until the frame is
-- whole, and from there with its opcode, where its payload stands and how long both are. Condition:
-- the opcode has four bits, and the payload is at most rx_cap bytes long.
pub frame_read-stream :
    (op : ℕ) (payload rest : List ℕ) (k : ℕ)
    → op < 16
    → length payload ≤ rx_cap
    → k ≤ length (server_frame op payload) + length rest
    → frame_read (take k (server_frame op payload ++ rest))
      ≡ answer op (payload_at (length payload)) (length payload) k
frame_read-stream op payload rest k h small room =
    let n = length payload in
    let total = length-append (short_length n) payload in
    elim (dec_le n 125) [
      | yes short ↦
          let len : short_length n ≡ n ∷ [] =
            if_then (leb n 125) (n ∷ []) (126 ∷ n / 2 ^ 8 % u8_mod ∷ n % u8_mod ∷ [])
              (ground arith) in
          let at : payload_at n ≡ 2 = if_then (leb n 125) 2 4 (ground arith) in
          ap (λ l. frame_read (take k ((128 + op) ∷ (l ++ payload) ++ rest))) len
          ∙ stream-short op payload rest k h short (omega (arith, room, total, ap length len))
          ∙ ap (λ m. answer op m n k) (sym at)
      | no long ↦
          let len : short_length n ≡ 126 ∷ n / 2 ^ 8 % u8_mod ∷ n % u8_mod ∷ [] =
            if_else (leb n 125) (n ∷ []) (126 ∷ n / 2 ^ 8 % u8_mod ∷ n % u8_mod ∷ [])
              (ground arith) in
          let at : payload_at n ≡ 4 = if_else (leb n 125) 2 4 (ground arith) in
          ap (λ l. frame_read (take k ((128 + op) ∷ (l ++ payload) ++ rest))) len
          ∙ stream-long op payload rest k h (omega arith) small
              (omega (arith, room, total, ap length len))
          ∙ ap (λ m. answer op m n k) (sym at)
    ]
