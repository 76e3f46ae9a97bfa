-- ===== src/Bridge/Ws/Frame.antt =====
-- The frame codec of components/nev_bridge/src/nev_ws.c. What is written is the bytes from the start
-- of the output.
use Prim.Native.Nat.{bit_and, bit_or, bit_xor}
use nev_os.Base.{
  ℕ, zero, suc, ◌+◌, ◌*◌, ◌/◌, ◌%◌, ◌^◌, not, Option, none, some, List, [], ◌∷◌, ◌++◌, ltb, leb,
  ◌==◌, if◌then◌else◌, length, get_or, take, u8_mod,
}

abbrev pub rx_cap : ℕ
rx_cap = 2048

abbrev pub tx_cap : ℕ
tx_cap = 4352

abbrev pub op_text : ℕ
op_text = 1

abbrev pub op_bin : ℕ
op_bin = 2

abbrev pub op_close : ℕ
op_close = 8

abbrev pub op_ping : ℕ
op_ping = 9

abbrev pub op_pong : ℕ
op_pong = 10

-- Two bytes, the mask, and what the length takes beyond them.
abbrev pub header_size : ℕ → ℕ
header_size len = if leb len 125 then 6 else if leb len 0xFFFF then 8 else 14

-- The `n` low bytes, the highest first.
abbrev pub length_bytes : ℕ → ℕ → List ℕ
length_bytes zero len = []
length_bytes (suc n) len = len / 2 ^ (8 * n) % u8_mod ∷ length_bytes n len

abbrev pub length_field : ℕ → List ℕ
length_field len =
    if leb len 125
    then bit_or 0x80 len ∷ []
    else if leb len 0xFFFF
    then bit_or 0x80 126 ∷ len / 2 ^ 8 % u8_mod ∷ len % u8_mod ∷ []
    else bit_or 0x80 127 ∷ length_bytes 8 len

-- The payload from byte `i` on.
abbrev pub masked : ℕ → List ℕ → List ℕ → List ℕ
masked i mask [] = []
masked i mask (p ∷ ps) = bit_xor p (get_or mask (i % 4) 0) ∷ masked (i + 1) mask ps

-- `none` is the answer 0: the frame does not fit.
unfoldable pub frame_write : ℕ → ℕ → List ℕ → List ℕ → Option (List ℕ)
frame_write out_cap opcode payload mask =
    if ltb out_cap (header_size (length payload) + length payload)
    then none
    else some (
        bit_or 0x80 (bit_and opcode 0x0F)
        ∷ (length_field (length payload) ++ (take 4 mask ++ masked 0 mask payload)))

-- The opcode, where the payload stands and how long it is, and the length of the whole.
pub data Parsed : Type 0 where
  frame : ℕ → ℕ → ℕ → ℕ → Parsed
  need_more malformed : Parsed

abbrev pub body : ℕ → ℕ → ℕ → List ℕ → Parsed
body opcode at plen buf =
    if ltb rx_cap plen
    then malformed
    else if ltb (length buf) (at + plen)
    then need_more
    else frame opcode at plen (at + plen)

-- The `n` bytes from index `i`, the highest first, behind `acc`.
abbrev pub read_bytes : ℕ → ℕ → List ℕ → ℕ → ℕ
read_bytes zero i buf acc = acc
read_bytes (suc n) i buf acc = read_bytes n (i + 1) buf (acc * 2 ^ 8 % 2 ^ 64 + get_or buf i 0)

-- After the first two bytes.
unfoldable pub read_length : ℕ → ℕ → List ℕ → Parsed
read_length opcode short buf =
    let two = get_or buf 2 0 * 2 ^ 8 + get_or buf 3 0 in
    let eight = read_bytes 8 2 buf 0 in
    if short == 126
    then (if ltb (length buf) 4
        then need_more
        else if leb two 125
        then malformed
        else body opcode 4 two buf)
    else if short == 127
    then (if ltb (length buf) 10
        then need_more
        else if leb eight 0xFFFF
        then malformed
        else if ltb rx_cap eight
        then malformed
        else body opcode 10 eight buf)
    else body opcode 2 short buf

unfoldable pub frame_read : List ℕ → Parsed
frame_read buf =
    let b0 = get_or buf 0 0 in
    let b1 = get_or buf 1 0 in
    if ltb (length buf) 2
    then need_more
    else if not (bit_and b0 0x70 == 0)
    then malformed
    else if bit_and b0 0x80 == 0
    then malformed
    else if not (bit_and b1 0x80 == 0)
    then malformed
    else read_length (bit_and b0 0x0F) (bit_and b1 0x7F) buf
