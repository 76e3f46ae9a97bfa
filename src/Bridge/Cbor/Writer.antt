-- ===== src/Bridge/Cbor/Writer.antt =====
-- The writer of components/nev_bridge/src/nev_cbor.c.
use nev_os.Base.{
  copy, ℕ, zero, suc, ◌+◌, ◌-◌, ◌*◌, ◌/◌, ◌%◌, ◌^◌, Bool, true, false, List, [], Option, none, some,
  ltb, leb, if◌then◌else◌, length, set, take, u8_mod, ℤ, pos, negsuc,
}

pub record Writer : Type 0 where
  pub buf : List ℕ
  pub cap : ℕ
  pub len : ℕ
  pub overflow : Bool

-- What stands in the buffer.
abbrev pub written : Writer → List ℕ
written w = take w.len w.buf

abbrev pub mt_uint : ℕ
mt_uint = 0

abbrev pub mt_nint : ℕ
mt_nint = 1

abbrev pub mt_bytes : ℕ
mt_bytes = 2

abbrev pub mt_text : ℕ
mt_text = 3

abbrev pub mt_array : ℕ
mt_array = 4

abbrev pub mt_simple : ℕ
mt_simple = 7

-- `none` is a null buffer.
unfoldable pub w_init : Option (List ℕ) → ℕ → Writer
w_init none cap = record { buf = []; cap = cap; len = 0; overflow = true }
w_init (some buf) cap = record { buf = buf; cap = cap; len = 0; overflow = false }

unfoldable pub put : Writer → ℕ → Writer
put w byte =
    if w.overflow
    then w
    else if leb w.cap w.len
    then record w { overflow = true }
    else record w { buf = set w.buf w.len byte; len = w.len + 1 }

unfoldable pub put_n : Writer → List ℕ → Writer
put_n w bytes =
    if w.overflow
    then w
    else if ltb (w.cap - w.len) (length bytes)
    then record w { overflow = true }
    else record w { buf = copy w.buf w.len bytes; len = w.len + length bytes }

-- The loop over (uint8_t)(v >> (i * 8)), from i = n - 1 down to 0.
unfoldable pub put_be : Writer → ℕ → ℕ → Writer
put_be w v zero = w
put_be w v (suc i) = put_be (put w (v / 2 ^ (i * 8) % u8_mod)) v i

unfoldable pub put_head : Writer → ℕ → ℕ → Writer
put_head w major v =
    let m : ℕ = major * 2 ^ 5 % u8_mod in
    if ltb v 24
    then put w (m + v)
    else if leb v 0xFF
    then put (put w (m + 24)) (v % u8_mod)
    else if leb v 0xFFFF
    then put (put (put w (m + 25)) (v / 2 ^ 8 % u8_mod)) (v % u8_mod)
    else if leb v 0xFFFFFFFF
    then put_be (put w (m + 26)) v 4
    else put_be (put w (m + 27)) v 8

abbrev pub w_u64 : Writer → ℕ → Writer
w_u64 w v = put_head w mt_uint v

-- -(v + 1) of the negative v = -1 - n is n.
unfoldable pub w_i64 : Writer → ℤ → Writer
w_i64 w (pos n) = put_head w mt_uint n
w_i64 w (negsuc n) = put_head w mt_nint n

abbrev pub w_bool : Writer → Bool → Writer
w_bool w v = put w (mt_simple * 2 ^ 5 + (if v then 21 else 20))

abbrev pub w_f32 : Writer → ℕ → Writer
w_f32 w bits = put_be (put w (mt_simple * 2 ^ 5 + 26)) bits 4

abbrev pub w_bytes : Writer → List ℕ → Writer
w_bytes w bytes = put_n (put_head w mt_bytes (length bytes)) bytes

-- `none` is a null string.
unfoldable pub w_text : Writer → Option (List ℕ) → Writer
w_text w none = put_n (put_head w mt_text 0) []
w_text w (some s) = put_n (put_head w mt_text (length s)) s

abbrev pub w_array : Writer → ℕ → Writer
w_array w count = put_head w mt_array count
