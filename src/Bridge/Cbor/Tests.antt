-- ===== src/Bridge/Cbor/Tests.antt =====
-- A writer with a byte in its buffer, and values written behind it.
use nev_os.Base.{◌≡◌, refl, arith, [], ◌∷◌, false, replicate, negsuc}
use nev_os.Bridge.Cbor.Writer.{Writer, written, put, put_head, w_i64}
use nev_os.Bridge.Cbor.Reader.{r_skip, head_arg, read_head, skip_elements, skip_element}
use nev_os.Bridge.Cbor.Written.{IsWriter}
use nev_os.Bridge.Cbor.Numbers.{reader_at}

abbrev writer : Writer
writer = record { buf = 0xF5 ∷ replicate 31 0; cap = 32; len = 1; overflow = false }

writer-IsWriter : IsWriter writer
writer-IsWriter = record { sound = refl; storage = omega arith }

-- -300 is 0x39 0x01 0x2B.
golden : written (w_i64 writer (negsuc 299)) ≡ 0xF5 ∷ 0x39 ∷ 0x01 ∷ 0x2B ∷ []
unfolding w_i64 put_head put
golden = refl

-- An array that holds an array is refused.
nested : (r_skip (reader_at (0x81 ∷ 0x80 ∷ []) 0)).1 ≡ false
unfolding r_skip read_head head_arg skip_elements skip_element
nested = refl
