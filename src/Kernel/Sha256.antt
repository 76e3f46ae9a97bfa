-- ===== src/Kernel/Sha256.antt =====
-- components/nev_kernel/src/nev_sha256.c: the digest of bytes that arrive in pieces.
pub mod Rounds
pub mod Reference
pub mod Absorb
pub mod Digest
mod Tests
use nev_os.Base.{
  ℕ, zero, suc, ◌+◌, ◌-◌, ◌*◌, ◌/◌, ◌%◌, ◌^◌, Option, none, some, List, [], ◌∷◌, ◌++◌, ltb, ◌==◌,
  if◌then◌else◌, length, get_or, take, drop, u8_mod, copy, min,
}
use nev_os.Kernel.Sha256.Rounds.{Words, compress}

pub record Sha : Type 0 where
  pub h : Words
  pub total_bytes : ℕ
  pub block : List ℕ
  pub block_len : ℕ

abbrev pub first_words : Words
first_words = record {
  a = 0x6a09e667;
  b = 0xbb67ae85;
  c = 0x3c6ef372;
  d = 0xa54ff53a;
  e = 0x510e527f;
  f = 0x9b05688c;
  g = 0x1f83d9ab;
  h = 0x5be0cd19;
}

-- The block keeps what was there.
abbrev pub init : List ℕ → Sha
init block = record { h = first_words; total_bytes = 0; block = block; block_len = 0 }

-- The bytes are in the block; a full block is compressed.
abbrev pub absorb : Sha → Sha
absorb s = if s.block_len == 64 then record s { h = compress s.h s.block; block_len = 0 } else s

-- One round of the loop takes `n` bytes.
abbrev pub fill : Sha → ℕ → List ℕ → Sha
fill s n bytes =
    absorb
      (record s { block = copy s.block s.block_len (take n bytes); block_len = s.block_len + n })

-- Every round takes at least one byte, so that there are no more rounds than bytes.
unfoldable pub update_loop : ℕ → Sha → List ℕ → Sha
update_loop zero s bytes = s
update_loop (suc fuel) s [] = s
update_loop (suc fuel) s (b ∷ bs) =
    let bytes = b ∷ bs in
    let n = min (length bytes) (64 - s.block_len) in
    update_loop fuel (fill s n bytes) (drop n bytes)

unfoldable pub update : Sha → List ℕ → Sha
update s bytes =
    update_loop (length bytes) (record s { total_bytes = (s.total_bytes + length bytes) % 2 ^ 64 })
      bytes

-- `none` where the fuel ran out before the block had 56 bytes.
unfoldable pub pad_loop : ℕ → Sha → Option Sha
pad_loop zero s = if s.block_len == 56 then some s else none
pad_loop (suc fuel) s = if s.block_len == 56 then some s else pad_loop fuel (update s (0 ∷ []))

-- The highest of n bytes first.
abbrev pub bytes_of : ℕ → ℕ → List ℕ
bytes_of zero v = []
bytes_of (suc n) v = v / 2 ^ (8 * n) % u8_mod ∷ bytes_of n v

abbrev pub digest_bytes : Words → List ℕ
digest_bytes w =
    bytes_of 4 w.a
    ++ bytes_of 4 w.b
    ++ bytes_of 4 w.c
    ++ bytes_of 4 w.d
    ++ bytes_of 4 w.e
    ++ bytes_of 4 w.f
    ++ bytes_of 4 w.g
    ++ bytes_of 4 w.h

-- The context after the length, and the digest that its words are.
abbrev pub output : Sha → List ℕ × Sha
output s = (digest_bytes s.h, s)

abbrev pub close : ℕ → Option Sha → Option (List ℕ × Sha)
close bits none = none
close bits (some s) = some (output (update s (bytes_of 8 bits)))

-- What is written to `out`, and the context that is left.
unfoldable pub final : Sha → Option (List ℕ × Sha)
final s = close (s.total_bytes * 8 % 2 ^ 64) (pad_loop 64 (update s (0x80 ∷ [])))

abbrev pub written : Option (List ℕ × Sha) → Option (List ℕ)
written none = none
written (some (out, s)) = some out

-- nev_sha256, in one piece.
unfoldable pub sha256 : List ℕ → List ℕ → Option (List ℕ)
sha256 block bytes = written (final (update (init block) bytes))
