-- ===== src/Base/Words.antt =====
-- Machine words: natural numbers whose wrap-around is written out.
use Prim.Native.Nat.{ℕ, ◌+◌, ◌-◌, ◌%◌, ◌^◌, ◌<◌}
use mathlib.Core.Path.{◌≡◌}
use native.Mathlib.Omega.{arith}

abbrev pub u8_mod : ℕ
u8_mod = 2 ^ 8

abbrev pub u16_mod : ℕ
u16_mod = 2 ^ 16

abbrev pub u32_mod : ℕ
u32_mod = 2 ^ 32

-- `uint32_t` subtraction wraps; `-` on ℕ stops at 0, so the modulus is added first.
abbrev pub sub32 : ℕ → ℕ → ℕ
sub32 a b = (a + u32_mod - b) % u32_mod

abbrev pub add32 : ℕ → ℕ → ℕ
add32 a b = (a + b) % u32_mod

-- Stamps that are `d` apart differ by `d` under the 32-bit clock, wrapped or not.
pub sub32-add32 : (a d : ℕ) → a < u32_mod → d < u32_mod → sub32 (add32 a d) a ≡ d
sub32-add32 a d ha hd = omega arith
