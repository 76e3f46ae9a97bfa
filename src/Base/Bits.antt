-- ===== src/Base/Bits.antt =====
-- Facts about the bits of a byte, checked for every byte.
use Prim.Native.Nat.{ℕ, zero, suc, ◌+◌, ◌<◌, bit_and, bit_or, bit_xor}
use mathlib.Core.Path.{◌≡◌, refl}
use mathlib.Core.Bool.{Bool, true, false, ◌&&◌, not}
use native.Mathlib.Omega.{arith}
use nev_os.Base.Tests.{ltb, leb, ◌==◌, ==→eq, if◌then◌else◌}

abbrev every : ℕ → (ℕ → Bool) → Bool
every zero p = true
every (suc n) p = p n && every n p

every_lem : (n : ℕ) (p : ℕ → Bool) (x : ℕ) → every n p ≡ true → x < n → p x ≡ true
every_lem zero p x h lt = absurd (omega arith)
every_lem (suc n) p x h lt = ground (arith, every_lem n p x)

abbrev agree : Bool → Bool → Bool
agree a b = if a then b else not b

agree_lem : (a b : Bool) → agree a b ≡ true → a ≡ b
agree_lem true b h = ground (arith, h)
agree_lem false b h = ground (arith, h)

module _ (n : ℕ) (f g : ℕ → ℕ) where
  every_eq : every n (λ x. f x == g x) ≡ true → (x : ℕ) → x < n → f x ≡ g x
  every_eq table x h = ==→eq (f x) (g x) (every_lem n (λ y. f y == g y) x table h)

module _ (n : ℕ) (p q : ℕ → Bool) where
  every_iff : every n (λ x. agree (p x) (q x)) ≡ true → (x : ℕ) → x < n → p x ≡ q x
  every_iff table x h = agree_lem (p x) (q x) (every_lem n (λ y. agree (p y) (q y)) x table h)

pub bit_or-high : (x : ℕ) → x < 128 → bit_or 0x80 x ≡ 128 + x
bit_or-high = every_eq 128 (λ x. bit_or 0x80 x) (λ x. 128 + x) refl

pub bit_and-low_four : (x : ℕ) → x < 16 → bit_and x 0x0F ≡ x
bit_and-low_four = every_eq 16 (λ x. bit_and x 0x0F) (λ x. x) refl

pub bit_and-low_seven : (x : ℕ) → x < 128 → bit_and x 0x7F ≡ x
bit_and-low_seven = every_eq 128 (λ x. bit_and x 0x7F) (λ x. x) refl

pub bit_and-high : (x : ℕ) → x < 256 → (bit_and x 0x80 == 0) ≡ ltb x 128
bit_and-high = every_iff 256 (λ x. bit_and x 0x80 == 0) (λ x. ltb x 128) refl

-- The highest bit and none of the three below it.
pub bit_and-nibble :
    (x : ℕ)
    → x < 256
    → (bit_and x 0x70 == 0 && not (bit_and x 0x80 == 0)) ≡ (leb 128 x && ltb x 144)
bit_and-nibble =
    every_iff 256 (λ x. bit_and x 0x70 == 0 && not (bit_and x 0x80 == 0))
      (λ x. leb 128 x && ltb x 144) refl

pub bit_and-high_nibble : (x : ℕ) → x < 16 → bit_and (128 + x) 0x0F ≡ x
bit_and-high_nibble = every_eq 16 (λ x. bit_and (128 + x) 0x0F) (λ x. x) refl

xor_table : every 256 (λ m. every 256 (λ x. bit_xor (bit_xor x m) m == x)) ≡ true
xor_table = refl

-- A mask that is applied twice is gone.
pub bit_xor-twice : (x m : ℕ) → x < 256 → m < 256 → bit_xor (bit_xor x m) m ≡ x
bit_xor-twice x m hx hm =
    every_eq 256 (λ y. bit_xor (bit_xor y m) m) (λ y. y)
      (every_lem 256 (λ k. every 256 (λ y. bit_xor (bit_xor y k) k == y)) m xor_table hm) x hx
