-- ===== src/Base/Count.antt =====
-- How often a number stands in a list, and the pigeonhole principle for lists of small numbers.
use Prim.Native.Nat.{ℕ, zero, suc, ◌+◌, ◌≤◌, ◌<◌}
use mathlib.Core.Path.{◌≡◌, refl, subst}
use native.Mathlib.Decide.{ℕ_discrete}
use mathlib.Core.List.{List, [], ◌∷◌, ◌++◌}
use native.Mathlib.Omega.{arith}
use nev_os.Base.Tests.{◌==◌, if◌then◌else◌}
use nev_os.Base.Lists.{length, All}

abbrev pub one_if_eq : ℕ → ℕ → ℕ
one_if_eq a b = if a == b then 1 else 0

module _ (item : ℕ) where
  abbrev pub count : List ℕ → ℕ
  count [] = 0
  count (head ∷ rest) = one_if_eq head item + count rest

  pub count-append : (front back : List ℕ) → count (front ++ back) ≡ count front + count back
  count-append [] back = omega arith
  count-append (head ∷ rest) back = omega (arith, count-append rest back)

-- f 0 + … + f (n - 1)
abbrev pub sum_below : ℕ → (ℕ → ℕ) → ℕ
sum_below zero f = 0
sum_below (suc n) f = f n + sum_below n f

sum_below-add : (n : ℕ) (f g : ℕ → ℕ) → sum_below n (λ i. f i + g i) ≡ sum_below n f + sum_below n g
sum_below-add zero f g = refl
sum_below-add (suc n) f g = omega (arith, sum_below-add n f g)

sum_below-one_if_eq_out : (n a : ℕ) → n ≤ a → sum_below n (λ i. one_if_eq a i) ≡ 0
sum_below-one_if_eq_out zero a h = refl
sum_below-one_if_eq_out (suc n) a h = ground (arith, sum_below-one_if_eq_out n a (omega arith))

sum_below-one_if_eq : (n a : ℕ) → a < n → sum_below n (λ i. one_if_eq a i) ≡ 1
sum_below-one_if_eq zero a h = absurd (omega arith)
sum_below-one_if_eq (suc n) a h =
    ground (arith, sum_below-one_if_eq n a, sum_below-one_if_eq_out n a)

sum_below-zero : (n : ℕ) → sum_below n (λ i. 0) ≡ 0
sum_below-zero zero = refl
sum_below-zero (suc n) = omega (arith, sum_below-zero n)

-- Counting by value is counting by place.
pub length-sum-count :
    (n : ℕ) (xs : List ℕ) → All (λ x. x < n) xs → length xs ≡ sum_below n (λ i. count i xs)
length-sum-count n [] h = omega (arith, sum_below-zero n)
length-sum-count n (x ∷ xs) h = omega (
  arith,
  sum_below-add n (λ i. one_if_eq x i) (λ i. count i xs),
  sum_below-one_if_eq n x h.0,
  length-sum-count n xs h.1,
)

pub sum_below-ext :
    (n : ℕ) (f g : ℕ → ℕ) → ((i : ℕ) → i < n → f i ≡ g i) → sum_below n f ≡ sum_below n g
sum_below-ext zero f g h = refl
sum_below-ext (suc n) f g h =
    omega (arith, h n (omega arith), sum_below-ext n f g (λ i lt. h i (omega arith)))

-- Each f i is at most 1, and one of them is 0: the sum is short of n.
sum_below-le : (n : ℕ) (f : ℕ → ℕ) → ((i : ℕ) → i < n → f i ≤ 1) → sum_below n f ≤ n
sum_below-le zero f h = omega arith
sum_below-le (suc n) f h =
    omega (arith, h n (omega arith), sum_below-le n f (λ i lt. h i (omega arith)))

pub sum_below-lt :
    (n : ℕ) (f : ℕ → ℕ) (j : ℕ) → ((i : ℕ) → i < n → f i ≤ 1) → j < n → f j ≡ 0 → sum_below n f < n
sum_below-lt zero f j h lt e = absurd (omega arith)
sum_below-lt (suc n) f j h lt e = elim (ℕ_discrete j n) [
  | yes p ↦ omega (arith, subst (λ k. f k ≡ 0) p e, sum_below-le n f (λ i lt. h i (omega arith)))
  | no p ↦
      omega
        (arith, h n (omega arith), sum_below-lt n f j (λ i lt. h i (omega arith)) (omega arith) e)
]
