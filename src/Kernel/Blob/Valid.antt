-- ===== src/Kernel/Blob/Valid.antt =====
-- The invariant of a size class: the free part of its stack holds exactly the indices of the blocks
-- with no reference, each once.
pub mod Steps
use nev_os.Base.{
  ℕ, zero, suc, ◌+◌, ◌-◌, ◌≤◌, ◌<◌, ◌≡◌, refl, List, [], ◌∷◌, ◌++◌, All, arith, length, take,
  get_or, count, length-take, length-sum-count, sum_below-lt, sum_below-ext, sum_below, ◌==◌,
  if◌then◌else◌, min, Bool, ◌≢◌, ◌^◌,
}
use nev_os.Kernel.Blob.Block.{Class, desc_at}

abbrev pub free_part : Class → List ℕ
free_part cl = take cl.free_count cl.free_list

abbrev pub refs_at : Class → ℕ → ℕ
refs_at cl i = (desc_at cl i).refs

abbrev pub is_zero : ℕ → ℕ
is_zero n = if n == 0 then 1 else 0

-- `most` bounds the reference counts, so that none wraps.
pub record IsValid (most : ℕ) (cl : Class) : Type 0 where
  pub stack_len : length cl.free_list ≡ cl.capacity
  pub desc_len : length cl.desc ≡ cl.capacity
  pub small : cl.capacity ≤ 2 ^ 12
  pub top_in : cl.free_count ≤ cl.capacity
  pub in_range : All (λ i. i < cl.capacity) (free_part cl)
  pub free_once : (i : ℕ) → i < cl.capacity → count i (free_part cl) ≡ is_zero (refs_at cl i)
  pub bounded : (i : ℕ) → refs_at cl i ≤ most

is_zero-le : (n : ℕ) → is_zero n ≤ 1
is_zero-le n = ground arith

-- The free stack has as many entries as there are blocks with no reference.
pub free_count-sum :
    {m : ℕ} (cl : Class)
    → IsValid m cl
    → cl.free_count ≡ sum_below cl.capacity (λ i. is_zero (refs_at cl i))
free_count-sum cl v = omega (
  arith,
  length-take cl.free_count cl.free_list,
  length-sum-count cl.capacity (free_part cl) v.in_range,
  sum_below-ext cl.capacity (λ i. count i (free_part cl)) (λ i. is_zero (refs_at cl i)) v.free_once,
  v.stack_len,
  v.top_in,
)

-- A block with a reference leaves room on the free stack.
pub room :
    {m : ℕ} (cl : Class) (i : ℕ)
    → IsValid m cl
    → i < cl.capacity
    → refs_at cl i ≢ 0
    → cl.free_count < cl.capacity
room cl i v lt ne = omega (
  arith,
  free_count-sum cl v,
  sum_below-lt cl.capacity (λ i. is_zero (refs_at cl i)) i (λ j _. is_zero-le (refs_at cl j)) lt
      none_free,
)
  where
    none_free : is_zero (refs_at cl i) ≡ 0
    none_free = ground arith
