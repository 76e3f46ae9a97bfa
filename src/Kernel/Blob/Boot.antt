-- ===== src/Kernel/Blob/Boot.antt =====
-- What nev_blob_pool_init sets up.
use nev_os.Base.{
  ℕ, zero, suc, ◌≤◌, ◌<◌, ◌≡◌, refl, Bool, true, false, [], ◌∷◌, All, arith, length, get_or, take,
  count, replicate, length-replicate, ap, ◌^◌,
}
use nev_os.Kernel.Blob.{Pool, init, init_ok, refcount, class_at, block_sizes, block_counts}
use nev_os.Kernel.Blob.Block.{desc_zero, free_from, class_init}
use nev_os.Kernel.Blob.Valid.{IsValid, refs_at}
use nev_os.Kernel.Blob.Pools.{IsPool, Fits, refcount-le}

length-free_from : (n : ℕ) → length (free_from n) ≡ n
unfolding free_from
length-free_from zero = refl
length-free_from (suc n) = ap suc (length-free_from n)

take-free_from : (n : ℕ) → take n (free_from n) ≡ free_from n
unfolding free_from
take-free_from zero = refl
take-free_from (suc n) = ap (◌∷◌ n) (take-free_from n)

free_from-below : (n m : ℕ) → n ≤ m → All (λ i. i < m) (free_from n)
unfolding free_from
free_from-below zero m h = tt
free_from-below (suc n) m h = (h, free_from-below n m (omega arith))

count-free_from_out : (n i : ℕ) → n ≤ i → count i (free_from n) ≡ 0
unfolding free_from
count-free_from_out zero i h = refl
count-free_from_out (suc n) i h = ground (arith, count-free_from_out n i)

count-free_from : (n i : ℕ) → i < n → count i (free_from n) ≡ 1
unfolding free_from
count-free_from zero i h = absurd (omega arith)
count-free_from (suc n) i h = ground (arith, count-free_from n i, count-free_from_out n i)

replicate-default : (n i : ℕ) → get_or (replicate n desc_zero) i desc_zero ≡ desc_zero
replicate-default zero i = refl
replicate-default (suc n) zero = refl
replicate-default (suc n) (suc i) = replicate-default n i

refs-init : (size n i : ℕ) → refs_at (class_init size n) i ≡ 0
unfolding class_init
refs-init size n i = ap (λ d. d.refs) (replicate-default n i)

class_init-IsValid : (size n : ℕ) → n ≤ 2 ^ 12 → IsValid 0 (class_init size n)
unfolding class_init
class_init-IsValid size n h = record {
  stack_len = length-free_from n;
  desc_len = length-replicate n desc_zero;
  small = h;
  top_in = omega arith;
  in_range = rw (take-free_from n) (free_from-below n n (omega arith));
  free_once = λ i lt. rw (take-free_from n, refs-init size n i) (count-free_from n i lt);
  bounded = λ i. omega (arith, refs-init size n i);
}

class_init-Fits :
    (size n c : ℕ)
    → n ≤ 2 ^ 12
    → size ≡ get_or block_sizes c 0
    → n ≡ get_or block_counts c 0
    → Fits 0 c (class_init size n)
unfolding class_init
class_init-Fits size n c h s k = record {
  valid = class_init-IsValid size n h;
  size = s;
  capacity = k;
}

abbrev booted : Pool
booted = record {
  ready = true;
  classes = class_init 512 32 ∷ class_init 4096 16 ∷ class_init 65536 4 ∷ [];
  alloc_failures = 0;
}

init-booted :
    (fits : ℕ → Bool) (p : Pool)
    → p.ready ≡ false
    → fits 0 ≡ true
    → fits 1 ≡ true
    → fits 2 ≡ true
    → init true fits p ≡ (booted, init_ok)
unfolding init
init-booted fits p e f0 f1 f2 = ground arith

booted-IsPool : IsPool 0 booted
booted-IsPool = record { is_ready = refl; three = refl; each = each }
  where
    each : (c : ℕ) → c < 3 → Fits 0 c (class_at booted c)
    each zero lt = class_init-Fits 512 32 0 (omega arith) refl refl
    each (suc zero) lt = class_init-Fits 4096 16 1 (omega arith) refl refl
    each (suc (suc zero)) lt = class_init-Fits 65536 4 2 (omega arith) refl refl
    each (suc (suc (suc c))) lt = absurd (omega arith)

-- A boot whose mutex and allocations succeed returns NEV_OK with a pool in order in which no handle
-- has a reference.
pub init-IsPool :
    (fits : ℕ → Bool) (p : Pool)
    → p.ready ≡ false
    → fits 0 ≡ true
    → fits 1 ≡ true
    → fits 2 ≡ true
    → let (p', r) = init true fits p in IsPool 0 p' × (r ≡ init_ok) × ((h : ℕ) → refcount p' h ≡ 0)
init-IsPool fits p e f0 f1 f2 =
    rw (init-booted fits p e f0 f1 f2)
      (booted-IsPool, refl, λ h. omega (arith, refcount-le booted h booted-IsPool))
