-- ===== src/Kernel/Blob/Leaks.antt =====
-- The leak assertion: `nev_blob_all_free` and the counts agree.
use nev_os.Base.{
  ℕ, zero, suc, ◌<◌, ◌≡◌, refl, ◌↔◌, true, arith, sum_below, sum_below-ext, ◌^◌, ==→eq,
}
use native.Mathlib.Decide.{ℕ_discrete}
use nev_os.Kernel.Blob.{
  Pool, class_at, all_free, is_full, refcount, handle_class, handle_index, make_handle,
}
use nev_os.Kernel.Blob.Block.{Class}
use nev_os.Kernel.Blob.Valid.{IsValid, refs_at, is_zero, free_count-sum, room}
use nev_os.Kernel.Blob.Pools.{IsPool, Fits, live_handle, own_handle, handle-round_trip}

sum_below-one : (n : ℕ) → sum_below n (λ i. 1) ≡ n
sum_below-one zero = refl
sum_below-one (suc n) = omega (arith, sum_below-one n)

full_of_zero :
    {m : ℕ} (cl : Class)
    → IsValid m cl
    → ((i : ℕ) → i < cl.capacity → refs_at cl i ≡ 0)
    → cl.free_count ≡ cl.capacity
full_of_zero cl v h = omega (
  arith,
  free_count-sum cl v,
  sum_below-ext cl.capacity (λ i. is_zero (refs_at cl i)) (λ i. 1) (λ i lt. ground (arith, h i lt)),
  sum_below-one cl.capacity,
)

full_at :
    (p : Pool) (c : ℕ) → p.ready ≡ true → c < 3 → all_free p ≡ true → is_full (class_at p c) ≡ true
unfolding all_free
full_at p zero r lt e = ground arith
full_at p (suc zero) r lt e = ground arith
full_at p (suc (suc zero)) r lt e = ground arith
full_at p (suc (suc (suc c))) r lt e = absurd (omega arith)

abbrev Full : Class → Type 0
Full cl = cl.free_count ≡ cl.capacity

all_free_of_Full :
    (p : Pool)
    → p.ready ≡ true
    → Full (class_at p 0)
    → Full (class_at p 1)
    → Full (class_at p 2)
    → all_free p ≡ true
unfolding all_free
all_free_of_Full p r f0 f1 f2 = ground arith

-- The check that the tests end with is exact: with a pool in order, `nev_blob_all_free` answers
-- true if and only if no handle has a reference left.
pub all_free_iff :
    {m : ℕ} (p : Pool)
    → IsPool m p
    → (all_free p ≡ true) ↔ ((h : ℕ) → h < 2 ^ 16 → refcount p h ≡ 0)
all_free_iff {m} p v = (forward, backward)
  where
    forward : all_free p ≡ true → (h : ℕ) → h < 2 ^ 16 → refcount p h ≡ 0
    forward e h lt = elim (ℕ_discrete (refcount p h) 0) [
      | yes z ↦ z
      | no live ↦
          let l = live_handle p h live in
          let f : Fits m (handle_class h) (class_at p (handle_class h)) =
            v.each (handle_class h) l.1 in
          absurd (
            omega (
              arith,
              room (class_at p (handle_class h)) (handle_index h) f.valid l.2
                  (omega (arith, l.3, live)),
              ==→eq _ _ (full_at p (handle_class h) v.is_ready l.1 e),
            ))
    ]

    full :
        ((h : ℕ) → h < 2 ^ 16 → refcount p h ≡ 0)
        → (c : ℕ) → c < 3
        → (class_at p c).free_count ≡ (class_at p c).capacity
    full z c lt =
        let f : Fits m c (class_at p c) = v.each c lt in
        full_of_zero (class_at p c) f.valid λ i lti.
          let t = handle-round_trip c i lt (omega (arith, f.valid.small)) in
          omega (
            arith,
            z (make_handle c i) (omega (arith, t.2)),
            (own_handle p c i v.is_ready lt lti f.valid.small).1,
          )

    backward : ((h : ℕ) → h < 2 ^ 16 → refcount p h ≡ 0) → all_free p ≡ true
    backward z =
        all_free_of_Full p v.is_ready (full z 0 (omega arith)) (full z 1 (omega arith))
          (full z 2 (omega arith))
