-- ===== src/Kernel/Blob/Refs.antt =====
-- Taking and dropping a reference to a block that has one.
use nev_os.Base.{
  ℕ, suc, ◌+◌, ◌-◌, ◌^◌, ◌≤◌, ◌<◌, ◌≡◌, ◌≢◌, Bool, arith, set, ◌==◌, if◌then◌else◌, ap, subst, sym,
  ◌∙◌, add32, sub32, u32_mod,
}
use native.Mathlib.Decide.{ℕ_discrete}
use nev_os.Kernel.Blob.{
  Pool, class_at, set_class, handle_class, handle_index, refcount, retain, release,
}
use nev_os.Kernel.Blob.Block.{Class, Desc, desc_at, set_desc, done, retain_block, release_block}
use nev_os.Kernel.Blob.Valid.{refs_at, room}
use nev_os.Kernel.Blob.Valid.Steps.{refs-set, recount-IsValid, free_block-IsValid}
use nev_os.Kernel.Blob.Pools.{
  IsPool, Fits, IsPool-mono, set_class-IsPool, refcount-set_class, live_handle, make_handle_self,
}

-- The pool after one reference of handle h became r.
pub record Recounted (most : ℕ) (p p' : Pool) (h r : ℕ) : Type 0 where
  pub in_order : IsPool most p'
  pub counts : (k : ℕ) → k < 2 ^ 16 → refcount p' k ≡ (if k == h then r else refcount p k)

module _ {m : ℕ} (p : Pool) (h : ℕ) (v : IsPool m p) (word : h < 2 ^ 16)
    (live : refcount p h ≢ 0) where
  own : Class
  own = class_at p (handle_class h)

  own-Fits : Fits m (handle_class h) own
  unfolding own
  own-Fits = v.each (handle_class h) (live_handle p h live).1

  -- One class changed in one block's count, and is valid.
  recounted :
      (cl : Class) (r : ℕ)
      → Fits m (handle_class h) cl
      → ((j : ℕ) → refs_at cl j ≡ (if handle_index h == j then r else refs_at own j))
      → Recounted m p (set_class p (handle_class h) cl) h r
  unfolding own
  recounted cl r fits change =
      let l = live_handle p h live in
      record {
        in_order = set_class-IsPool p (handle_class h) cl v l.1 fits;
        counts = λ k lt.
            subst
              (λ s.
                refcount (set_class p (handle_class h) cl) k ≡ (if k == s then r else refcount p k))
              (make_handle_self h word)
              (refcount-set_class p (handle_class h) (handle_index h) r cl v l.1
                (omega (arith, l.2, fits.capacity, own-Fits.capacity)) fits.valid.small
                (fits.capacity ∙ sym own-Fits.capacity) change k lt);
      }

  bumped : Class
  unfolding own
  bumped =
      set_desc own (handle_index h)
        (record (desc_at own (handle_index h)) { refs = add32 (refs_at own (handle_index h)) 1 })

  -- Taking one more reference to a live block returns, in either build.
  retain-done : (debug : Bool) → retain debug p h ≡ done (set_class p (handle_class h) bumped)
  unfolding retain retain_block bumped own
  retain-done debug = ground (arith, live_handle p h live)

  bumped-Fits : refs_at own (handle_index h) + 1 ≤ m → m < u32_mod → Fits m (handle_class h) bumped
  unfolding bumped own
  bumped-Fits le small =
      let l = live_handle p h live in
      record {
        valid =
            recount-IsValid own (handle_index h) _ own-Fits.valid l.2 (omega (arith, l.3, live))
              (omega arith) (omega arith);
        size = own-Fits.size;
        capacity = own-Fits.capacity;
      }

  refs-bumped :
      (j : ℕ)
      → refs_at own (handle_index h) + 1 < u32_mod
      → refs_at bumped j ≡ (if handle_index h == j then refcount p h + 1 else refs_at own j)
  unfolding bumped own
  refs-bumped j small =
      let l = live_handle p h live in
      ground (
        arith,
        l.3,
        refs-set own (handle_index h) j
            (record (desc_at own (handle_index h)) {
              refs = add32 (refs_at own (handle_index h)) 1;
            })
            (omega (arith, l.2, own-Fits.valid.desc_len)),
      )

  dropped : Desc
  unfolding own
  dropped = record { refs = sub32 (refs_at own (handle_index h)) 1; len = 0; alloc_ms = 0 }

  lowered : Class
  unfolding own
  lowered =
      set_desc own (handle_index h)
        (record (desc_at own (handle_index h)) { refs = sub32 (refs_at own (handle_index h)) 1 })

  freed : Class
  unfolding own dropped
  freed = record own {
    desc = set own.desc (handle_index h) dropped;
    free_list = set own.free_list own.free_count (handle_index h);
    free_count = own.free_count + 1;
  }

  own-room : own.free_count < own.capacity
  unfolding own
  own-room =
      let l = live_handle p h live in
      room own (handle_index h) own-Fits.valid l.2 (omega (arith, l.3, live))

  release_last :
      (debug : Bool)
      → refcount p h ≡ 1
      → release debug p h ≡ done (set_class p (handle_class h) freed)
  unfolding release release_block freed dropped own
  release_last debug e = ground (arith, live_handle p h live, own-room)

  release_more :
      (debug : Bool)
      → refcount p h ≢ 1
      → m < u32_mod
      → release debug p h ≡ done (set_class p (handle_class h) lowered)
  unfolding release release_block lowered own
  release_more debug ne small =
      ground (arith, live_handle p h live, own-Fits.valid.bounded (handle_index h))

  freed-Fits : refcount p h ≡ 1 → Fits m (handle_class h) freed
  unfolding freed dropped own
  freed-Fits e =
      let l = live_handle p h live in
      record {
        valid =
            free_block-IsValid own (handle_index h) dropped own-Fits.valid l.2
              (omega (arith, l.3, live)) (omega (arith, l.3));
        size = own-Fits.size;
        capacity = own-Fits.capacity;
      }

  refs-freed :
      (j : ℕ)
      → refcount p h ≡ 1
      → refs_at freed j ≡ (if handle_index h == j then 0 else refs_at own j)
  unfolding freed dropped own
  refs-freed j e =
      let l = live_handle p h live in
      ground (
        arith,
        l.3,
        refs-set own (handle_index h) j dropped (omega (arith, l.2, own-Fits.valid.desc_len)),
      )

  lowered-Fits : refcount p h ≢ 1 → m < u32_mod → Fits m (handle_class h) lowered
  unfolding lowered own
  lowered-Fits ne small =
      let l = live_handle p h live in
      let most = own-Fits.valid.bounded (handle_index h) in
      record {
        valid =
            recount-IsValid own (handle_index h) _ own-Fits.valid l.2 (omega (arith, l.3, live))
              (omega (arith, l.3, live, ne, most)) (omega (arith, l.3, live, ne, most));
        size = own-Fits.size;
        capacity = own-Fits.capacity;
      }

  refs-lowered :
      (j : ℕ)
      → m < u32_mod
      → refs_at lowered j ≡ (if handle_index h == j then refcount p h - 1 else refs_at own j)
  unfolding lowered own
  refs-lowered j small =
      let l = live_handle p h live in
      ground (
        arith,
        l.3,
        live,
        own-Fits.valid.bounded (handle_index h),
        refs-set own (handle_index h) j
            (record (desc_at own (handle_index h)) {
              refs = sub32 (refs_at own (handle_index h)) 1;
            })
            (omega (arith, l.2, own-Fits.valid.desc_len)),
      )

  -- Dropping a reference that is held returns, in either build, and lowers that count by one; with
  -- the last one the block goes back on the free stack, for which there is always room.
  pub release_lem :
      (debug : Bool)
      → m < u32_mod
      → (p' : Pool) × (release debug p h ≡ done p') × Recounted m p p' h (refcount p h - 1)
  release_lem debug small = elim (ℕ_discrete (refcount p h) 1) [
    | yes e ↦ (
      set_class p (handle_class h) freed,
      release_last debug e,
      recounted freed _ (freed-Fits e) (λ j.
          refs-freed j e
          ∙ ap (λ n. if handle_index h == j then n else refs_at own j) (omega arith)),
    )
    | no ne ↦ (
      set_class p (handle_class h) lowered,
      release_more debug ne small,
      recounted lowered _ (lowered-Fits ne small) (λ j. refs-lowered j small),
    )
  ]

-- Taking one more reference to a block that has one returns, in either build, and raises that count
-- by one.
pub retain_lem :
    {m : ℕ} (p : Pool) (h : ℕ) (debug : Bool)
    → IsPool m p
    → h < 2 ^ 16
    → refcount p h ≢ 0
    → suc m < u32_mod
    → (p' : Pool) × (retain debug p h ≡ done p') × Recounted (suc m) p p' h (refcount p h + 1)
retain_lem {m} p h debug v word live small =
    let w : IsPool (suc m) p = IsPool-mono p (omega arith) v in
    let l = live_handle p h live in
    let most : refs_at (class_at p (handle_class h)) (handle_index h) ≤ m =
      (v.each (handle_class h) l.1).valid.bounded (handle_index h) in
    (
      set_class p (handle_class h) (bumped p h w word live),
      retain-done p h w word live debug,
      recounted p h w word live (bumped p h w word live) (refcount p h + 1)
          (bumped-Fits p h w word live (unfold own in omega (arith, most)) small)
          (λ j. refs-bumped p h w word live j (unfold own in omega (arith, most))),
    )
