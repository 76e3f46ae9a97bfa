-- ===== src/Kernel/Blob/Alloc.antt =====
-- What an allocation promises, and when it fails.
use nev_os.Base.{
  ℕ, zero, suc, ◌%◌, ◌^◌, ◌≤◌, ◌<◌, ◌≡◌, refl, ◌≢◌, true, arith, get_or, get_or-set_self, count,
  take, ltb, ◌==◌, if◌then◌else◌, ap, subst, sym, ◌∙◌, ◌⊎◌, inl, inr, none, some,
}
use native.Mathlib.Decide.{ℕ_discrete}
use nev_os.Kernel.Blob.{
  Pool, class_at, set_class, handle_class, handle_index, make_handle, refcount, block_sizes,
  block_counts, alloc, size_class, blob_len, blob_max_len, count_failure,
}
use nev_os.Kernel.Blob.Block.{Class, desc_zero, desc_at, take_block}
use nev_os.Kernel.Blob.Valid.{free_part}
use nev_os.Kernel.Blob.Valid.Steps.{top, top-lt, refs-top, take_block-IsValid, refs-take_block}
use nev_os.Kernel.Blob.Pools.{
  IsPool, Fits, set_class-IsPool, refcount-set_class, handle-round_trip, own_handle, class-set_self,
}

-- The class that a length asks for, in plain words.
unfoldable pub class_for : ℕ → ℕ
class_for len = if ltb 512 len then (if ltb 4096 len then 2 else 1) else 0

size_class-eq : (len : ℕ) → len ≤ blob_max_len → size_class len 0 block_sizes ≡ class_for len
unfolding size_class class_for
size_class-eq len h = ground arith

class_for-lt : (len : ℕ) → class_for len < 3
unfolding class_for
class_for-lt len = ground arith

-- It is the smallest that holds the length.
pub class_for_smallest :
    (len d : ℕ)
    → len ≤ blob_max_len
    → (len ≤ get_or block_sizes (class_for len) 0)
      × (d < class_for len → get_or block_sizes d 0 < len)
unfolding class_for
class_for_smallest len zero h = ground arith
class_for_smallest len (suc zero) h = ground arith
class_for_smallest len (suc (suc d)) h = ground arith

-- What a granted allocation did: the handle was nobody's and now has one reference, no other
-- handle's count moved, and the block is of the smallest class that holds the length.
pub record Grant (p p' : Pool) (len h : ℕ) : Type 0 where
  pub in_word : h < 2 ^ 16
  pub fresh : refcount p h ≡ 0
  pub counts : (k : ℕ) → k < 2 ^ 16 → refcount p' k ≡ (if k == h then 1 else refcount p k)
  pub stored_len : blob_len p' h ≡ len
  pub class : handle_class h ≡ class_for len

-- Every block of the class that the length asks for is referenced.
abbrev pub Exhausted : Pool → ℕ → Type 0
Exhausted p len =
    (i : ℕ)
    → i < get_or block_counts (class_for len) 0
    → refcount p (make_handle (class_for len) i) ≢ 0

module _ {m : ℕ} (p : Pool) (len now : ℕ) (v : IsPool m p) (nonzero : len ≢ 0)
    (le : len ≤ blob_max_len) where
  cl_for : Class
  cl_for = class_at p (class_for len)

  alloc-full : cl_for.free_count ≡ 0 → alloc p len now ≡ (count_failure p, none)
  unfolding alloc cl_for
  alloc-full e = ground (arith, size_class-eq len le, class_for-lt len, v.is_ready)

  alloc_free_block :
      cl_for.free_count ≢ 0
      → alloc p len now ≡ (
        set_class p (class_for len) (take_block cl_for len now).1,
        some (make_handle (class_for len) (take_block cl_for len now).0),
      )
  unfolding alloc cl_for
  alloc_free_block ne = ground (arith, size_class-eq len le, class_for-lt len, v.is_ready)

  -- The block that an allocation takes.
  block : Class
  unfolding cl_for
  block = (take_block cl_for len now).1

  handle : ℕ
  unfolding cl_for
  handle = make_handle (class_for len) (top cl_for)

  alloc_free :
      cl_for.free_count ≢ 0 → alloc p len now ≡ (set_class p (class_for len) block, some handle)
  unfolding block handle take_block
  alloc_free ne = alloc_free_block ne

  module _ (free : cl_for.free_count ≢ 0) where
    cl_for-Fits : Fits m (class_for len) cl_for
    unfolding cl_for
    cl_for-Fits = v.each (class_for len) (class_for-lt len)

    block-Fits : 0 < m → Fits m (class_for len) block
    unfolding block take_block
    block-Fits pos = record {
      valid = take_block-IsValid cl_for len now cl_for-Fits.valid free pos;
      size = cl_for-Fits.size;
      capacity = cl_for-Fits.capacity;
    }

    refcount-granted :
        (h : ℕ)
        → h < 2 ^ 16
        → refcount (set_class p (class_for len) block) h ≡ (if h == handle then 1 else refcount p h)
    unfolding block handle take_block cl_for
    refcount-granted h lt =
        refcount-set_class p (class_for len) (top cl_for) 1 block v (class_for-lt len)
          (top-lt cl_for cl_for-Fits.valid free) cl_for-Fits.valid.small refl
          (λ j. refs-take_block cl_for len now j cl_for-Fits.valid free) h lt

    refcount-handle : refcount p handle ≡ 0
    unfolding handle cl_for
    refcount-handle =
        (own_handle p (class_for len) (top cl_for) v.is_ready (class_for-lt len)
          (top-lt cl_for cl_for-Fits.valid free) cl_for-Fits.valid.small).1
        ∙ refs-top cl_for cl_for-Fits.valid free

    grant : Grant p (set_class p (class_for len) block) len handle
    unfolding handle block take_block cl_for
    grant = record {
      in_word = omega (arith, round.2);
      fresh = refcount-handle;
      counts = refcount-granted;
      stored_len = new_len;
      class = round.0;
    }
      where
        t : ℕ
        t = top cl_for

        lt-top : t < cl_for.capacity
        lt-top = top-lt cl_for cl_for-Fits.valid free

        round :
            (handle_class (make_handle (class_for len) t) ≡ class_for len)
            × (handle_index (make_handle (class_for len) t) ≡ t)
            × (make_handle (class_for len) t < 2 ^ 14)
        round =
            handle-round_trip (class_for len) t (class_for-lt len)
              (omega (arith, lt-top, cl_for-Fits.valid.small))

        put_back : class_at (set_class p (class_for len) block) (class_for len) ≡ block
        put_back = class-set_self p (class_for len) block (omega (arith, v.three, class_for-lt len))

        low : len % 2 ^ 32 ≡ len
        low = omega arith

        new_len : blob_len (set_class p (class_for len) block) (make_handle (class_for len) t) ≡ len
        new_len =
            (own_handle _ (class_for len) t v.is_ready (class_for-lt len)
              (subst (λ k. t < k.capacity) (sym put_back) lt-top)
              (subst (λ k. k.capacity ≤ 2 ^ 12) (sym put_back) cl_for-Fits.valid.small)).2
            ∙ ap (λ k. (desc_at k t).len) put_back
            ∙ ap (λ d. d.len)
                (get_or-set_self cl_for.desc t _ desc_zero
                  (omega (arith, lt-top, cl_for-Fits.valid.desc_len)))
            ∙ low

  exhausted : cl_for.free_count ≡ 0 → Exhausted p len
  unfolding cl_for
  exhausted e i lt =
      let fits : Fits m (class_for len) cl_for = v.each (class_for len) (class_for-lt len) in
      let lti : i < cl_for.capacity = omega (arith, fits.capacity) in
      let none_free : count i (free_part cl_for) ≡ 0 =
        ap (λ n. count i (take n cl_for.free_list)) e in
      let own = own_handle p (class_for len) i v.is_ready (class_for-lt len) lti fits.valid.small in
      ground (arith, none_free, fits.valid.free_once i lti, own.1)

-- With a pool in order and a length in range, an allocation either grants a block, after which the
-- pool is in order, or it refuses because every block of that class is in use; it never takes one
-- of a larger class, and a refusal changes nothing but the failure count.
pub alloc_cases :
    {m : ℕ} (p : Pool) (len now : ℕ)
    → IsPool m p
    → 0 < m
    → len ≢ 0
    → len ≤ blob_max_len
    → ((alloc p len now ≡ (count_failure p, none)) × Exhausted p len)
      ⊎ ((p' : Pool) × (h : ℕ) × (alloc p len now ≡ (p', some h)) × IsPool m p' × Grant p p' len h)
alloc_cases p len now v pos nonzero le =
    elim (ℕ_discrete (cl_for p len now v nonzero le).free_count 0) [
      | yes e ↦ inl (alloc-full p len now v nonzero le e, exhausted p len now v nonzero le e)
      | no free ↦ inr (
        set_class p (class_for len) (block p len now v nonzero le),
        handle p len now v nonzero le,
        alloc_free p len now v nonzero le free,
        set_class-IsPool p (class_for len) (block p len now v nonzero le) v (class_for-lt len)
            (block-Fits p len now v nonzero le free pos),
        grant p len now v nonzero le free,
      )
    ]

-- A length of zero, or past the largest class, is refused and counted.
pub alloc_refused :
    (p : Pool) (len now : ℕ)
    → p.ready ≡ true
    → (len ≡ 0) ⊎ (blob_max_len < len)
    → alloc p len now ≡ (count_failure p, none)
unfolding alloc
alloc_refused p len now r bad = ground arith
