-- ===== src/Kernel/Blob/Valid/Steps.antt =====
-- Taking a block, giving one back and changing a count keep a class valid.
use nev_os.Base.{
  ℕ, suc, ◌+◌, ◌-◌, ◌%◌, ◌≤◌, ◌<◌, ◌≡◌, List, [], ◌∷◌, ◌++◌, All, arith, length, take, get_or, set,
  count, count-append, one_if_eq, ◌==◌, if◌then◌else◌, ◌≢◌, ◌^◌, take-suc, length-set,
  get_or-set_self, get_or-set_ne, All-left, All-right, All-append, subst, ap, sym, take-set_next,
}
use native.Mathlib.Decide.{ℕ_discrete}
use nev_os.Kernel.Blob.Block.{Class, Desc, desc_zero, set_desc, take_block}
use nev_os.Kernel.Blob.Valid.{IsValid, free_part, refs_at, is_zero, room}

-- What is on top of the free stack.
abbrev pub top : Class → ℕ
top cl = get_or cl.free_list (cl.free_count - 1) 0

below_top : Class → List ℕ
below_top cl = take (cl.free_count - 1) cl.free_list

module _ {m : ℕ} (cl : Class) (v : IsValid m cl) (free : cl.free_count ≢ 0) where
  split_top : free_part cl ≡ below_top cl ++ top cl ∷ []
  unfolding below_top
  split_top =
      let e : suc (cl.free_count - 1) ≡ cl.free_count = omega arith in
      subst (λ n. take n cl.free_list ≡ below_top cl ++ top cl ∷ []) e
        (take-suc (cl.free_count - 1) cl.free_list 0 (omega arith))

  pub top-lt : top cl < cl.capacity
  top-lt =
      (All-right (λ i. i < cl.capacity) (below_top cl) (top cl ∷ [])
        (subst (All (λ i. i < cl.capacity)) split_top v.in_range)).0

  below_in_range : All (λ i. i < cl.capacity) (below_top cl)
  below_in_range =
      All-left (λ i. i < cl.capacity) (below_top cl) (top cl ∷ [])
        (subst (All (λ i. i < cl.capacity)) split_top v.in_range)

  -- Each free block once, the top one apart.
  below_once :
      (i : ℕ)
      → i < cl.capacity
      → count i (below_top cl) + one_if_eq (top cl) i ≡ is_zero (refs_at cl i)
  below_once i lt =
      omega (
        arith,
        ap (count i) split_top,
        count-append i (below_top cl) (top cl ∷ []),
        v.free_once i lt,
      )

  -- The block that an allocation hands out had no reference.
  pub refs-top : refs_at cl (top cl) ≡ 0
  refs-top = ground (arith, below_once (top cl) top-lt)

-- The counts after one descriptor is replaced.
pub refs-set :
    (cl : Class) (i j : ℕ) (d : Desc)
    → i < length cl.desc
    → refs_at (set_desc cl i d) j ≡ (if i == j then d.refs else refs_at cl j)
refs-set cl i j d lt = elim (ℕ_discrete i j) [
  | yes e ↦
      subst (λ k. refs_at (set_desc cl i d) k ≡ (if i == k then d.refs else refs_at cl k)) e
        (ground (arith, get_or-set_self cl.desc i d desc_zero lt))
  | no ne ↦ ground (arith, get_or-set_ne cl.desc i j d desc_zero ne)
]

pub refs-take_block :
    {m : ℕ} (cl : Class) (n now : ℕ) (j : ℕ)
    → IsValid m cl
    → cl.free_count ≢ 0
    → refs_at (take_block cl n now).1 j ≡ (if top cl == j then 1 else refs_at cl j)
unfolding take_block
refs-take_block cl n now j v free =
    refs-set cl (top cl) j (record { refs = 1; len = n % 2 ^ 32; alloc_ms = now })
      (omega (arith, top-lt cl v free, v.desc_len))

-- Allocation keeps the class valid.
pub take_block-IsValid :
    {m : ℕ} (cl : Class) (n now : ℕ)
    → IsValid m cl
    → cl.free_count ≢ 0
    → 0 < m
    → IsValid m (take_block cl n now).1
unfolding take_block below_top
take_block-IsValid {m} cl n now v free pos = record {
  stack_len = v.stack_len;
  desc_len = omega (arith, length-set cl.desc (top cl) fresh, v.desc_len);
  small = v.small;
  top_in = omega (arith, v.top_in);
  in_range = below_in_range cl v free;
  free_once = λ i lt. ground (
    arith,
    below_once cl v free i lt,
    refs-top cl v free,
    refs-set cl (top cl) i fresh (omega (arith, top-lt cl v free, v.desc_len)),
  );
  bounded = λ i. ground (
    arith,
    v.bounded i,
    refs-set cl (top cl) i fresh (omega (arith, top-lt cl v free, v.desc_len)),
  );
}
  where
    fresh : Desc
    fresh = record { refs = 1; len = n % 2 ^ 32; alloc_ms = now }

-- A count that stays above zero, changed to another above zero.
pub recount-IsValid :
    {m : ℕ} (cl : Class) (i : ℕ) (d : Desc)
    → IsValid m cl
    → i < cl.capacity
    → refs_at cl i ≢ 0
    → d.refs ≢ 0
    → d.refs ≤ m
    → IsValid m (set_desc cl i d)
recount-IsValid cl i d v lt old new le = record {
  stack_len = v.stack_len;
  desc_len = omega (arith, length-set cl.desc i d, v.desc_len);
  small = v.small;
  top_in = v.top_in;
  in_range = v.in_range;
  free_once =
      λ j ltj. ground (arith, v.free_once j ltj, refs-set cl i j d (omega (arith, v.desc_len)));
  bounded = λ j. ground (arith, v.bounded j, refs-set cl i j d (omega (arith, v.desc_len)));
}

-- Giving a block back with the last reference keeps the class valid.
pub free_block-IsValid :
    {m : ℕ} (cl : Class) (i : ℕ) (d : Desc)
    → IsValid m cl
    → i < cl.capacity
    → refs_at cl i ≢ 0
    → d.refs ≡ 0
    → IsValid m (record cl {
      desc = set cl.desc i d;
      free_list = set cl.free_list cl.free_count i;
      free_count = cl.free_count + 1;
    })
free_block-IsValid cl i d v lt old new = record {
  stack_len = omega (arith, length-set cl.free_list cl.free_count i, v.stack_len);
  desc_len = omega (arith, length-set cl.desc i d, v.desc_len);
  small = v.small;
  top_in = omega (arith, room cl i v lt old);
  in_range =
      subst (All (λ j. j < cl.capacity)) (sym pushed)
        (All-append (λ j. j < cl.capacity) (free_part cl) (i ∷ []) v.in_range (lt, tt));
  free_once = λ j ltj. ground (
    arith,
    ap (count j) pushed,
    count-append j (free_part cl) (i ∷ []),
    v.free_once j ltj,
    v.free_once i lt,
    refs-set cl i j d (omega (arith, v.desc_len)),
  );
  bounded = λ j. ground (arith, v.bounded j, refs-set cl i j d (omega (arith, v.desc_len)));
}
  where
    pushed : take (cl.free_count + 1) (set cl.free_list cl.free_count i) ≡ free_part cl ++ i ∷ []
    pushed =
        let e : suc cl.free_count ≡ cl.free_count + 1 = omega arith in
        subst (λ n. take n (set cl.free_list cl.free_count i) ≡ free_part cl ++ i ∷ []) e
          (take-set_next cl.free_count cl.free_list i
            (omega (arith, room cl i v lt old, v.stack_len)))
