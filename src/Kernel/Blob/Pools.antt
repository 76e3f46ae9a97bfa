-- ===== src/Kernel/Blob/Pools.antt =====
-- The pool's invariant, and what one changed block means for the counts that handles see.
use nev_os.Base.{
  ℕ, ◌^◌, ◌≤◌, ◌<◌, ◌≡◌, ◌≢◌, true, arith, length, get_or, ltb, ◌==◌, if◌then◌else◌, length-set,
  get_or-set_self, get_or-set_ne, subst, ◌&&◌, sym,
}
use native.Mathlib.Decide.{ℕ_discrete}
use nev_os.Kernel.Blob.{
  Pool, class_at, set_class, handle_class, handle_index, make_handle, handle_valid, refcount,
  blob_len, block_sizes, block_counts,
}
use nev_os.Kernel.Blob.Block.{Class, class_zero, desc_at}
use nev_os.Kernel.Blob.Valid.{IsValid, refs_at}

-- A valid class of the shape that the tables give class c.
pub record Fits (most c : ℕ) (cl : Class) : Type 0 where
  pub valid : IsValid most cl
  pub size : cl.block_size ≡ get_or block_sizes c 0
  pub capacity : cl.capacity ≡ get_or block_counts c 0

pub record IsPool (most : ℕ) (p : Pool) : Type 0 where
  pub is_ready : p.ready ≡ true
  pub three : length p.classes ≡ 3
  pub each : (c : ℕ) → c < 3 → Fits most c (class_at p c)

pub handle-round_trip :
    (c i : ℕ)
    → c < 3
    → i < 2 ^ 12
    → (handle_class (make_handle c i) ≡ c)
      × (handle_index (make_handle c i) ≡ i)
      × (make_handle c i < 2 ^ 14)
handle-round_trip c i hc hi = omega arith

pub make_handle_self : (h : ℕ) → h < 2 ^ 16 → make_handle (handle_class h) (handle_index h) ≡ h
make_handle_self h lt = omega arith

pub class-set_self :
    (p : Pool) (c : ℕ) (cl : Class) → c < length p.classes → class_at (set_class p c cl) c ≡ cl
class-set_self p c cl lt = get_or-set_self p.classes c cl class_zero lt

pub class-set_ne :
    (p : Pool) (c d : ℕ) (cl : Class) → c ≢ d → class_at (set_class p c cl) d ≡ class_at p d
class-set_ne p c d cl ne = get_or-set_ne p.classes c d cl class_zero ne

-- What holds of the new class and of the old ones holds of each class.
set_class_cases :
    (p : Pool) (c d : ℕ) (cl : Class) (P : Class → Type 0)
    → c < length p.classes
    → (c ≡ d → P cl)
    → (c ≢ d → P (class_at p d))
    → P (class_at (set_class p c cl) d)
set_class_cases p c d cl P lt new old = elim (ℕ_discrete c d) [
  | yes e ↦
      subst P (sym (subst (λ k. class_at (set_class p c cl) k ≡ cl) e (class-set_self p c cl lt)))
        (new e)
  | no ne ↦ subst P (sym (class-set_ne p c d cl ne)) (old ne)
]

pub set_class-IsPool :
    {m : ℕ} (p : Pool) (c : ℕ) (cl : Class)
    → IsPool m p
    → c < 3
    → Fits m c cl
    → IsPool m (set_class p c cl)
set_class-IsPool {m} p c cl v lt fits = record {
  is_ready = v.is_ready;
  three = omega (arith, length-set p.classes c cl, v.three);
  each = λ d ltd.
      set_class_cases p c d cl (Fits m d) (omega (arith, v.three))
        (λ e. subst (λ k. Fits m k cl) e fits) (λ _. v.each d ltd);
}

-- The count that a handle sees, by its class.
abbrev seen : Class → ℕ → ℕ
seen cl h =
    if ltb (handle_class h) 3 && ltb (handle_index h) cl.capacity
    then refs_at cl (handle_index h)
    else 0

refcount-seen :
    (p : Pool) (h : ℕ) → p.ready ≡ true → refcount p h ≡ seen (class_at p (handle_class h)) h
unfolding refcount handle_valid
refcount-seen p h r = ground arith

-- One block's count changes to `r`: its handle sees that, and no other handle sees a change.
pub refcount-set_class :
    {m : ℕ} (p : Pool) (c i r : ℕ) (cl : Class)
    → IsPool m p
    → c < 3
    → i < cl.capacity
    → cl.capacity ≤ 2 ^ 12
    → cl.capacity ≡ (class_at p c).capacity
    → ((j : ℕ) → refs_at cl j ≡ (if i == j then r else refs_at (class_at p c) j))
    → (h : ℕ) → h < 2 ^ 16
    → refcount (set_class p c cl) h ≡ (if h == make_handle c i then r else refcount p h)
refcount-set_class p c i r cl v lt lti small cap change h lth =
    rw (refcount-seen (set_class p c cl) h v.is_ready, refcount-seen p h v.is_ready)
      (set_class_cases p c (handle_class h) cl
        (λ k. seen k h ≡ (if h == make_handle c i then r else seen (class_at p (handle_class h)) h))
        (omega (arith, v.three)) same other)
  where
    same :
        c ≡ handle_class h
        → seen cl h ≡ (if h == make_handle c i then r else seen (class_at p (handle_class h)) h)
    same e =
        subst (λ k. seen cl h ≡ (if h == make_handle c i then r else seen (class_at p k) h)) e
          (ground (arith, change (handle_index h)))

    other :
        c ≢ handle_class h
        → seen (class_at p (handle_class h)) h
          ≡ (if h == make_handle c i then r else seen (class_at p (handle_class h)) h)
    other ne = ground arith

-- A block's own handle is valid, and sees the block's count and length.
pub own_handle :
    (p : Pool) (c i : ℕ)
    → p.ready ≡ true
    → c < 3
    → i < (class_at p c).capacity
    → (class_at p c).capacity ≤ 2 ^ 12
    → (handle_valid p (make_handle c i) ≡ true)
      × (refcount p (make_handle c i) ≡ refs_at (class_at p c) i)
      × (blob_len p (make_handle c i) ≡ (desc_at (class_at p c) i).len)
unfolding refcount blob_len handle_valid
own_handle p c i r lt lti small =
    let e : handle_class (make_handle c i) ≡ c = omega arith in
    let e' : handle_index (make_handle c i) ≡ i = omega arith in ground arith

-- A handle that sees a reference names a block.
pub live_handle :
    (p : Pool) (h : ℕ)
    → refcount p h ≢ 0
    → (handle_valid p h ≡ true)
      × (handle_class h < 3)
      × (handle_index h < (class_at p (handle_class h)).capacity)
      × (refcount p h ≡ refs_at (class_at p (handle_class h)) (handle_index h))
unfolding refcount handle_valid
live_handle p h live = ground arith

IsValid-mono : {m n : ℕ} (cl : Class) → m ≤ n → IsValid m cl → IsValid n cl
IsValid-mono cl le v = record {
  stack_len = v.stack_len;
  desc_len = v.desc_len;
  small = v.small;
  top_in = v.top_in;
  in_range = v.in_range;
  free_once = v.free_once;
  bounded = λ i. omega (arith, v.bounded i);
}

pub IsPool-mono : {m n : ℕ} (p : Pool) → m ≤ n → IsPool m p → IsPool n p
IsPool-mono {m} {n} p le v = record {
  is_ready = v.is_ready;
  three = v.three;
  each = λ c lt.
      let f : Fits m c (class_at p c) = v.each c lt in
      record {
        valid = IsValid-mono (class_at p c) le f.valid;
        size = f.size;
        capacity = f.capacity;
      };
}

pub refcount-le : {m : ℕ} (p : Pool) (h : ℕ) → IsPool m p → refcount p h ≤ m
refcount-le p h v = elim (ℕ_discrete (refcount p h) 0) [
  | yes z ↦ omega arith
  | no live ↦
      let l = live_handle p h live in
      omega (arith, l.3, (v.each (handle_class h) l.1).valid.bounded (handle_index h))
]
