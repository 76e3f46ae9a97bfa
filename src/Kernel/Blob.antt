-- ===== src/Kernel/Blob.antt =====
-- components/nev_kernel/src/nev_blob.c and include/nev_kernel/nev_blob.h: the blob pool.
-- The statics are one record, `Pool`. A call is one step: the free list is under `s_lock`, and the
-- interleavings of the atomic counters are not modelled. A buffer is its class and its offset in
-- the class's storage. Clock readings and the outcome of the boot allocations are arguments.
pub mod Block
pub mod Valid
pub mod Pools
pub mod Alloc
pub mod Refs
pub mod Boot
pub mod Leaks
pub mod Buffers
pub mod Ledger
mod Tests
use nev_os.Base.{
  ℕ, zero, suc, ◌+◌, ◌-◌, ◌*◌, ◌/◌, ◌%◌, ◌^◌, ◌≡◌, Bool, true, false, not, ◌&&◌, ◌||◌, Option, none,
  some, List, [], ◌∷◌, map, ltb, leb, ◌==◌, if◌then◌else◌, get_or, set, length, u32_mod, add32,
  sub32,
}
use Block.{
  sweep, Class, class_init, class_zero, take_block, put_block, Desc, desc_at, set_desc, Outcome,
  done, panic, retain_block, release_block,
}

pub record Pool : Type 0 where
  pub ready : Bool
  pub classes : List Class
  pub alloc_failures : ℕ

abbrev pub class_count : ℕ
class_count = 3

-- NEV_BLOB_NONE
abbrev pub blob_none : ℕ
blob_none = 0xFFFF

abbrev pub blob_max_len : ℕ
blob_max_len = 65536

-- kSize and kCount
abbrev pub block_sizes : List ℕ
block_sizes = 512 ∷ 4096 ∷ 65536 ∷ []

abbrev pub block_counts : List ℕ
block_counts = 32 ∷ 16 ∷ 4 ∷ []

-- HANDLE_CLASS and HANDLE_INDEX of a `uint16_t`, and MAKE_HANDLE: the class's bits lie above the
-- index's, so that `|` is a sum.
abbrev pub handle_class : ℕ → ℕ
handle_class h = h / 2 ^ 12 % 2 ^ 8

abbrev pub handle_index : ℕ → ℕ
handle_index h = h % 2 ^ 12

abbrev pub make_handle : ℕ → ℕ → ℕ
make_handle c i = c % 2 ^ 16 * 2 ^ 12 % 2 ^ 16 + i % 2 ^ 12

abbrev pub class_at : Pool → ℕ → Class
class_at p c = get_or p.classes c class_zero

abbrev pub set_class : Pool → ℕ → Class → Pool
set_class p c cl = record p { classes = set p.classes c cl }

unfoldable pub handle_valid : Pool → ℕ → Bool
handle_valid p h =
    if not p.ready || h == blob_none
    then false
    else ltb (handle_class h) class_count
      && ltb (handle_index h) (class_at p (handle_class h)).capacity

unfoldable pub deinit : Pool → Pool
deinit p = record p { ready = false; classes = class_zero ∷ class_zero ∷ class_zero ∷ [] }

-- What `nev_blob_pool_init` returns: NEV_OK, the mutex's error, or NEV_ERR_NO_MEM.
pub data InitResult : Type 0 where
  init_ok mutex_failed no_mem : InitResult

-- `fits c` tells whether the three allocations of class c succeed.
unfoldable pub init : Bool → (ℕ → Bool) → Pool → Pool × InitResult
unfolding deinit
init mutex_ok fits p =
    if p.ready
    then (p, init_ok)
    else if not mutex_ok
    then (p, mutex_failed)
    else if fits 0 && (fits 1 && fits 2)
    then (
      record {
        ready = true;
        classes = class_init 512 32 ∷ class_init 4096 16 ∷ class_init 65536 4 ∷ [];
        alloc_failures = 0;
      },
      init_ok,
    )
    else (deinit p, no_mem)

-- while (c < CLASS_COUNT && len > kSize[c]) c++;
unfoldable pub size_class : ℕ → ℕ → List ℕ → ℕ
size_class len c [] = c
size_class len c (size ∷ sizes) = if ltb size len then size_class len (c + 1) sizes else c

abbrev pub count_failure : Pool → Pool
count_failure p = record p { alloc_failures = add32 p.alloc_failures 1 }

-- From `nev_mutex_lock` on. The result is the handle, or `none` for NEV_BLOB_NONE.
unfoldable pub alloc_in : Pool → ℕ → ℕ → ℕ → Pool × Option ℕ
alloc_in p c len now_ms =
    let cl = class_at p c in
    if cl.free_count == 0
    then (count_failure p, none)
    else let (idx, cl') = take_block cl len now_ms in (set_class p c cl', some (make_handle c idx))

unfoldable pub alloc : Pool → ℕ → ℕ → Pool × Option ℕ
unfolding size_class alloc_in
alloc p len now_ms =
    if not p.ready || (len == 0 || ltb blob_max_len len)
    then (if p.ready then count_failure p else p, none)
    else let c = size_class len 0 block_sizes in
      if leb class_count c then (count_failure p, none) else alloc_in p c len now_ms

-- The buffer: its class, and its first byte within the class's storage.
unfoldable pub blob_data : Pool → ℕ → Option (ℕ × ℕ)
unfolding handle_valid
blob_data p h =
    if handle_valid p h
    then some (handle_class h, handle_index h * (class_at p (handle_class h)).block_size)
    else none

abbrev pub desc_of : Pool → ℕ → Desc
desc_of p h = desc_at (class_at p (handle_class h)) (handle_index h)

unfoldable pub blob_len : Pool → ℕ → ℕ
unfolding handle_valid
blob_len p h = if handle_valid p h then (desc_of p h).len else 0

unfoldable pub refcount : Pool → ℕ → ℕ
unfolding handle_valid
refcount p h = if handle_valid p h then (desc_of p h).refs else 0

-- A step of the block's class, put back into the pool.
abbrev pub lift : Pool → ℕ → Outcome Class → Outcome Pool
lift p c (done cl) = done (set_class p c cl)
lift p c panic = panic

-- NEV_ASSERT panics in a debug build and is compiled out of a release build.
module _ (debug : Bool) where
  unfoldable pub retain : Pool → ℕ → Outcome Pool
  retain p h =
      if handle_valid p h
      then lift p (handle_class h)
          (retain_block debug (class_at p (handle_class h)) (handle_index h))
      else done p

  unfoldable pub release : Pool → ℕ → Outcome Pool
  release p h =
      if handle_valid p h
      then lift p (handle_class h)
          (release_block debug (class_at p (handle_class h)) (handle_index h))
      else done p

pub record Stats : Type 0 where
  pub in_use : List ℕ
  pub capacity : List ℕ
  pub high_water : List ℕ
  pub alloc_failures : ℕ

abbrev pub zeros : List ℕ
zeros = 0 ∷ 0 ∷ 0 ∷ []

abbrev pub each_class : Pool → (Class → ℕ) → List ℕ
each_class p f = f (class_at p 0) ∷ f (class_at p 1) ∷ f (class_at p 2) ∷ []

unfoldable pub stats : Pool → Stats
stats p =
    if p.ready
    then record {
      in_use = each_class p (λ cl. (cl.capacity + 2 ^ 16 - cl.free_count) % 2 ^ 16);
      capacity = each_class p (λ cl. cl.capacity);
      high_water = each_class p (λ cl. cl.high_water);
      alloc_failures = p.alloc_failures;
    }
    else record { in_use = zeros; capacity = zeros; high_water = zeros; alloc_failures = 0 }

abbrev pub is_full : Class → Bool
is_full cl = cl.free_count == cl.capacity

unfoldable pub all_free : Pool → Bool
all_free p =
    if p.ready
    then is_full (class_at p 0) && (is_full (class_at p 1) && is_full (class_at p 2))
    else true

-- The sweep of the debug build; its warnings are not modelled.
unfoldable pub check_stale : Pool → ℕ → ℕ → Pool
check_stale p max_age_ms now_ms =
    if p.ready then record p { classes = map (sweep max_age_ms now_ms) p.classes } else p
