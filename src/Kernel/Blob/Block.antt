-- ===== src/Kernel/Blob/Block.antt =====
-- One size class of the blob pool (`blob_class_t`): its descriptors and its stack of free indices,
-- and what the operations of nev_blob.c do to it.
use nev_os.Base.{
  ℕ, zero, suc, ◌+◌, ◌-◌, ◌%◌, ◌^◌, Bool, ◌&&◌, List, [], ◌∷◌, map, ltb, ◌==◌, if◌then◌else◌,
  get_or, set, replicate, add32, sub32,
}

-- `blob_desc_t`
pub record Desc : Type 0 where
  pub refs : ℕ
  pub len : ℕ
  pub alloc_ms : ℕ

abbrev pub desc_zero : Desc
desc_zero = record { refs = 0; len = 0; alloc_ms = 0 }

pub record Class : Type 0 where
  pub block_size : ℕ
  pub capacity : ℕ
  pub desc : List Desc
  pub free_list : List ℕ
  pub free_count : ℕ
  pub high_water : ℕ

-- What memset leaves.
abbrev pub class_zero : Class
class_zero = record {
  block_size = 0;
  capacity = 0;
  desc = [];
  free_list = [];
  free_count = 0;
  high_water = 0;
}

-- free_list[i] = capacity - 1 - i
unfoldable pub free_from : ℕ → List ℕ
free_from zero = []
free_from (suc n) = n ∷ free_from n

unfoldable pub class_init : ℕ → ℕ → Class
unfolding free_from
class_init block_size capacity = record {
  block_size = block_size;
  capacity = capacity;
  desc = replicate capacity desc_zero;
  free_list = free_from capacity;
  free_count = capacity;
  high_water = 0;
}

abbrev pub desc_at : Class → ℕ → Desc
desc_at cl i = get_or cl.desc i desc_zero

abbrev pub set_desc : Class → ℕ → Desc → Class
set_desc cl i d = record cl { desc = set cl.desc i d }

-- The last free index, taken off the stack; the high water mark; the fresh descriptor. The caller
-- has seen that a block is free.
unfoldable pub take_block : Class → ℕ → ℕ → ℕ × Class
take_block cl len now_ms =
    let left : ℕ = cl.free_count - 1 in
    let idx : ℕ = get_or cl.free_list left 0 in
    let in_use : ℕ = (cl.capacity + 2 ^ 16 - left) % 2 ^ 16 in
    (
      idx,
      record cl {
        free_count = left;
        high_water = if ltb cl.high_water in_use then in_use else cl.high_water;
        desc = set cl.desc idx (record { refs = 1; len = len % 2 ^ 32; alloc_ms = now_ms });
      },
    )

-- A failed NEV_ASSERT or NEV_CHECK does not return.
pub data Outcome (A : Type 0) : Type 0 where
  done : A → Outcome A
  panic : Outcome A

-- NEV_CHECK, then the push on the free stack.
unfoldable pub put_block : Class → ℕ → Outcome Class
put_block cl idx =
    if ltb cl.free_count cl.capacity
    then done (record cl {
      free_list = set cl.free_list cl.free_count idx;
      free_count = cl.free_count + 1;
    })
    else panic

module _ (debug : Bool) where
  unfoldable pub retain_block : Class → ℕ → Outcome Class
  retain_block cl idx =
      let d = desc_at cl idx in
      if debug && d.refs == 0
      then panic
      else done (set_desc cl idx (record d { refs = add32 d.refs 1 }))

  -- The decrement wraps: a count of 0 goes to 2^32 - 1.
  unfoldable pub release_block : Class → ℕ → Outcome Class
  unfolding put_block
  release_block cl idx =
      let d = desc_at cl idx in
      let left = sub32 d.refs 1 in
      if debug && d.refs == 0
      then panic
      else if left == 0
      then put_block (set_desc cl idx (record { refs = left; len = 0; alloc_ms = 0 })) idx
      else done (set_desc cl idx (record d { refs = left }))

-- One class of nev_blob_check_stale: a block that is held too long gets a new stamp, so that it is
-- warned about once an interval.
unfoldable pub restamp : ℕ → ℕ → Desc → Desc
restamp max_age_ms now_ms d =
    if d.refs == 0
    then d
    else if ltb max_age_ms (sub32 now_ms d.alloc_ms)
    then record d { alloc_ms = now_ms }
    else d

abbrev pub sweep : ℕ → ℕ → Class → Class
sweep max_age_ms now_ms cl = record cl { desc = map (restamp max_age_ms now_ms) cl.desc }
