-- ===== src/Kernel/Store.antt =====
-- components/nev_kernel/src/nev_store.c: the settings, kept in memory and written back later. The
-- persistence of a target is an interface, as it is in the code, and so are the number printing and
-- parsing of the C library. A setting is its number in the table, which also stands for its key,
-- since the keys of the table differ. A text is its bytes before the terminator.
pub mod Table
pub mod Laws
pub mod Slots
pub mod Commit
pub mod Loads
pub mod Moves
pub mod Range
mod Tests
pub mod Keep
pub mod Restart
use nev_os.Base.{
  ℕ, zero, suc, ◌+◌, ◌-◌, ◌%◌, ◌^◌, Bool, true, false, not, ◌&&◌, ◌||◌, Option, none, some, List,
  [], ◌∷◌, ltb, leb, ◌==◌, if◌then◌else◌, length, take, get_or, set, u32_mod, sub32,
}
use nev_os.Kernel.Store.Table.{Desc, blank, is_text, clamp_num, text_limit, str_max}

pub data Err : Type 0 where
  ok invalid_arg invalid_state : Err
  backend : ℕ → Err

abbrev pub is_ok : Err → Bool
is_ok ok = true
is_ok invalid_arg = false
is_ok invalid_state = false
is_ok (backend n) = false

-- nev_store_backend_t
pub record Backend (Disk : Type 0) : Type 0 where
  pub start : Disk → Disk × Err
  pub close : Disk → Disk
  pub load : Disk → ℕ → Option (List ℕ)
  pub save : Disk → ℕ → List ℕ → Disk × Err
  pub flush : Disk → Disk × Err
  pub erase_all : Disk → Disk × Err

-- "%u" and strtoul
pub record Decimal : Type 0 where
  pub print : ℕ → List ℕ
  pub parse : List ℕ → ℕ

pub record Slot : Type 0 where
  pub num : ℕ
  pub str : List ℕ
  pub dirty : Bool

abbrev pub slot_zero : Slot
slot_zero = record { num = 0; str = []; dirty = false }

pub record Store (Disk : Type 0) : Type 0 where
  pub slots : List Slot
  pub ready : Bool
  pub dirty : Bool
  pub dirty_since_ms : ℕ
  pub disk : Disk

-- NEV_EVT_STORAGE_SETTING_CHANGED, with the setting and its number
pub record Changed : Type 0 where
  pub key : ℕ
  pub value : ℕ

abbrev pub writeback_delay_ms : ℕ
writeback_delay_ms = 600

abbrev pub same_text : List ℕ → List ℕ → Bool
same_text [] [] = true
same_text [] (y ∷ ys) = false
same_text (x ∷ xs) [] = false
same_text (x ∷ xs) (y ∷ ys) = x == y && same_text xs ys

module _ {Disk : Type 0} (b : Backend Disk) (c : Decimal) (ds : List Desc) where
  abbrev pub number : Desc → List ℕ → ℕ
  number d text = clamp_num d (c.parse text % u32_mod)

  -- A setting from its text: the default's, or the one that was loaded.
  abbrev pub set_from : Desc → List ℕ → Slot → Slot
  set_from d text s =
      if is_text d
      then record s { str = take (text_limit d) text }
      else record s { num = number d text }

  abbrev pub apply_default : Desc → Slot → Slot
  apply_default d s = record (set_from d d.default_text s) { dirty = false }

  abbrev pub defaults : List Desc → List Slot → List Slot
  defaults [] ss = ss
  defaults (d ∷ rest) [] = []
  defaults (d ∷ rest) (s ∷ ss) = apply_default d s ∷ defaults rest ss

  abbrev pub load_slot : Desc → Option (List ℕ) → Slot → Slot
  load_slot d none s = s
  load_slot d (some text) s = set_from d text s

  -- The settings from number `i` on.
  abbrev pub load_from : Disk → ℕ → List Desc → List Slot → List Slot
  load_from disk i [] ss = ss
  load_from disk i (d ∷ rest) [] = []
  load_from disk i (d ∷ rest) (s ∷ ss) =
      load_slot d (b.load disk i) s ∷ load_from disk (i + 1) rest ss

  unfoldable pub init : Store Disk → Store Disk
  init s =
      if s.ready
      then s
      else let fresh = defaults ds s.slots in
        let (disk, rc) = b.start s.disk in
        if not (is_ok rc) then record s { slots = fresh; ready = true; disk = disk } else record s {
          slots = load_from disk 0 ds fresh;
          ready = true;
          dirty = false;
          disk = disk;
        }

  abbrev pub text_of : Desc → Slot → List ℕ
  text_of d s = take (str_max - 1) (if is_text d then s.str else c.print s.num)

  abbrev pub cons_slot : Slot → List Slot × Disk × Err → List Slot × Disk × Err
  cons_slot s (ss, disk, worst) = (s ∷ ss, disk, worst)

  -- The settings from number `i` on; one that does not persist stays dirty.
  unfoldable pub commit_from : ℕ → List Desc → List Slot → Disk → Err → List Slot × Disk × Err
  commit_from i [] ss disk worst = (ss, disk, worst)
  commit_from i (d ∷ rest) [] disk worst = ([], disk, worst)
  commit_from i (d ∷ rest) (s ∷ ss) disk worst = elim s.dirty [
    | false ↦ cons_slot s (commit_from (i + 1) rest ss disk worst)
    | true ↦
        let (disk', rc) = b.save disk i (text_of d s) in
        elim (is_ok rc) [
          | true ↦ cons_slot (record s { dirty = false }) (commit_from (i + 1) rest ss disk' worst)
          | false ↦ cons_slot s (commit_from (i + 1) rest ss disk' rc)
        ]
  ]

  unfoldable pub commit : Store Disk → Err × Store Disk
  commit s =
      if not s.ready || not s.dirty
      then (ok, s)
      else let (slots, disk, worst) = commit_from 0 ds s.slots s.disk ok in
        let (disk', frc) = b.flush disk in
        let rc = if is_ok frc then worst else frc in
        (rc, record s { slots = slots; disk = disk'; dirty = not (is_ok rc) })

  abbrev pub desc_at : ℕ → Desc
  desc_at key = get_or ds key blank

  abbrev pub slot_at : Store Disk → ℕ → Slot
  slot_at s key = get_or s.slots key slot_zero

  abbrev pub mark_dirty : Store Disk → ℕ → Slot → Store Disk
  mark_dirty s key slot = record s {
    slots = set s.slots key (record slot { dirty = true });
    dirty = true;
    dirty_since_ms = 0;
  }

  -- `bus` is nev_bus_is_ready().
  abbrev pub publish_changed : Bool → ℕ → ℕ → List Changed
  publish_changed bus key v = if bus then (record { key = key; value = v }) ∷ [] else []

  unfoldable pub set_num : Bool → Store Disk → ℕ → ℕ → Err × List Changed × Store Disk
  set_num bus s key value =
      let v = clamp_num (desc_at key) value in
      if leb (length ds) key
      then (invalid_arg, [], s)
      else if is_text (desc_at key)
      then (invalid_arg, [], s)
      else if not s.ready
      then (invalid_state, [], s)
      else if v == (slot_at s key).num
      then (ok, [], s)
      else (ok, publish_changed bus key v, mark_dirty s key (record (slot_at s key) { num = v }))

  unfoldable pub set_str : Bool → Store Disk → ℕ → List ℕ → Err × List Changed × Store Disk
  set_str bus s key text =
      if leb (length ds) key
      then (invalid_arg, [], s)
      else if not (is_text (desc_at key))
      then (invalid_arg, [], s)
      else if not s.ready
      then (invalid_state, [], s)
      else if ltb (text_limit (desc_at key)) (length text)
      then (invalid_arg, [], s)
      else if same_text text (slot_at s key).str
      then (ok, [], s)
      else (ok, publish_changed bus key 0, mark_dirty s key (record (slot_at s key) { str = text }))

  unfoldable pub tick : Store Disk → ℕ → Store Disk
  tick s now =
      if not s.ready || not s.dirty
      then s
      else if s.dirty_since_ms == 0
      then record s { dirty_since_ms = if now == 0 then 1 else now }
      else if leb writeback_delay_ms (sub32 now s.dirty_since_ms)
      then (commit (record s { dirty_since_ms = 0 })).1
      else s

  abbrev pub announce : Bool → ℕ → List Desc → List Slot → List Changed
  announce bus key [] ss = []
  announce bus key (d ∷ rest) [] = []
  announce true key (d ∷ rest) (s ∷ ss) =
      record { key = key; value = if is_text d then 0 else s.num } ∷ announce true (key + 1) rest ss
  announce false key (d ∷ rest) (s ∷ ss) = []

  -- An erasure that succeeds is flushed.
  abbrev pub flush_after : Disk × Err → Disk × Err
  flush_after (disk, rc) = if is_ok rc then b.flush disk else (disk, rc)

  unfoldable pub factory_reset : Bool → Store Disk → Err × List Changed × Store Disk
  factory_reset bus s =
      if not s.ready
      then (invalid_state, [], s)
      else let fresh = defaults ds s.slots in
        let (disk, rc) = flush_after (b.erase_all s.disk) in
        (
          rc,
          announce bus 0 ds fresh,
          record s { slots = fresh; dirty = false; dirty_since_ms = 0; disk = disk },
        )

  abbrev pub wiped : List Slot → List Slot
  wiped [] = []
  wiped (s ∷ ss) = slot_zero ∷ wiped ss

  unfoldable pub deinit : Store Disk → Store Disk
  deinit s =
      if not s.ready
      then s
      else let s' = (commit s).1 in
        record s' { slots = wiped s'.slots; ready = false; dirty = false; disk = b.close s'.disk }
