-- ===== src/Kernel/Bus/Events.antt =====
-- The event and its vocabulary: include/nev_kernel/nev_event.h, include/nev_kernel/nev_events.h and
-- src/nev_events.c of components/nev_kernel.
use Prim.Native.Nat.{bit_and}
use nev_os.Base.{
  ℕ, ◌-◌, ◌/◌, ◌%◌, ◌^◌, Bool, ◌||◌, not, List, ◌==◌, if◌then◌else◌, u32_mod, replicate,
}

-- `handle` is the payload's first member as the bus reads it, `p.blob.handle`; `rest` is the
-- 14 bytes that follow it in the payload.
pub record Event : Type 0 where
  pub type : ℕ
  pub flags : ℕ
  pub source : ℕ
  pub seq : ℕ
  pub ts_us : ℕ
  pub handle : ℕ
  pub rest : List ℕ

abbrev pub event_zero : Event
event_zero = record {
  type = 0;
  flags = 0;
  source = 0;
  seq = 0;
  ts_us = 0;
  handle = 0;
  rest = replicate 14 0;
}

abbrev pub event_make : ℕ → ℕ → Event
event_make type source = record event_zero { type = type; source = source }

-- flags & NEV_EVF_BLOB
abbrev pub carries_blob : Event → Bool
carries_blob ev = ev.flags % 2 == 1

-- NEV_TYPE_DOMAIN_ID
abbrev pub domain_id : ℕ → ℕ
domain_id type = type / 2 ^ 8 % 2 ^ 8

-- NEV_TYPE_DOMAIN_MASK, for the domain ids 1 to 32.
abbrev pub domain_mask : ℕ → ℕ
domain_mask type = 2 ^ (domain_id type - 1) % u32_mod

-- sub->domains & mask
abbrev pub in_domains : ℕ → ℕ → Bool
in_domains domains type = not (bit_and domains (domain_mask type) == 0)

-- Frame stats, touch, tilt, battery, heap stats, mood, partial transcript.
unfoldable pub is_coalescable : ℕ → Bool
is_coalescable type =
    type == 0x0301
    || (type == 0x0201
        || (type == 0x0206
            || (type == 0x0901 || (type == 0x0106 || (type == 0x0601 || type == 0x0804)))))

abbrev pub sys_bus_overflow : ℕ
sys_bus_overflow = 0x0105

abbrev pub src_kernel : ℕ
src_kernel = 1

abbrev pub src_test : ℕ
src_test = 15

-- The one producer of each domain; the numbers are those of `enum nev_domain_id` and
-- `enum nev_source`.
unfoldable pub expected_source : ℕ → ℕ
expected_source id =
    if id == 1
    then 1
    else if id == 2
    then 4
    else if id == 3
    then 3
    else if id == 4
    then 5
    else if id == 5
    then 6
    else if id == 6
    then 10
    else if id == 7
    then 11
    else if id == 8
    then 12
    else if id == 9
    then 7
    else if id == 10
    then 9
    else if id == 11
    then 13
    else if id == 12
    then 8
    else 0
