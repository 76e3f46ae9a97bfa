-- ===== src/Kernel/Bus/Subscriber.antt =====
-- One subscriber of components/nev_kernel/src/nev_bus.c: its ring, and what `enqueue`,
-- nev_bus_recv and nev_bus_flush do to it. The calls that the bus makes to the blob pool are
-- returned in order. The semaphore is its count, after nev_sync.h: it starts empty and
-- saturates at `depth`.
use nev_os.Base.{
  ℕ, zero, suc, ◌+◌, ◌-◌, ◌%◌, Bool, ◌&&◌, Option, none, some, List, [], ◌∷◌, ◌++◌, ltb, ◌==◌,
  if◌then◌else◌, get_or, set, add32, u8_mod,
}
use nev_os.Kernel.Blob.Ledger.{Op, retains, releases}
use nev_os.Kernel.Bus.Events.{Event, event_zero, carries_blob, is_coalescable}

pub data Policy : Type 0 where
  drop_newest drop_oldest : Policy

pub record Sub : Type 0 where
  pub in_use : Bool
  pub name : List ℕ
  pub domains : ℕ
  pub depth : ℕ
  pub policy : Policy
  pub coalesce : Bool
  pub ring : List Event
  pub head : ℕ
  pub tail : ℕ
  pub count : ℕ
  pub high_water : ℕ
  pub received : ℕ
  pub dropped : ℕ
  pub coalesced : ℕ
  pub dropped_reported : ℕ
  pub last_dropped_type : ℕ
  pub sem : ℕ

-- ENQ_DROPPED, ENQ_REPLACED, ENQ_QUEUED
pub data EnqResult : Type 0 where
  enq_dropped enq_replaced enq_queued : EnqResult

-- (uint8_t)((start + k) % depth)
abbrev pub wrap : ℕ → ℕ → ℕ → ℕ
wrap start k depth = (start + k) % depth % u8_mod

abbrev pub slot : Sub → ℕ → Event
slot s idx = get_or s.ring idx event_zero

abbrev pub if_blob : Event → (ℕ → Op) → List Op
if_blob ev op = if carries_blob ev then op ev.handle ∷ [] else []

-- The rounds k, k + 1, … of the coalescing loop that are left: the index of the first queued event
-- of the type.
unfoldable pub find_same : Sub → ℕ → ℕ → ℕ → Option ℕ
find_same s type k zero = none
find_same s type k (suc rounds) =
    let rest = find_same s type (k + 1) rounds in
    if (slot s (wrap s.tail k s.depth)).type == type then some (wrap s.tail k s.depth) else rest

unfoldable pub replace_at : Sub → Event → ℕ → EnqResult × Sub × List Op
replace_at s ev idx = (
  enq_replaced,
  record s {
    ring = set s.ring idx ev;
    coalesced = add32 s.coalesced 1;
    received = add32 s.received 1;
  },
  if_blob (slot s idx) releases ++ if_blob ev retains,
)

-- The oldest event goes.
unfoldable pub evict : Sub → Sub
evict s = record s {
  last_dropped_type = (slot s s.tail).type;
  tail = wrap s.tail 1 s.depth;
  count = s.count - 1;
  dropped = add32 s.dropped 1;
}

unfoldable pub append : Sub → Event → Sub
append s ev =
    let count' : ℕ = (s.count + 1) % u8_mod in
    record s {
      ring = set s.ring s.head ev;
      head = wrap s.head 1 s.depth;
      count = count';
      high_water = if ltb s.high_water count' then count' else s.high_water;
      received = add32 s.received 1;
    }

unfoldable pub enqueue_new : Sub → Event → EnqResult × Sub × List Op
enqueue_new s ev =
    if s.count == s.depth
    then (elim s.policy [
      | drop_newest ↦
          (enq_dropped, record s { dropped = add32 s.dropped 1; last_dropped_type = ev.type }, [])
      | drop_oldest ↦ (
        enq_replaced,
        append (evict s) ev,
        if_blob (slot s s.tail) releases ++ if_blob ev retains,
      )
    ])
    else (enq_queued, append s ev, if_blob ev retains)

unfoldable pub enqueue : Sub → Event → EnqResult × Sub × List Op
enqueue s ev =
    elim (if s.coalesce && is_coalescable ev.type then find_same s ev.type 0 s.count else none) [
      | some idx ↦ replace_at s ev idx
      | none ↦ enqueue_new s ev
    ]

-- nev_sem_give saturates.
unfoldable pub give : Sub → Sub
give s = record s { sem = if ltb s.sem s.depth then s.sem + 1 else s.sem }

-- The pop of nev_bus_recv, under the lock.
unfoldable pub pop : Sub → Option Event × Sub
pop s =
    if ltb 0 s.count
    then (some (slot s s.tail), record s { tail = wrap s.tail 1 s.depth; count = s.count - 1 })
    else (none, s)

-- nev_bus_recv: no token is a timeout.
unfoldable pub recv : Sub → Option Event × Sub
recv s = if s.sem == 0 then (none, s) else pop (record s { sem = s.sem - 1 })

-- The loop of nev_bus_flush, one round for each queued event.
unfoldable pub drain : Sub → ℕ → List Op
drain s zero = []
drain s (suc rounds) =
    if_blob (slot s s.tail) releases
    ++ drain (record s { tail = wrap s.tail 1 s.depth; count = s.count - 1 }) rounds

unfoldable pub flush : Sub → Sub × List Op
flush s = (record s { head = 0; tail = 0; count = 0; sem = 0 }, drain s s.count)
