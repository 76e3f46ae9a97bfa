-- ===== src/Kernel/Bus.antt =====
-- components/nev_kernel/src/nev_bus.c: the bus over its 16 subscriber slots. A subscription is the
-- index of its slot; the calls that an operation makes to the blob pool are returned in order. An
-- operation runs whole: its locked section and the signals after it are one step.
pub mod Events
pub mod Subscriber
pub mod Ring
pub mod Refine
pub mod Queue
pub mod Delivery
pub mod Report
pub mod Balance
pub mod Account
pub mod Slots
pub mod Subscribe
mod Tests
use nev_os.Base.{
  ℕ, zero, suc, ◌+◌, ◌-◌, ◌/◌, ◌%◌, ◌^◌, Bool, true, false, ◌&&◌, ◌||◌, not, Option, none, some,
  List, [], ◌∷◌, ◌++◌, ltb, ◌==◌, if◌then◌else◌, get_or, set, take, replicate, length, add32,
  u8_mod,
}
use nev_os.Kernel.Blob.Block.{Outcome, done, panic}
use nev_os.Kernel.Blob.Ledger.{Op}
use nev_os.Kernel.Bus.Events.{
  Event, event_zero, event_make, in_domains, domain_id, expected_source, src_test, src_kernel,
  sys_bus_overflow,
}
use nev_os.Kernel.Bus.Subscriber.{
  Sub, Policy, drop_newest, EnqResult, enq_dropped, enq_replaced, enq_queued, enqueue, give, recv,
  flush,
}

pub data Err : Type 0 where
  ok dropped invalid_state no_mem : Err

pub record Stats : Type 0 where
  pub published : ℕ
  pub delivered : ℕ
  pub dropped : ℕ
  pub sub_count : ℕ

pub record Bus : Type 0 where
  pub ready : Bool
  pub subs : List Sub
  pub seq : ℕ
  pub stats : Stats

pub record Cfg : Type 0 where
  pub name : List ℕ
  pub domains : ℕ
  pub depth : ℕ
  pub full_policy : Policy
  pub coalesce : Bool

abbrev pub max_subs : ℕ
max_subs = 16

abbrev pub max_depth : ℕ
max_depth = 32

abbrev pub stats_zero : Stats
stats_zero = record { published = 0; delivered = 0; dropped = 0; sub_count = 0 }

-- A slot after memset.
abbrev pub sub_zero : Sub
sub_zero = record {
  in_use = false;
  name = [];
  domains = 0;
  depth = 0;
  policy = drop_newest;
  coalesce = false;
  ring = replicate 32 event_zero;
  head = 0;
  tail = 0;
  count = 0;
  high_water = 0;
  received = 0;
  dropped = 0;
  coalesced = 0;
  dropped_reported = 0;
  last_dropped_type = 0;
  sem = 0;
}

-- `made` is what nev_mutex_init answers.
unfoldable pub init : Err → Bus → Err × Bus
init made b = if b.ready then (ok, b) else elim made [
  | ok ↦
      (ok, record { ready = true; subs = replicate max_subs sub_zero; seq = 0; stats = stats_zero })
  | dropped ↦ (dropped, b)
  | invalid_state ↦ (invalid_state, b)
  | no_mem ↦ (no_mem, b)
]

-- One slot of nev_bus_deinit.
unfoldable pub close : Sub → Sub × List Op
close s =
    if s.in_use then (let (s', ops) = flush s in (record s' { in_use = false }, ops)) else (s, [])

unfoldable pub close_all : List Sub → List Sub × List Op
close_all [] = ([], [])
close_all (s ∷ ss) =
    let (s', ops) = close s in let (ss', more) = close_all ss in (s' ∷ ss', ops ++ more)

unfoldable pub deinit : Bus → Bus × List Op
deinit b =
    if b.ready
    then (let (subs', ops) = close_all b.subs in (record b { ready = false; subs = subs' }, ops))
    else (b, [])

-- The first slot from index i on that is not in use.
unfoldable pub free_slot : ℕ → List Sub → Option ℕ
free_slot i [] = none
free_slot i (s ∷ ss) = let rest = free_slot (i + 1) ss in if s.in_use then rest else some i

abbrev pub subscribed : Cfg → Sub
subscribed cfg = record sub_zero {
  name = take 15 cfg.name;
  domains = cfg.domains;
  depth = cfg.depth;
  policy = cfg.full_policy;
  coalesce = cfg.coalesce;
}

abbrev pub opened : Cfg → Bus → ℕ → Bus
opened cfg b i = record b {
  subs = set b.subs i (record (subscribed cfg) { in_use = true });
  stats = record b.stats { sub_count = (b.stats.sub_count + 1) % u8_mod };
}

-- `sem_made` says whether nev_sem_init succeeds. A slot whose semaphore fails is left filled in and
-- not in use.
abbrev pub open_slot : Bool → Cfg → Bus → Option ℕ → Option ℕ × Bus
open_slot sem_made cfg b none = (none, b)
open_slot sem_made cfg b (some i) =
    if sem_made
    then (some i, opened cfg b i)
    else (none, record b { subs = set b.subs i (subscribed cfg) })

unfoldable pub subscribe : Bool → Cfg → Bus → Option ℕ × Bus
subscribe sem_made cfg b =
    if not b.ready
    then (none, b)
    else if cfg.depth == 0 || ltb max_depth cfg.depth
    then (none, b)
    else if cfg.domains == 0
    then (none, b)
    else open_slot sem_made cfg b (free_slot 0 b.subs)

abbrev pub addressed : Event → Sub → Bool
addressed ev s = s.in_use && in_domains s.domains ev.type

-- What the loop of nev_bus_publish has done so far: the slots, the statistics, the slots to signal,
-- whether an event was dropped, and the calls to the blob pool.
pub record Round : Type 0 where
  pub subs : List Sub
  pub stats : Stats
  pub signals : List ℕ
  pub any_dropped : Bool
  pub ops : List Op

-- The switch on the result of `enqueue`.
unfoldable pub count_result : EnqResult → Stats → Stats
count_result enq_queued st = record st { delivered = add32 st.delivered 1 }
count_result enq_replaced st = record st { delivered = add32 st.delivered 1 }
count_result enq_dropped st = record st { dropped = add32 st.dropped 1 }

abbrev pub signal_of : EnqResult → ℕ → List ℕ
signal_of enq_queued i = i ∷ []
signal_of enq_replaced i = []
signal_of enq_dropped i = []

abbrev pub is_dropped : EnqResult → Bool
is_dropped enq_queued = false
is_dropped enq_replaced = false
is_dropped enq_dropped = true

-- One turn of the loop, at slot i.
unfoldable pub visit : Event → ℕ → Sub → Stats → Round
visit ev i s st =
    if addressed ev s
    then (let (r, s', ops) = enqueue s ev in
        record {
          subs = s' ∷ [];
          stats = count_result r st;
          signals = signal_of r i;
          any_dropped = is_dropped r;
          ops = ops;
        })
    else (record { subs = s ∷ []; stats = st; signals = []; any_dropped = false; ops = [] })

-- The turns from slot i on.
unfoldable pub deliver : Event → ℕ → List Sub → Stats → Round
deliver ev i [] st = record { subs = []; stats = st; signals = []; any_dropped = false; ops = [] }
deliver ev i (s ∷ ss) st =
    let here = visit ev i s st in
    let rest = deliver ev (i + 1) ss here.stats in
    record {
      subs = here.subs ++ rest.subs;
      stats = rest.stats;
      signals = here.signals ++ rest.signals;
      any_dropped = here.any_dropped || rest.any_dropped;
      ops = here.ops ++ rest.ops;
    }

-- The signals, after the lock.
unfoldable pub give_all : List ℕ → List Sub → List Sub
give_all [] subs = subs
give_all (i ∷ is) subs = give_all is (set subs i (give (get_or subs i sub_zero)))

abbrev pub stamp : Event → ℕ → ℕ → Event
stamp ev seq now = record ev { seq = seq; ts_us = now }

-- NEV_ASSERT is checked in a debug build only.
abbrev pub legitimate : Event → Bool
legitimate ev = ev.source == src_test || ev.source == expected_source (domain_id ev.type)

unfoldable pub publish_ready : Event → ℕ → Bus → Err × Bus × List Op
publish_ready ev now b =
    let seq' = add32 b.seq 1 in
    let round =
      deliver (stamp ev seq' now) 0 b.subs
        (record b.stats { published = add32 b.stats.published 1 }) in
    (
      if round.any_dropped then dropped else ok,
      record b { subs = give_all round.signals round.subs; seq = seq'; stats = round.stats },
      round.ops,
    )

unfoldable pub publish : Bool → Event → ℕ → Bus → Outcome (Err × Bus × List Op)
publish debug ev now b =
    if not b.ready
    then done (invalid_state, b, [])
    else if debug && not (legitimate ev)
    then panic
    else done (publish_ready ev now b)

abbrev pub publish_type : Bool → ℕ → ℕ → ℕ → Bus → Outcome (Err × Bus × List Op)
publish_type debug type source now b = publish debug (event_make type source) now b

-- nev_bus_recv on slot i.
unfoldable pub recv_at : ℕ → Bus → Option Event × Bus
recv_at i b =
    let s = get_or b.subs i sub_zero in
    if b.ready && s.in_use
    then (let (got, s') = recv s in (got, record b { subs = set b.subs i s' }))
    else (none, b)

-- nev_bus_flush on slot i.
unfoldable pub flush_at : ℕ → Bus → Bus × List Op
flush_at i b =
    if b.ready
    then (let (s', ops) = flush (get_or b.subs i sub_zero) in
        (record b { subs = set b.subs i s' }, ops))
    else (b, [])
