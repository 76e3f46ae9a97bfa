-- ===== src/Kernel/Bus/Queue.antt =====
-- A subscriber's ring as a bounded queue of events, and what one step of the ring does to it.
use nev_os.Base.{
  ℕ, zero, suc, ◌+◌, ◌-◌, ◌%◌, ◌≤◌, ◌<◌, ◌≡◌, refl, sym, ap, ◌∙◌, ◌≢◌, List, [], ◌∷◌, ◌++◌, arith,
  length, set, drop, length-set, subst, u8_mod, ◌&&◌, Option, none, some, if◌then◌else◌, ◌==◌,
}
use nev_os.Kernel.Bus.Events.{Event, is_coalescable}
use nev_os.Kernel.Bus.Subscriber.{
  Sub, drop_newest, drop_oldest, wrap, slot, replace_at, find_same, append, evict, EnqResult,
  enq_dropped, enq_replaced, enq_queued,
}
use nev_os.Kernel.Bus.Ring.{
  queued, events_from, events_from-cons, events_from-append, events_from-set, wrap-lt, wrap_next,
  wrap-wrap,
}

pub record IsSub (s : Sub) : Type 0 where
  pub some_room : 0 < s.depth
  pub depth_in : s.depth ≤ 32
  pub ring_len : length s.ring ≡ 32
  pub tail_in : s.tail < s.depth
  pub count_in : s.count ≤ s.depth
  pub head_at : s.head ≡ wrap s.tail s.count s.depth
  pub marked : s.count ≤ s.high_water

-- The place, counted from k, of the first event of a type.
unfoldable pub position : ℕ → ℕ → List Event → Option ℕ
position type k [] = none
position type k (e ∷ q) =
    let rest = position type (k + 1) q in if e.type == type then some k else rest

-- A queue of at most `depth` events: a full one drops the arriving event or its oldest, by its
-- policy.
unfoldable pub offer_new : Sub → List Event → Event → EnqResult × List Event
offer_new s q ev =
    if length q == s.depth
    then (elim s.policy [
      | drop_newest ↦ (enq_dropped, q)
      | drop_oldest ↦ (enq_replaced, drop 1 q ++ ev ∷ [])
    ])
    else (enq_queued, q ++ ev ∷ [])

-- Where the subscriber is willing and the type is a snapshot, the first queued event of that type
-- is replaced where it stands.
unfoldable pub offer : Sub → List Event → Event → EnqResult × List Event
offer s q ev = elim (if s.coalesce && is_coalescable ev.type then position ev.type 0 q else none) [
  | some k ↦ (enq_replaced, set q k ev)
  | none ↦ offer_new s q ev
]

abbrev pub at_wrap : Sub → Option ℕ → Option ℕ
at_wrap s none = none
at_wrap s (some k) = some (wrap s.tail k s.depth)

-- The coalescing loop finds the place that the queue has.
pub find_same-position :
    (s : Sub) (type k rounds : ℕ)
    → IsSub s
    → k + rounds ≤ s.depth
    → find_same s type k rounds
      ≡ at_wrap s (position type k (events_from s.ring s.depth (wrap s.tail k s.depth) rounds))
unfolding find_same position
find_same-position s type k zero v h = refl
find_same-position s type k (suc rounds) v h =
    let here = wrap s.tail k s.depth in
    let step : k + 1 ≡ suc k = omega arith in
    let rest =
      subst
        (λ j.
          find_same s type (k + 1) rounds
          ≡ at_wrap s
              (position type (k + 1) (events_from s.ring s.depth (wrap s.tail j s.depth) rounds)))
        step (find_same-position s type (k + 1) rounds v (omega arith)) in
    let shape : events_from s.ring s.depth here (suc rounds)
        ≡ slot s here ∷ events_from s.ring s.depth (wrap s.tail (suc k) s.depth) rounds =
      events_from-cons s.ring s.depth here rounds
        (wrap-lt s.tail k s.depth v.tail_in (omega arith) v.depth_in) (omega arith) v.depth_in
      ∙ ap (λ t. slot s here ∷ events_from s.ring s.depth t rounds)
          (wrap_next s.tail k s.depth v.tail_in (omega arith) v.depth_in) in
    subst (λ q. find_same s type k (suc rounds) ≡ at_wrap s (position type k q)) (sym shape)
      (ground (arith, rest))

pub position-lt :
    (type k : ℕ) (q : List Event) (j : ℕ)
    → position type k q ≡ some j
    → (k ≤ j) × (j < k + length q)
unfolding position
position-lt type k [] j e = absurd (ground arith)
position-lt type k (x ∷ q) j e = ground (arith, position-lt type (k + 1) q j)

-- A step of the ring that keeps its subscriber in order and holds the queue q.
abbrev pub Holds : Sub → List Event → Type 0
Holds s q = IsSub s × (queued s ≡ q)

pub append-Holds :
    (s : Sub) (ev : Event) → IsSub s → s.count < s.depth → Holds (append s ev) (queued s ++ ev ∷ [])
unfolding append
append-Holds s ev v h = (
  record {
    some_room = v.some_room;
    depth_in = v.depth_in;
    ring_len = length-set s.ring s.head ev ∙ v.ring_len;
    tail_in = v.tail_in;
    count_in = omega arith;
    head_at =
        ap (λ t. wrap t 1 s.depth) v.head_at
        ∙ wrap_next s.tail s.count s.depth v.tail_in h v.depth_in
        ∙ ap (λ n. wrap s.tail n s.depth) one_more;
    marked = ground arith;
  },
  subst (λ n. events_from (set s.ring s.head ev) s.depth s.tail n ≡ queued s ++ ev ∷ []) one_more
      (subst (λ t. events_from (set s.ring t ev) s.depth s.tail (suc s.count) ≡ queued s ++ ev ∷ [])
        (sym v.head_at)
        (events_from-append s.ring s.depth s.tail s.count ev v.tail_in v.depth_in h (omega arith))),
)
  where
    one_more : suc s.count ≡ (s.count + 1) % u8_mod
    one_more = omega arith

pub evict-Holds : (s : Sub) → IsSub s → s.count ≢ 0 → Holds (evict s) (drop 1 (queued s))
unfolding evict
evict-Holds s v h = (
  record {
    some_room = v.some_room;
    depth_in = v.depth_in;
    ring_len = v.ring_len;
    tail_in = wrap-lt s.tail 1 s.depth v.tail_in v.some_room v.depth_in;
    count_in = omega arith;
    head_at =
        v.head_at
        ∙ ap (λ n. wrap s.tail n s.depth) one_less
        ∙ sym (wrap-wrap s.tail (s.count - 1) s.depth v.tail_in (omega arith) v.depth_in);
    marked = omega arith;
  },
  sym (
      ap (drop 1) (
        ap (events_from s.ring s.depth s.tail) one_less
        ∙ events_from-cons s.ring s.depth s.tail (s.count - 1) v.tail_in (omega arith) v.depth_in)),
)
  where
    one_less : s.count ≡ suc (s.count - 1)
    one_less = omega arith

pub replace_at-Holds :
    (s : Sub) (ev : Event) (k : ℕ)
    → IsSub s
    → k < s.count
    → Holds (replace_at s ev (wrap s.tail k s.depth)).1 (set (queued s) k ev)
unfolding replace_at
replace_at-Holds s ev k v h = (
  record {
    some_room = v.some_room;
    depth_in = v.depth_in;
    ring_len = length-set s.ring (wrap s.tail k s.depth) ev ∙ v.ring_len;
    tail_in = v.tail_in;
    count_in = v.count_in;
    head_at = v.head_at;
    marked = v.marked;
  },
  events_from-set s.ring s.depth s.tail k ev v.tail_in v.depth_in (omega arith) (omega arith)
      s.count h v.count_in,
)
