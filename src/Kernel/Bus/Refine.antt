-- ===== src/Kernel/Bus/Refine.antt =====
-- A subscriber's ring against a bounded queue of events.
use nev_os.Kernel.Bus.Queue.{
  IsSub, position, offer_new, offer, at_wrap, find_same-position, position-lt, Holds, append-Holds,
  evict-Holds, replace_at-Holds,
}
use nev_os.Base.{
  ℕ, ◌<◌, ◌≡◌, refl, sym, ap, ◌∙◌, ◌≢◌, ◌⊎◌, inl, inr, List, [], ◌∷◌, ◌++◌, arith, length, set,
  drop, subst, add32, ◌&&◌, Option, none, some, if◌then◌else◌, Bool-cases,
}
use native.Mathlib.Decide.{ℕ_discrete}
use nev_os.Kernel.Blob.Ledger.{Op, retains, releases}
use nev_os.Kernel.Bus.Events.{Event, is_coalescable}
use nev_os.Kernel.Bus.Subscriber.{
  Sub, Policy, drop_newest, drop_oldest, wrap, slot, enqueue, enqueue_new, replace_at, find_same,
  append, evict, EnqResult, enq_dropped, enq_replaced, enq_queued, if_blob,
}
use nev_os.Kernel.Bus.Ring.{queued, events_from, length-events_from, wrap_cases}

pub policy_cases : (p : Policy) → (p ≡ drop_newest) ⊎ (p ≡ drop_oldest)
policy_cases drop_newest = inl refl
policy_cases drop_oldest = inr refl

-- `enqueue` and `offer` once the event to replace is known.
abbrev pub enqueue_at : Sub → Event → Option ℕ → EnqResult × Sub × List Op
enqueue_at s ev none = enqueue_new s ev
enqueue_at s ev (some idx) = replace_at s ev idx

abbrev pub offer_at : Sub → Event → Option ℕ → EnqResult × List Event
offer_at s ev none = offer_new s (queued s) ev
offer_at s ev (some k) = (enq_replaced, set (queued s) k ev)

-- What an enqueue answers, and what the ring holds after it.
abbrev pub Answers : EnqResult × Sub × List Op → EnqResult × List Event → Type 0
Answers (r, s', ops) (r', q') = (r ≡ r') × Holds s' q'

module _ (s : Sub) (ev : Event) (v : IsSub s) where
  pub length-queued : length (queued s) ≡ s.count
  length-queued = length-events_from s.ring s.depth s.tail s.count

  dropped-Holds :
      Holds (record s { dropped = add32 s.dropped 1; last_dropped_type = ev.type }) (queued s)
  dropped-Holds = (
    record {
      some_room = v.some_room;
      depth_in = v.depth_in;
      ring_len = v.ring_len;
      tail_in = v.tail_in;
      count_in = v.count_in;
      head_at = v.head_at;
      marked = v.marked;
    },
    refl,
  )

  evicted-Holds : s.count ≡ s.depth → Holds (append (evict s) ev) (drop 1 (queued s) ++ ev ∷ [])
  unfolding evict
  evicted-Holds full =
      let e = evict-Holds s v (omega (arith, v.some_room)) in
      let a = append-Holds (evict s) ev e.0 (omega (arith, v.some_room)) in
      (a.0, a.1 ∙ ap (λ q. q ++ ev ∷ []) e.1)

  pub newest_eq :
      s.count ≡ s.depth
      → s.policy ≡ drop_newest
      → (enqueue_new s ev ≡ (
        enq_dropped,
        record s { dropped = add32 s.dropped 1; last_dropped_type = ev.type },
        [],
      ))
        × (offer_new s (queued s) ev ≡ (enq_dropped, queued s))
  unfolding enqueue_new offer_new
  newest_eq full p = ground (arith, length-queued)

  pub oldest_eq :
      s.count ≡ s.depth
      → s.policy ≡ drop_oldest
      → (enqueue_new s ev ≡ (
        enq_replaced,
        append (evict s) ev,
        if_blob (slot s s.tail) releases ++ if_blob ev retains,
      ))
        × (offer_new s (queued s) ev ≡ (enq_replaced, drop 1 (queued s) ++ ev ∷ []))
  unfolding enqueue_new offer_new
  oldest_eq full p = ground (arith, length-queued)

  pub room_eq :
      s.count ≢ s.depth
      → (enqueue_new s ev ≡ (enq_queued, append s ev, if_blob ev retains))
        × (offer_new s (queued s) ev ≡ (enq_queued, queued s ++ ev ∷ []))
  unfolding enqueue_new offer_new
  room_eq room = ground (arith, length-queued)

  enqueue_new-Answers : Answers (enqueue_new s ev) (offer_new s (queued s) ev)
  enqueue_new-Answers = elim (ℕ_discrete s.count s.depth) [
    | yes full ↦ elim (policy_cases s.policy) [
      | inl p ↦ let e = newest_eq full p in rw (e.0, e.1) (refl, dropped-Holds)
      | inr p ↦ let e = oldest_eq full p in rw (e.0, e.1) (refl, evicted-Holds full)
    ]
    | no room ↦
        let e = room_eq room in
        rw (e.0, e.1) (refl, append-Holds s ev v (omega (arith, v.count_in)))
  ]

  pub choice :
      (if s.coalesce && is_coalescable ev.type then find_same s ev.type 0 s.count else none)
      ≡ at_wrap s
          (if s.coalesce && is_coalescable ev.type then position ev.type 0 (queued s) else none)
  choice =
      let start : wrap s.tail 0 s.depth ≡ s.tail =
        omega (arith, wrap_cases s.tail 0 s.depth v.tail_in (omega arith) v.depth_in) in
      let found : find_same s ev.type 0 s.count ≡ at_wrap s (position ev.type 0 (queued s)) =
        subst
          (λ t.
            find_same s ev.type 0 s.count
            ≡ at_wrap s (position ev.type 0 (events_from s.ring s.depth t s.count)))
          start (find_same-position s ev.type 0 s.count v (omega (arith, v.count_in))) in
      elim (Bool-cases (s.coalesce && is_coalescable ev.type)) [
        | inl e ↦ rw e found
        | inr e ↦ rw e refl
      ]

  -- The place that the coalescing loop finds is in the queue.
  pub place-lt :
      (k : ℕ)
      → some k
        ≡ (if s.coalesce && is_coalescable ev.type then position ev.type 0 (queued s) else none)
      → k < s.count
  place-lt k e = elim (Bool-cases (s.coalesce && is_coalescable ev.type)) [
    | inl b ↦
        let at : position ev.type 0 (queued s) ≡ some k = ground (arith, e, b) in
        omega (arith, position-lt ev.type 0 (queued s) k at, length-queued)
    | inr b ↦ absurd (ground (arith, e, b))
  ]

  by_choice :
      (o : Option ℕ)
      → o ≡ (if s.coalesce && is_coalescable ev.type then position ev.type 0 (queued s) else none)
      → Answers (enqueue_at s ev (at_wrap s o)) (offer_at s ev o)
  unfolding replace_at
  by_choice none e = enqueue_new-Answers
  by_choice (some k) e = (refl, replace_at-Holds s ev k v (place-lt k e))

-- `enqueue` refines the queue: on a subscriber in order it answers as `offer` does on the queued
-- events, leaves the ring holding the queue that `offer` leaves, and keeps the subscriber in order.
pub enqueue-Answers :
    (s : Sub) (ev : Event) → IsSub s → Answers (enqueue s ev) (offer s (queued s) ev)
unfolding enqueue offer
enqueue-Answers s ev v =
    subst (λ o. Answers (enqueue_at s ev o) (offer s (queued s) ev)) (sym (choice s ev v))
      (by_choice s ev v _ refl)
