-- ===== src/Kernel/Bus/Delivery.antt =====
-- nev_bus_publish over all slots: who gets the event, and what it answers.
use nev_os.Base.{
  ℕ, zero, suc, ◌+◌, ◌≡◌, refl, sym, ap, ◌∙◌, ◌⊎◌, inl, inr, Bool, true, false, ◌&&◌, not, List, [],
  ◌∷◌, ◌++◌, map, append_assoc, arith, length, get_or, set, length-append, subst, if◌then◌else◌,
  Bool-cases, All, any, length-map, add32,
}
use nev_os.Kernel.Blob.Ledger.{Op}
use nev_os.Kernel.Blob.Block.{done}
use nev_os.Kernel.Bus.{
  Bus, Stats, Round, visit, deliver, give_all, addressed, signal_of, is_dropped, sub_zero, stamp,
  publish, legitimate, publish_ready, Err, ok, dropped,
}
use nev_os.Kernel.Bus.Events.{Event}
use nev_os.Kernel.Bus.Subscriber.{
  Sub, EnqResult, enq_dropped, enq_replaced, enq_queued, enqueue, enqueue_new, replace_at, append,
  evict, give,
}
use nev_os.Kernel.Bus.Ring.{queued}
use nev_os.Kernel.Bus.Refine.{policy_cases, enqueue-Answers}
use nev_os.Kernel.Bus.Queue.{IsSub, Holds, offer}

-- One slot after the whole publish.
abbrev pub signalled : EnqResult × Sub × List Op → Sub
signalled (enq_queued, s', ops) = give s'
signalled (enq_replaced, s', ops) = s'
signalled (enq_dropped, s', ops) = s'

abbrev pub served : Event → Sub → Sub
served ev s = if addressed ev s then signalled (enqueue s ev) else s

-- The signal of the slot behind `front`.
set_given :
    (front : List Sub) (s : Sub) (back : List Sub) (i : ℕ)
    → i ≡ length front
    → set (front ++ s ∷ back) i (give (get_or (front ++ s ∷ back) i sub_zero))
      ≡ (front ++ give s ∷ []) ++ back
set_given [] s back zero e = refl
set_given [] s back (suc i) e = absurd (omega arith)
set_given (x ∷ front) s back zero e = absurd (omega arith)
set_given (x ∷ front) s back (suc i) e = ap (◌∷◌ x) (set_given front s back i (omega arith))

-- What a turn leaves to signal is its own slot.
abbrev Signals : ℕ → Sub → Round → Sub → Type 0
Signals i s' round target =
    (round.subs ≡ s' ∷ [])
    × ((round.signals ≡ []) × (s' ≡ target) ⊎ (round.signals ≡ i ∷ []) × (give s' ≡ target))

after : Event → Sub → Sub
after ev s = if addressed ev s then (enqueue s ev).1 else s

visit-Signals :
    (ev : Event) (i : ℕ) (s : Sub) (st : Stats)
    → Signals i (after ev s) (visit ev i s st) (served ev s)
unfolding visit after
visit-Signals ev i s st = elim (Bool-cases (addressed ev s)) [
  | inl e ↦ rw e (by_result (enqueue s ev))
  | inr e ↦ rw e (refl, inl (refl, refl))
]
  where
    by_result :
        (answer : EnqResult × Sub × List Op)
        → (answer.1 ∷ [] ≡ answer.1 ∷ [])
          × ((signal_of answer.0 i ≡ []) × (answer.1 ≡ signalled answer)
              ⊎ (signal_of answer.0 i ≡ i ∷ []) × (give answer.1 ≡ signalled answer))
    by_result (enq_queued, s', ops) = (refl, inr (refl, refl))
    by_result (enq_replaced, s', ops) = (refl, inl (refl, refl))
    by_result (enq_dropped, s', ops) = (refl, inl (refl, refl))

-- The signals reach the slots that grew, whatever stands before them.
pub deliver-give_all :
    (ev : Event) (front ss : List Sub) (i : ℕ) (st : Stats)
    → i ≡ length front
    → give_all (deliver ev i ss st).signals (front ++ (deliver ev i ss st).subs)
      ≡ front ++ map (served ev) ss
unfolding deliver give_all
deliver-give_all ev front [] i st e = refl
deliver-give_all ev front (s ∷ ss) i st e =
    let here = visit ev i s st in
    let v = visit-Signals ev i s st in
    let rest = deliver ev (i + 1) ss here.stats in
    let ih =
      deliver-give_all ev (front ++ served ev s ∷ []) ss (i + 1) here.stats
        (omega (arith, e, length-append front (served ev s ∷ []))) in
    let join = ih ∙ append_assoc front (served ev s ∷ []) (map (served ev) ss) in
    rw v.0 (elim v.1 [
      | inl (none_left, same) ↦
          rw (none_left, same)
            (ap (give_all rest.signals) (sym (append_assoc front _ rest.subs)) ∙ join)
      | inr (one_left, given) ↦ rw one_left (
          ap (give_all rest.signals) (
            set_given front (after ev s) rest.subs i e
            ∙ ap (λ x. (front ++ x ∷ []) ++ rest.subs) given)
          ∙ join)
    ])

-- A slot in use is in order, and its semaphore counts its events.
abbrev pub InOrder : Sub → Type 0
InOrder s = s.in_use ≡ true → IsSub s × (s.sem ≡ s.count)

pub record IsBus (b : Bus) : Type 0 where
  pub slots : length b.subs ≡ 16
  pub in_order : All InOrder b.subs

abbrev pub growth : EnqResult → ℕ
growth enq_queued = 1
growth enq_replaced = 0
growth enq_dropped = 0

-- What an enqueue does to the count, and leaves alone.
pub enqueue_counts :
    (s : Sub) (ev : Event)
    → IsSub s
    → ((enqueue s ev).1.count ≡ s.count + growth (enqueue s ev).0)
      × ((enqueue s ev).1.sem ≡ s.sem)
      × ((enqueue s ev).1.depth ≡ s.depth)
      × ((enqueue s ev).1.in_use ≡ s.in_use)
unfolding enqueue enqueue_new replace_at append evict
enqueue_counts s ev v = ground (arith, v.count_in, v.depth_in, v.some_room, policy_cases s.policy)

give-Holds : (s : Sub) (q : List Event) → Holds s q → Holds (give s) q
unfolding give
give-Holds s q (v, e) = (
  record {
    some_room = v.some_room;
    depth_in = v.depth_in;
    ring_len = v.ring_len;
    tail_in = v.tail_in;
    count_in = v.count_in;
    head_at = v.head_at;
    marked = v.marked;
  },
  e,
)

-- The queue of a slot after the event.
abbrev pub queue_after : Event → Sub → List Event
queue_after ev s = if addressed ev s then (offer s (queued s) ev).1 else queued s

-- The event finds no place in a queue that should have it.
abbrev pub drops : Event → Sub → Bool
drops ev s = addressed ev s && is_dropped (offer s (queued s) ev).0

signalled_lem :
    (s : Sub) (ev : Event)
    → IsSub s
    → s.sem ≡ s.count
    → Holds (signalled (enqueue s ev)) (offer s (queued s) ev).1
      × ((signalled (enqueue s ev)).sem ≡ (signalled (enqueue s ev)).count)
unfolding give
signalled_lem s ev v e = by_result (enqueue s ev) (enqueue-Answers s ev v).1 (enqueue_counts s ev v)
  where
    by_result :
        (answer : EnqResult × Sub × List Op)
        → Holds answer.1 (offer s (queued s) ev).1
        → (answer.1.count ≡ s.count + growth answer.0)
          × (answer.1.sem ≡ s.sem)
          × (answer.1.depth ≡ s.depth)
          × (answer.1.in_use ≡ s.in_use)
        → Holds (signalled answer) (offer s (queued s) ev).1
          × ((signalled answer).sem ≡ (signalled answer).count)
    by_result (enq_queued, s', ops) h c = (give-Holds s' _ h, ground (arith, e, c, h.0.count_in))
    by_result (enq_replaced, s', ops) h c = (h, omega (arith, e, c))
    by_result (enq_dropped, s', ops) h c = (h, omega (arith, e, c))

served_lem :
    (ev : Event) (s : Sub)
    → InOrder s
    → InOrder (served ev s) × (queued (served ev s) ≡ queue_after ev s)
served_lem ev s h = elim (Bool-cases (addressed ev s)) [
  | inl e ↦
      let used : s.in_use ≡ true = ground (arith, e) in
      let l = signalled_lem s ev (h used).0 (h used).1 in rw e ((λ u. (l.0.0, l.1)), l.0.1)
  | inr e ↦ rw e (h, refl)
]

visit-drops :
    (ev : Event) (i : ℕ) (s : Sub) (st : Stats)
    → InOrder s
    → (visit ev i s st).any_dropped ≡ drops ev s
unfolding visit
visit-drops ev i s st h = elim (Bool-cases (addressed ev s)) [
  | inl e ↦
      let used : s.in_use ≡ true = ground (arith, e) in
      rw e (ap is_dropped (enqueue-Answers s ev (h used).0).0)
  | inr e ↦ rw e refl
]

deliver-drops :
    (ev : Event) (i : ℕ) (ss : List Sub) (st : Stats)
    → All InOrder ss
    → (deliver ev i ss st).any_dropped ≡ any ss (drops ev)
unfolding deliver
deliver-drops ev i [] st h = refl
deliver-drops ev i (s ∷ ss) st h =
    rw (visit-drops ev i s st h.0, deliver-drops ev (i + 1) ss (visit ev i s st).stats h.1) refl

map-served :
    (ev : Event) (ss : List Sub)
    → All InOrder ss
    → All InOrder (map (served ev) ss) × (map queued (map (served ev) ss) ≡ map (queue_after ev) ss)
map-served ev [] h = (tt, refl)
map-served ev (s ∷ ss) h =
    let here = served_lem ev s h.0 in
    let rest = map-served ev ss h.1 in ((here.0, rest.0), rw (here.1, rest.1) refl)

-- A publish on a bus in order answers and leaves the bus in order: every slot in use that listens
-- to the event's domain holds what its queue becomes when the stamped event is offered to it, with
-- one semaphore token for each queued event, the other queues are as they were, and the answer is
-- `dropped` exactly when one of those queues had no place. Condition: the bus is ready, and in a
-- debug build the event comes from its domain's producer or from a test.
pub publish-IsBus :
    (debug : Bool) (ev : Event) (now : ℕ) (b : Bus)
    → IsBus b
    → b.ready ≡ true
    → (debug && not (legitimate ev)) ≡ false
    → (r : Err × Bus × List Op) × (publish debug ev now b ≡ done r)
      × IsBus r.1
      × (map queued r.1.subs ≡ map (queue_after (stamp ev r.1.seq now)) b.subs)
      × (r.0 ≡ (if any b.subs (drops (stamp ev r.1.seq now)) then dropped else ok))
unfolding publish publish_ready
publish-IsBus debug ev now b v up legit =
    let ev' = stamp ev (add32 b.seq 1) now in
    let st = record b.stats { published = add32 b.stats.published 1 } in
    let m = map-served ev' b.subs v.in_order in
    let subs = deliver-give_all ev' [] b.subs 0 st refl in
    (
      publish_ready ev now b,
      rw (up, legit) refl,
      record {
        slots = ap length subs ∙ length-map (served ev') b.subs ∙ v.slots;
        in_order = subst (All InOrder) (sym subs) m.0;
      },
      ap (map queued) subs ∙ m.1,
      rw (deliver-drops ev' 0 b.subs st v.in_order) refl,
    )
