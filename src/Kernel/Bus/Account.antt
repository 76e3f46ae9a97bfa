-- ===== src/Kernel/Bus/Account.antt =====
-- The blob references of the whole bus, over nev_bus_publish and nev_bus_deinit.
use nev_os.Base.{
  ℕ, ◌+◌, ◌≡◌, refl, ap, ◌∙◌, inl, inr, Bool, true, false, ◌&&◌, not, List, [], ◌∷◌, map, arith,
  if◌then◌else◌, Bool-cases, All, add32,
}
use nev_os.Kernel.Blob.Ledger.{Op}
use nev_os.Kernel.Blob.Block.{done}
use nev_os.Kernel.Bus.{
  Bus, Stats, Err, visit, deliver, addressed, stamp, legitimate, publish, publish_ready, close,
  close_all, deinit,
}
use nev_os.Kernel.Bus.Events.{Event}
use nev_os.Kernel.Bus.Subscriber.{
  Sub, enqueue, give, EnqResult, enq_queued, enq_replaced, enq_dropped,
}
use nev_os.Kernel.Bus.Ring.{queued}
use nev_os.Kernel.Bus.Delivery.{InOrder, IsBus, served, signalled, deliver-give_all, enqueue_counts}
use nev_os.Kernel.Bus.Balance.{
  held, taken, given_back, taken-append, given_back-append, enqueue-Balanced, flush-Balanced,
}

module _ (h : ℕ) where
  abbrev pub slot_held : Sub → ℕ
  slot_held s = if s.in_use then held h (queued s) else 0

  -- What all the queues in use hold on the handle h.
  abbrev pub holdings : List Sub → ℕ
  holdings [] = 0
  holdings (s ∷ ss) = slot_held s + holdings ss

  queued-signalled :
      (answer : EnqResult × Sub × List Op) → queued (signalled answer) ≡ queued answer.1
  unfolding give
  queued-signalled (enq_queued, s', ops) = refl
  queued-signalled (enq_replaced, s', ops) = refl
  queued-signalled (enq_dropped, s', ops) = refl

  in_use-signalled :
      (answer : EnqResult × Sub × List Op) → (signalled answer).in_use ≡ answer.1.in_use
  unfolding give
  in_use-signalled (enq_queued, s', ops) = refl
  in_use-signalled (enq_replaced, s', ops) = refl
  in_use-signalled (enq_dropped, s', ops) = refl

  visit-Balanced :
      (ev : Event) (i : ℕ) (s : Sub) (st : Stats)
      → InOrder s
      → slot_held (served ev s) + given_back h (visit ev i s st).ops
        ≡ slot_held s + taken h (visit ev i s st).ops
  unfolding visit
  visit-Balanced ev i s st v = elim (Bool-cases (addressed ev s)) [
    | inl e ↦
        let used : s.in_use ≡ true = ground (arith, e) in
        let kept : (signalled (enqueue s ev)).in_use ≡ true =
          in_use-signalled (enqueue s ev) ∙ (enqueue_counts s ev (v used).0).3 ∙ used in
        let now_held : slot_held (signalled (enqueue s ev)) ≡ held h (queued (enqueue s ev).1) =
          simp kept (ap (held h) (queued-signalled (enqueue s ev))) in
        let was_held : slot_held s ≡ held h (queued s) = simp used refl in
        simp e (omega (arith, now_held, was_held, enqueue-Balanced h s ev (v used).0))
    | inr e ↦ rw e (omega arith)
  ]

  deliver-Balanced :
      (ev : Event) (i : ℕ) (ss : List Sub) (st : Stats)
      → All InOrder ss
      → holdings (map (served ev) ss) + given_back h (deliver ev i ss st).ops
        ≡ holdings ss + taken h (deliver ev i ss st).ops
  unfolding deliver
  deliver-Balanced ev i [] st v = refl
  deliver-Balanced ev i (s ∷ ss) st v =
      let here = visit ev i s st in
      let rest = deliver ev (i + 1) ss here.stats in
      omega (
        arith,
        visit-Balanced ev i s st v.0,
        deliver-Balanced ev (i + 1) ss here.stats v.1,
        given_back-append h here.ops rest.ops,
        taken-append h here.ops rest.ops,
      )

  close-Balanced :
      (s : Sub)
      → InOrder s
      → (given_back h (close s).1 ≡ slot_held s)
        × (taken h (close s).1 ≡ 0)
        × ((close s).0.in_use ≡ false)
  unfolding close
  close-Balanced s v = elim (Bool-cases s.in_use) [
    | inl e ↦ simp e (let f = flush-Balanced h s (v e).0 in (f.0, f.1, refl))
    | inr e ↦ rw e (refl, refl, refl)
  ]

  close_all-Balanced :
      (ss : List Sub)
      → All InOrder ss
      → (given_back h (close_all ss).1 ≡ holdings ss)
        × (taken h (close_all ss).1 ≡ 0)
        × All (λ s. s.in_use ≡ false) (close_all ss).0
  unfolding close_all
  close_all-Balanced [] v = (refl, refl, tt)
  close_all-Balanced (s ∷ ss) v =
      let here = close-Balanced s v.0 in
      let rest = close_all-Balanced ss v.1 in
      (
        omega (arith, here.0, rest.0, given_back-append h (close s).1 (close_all ss).1),
        omega (arith, here.1, rest.1, taken-append h (close s).1 (close_all ss).1),
        (here.2, rest.2),
      )

-- A publish on a bus in order moves the blob references exactly: for every handle, what the queues
-- hold on it after the publish together with what the publish released is what they held before
-- together with what it retained. Condition: the bus is ready, and in a debug build the event comes
-- from its domain's producer or from a test.
pub publish-Balanced :
    (debug : Bool) (ev : Event) (now : ℕ) (b : Bus)
    → IsBus b
    → b.ready ≡ true
    → (debug && not (legitimate ev)) ≡ false
    → (r : Err × Bus × List Op) × (publish debug ev now b ≡ done r)
      × ((h : ℕ) → holdings h r.1.subs + given_back h r.2 ≡ holdings h b.subs + taken h r.2)
unfolding publish publish_ready
publish-Balanced debug ev now b v up legit =
    let ev' = stamp ev (add32 b.seq 1) now in
    let st = record b.stats { published = add32 b.stats.published 1 } in
    (
      publish_ready ev now b,
      rw (up, legit) refl,
      λ h.
          rw (deliver-give_all ev' [] b.subs 0 st refl)
            (deliver-Balanced h ev' 0 b.subs st v.in_order),
    )

-- The teardown of a ready bus in order releases, for every handle, exactly the references that its
-- queues hold, takes none, and leaves no slot in use.
pub deinit-Balanced :
    (b : Bus)
    → IsBus b
    → b.ready ≡ true
    → ((h : ℕ) → (given_back h (deinit b).1 ≡ holdings h b.subs) × (taken h (deinit b).1 ≡ 0))
      × All (λ s. s.in_use ≡ false) (deinit b).0.subs
unfolding deinit
deinit-Balanced b v up = simp up (
  (λ h. let c = close_all-Balanced h b.subs v.in_order in (c.0, c.1)),
  (close_all-Balanced 0 b.subs v.in_order).2,
)
