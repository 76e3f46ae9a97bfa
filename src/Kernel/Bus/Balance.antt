-- ===== src/Kernel/Bus/Balance.antt =====
-- The blob references that the bus holds: one for each queued event that carries a blob.
use nev_os.Base.{
  ℕ, zero, suc, ◌+◌, ◌-◌, ◌≤◌, ◌<◌, ◌≡◌, refl, sym, ap, ◌∙◌, ◌≢◌, inl, inr, Option, none, some,
  List, [], ◌∷◌, ◌++◌, arith, length, set, get_or, subst, if◌then◌else◌, ◌&&◌, one_if_eq, drop,
}
use native.Mathlib.Decide.{ℕ_discrete}
use nev_os.Kernel.Blob.Ledger.{Op, allocates, retains, releases}
use nev_os.Kernel.Bus.Events.{Event, carries_blob, event_zero, is_coalescable}
use nev_os.Kernel.Bus.Subscriber.{
  Sub, enqueue, enqueue_new, replace_at, if_blob, slot, wrap, flush, drain,
}
use nev_os.Kernel.Bus.Ring.{queued, events_from, events_from-cons, wrap-lt, get_or-events_from}
use nev_os.Kernel.Bus.Refine.{
  enqueue-Answers, enqueue_at, offer_at, choice, newest_eq, oldest_eq, room_eq, policy_cases,
  length-queued, place-lt,
}
use nev_os.Kernel.Bus.Queue.{IsSub, offer, offer_new, position, at_wrap}

module _ (h : ℕ) where
  abbrev pub carries : Event → ℕ
  carries ev = if carries_blob ev then one_if_eq ev.handle h else 0

  -- How many references a queue of events holds on the handle h.
  abbrev pub held : List Event → ℕ
  held [] = 0
  held (ev ∷ q) = carries ev + held q

  abbrev pub taken : List Op → ℕ
  taken [] = 0
  taken (allocates len now ∷ ops) = taken ops
  taken (retains k ∷ ops) = one_if_eq k h + taken ops
  taken (releases k ∷ ops) = taken ops

  abbrev pub given_back : List Op → ℕ
  given_back [] = 0
  given_back (allocates len now ∷ ops) = given_back ops
  given_back (retains k ∷ ops) = given_back ops
  given_back (releases k ∷ ops) = one_if_eq k h + given_back ops

  held-append : (q q' : List Event) → held (q ++ q') ≡ held q + held q'
  held-append [] q' = omega arith
  held-append (ev ∷ q) q' = omega (arith, held-append q q')

  pub taken-append : (ops more : List Op) → taken (ops ++ more) ≡ taken ops + taken more
  taken-append [] more = omega arith
  taken-append (allocates len now ∷ ops) more = taken-append ops more
  taken-append (retains k ∷ ops) more = omega (arith, taken-append ops more)
  taken-append (releases k ∷ ops) more = taken-append ops more

  pub given_back-append :
      (ops more : List Op) → given_back (ops ++ more) ≡ given_back ops + given_back more
  given_back-append [] more = omega arith
  given_back-append (allocates len now ∷ ops) more = given_back-append ops more
  given_back-append (retains k ∷ ops) more = given_back-append ops more
  given_back-append (releases k ∷ ops) more = omega (arith, given_back-append ops more)

  held-set :
      (q : List Event) (k : ℕ) (ev : Event)
      → k < length q
      → held (set q k ev) + carries (get_or q k event_zero) ≡ held q + carries ev
  held-set [] k ev lt = absurd (omega arith)
  held-set (x ∷ q) zero ev lt = omega arith
  held-set (x ∷ q) (suc k) ev lt = omega (arith, held-set q k ev (omega arith))

  -- Calls that move the bus from holding q to holding q'.
  abbrev pub Balanced : List Event → List Op → List Event → Type 0
  Balanced q ops q' = held q' + given_back ops ≡ held q + taken ops

  -- A release for what leaves, a retain for what comes.
  swap_ops :
      (out ev : Event)
      → (given_back (if_blob out releases ++ if_blob ev retains) ≡ carries out)
        × (taken (if_blob out releases ++ if_blob ev retains) ≡ carries ev)
  swap_ops out ev = ground arith

  only_in :
      (ev : Event)
      → (given_back (if_blob ev retains) ≡ 0) × (taken (if_blob ev retains) ≡ carries ev)
  only_in ev = ground arith

  only_out :
      (ev : Event)
      → (given_back (if_blob ev releases) ≡ carries ev) × (taken (if_blob ev releases) ≡ 0)
  only_out ev = ground arith

  module _ (s : Sub) (ev : Event) (v : IsSub s) where
    oldest_first :
        s.count ≢ 0 → held (queued s) ≡ carries (slot s s.tail) + held (drop 1 (queued s))
    oldest_first some_left =
        let e : s.count ≡ suc (s.count - 1) = omega arith in
        let shape =
          ap (events_from s.ring s.depth s.tail) e
          ∙ events_from-cons s.ring s.depth s.tail (s.count - 1) v.tail_in
              (omega (arith, v.count_in)) v.depth_in in
        rw shape refl

    enqueue_new-Balanced : Balanced (queued s) (enqueue_new s ev).2 (offer_new s (queued s) ev).1
    enqueue_new-Balanced = elim (ℕ_discrete s.count s.depth) [
      | yes full ↦ elim (policy_cases s.policy) [
        | inl p ↦ let e = newest_eq s ev v full p in rw (e.0, e.1) refl
        | inr p ↦
            let e = oldest_eq s ev v full p in
            rw (e.0, e.1)
              (omega (
                arith,
                swap_ops (slot s s.tail) ev,
                held-append (drop 1 (queued s)) (ev ∷ []),
                oldest_first (omega (arith, v.some_room)),
              ))
      ]
      | no room ↦
          let e = room_eq s ev v room in
          rw (e.0, e.1) (omega (arith, only_in ev, held-append (queued s) (ev ∷ [])))
    ]

    by_choice :
        (o : Option ℕ)
        → o ≡ (if s.coalesce && is_coalescable ev.type then position ev.type 0 (queued s) else none)
        → Balanced (queued s) (enqueue_at s ev (at_wrap s o)).2 (offer_at s ev o).1
    unfolding replace_at
    by_choice none e = enqueue_new-Balanced
    by_choice (some k) e =
        let within = place-lt s ev v k e in
        omega (
          arith,
          swap_ops (slot s (wrap s.tail k s.depth)) ev,
          held-set (queued s) k ev (omega (arith, within, length-queued s ev v)),
          ap carries (get_or-events_from s.ring s.depth s.tail s.count k within),
        )

  -- An enqueue takes and gives back exactly the references by which the queue's holding on h
  -- changes.
  pub enqueue-Balanced :
      (s : Sub) (ev : Event)
      → IsSub s
      → Balanced (queued s) (enqueue s ev).2 (queued (enqueue s ev).1)
  unfolding enqueue offer
  enqueue-Balanced s ev v =
      subst (Balanced (queued s) (enqueue s ev).2) (sym (enqueue-Answers s ev v).1.1) (
        subst (λ o. Balanced (queued s) (enqueue_at s ev o).2 (offer s (queued s) ev).1)
          (sym (choice s ev v)) (by_choice s ev v _ refl))

  drain-given_back :
      (s : Sub) (n : ℕ)
      → s.tail < s.depth
      → s.depth ≤ 32
      → n ≤ s.depth
      → (given_back (drain s n) ≡ held (events_from s.ring s.depth s.tail n))
        × (taken (drain s n) ≡ 0)
  unfolding drain
  drain-given_back s zero ht hd hn = (refl, refl)
  drain-given_back s (suc n) ht hd hn =
      let s' = record s { tail = wrap s.tail 1 s.depth; count = s.count - 1 } in
      let ih =
        drain-given_back s' n (wrap-lt s.tail 1 s.depth ht (omega arith) hd) hd (omega arith) in
      rw (events_from-cons s.ring s.depth s.tail n ht (omega arith) hd) (
        omega (
          arith,
          given_back-append (if_blob (slot s s.tail) releases) (drain s' n),
          taken-append (if_blob (slot s s.tail) releases) (drain s' n),
          only_out (slot s s.tail),
          ih,
        ))

  -- A flush gives back every reference that the queue holds, and takes none.
  pub flush-Balanced :
      (s : Sub) → IsSub s → (given_back (flush s).1 ≡ held (queued s)) × (taken (flush s).1 ≡ 0)
  unfolding flush
  flush-Balanced s v = drain-given_back s s.count v.tail_in v.depth_in v.count_in
