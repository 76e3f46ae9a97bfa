-- ===== src/Kernel/Bus/Slots.antt =====
-- One slot at a time: nev_bus_init, nev_bus_recv and nev_bus_flush.
use nev_os.Base.{
  ℕ, suc, ◌-◌, ◌<◌, ◌≡◌, refl, sym, ap, ◌∙◌, ◌≢◌, inl, inr, true, false, ◌&&◌, Option, none, some,
  List, [], ◌∷◌, arith, get_or, set, subst, if_then, if_else, Bool-cases, All-set, All-get_or,
  All-replicate, length-set, length-replicate, get_or-set_self, get_or-set_ne, ltb, ◌==◌,
}
use native.Mathlib.Decide.{ℕ_discrete}
use nev_os.Kernel.Blob.Ledger.{Op}
use nev_os.Kernel.Bus.{Bus, Err, ok, init, recv_at, flush_at, sub_zero}
use nev_os.Kernel.Bus.Events.{Event}
use nev_os.Kernel.Bus.Subscriber.{Sub, recv, pop, flush, slot, wrap}
use nev_os.Kernel.Bus.Ring.{queued, events_from, events_from-cons, wrap-lt, wrap-wrap}
use nev_os.Kernel.Bus.Queue.{IsSub}
use nev_os.Kernel.Bus.Delivery.{InOrder, IsBus}

-- The oldest event of a queue, and the queue without it.
abbrev pub take_oldest : List Event → Option Event × List Event
take_oldest [] = (none, [])
take_oldest (ev ∷ q) = (some ev, q)

recv_lem :
    (s : Sub)
    → IsSub s
    → s.sem ≡ s.count
    → IsSub (recv s).1
      × ((recv s).1.sem ≡ (recv s).1.count)
      × (((recv s).0, queued (recv s).1) ≡ take_oldest (queued s))
unfolding recv pop
recv_lem s v e = elim (ℕ_discrete s.count 0) [
  | yes none_left ↦
      let no_token : (s.sem == 0) ≡ true = ground (arith, e, none_left) in
      simp no_token (v, e, rw none_left refl)
  | no some_left ↦
      let token : (s.sem == 0) ≡ false = ground (arith, e, some_left) in
      let left : ltb 0 s.count ≡ true = ground (arith, some_left) in
      let shape : queued s
          ≡ slot s s.tail ∷ events_from s.ring s.depth (wrap s.tail 1 s.depth) (s.count - 1) =
        ap (events_from s.ring s.depth s.tail) (one_less some_left)
        ∙ events_from-cons s.ring s.depth s.tail (s.count - 1) v.tail_in
            (omega (arith, v.count_in, v.some_room)) v.depth_in in
      simp (token, left)
        (
          record {
            some_room = v.some_room;
            depth_in = v.depth_in;
            ring_len = v.ring_len;
            tail_in = wrap-lt s.tail 1 s.depth v.tail_in v.some_room v.depth_in;
            count_in = omega (arith, v.count_in);
            head_at =
                v.head_at
                ∙ ap (λ n. wrap s.tail n s.depth) (one_less some_left)
                ∙ sym (
                    wrap-wrap s.tail (s.count - 1) s.depth v.tail_in
                      (omega (arith, v.count_in, v.some_room)) v.depth_in);
            marked = omega (arith, v.marked);
          },
          omega (arith, e),
          sym (ap take_oldest shape),
        )
]
  where
    one_less : s.count ≢ 0 → s.count ≡ suc (s.count - 1)
    one_less some_left = omega arith

flush_lem : (s : Sub) → InOrder s → InOrder (flush s).0
unfolding flush
flush_lem s h used =
    let v = (h used).0 in
    (
      record {
        some_room = v.some_room;
        depth_in = v.depth_in;
        ring_len = v.ring_len;
        tail_in = v.some_room;
        count_in = omega arith;
        head_at = ground (arith, v.some_room);
        marked = omega arith;
      },
      refl,
    )

pub unused : InOrder sub_zero
unused e = absurd (ground (arith, e))

pub set-IsBus :
    (b : Bus) (i : ℕ) (s : Sub) → IsBus b → InOrder s → IsBus (record b { subs = set b.subs i s })
set-IsBus b i s v h = record {
  slots = length-set b.subs i s ∙ v.slots;
  in_order = All-set InOrder b.subs i s v.in_order h;
}

recv_at_used :
    (i : ℕ) (b : Bus)
    → b.ready ≡ true
    → (get_or b.subs i sub_zero).in_use ≡ true
    → recv_at i b ≡ (
      (recv (get_or b.subs i sub_zero)).0,
      record b { subs = set b.subs i (recv (get_or b.subs i sub_zero)).1 },
    )
unfolding recv_at
recv_at_used i b up used =
    if_then (b.ready && (get_or b.subs i sub_zero).in_use) _ _ (ground (arith, up, used))

-- A receive on a slot in use takes the oldest event of its queue, or nothing when the queue is
-- empty; the other slots are as they were and the bus stays in order. Condition: the bus is ready
-- and in order.
pub recv_at-IsBus :
    (i : ℕ) (b : Bus)
    → IsBus b
    → b.ready ≡ true
    → i < 16
    → (get_or b.subs i sub_zero).in_use ≡ true
    → IsBus (recv_at i b).1
      × (((recv_at i b).0, queued (get_or (recv_at i b).1.subs i sub_zero))
          ≡ take_oldest (queued (get_or b.subs i sub_zero)))
      × ((j : ℕ) → i ≢ j → get_or (recv_at i b).1.subs j sub_zero ≡ get_or b.subs j sub_zero)
recv_at-IsBus i b v up lt used =
    let s = get_or b.subs i sub_zero in
    let h = All-get_or InOrder b.subs i sub_zero v.in_order unused used in
    let r = recv_lem s h.0 h.1 in
    rw (recv_at_used i b up used) (
      set-IsBus b i (recv s).1 v (λ u. (r.0, r.1)),
      ap (λ t. ((recv s).0, queued t))
            (get_or-set_self b.subs i (recv s).1 sub_zero (omega (arith, v.slots)))
          ∙ r.2,
      λ j ne. get_or-set_ne b.subs i j (recv s).1 sub_zero ne,
    )

pub init-IsBus : (b : Bus) → b.ready ≡ false → IsBus (init ok b).1
unfolding init
init-IsBus b down =
    subst (λ (r : Err × Bus). IsBus r.1) (sym (if_else b.ready _ _ down))
      (record {
        slots = length-replicate 16 sub_zero;
        in_order = All-replicate InOrder 16 sub_zero unused;
      })

-- A flush leaves the bus in order.
pub flush_at-IsBus : (i : ℕ) (b : Bus) → IsBus b → IsBus (flush_at i b).0
unfolding flush_at
flush_at-IsBus i b v =
    let s = get_or b.subs i sub_zero in
    elim (Bool-cases b.ready) [
      | inl up ↦
          subst (λ (r : Bus × List Op). IsBus r.0) (sym (if_then b.ready _ _ up))
            (set-IsBus b i (flush s).0 v
              (flush_lem s (All-get_or InOrder b.subs i sub_zero v.in_order unused)))
      | inr down ↦ subst (λ (r : Bus × List Op). IsBus r.0) (sym (if_else b.ready _ _ down)) v
    ]
