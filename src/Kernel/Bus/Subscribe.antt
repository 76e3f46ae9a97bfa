-- ===== src/Kernel/Bus/Subscribe.antt =====
-- A subscription: nev_bus_subscribe.
use nev_os.Kernel.Bus.Slots.{set-IsBus}
use nev_os.Base.{
  ℕ, suc, ◌+◌, ◌-◌, ◌≤◌, ◌<◌, ◌≡◌, refl, ap, ◌≢◌, inl, inr, Bool, true, false, ◌||◌, not, Option,
  none, some, List, [], ◌∷◌, arith, length, get_or, subst, if_elim, Bool-cases, length-replicate,
  get_or-set_self, get_or-set_ne, ltb, ◌==◌,
}
use nev_os.Kernel.Bus.{
  Bus, Cfg, subscribe, subscribed, opened, open_slot, free_slot, sub_zero, max_depth,
}
use nev_os.Kernel.Bus.Events.{event_zero}
use nev_os.Kernel.Bus.Subscriber.{Sub}
use nev_os.Kernel.Bus.Ring.{queued}
use nev_os.Kernel.Bus.Delivery.{InOrder, IsBus}

subscribed-InOrder :
    (cfg : Cfg)
    → (cfg.depth == 0 || ltb max_depth cfg.depth) ≡ false
    → (queued (subscribed cfg) ≡ []) × InOrder (record (subscribed cfg) { in_use = true })
subscribed-InOrder cfg ok_depth = (
  refl,
  λ u. (
    record {
      some_room = ground (arith, ok_depth);
      depth_in = ground (arith, ok_depth);
      ring_len = length-replicate 32 event_zero;
      tail_in = ground (arith, ok_depth);
      count_in = omega arith;
      head_at = ground (arith, ok_depth);
      marked = omega arith;
    },
    refl,
  ),
)

free_slot_lem :
    (i : ℕ) (ss : List Sub) (j : ℕ)
    → free_slot i ss ≡ some j
    → (i ≤ j) × (j < i + length ss) × ((get_or ss (j - i) sub_zero).in_use ≡ false)
unfolding free_slot
free_slot_lem i [] j e = absurd (ground (arith, e))
free_slot_lem i (s ∷ ss) j e = elim (Bool-cases s.in_use) [
  | inl taken ↦
      let ih = free_slot_lem (i + 1) ss j (ground (arith, e, taken)) in
      let later : suc (j - (i + 1)) ≡ j - i = omega (arith, ih.0) in
      (
        omega (arith, ih.0),
        omega (arith, ih.1),
        subst (λ k. (get_or (s ∷ ss) k sub_zero).in_use ≡ false) later ih.2,
      )
  | inr free ↦
      let here : i ≡ j = ground (arith, e, free) in
      let first : 0 ≡ j - i = omega (arith, here) in
      (
        omega (arith, here),
        omega (arith, here),
        subst (λ k. (get_or (s ∷ ss) k sub_zero).in_use ≡ false) first free,
      )
]

-- What a subscription that succeeds does to the bus.
abbrev pub Opened : ℕ → Bus → Bus → Type 0
Opened i b b' =
    (i < 16)
    × ((get_or b.subs i sub_zero).in_use ≡ false)
    × ((get_or b'.subs i sub_zero).in_use ≡ true)
    × (queued (get_or b'.subs i sub_zero) ≡ [])
    × ((j : ℕ) → i ≢ j → get_or b'.subs j sub_zero ≡ get_or b.subs j sub_zero)

abbrev SubscribeLaw : Bus → Option ℕ × Bus → Type 0
SubscribeLaw b (got, b') = IsBus b' × ((i : ℕ) → got ≡ some i → Opened i b b')

refused-SubscribeLaw : (b b' : Bus) → IsBus b' → SubscribeLaw b (none, b')
refused-SubscribeLaw b b' v = (v, λ i e. absurd (ground (arith, e)))

some_injective : (i j : ℕ) → some i ≡ some j → i ≡ j
some_injective i j e = ground (arith, e)

open_slot_lem :
    (sem_made : Bool) (cfg : Cfg) (b : Bus) (o : Option ℕ)
    → IsBus b
    → (cfg.depth == 0 || ltb max_depth cfg.depth) ≡ false
    → free_slot 0 b.subs ≡ o
    → SubscribeLaw b (open_slot sem_made cfg b o)
open_slot_lem sem_made cfg b none v deep free = refused-SubscribeLaw b b v
open_slot_lem sem_made cfg b (some i) v deep free =
    let found = free_slot_lem 0 b.subs i free in
    let fresh = record (subscribed cfg) { in_use = true } in
    let within : i < length b.subs = omega (arith, found.1) in
    let at = get_or-set_self b.subs i fresh sub_zero within in
    let same : i - 0 ≡ i = omega arith in
    let was_free = subst (λ k. (get_or b.subs k sub_zero).in_use ≡ false) same found.2 in
    let kept = set-IsBus b i fresh v (subscribed-InOrder cfg deep).1 in
    if_elim (SubscribeLaw b) sem_made _ _
      (λ _. (
        record { slots = kept.slots; in_order = kept.in_order },
        λ j e.
            subst (λ k. Opened k b (opened cfg b i)) (some_injective i j e)
              (
                omega (arith, within, v.slots),
                was_free,
                ap (λ (s : Sub). s.in_use) at,
                ap queued at,
                λ k ne. get_or-set_ne b.subs i k fresh sub_zero ne,
              ),
      ))
      (λ _.
        refused-SubscribeLaw b _
          (set-IsBus b i (subscribed cfg) v λ used. absurd (ground (arith, used))))

-- A subscription keeps a bus in order in order, whatever it answers; and the slot that it answers
-- was not in use, is in use now with an empty queue, and is the only one that changed.
pub subscribe-IsBus :
    (sem_made : Bool) (cfg : Cfg) (b : Bus)
    → IsBus b
    → IsBus (subscribe sem_made cfg b).1
      × ((i : ℕ) → (subscribe sem_made cfg b).0 ≡ some i → Opened i b (subscribe sem_made cfg b).1)
unfolding subscribe
subscribe-IsBus sem_made cfg b v =
    if_elim (SubscribeLaw b) (not b.ready) _ _ (λ _. refused-SubscribeLaw b b v)
      λ _.
        if_elim (SubscribeLaw b) (cfg.depth == 0 || ltb max_depth cfg.depth) _ _
          (λ _. refused-SubscribeLaw b b v)
          λ deep.
            if_elim (SubscribeLaw b) (cfg.domains == 0) _ _ (λ _. refused-SubscribeLaw b b v)
              λ _. open_slot_lem sem_made cfg b (free_slot 0 b.subs) v deep refl
