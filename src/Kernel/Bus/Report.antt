-- ===== src/Kernel/Bus/Report.antt =====
-- nev_bus_report_overflows: a sweep over the slots, and then a publication for each that has
-- dropped events since the last one. The log lines are left out.
use nev_os.Base.{
  ℕ, ◌+◌, ◌/◌, ◌%◌, ◌^◌, ◌≡◌, refl, ap, ◌∙◌, Bool, true, false, not, ◌&&◌, ◌||◌, List, [], ◌∷◌,
  ◌++◌, arith, ◌==◌, if◌then◌else◌, if_then, if_else, if_elim, subst, ==_refl, map, All, length-map,
  replicate, u8_mod,
}
use nev_os.Kernel.Blob.Block.{Outcome, done, panic}
use nev_os.Kernel.Blob.Ledger.{Op}
use nev_os.Kernel.Bus.Events.{Event, event_make, sys_bus_overflow, src_kernel, expected_source}
use nev_os.Kernel.Bus.Subscriber.{Sub}
use nev_os.Kernel.Bus.{Bus, Err, publish, legitimate, publish_ready}
use nev_os.Kernel.Bus.Delivery.{InOrder, IsBus, publish-IsBus}

pub record Pending : Type 0 where
  pub index : ℕ
  pub type : ℕ
  pub total : ℕ

abbrev pub is_quiet : Sub → Bool
is_quiet s = not s.in_use || s.dropped == s.dropped_reported

abbrev pub swept : Sub → Sub
swept s = if is_quiet s then s else record s { dropped_reported = s.dropped }

-- The slots from number `i` on.
unfoldable pub pending_from : ℕ → List Sub → List Pending
pending_from i [] = []
pending_from i (s ∷ ss) =
    let rest = pending_from (i + 1) ss in
    if is_quiet s
    then rest
    else (record { index = i; type = s.last_dropped_type; total = s.dropped }) ∷ rest

-- The payload is the slot's index and a byte of padding, the type and the count, lowest byte first.
abbrev pub overflow_event : Pending → Event
overflow_event p = record (event_make sys_bus_overflow src_kernel) {
  handle = p.index;
  rest =
      p.type % u8_mod
      ∷ p.type / 2 ^ 8 % u8_mod
      ∷ p.total % u8_mod
      ∷ p.total / 2 ^ 8 % u8_mod
      ∷ p.total / 2 ^ 16 % u8_mod
      ∷ p.total / 2 ^ 24 % u8_mod
      ∷ replicate 8 0;
}

-- The clock is read for each publication.
unfoldable pub publish_all : Bool → (ℕ → ℕ) → ℕ → List Pending → Bus → Outcome (Bus × List Op)
publish_all debug clock n [] b = done (b, [])
publish_all debug clock n (p ∷ ps) b = elim (publish debug (overflow_event p) (clock n) b) [
  | panic ↦ panic
  | done r ↦ elim (publish_all debug clock (n + 1) ps r.1) [
    | panic ↦ panic
    | done t ↦ done (t.0, r.2 ++ t.1)
  ]
]

unfoldable pub report_overflows : Bool → (ℕ → ℕ) → Bus → Outcome (Bus × List Op)
report_overflows debug clock b =
    if not b.ready
    then done (b, [])
    else publish_all debug clock 0 (pending_from 0 b.subs) (record b { subs = map swept b.subs })

overflow-legitimate : (p : Pending) → legitimate (overflow_event p) ≡ true
unfolding expected_source
overflow-legitimate p = refl

-- A sweep leaves nothing to report.
pending_from-swept : (i : ℕ) (ss : List Sub) → pending_from i (map swept ss) ≡ []
unfolding pending_from
pending_from-swept i [] = refl
pending_from-swept i (s ∷ ss) =
    if_then (is_quiet (swept s)) _ _ quiet ∙ pending_from-swept (i + 1) ss
  where
    quiet : is_quiet (swept s) ≡ true
    quiet =
        if_elim (λ x. is_quiet x ≡ true) (is_quiet s) s (record s { dropped_reported = s.dropped })
          (λ e. e) (λ e. ground (arith, ==_refl s.dropped))

map-swept : (ss : List Sub) → All InOrder ss → All InOrder (map swept ss)
map-swept [] h = tt
map-swept (s ∷ ss) h = (
  if_elim InOrder (is_quiet s) s (record s { dropped_reported = s.dropped }) (λ e. h.0)
      (λ e used.
        let v = (h.0 used).0 in
        (
          record {
            some_room = v.some_room;
            depth_in = v.depth_in;
            ring_len = v.ring_len;
            tail_in = v.tail_in;
            count_in = v.count_in;
            head_at = v.head_at;
            marked = v.marked;
          },
          (h.0 used).1,
        )),
  map-swept ss h.1,
)

abbrev KeepsReady : Bus → Outcome (Err × Bus × List Op) → Type 0
KeepsReady b (done r) = (r.1).ready ≡ b.ready
KeepsReady b panic = Unit {0}

publish-KeepsReady :
    (debug : Bool) (ev : Event) (now : ℕ) (b : Bus) → KeepsReady b (publish debug ev now b)
unfolding publish publish_ready
publish-KeepsReady debug ev now b =
    if_elim (KeepsReady b) (not b.ready) _ _ (λ e. refl)
      (λ e. if_elim (KeepsReady b) (debug && not (legitimate ev)) _ _ (λ f. tt) (λ f. refl))

publish_all-IsBus :
    (debug : Bool) (clock : ℕ → ℕ) (n : ℕ) (ps : List Pending) (b : Bus)
    → IsBus b
    → b.ready ≡ true
    → (r : Bus × List Op) × (publish_all debug clock n ps b ≡ done r) × IsBus r.0
unfolding publish_all
publish_all-IsBus debug clock n [] b v up = ((b, []), refl, v)
publish_all-IsBus debug clock n (p ∷ ps) b v up =
    let legit : (debug && not (legitimate (overflow_event p))) ≡ false =
      ground (arith, overflow-legitimate p) in
    let one = publish-IsBus debug (overflow_event p) (clock n) b v up legit in
    let r = one.0 in
    let still : (r.1).ready ≡ true =
      subst (KeepsReady b) one.1 (publish-KeepsReady debug (overflow_event p) (clock n) b) ∙ up in
    let rest = publish_all-IsBus debug clock (n + 1) ps r.1 one.2 still in
    ((rest.0.0, r.2 ++ rest.0.1), rw (publish_all, one.1) (rw rest.1 refl), rest.2)

-- A report of overflows never trips an assertion and leaves the bus in order, and the sweep before
-- its publications leaves nothing to report. Condition: the bus is ready and in order.
report_overflows-IsBus :
    (debug : Bool) (clock : ℕ → ℕ) (b : Bus)
    → IsBus b
    → b.ready ≡ true
    → ((r : Bus × List Op) × (report_overflows debug clock b ≡ done r) × IsBus r.0)
      × (pending_from 0 (map swept b.subs) ≡ [])
unfolding report_overflows
report_overflows-IsBus debug clock b v up =
    let clean : Bus = record b { subs = map swept b.subs } in
    let all =
      publish_all-IsBus debug clock 0 (pending_from 0 b.subs) clean
        (record {
          slots = length-map swept b.subs ∙ v.slots;
          in_order = map-swept b.subs v.in_order;
        })
        up in
    ((all.0, if_else (not b.ready) _ _ (ap not up) ∙ all.1, all.2), pending_from-swept 0 b.subs)
