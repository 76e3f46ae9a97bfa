-- ===== src/Services/Talk/Tap.antt =====
-- The two gestures that talk_core.h singles out: a brush of the button, and a button that is stuck.
use nev_os.Base.{ℕ, ◌≡◌, ◌≢◌, ◌≤◌, ◌<◌, refl, List, [], ◌∷◌, ◌++◌, map, All, arith, sub32}
use nev_os.Services.Talk.{
  Action, do_nothing, do_discard, Ptt, idle, arming, talking, too_long, discard_none, press,
  release, tick,
}
use nev_os.Services.Talk.Trace.{Event, pressed, released, ticked, step, run}

-- The actions that a history returns, in order.
unfoldable pub actions : Ptt → List Event → List Action
actions p [] = []
actions p (ev ∷ evs) = let (p', act) = step p ev in act ∷ actions p' evs

abbrev pub quiet : List ℕ → List Action
quiet = map (λ _. do_nothing)

ticks_arming :
    (ts : List ℕ) (evs : List Event) (p : Ptt)
    → p.state ≡ arming
    → All (λ t. sub32 t p.pressed_at_ms < p.cfg.arm_ms) ts
    → actions p (map ticked ts ++ evs) ≡ quiet ts ++ actions p evs
unfolding actions step tick
ticks_arming [] evs p e h = refl
ticks_arming (t ∷ ts) evs p e h = ground (arith, ticks_arming ts evs p e h.1)

abbrev armed : Ptt → ℕ → Ptt
armed p t0 = record p { state = arming; pressed_at_ms = t0; last_discard = discard_none }

press-armed :
    (p : Ptt) (t0 : ℕ) → p.state ≡ idle → p.cfg.arm_ms ≢ 0 → press p t0 ≡ (armed p t0, do_nothing)
unfolding press
press-armed p t0 e ne = ground arith

release-armed : (p : Ptt) (t1 : ℕ) → p.state ≡ arming → (release p t1).1 ≡ do_nothing
unfolding release
release-armed p t1 e = ground arith

-- A press that is let go before `arm_ms` has passed, whatever ticks fall in between, asks for
-- nothing at all: the microphone never opens, and nothing is sent, discarded or said.
pub tap_silent :
    (p : Ptt) (t0 t1 : ℕ) (ts : List ℕ)
    → p.state ≡ idle
    → p.cfg.arm_ms ≢ 0
    → All (λ t. sub32 t t0 < p.cfg.arm_ms) ts
    → actions p (pressed t0 ∷ (map ticked ts ++ released t1 ∷ []))
      ≡ do_nothing ∷ (quiet ts ++ do_nothing ∷ [])
unfolding actions step
tap_silent p t0 t1 ts e ne h =
    rw (press-armed p t0 e ne, ticks_arming ts (released t1 ∷ []) (armed p t0) refl h)
      (rw (release-armed (armed p t0) t1 refl))

ticks_talking :
    (ts : List ℕ) (evs : List Event) (p : Ptt)
    → p.state ≡ talking
    → All (λ t. sub32 t p.talking_since_ms < p.cfg.max_ms) ts
    → (actions p (map ticked ts ++ evs) ≡ quiet ts ++ actions p evs)
      × (run p (map ticked ts ++ evs) ≡ run p evs)
unfolding actions run step tick
ticks_talking [] evs p e h = (refl, refl)
ticks_talking (t ∷ ts) evs p e h = ground (arith, ticks_talking ts evs p e h.1)

-- A button that is stuck with the microphone open, and a ceiling set: the first tick at or past
-- `max_ms` closes the microphone, discards the capture as too long and leaves the machine idle;
-- the ticks before it ask for nothing, and nothing is ever sent.
pub stuck_discarded :
    (p : Ptt) (t1 : ℕ) (ts : List ℕ)
    → p.state ≡ talking
    → p.cfg.max_ms ≢ 0
    → All (λ t. sub32 t p.talking_since_ms < p.cfg.max_ms) ts
    → p.cfg.max_ms ≤ sub32 t1 p.talking_since_ms
    → let evs = map ticked ts ++ ticked t1 ∷ [] in
      (actions p evs ≡ quiet ts ++ do_discard ∷ [])
      × ((run p evs).state ≡ idle)
      × ((run p evs).last_discard ≡ too_long)
unfolding actions run step tick
stuck_discarded p t1 ts e ne h past = ground (arith, ticks_talking ts (ticked t1 ∷ []) p e h)
