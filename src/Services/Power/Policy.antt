-- ===== src/Services/Power/Policy.antt =====
-- What time without a touch does, and what the touch that ends it does.
use nev_os.Base.{
  ◌∷◌, List, ℕ, ◌*◌, ◌/◌, ◌%◌, ◌≤◌, ◌≡◌, refl, true, false, arith, sub32, u8_mod, List, [], ◌∷◌,
}
use nev_os.Services.Power.{
  init, Phase, active, dim, asleep, Cfg, Core, activity, tick, sleep_after, dim_after,
  phase_brightness, init, may_idle_cpu,
}
use nev_os.Services.Power.Phases.{run-IsLit, run, Event, IsLit, tick-IsLit}

-- How far the device has withdrawn.
abbrev pub rank : Phase → ℕ
rank active = 0
rank dim = 1
rank asleep = 2

dim-le-sleep_after : (c : Core) → dim_after c ≤ sleep_after c
unfolding dim_after
dim-le-sleep_after c = omega arith

-- The longer the silence, the further the device withdraws: of two ticks in one silence the later
-- never finds it brighter than the earlier, whatever phase either started from.
pub idle_withdraws :
    (c : Core) (t1 t2 : ℕ)
    → sub32 t1 c.last_activity_ms ≤ sub32 t2 c.last_activity_ms
    → let c1 = (tick c t1).0 in
      (rank (tick c t1).1 ≤ rank (tick c1 t2).1) × ((tick c1 t2).1 ≡ (tick c t2).1)
unfolding tick
idle_withdraws c t1 t2 h = ground (arith, dim-le-sleep_after c)

scaled-le : (a d : ℕ) → d ≤ 100 → a * d / 100 % u8_mod ≤ a
scaled-le a d h = let p : a * d ≤ a * 100 = grind arith in omega arith

dim_bounds :
    (cfg : Cfg)
    → 5 ≤ cfg.active_percent
    → cfg.dim_percent ≤ 100
    → (5 ≤ phase_brightness cfg dim) × (phase_brightness cfg dim ≤ cfg.active_percent)
unfolding phase_brightness
dim_bounds cfg lo d = ground (arith, scaled-le cfg.active_percent cfg.dim_percent d)

-- A phase that is further withdrawn is never brighter.
brightness-antitone :
    (cfg : Cfg) (p q : Phase)
    → 5 ≤ cfg.active_percent
    → cfg.dim_percent ≤ 100
    → rank p ≤ rank q
    → phase_brightness cfg q ≤ phase_brightness cfg p
unfolding phase_brightness
brightness-antitone cfg active active lo d h = omega arith
brightness-antitone cfg active dim lo d h = (dim_bounds cfg lo d).1
brightness-antitone cfg active asleep lo d h = omega arith
brightness-antitone cfg dim active lo d h = absurd (omega arith)
brightness-antitone cfg dim dim lo d h = omega arith
brightness-antitone cfg dim asleep lo d h = omega arith
brightness-antitone cfg asleep active lo d h = absurd (omega arith)
brightness-antitone cfg asleep dim lo d h = absurd (omega arith)
brightness-antitone cfg asleep asleep lo d h = omega arith

cfg-tick : (c : Core) (now : ℕ) → (tick c now).0.cfg ≡ c.cfg
unfolding tick
cfg-tick c now = ground arith

phase-tick : (c : Core) (now : ℕ) → (tick c now).0.phase ≡ (tick c now).1
unfolding tick
phase-tick c now = refl

never_brighter :
    (c : Core) (t1 t2 : ℕ)
    → IsLit c
    → 5 ≤ c.cfg.active_percent
    → c.cfg.dim_percent ≤ 100
    → sub32 t1 c.last_activity_ms ≤ sub32 t2 c.last_activity_ms
    → let c1 = (tick c t1).0 in (tick c1 t2).0.brightness ≤ c1.brightness
never_brighter c t1 t2 lit lo d h =
    let c1 : Core = (tick c t1).0 in
    omega (arith, tick-IsLit c t1 lit, tick-IsLit c1 t2 (tick-IsLit c t1 lit), darker)
  where
    c2 : Core
    c2 = (tick (tick c t1).0 t2).0

    darker :
        phase_brightness c2.cfg c2.phase ≤ phase_brightness (tick c t1).0.cfg (tick c t1).0.phase
    darker =
        rw (cfg-tick, cfg-tick, phase-tick, phase-tick)
          (brightness-antitone c.cfg _ _ lo d (idle_withdraws c t1 t2 h).0)

-- The ticks come in order, and none of them sooner after `start` than `since`.
abbrev pub InOrder : ℕ → ℕ → List ℕ → Type 0
InOrder start since [] = Unit {0}
InOrder start since (t ∷ ts) = (since ≤ sub32 t start) × InOrder start (sub32 t start) ts

-- No tick leaves the backlight brighter than the one before it.
abbrev pub Darkens : Core → List ℕ → Type 0
Darkens c [] = Unit {0}
Darkens c (t ∷ ts) = ((tick c t).0.brightness ≤ c.brightness) × Darkens (tick c t).0 ts

activity-tick : (c : Core) (t : ℕ) → (tick c t).0.last_activity_ms ≡ c.last_activity_ms
unfolding tick
activity-tick c t = ground arith

ticks-Darkens :
    (ts : List ℕ) (c : Core) (t : ℕ)
    → IsLit c
    → 5 ≤ c.cfg.active_percent
    → c.cfg.dim_percent ≤ 100
    → InOrder c.last_activity_ms (sub32 t c.last_activity_ms) ts
    → Darkens (tick c t).0 ts
ticks-Darkens [] c t lit lo d h = tt
ticks-Darkens (u ∷ us) c t lit lo d h =
    let c1 : Core = (tick c t).0 in
    let same : c1.cfg ≡ c.cfg = cfg-tick c t in
    let start : c1.last_activity_ms ≡ c.last_activity_ms = activity-tick c t in
    (
      never_brighter c t u lit lo d h.0,
      ticks-Darkens us c1 u (tick-IsLit c t lit) (rw same lo) (rw same d) (rw start h.1),
    )

-- In one silence the backlight never brightens from one tick to the next. After any history of
-- settings changes, touches, supply reports and ticks, a tick comes, and then any number of further
-- ones, in order and with no touch, supply report or settings change between them. Condition: the
-- user's brightness is 5 or more, and the dimming at most 100 percent.
pub silence_never_brightens :
    (cfg : Cfg) (now : ℕ) (evs : List Event) (t : ℕ) (ts : List ℕ)
    → let c = run (init cfg now) evs in
      5 ≤ c.cfg.active_percent
      → c.cfg.dim_percent ≤ 100
      → InOrder c.last_activity_ms (sub32 t c.last_activity_ms) ts
      → Darkens (tick c t).0 ts
silence_never_brightens cfg now evs t ts lo d h =
    ticks-Darkens ts (run (init cfg now) evs) t (run-IsLit cfg now evs) lo d h

-- On battery, a tick at the timeout (half of it once the battery is low) turns the backlight off
-- and lets the CPU idle. The touch that follows is swallowed, and brings back the user's
-- brightness; the touch after it is delivered.
pub sleep_then_wake :
    (c : Core) (t t1 t2 : ℕ)
    → c.charging ≡ false
    → sleep_after c ≤ sub32 t c.last_activity_ms
    → IsLit c
    → let dark = (tick c t).0 in
      let (woken, first) = activity dark t1 in
      (dark.phase ≡ asleep)
      × (dark.brightness ≡ 0)
      × (may_idle_cpu dark ≡ true)
      × (first ≡ false)
      × (woken.phase ≡ active)
      × (woken.brightness ≡ c.cfg.active_percent)
      × ((activity woken t2).1 ≡ true)
unfolding tick activity may_idle_cpu phase_brightness
sleep_then_wake c t t1 t2 plug h lit = ground arith
