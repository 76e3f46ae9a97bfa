-- ===== src/Services/Power/Phases.antt =====
-- The backlight follows the phase, over every history.
use nev_os.Base.{ℕ, ◌≡◌, ◌≢◌, refl, Bool, true, List, [], ◌∷◌, arith}
use nev_os.Services.Power.{
  asleep, Cfg, Core, init, configure, activity, supply, tick, phase_brightness,
}

pub data Event : Type 0 where
  configured : Cfg → Event
  touched ticked : ℕ → Event
  supplied : Bool → ℕ → Event

unfoldable pub step : Core → Event → Core
step c (configured cfg) = configure c cfg
step c (touched now) = (activity c now).0
step c (ticked now) = (tick c now).0
step c (supplied charging percent) = supply c charging percent

unfoldable pub run : Core → List Event → Core
run c [] = c
run c (ev ∷ evs) = run (step c ev) evs

abbrev pub IsLit : Core → Type 0
IsLit c = c.brightness ≡ phase_brightness c.cfg c.phase

step-IsLit : (c : Core) (ev : Event) → IsLit c → IsLit (step c ev)
unfolding step configure activity supply tick phase_brightness
step-IsLit c (configured cfg) h = ground arith
step-IsLit c (touched now) h = ground arith
step-IsLit c (ticked now) h = ground arith
step-IsLit c (supplied charging percent) h = ground arith

pub tick-IsLit : (c : Core) (now : ℕ) → IsLit c → IsLit (tick c now).0
unfolding step
tick-IsLit c now h = step-IsLit c (ticked now) h

run_from-IsLit : (evs : List Event) (c : Core) → IsLit c → IsLit (run c evs)
unfolding run
run_from-IsLit [] c h = h
run_from-IsLit (ev ∷ evs) c h = run_from-IsLit evs (step c ev) (step-IsLit c ev h)

init-IsLit : (cfg : Cfg) (now : ℕ) → IsLit (init cfg now)
unfolding init phase_brightness
init-IsLit cfg now = refl

-- After any history of settings changes, touches, supply reports and ticks, the backlight is the
-- one that the settings in force give the phase: a settings change shows at once, also when
-- dimmed, and no path leaves a stale level behind.
pub run-IsLit : (cfg : Cfg) (now : ℕ) (evs : List Event) → IsLit (run (init cfg now) evs)
run-IsLit cfg now evs = run_from-IsLit evs (init cfg now) (init-IsLit cfg now)

-- Nothing in the history unplugs the device.
abbrev pub StaysPlugged : List Event → Type 0
StaysPlugged [] = Unit {0}
StaysPlugged (supplied charging percent ∷ evs) = (charging ≡ true) × StaysPlugged evs
StaysPlugged (_ ∷ evs) = StaysPlugged evs

pub record IsAwake (c : Core) : Type 0 where
  pub plugged : c.charging ≡ true
  pub awake : c.phase ≢ asleep

step-IsAwake :
    (c : Core) (ev : Event) (evs : List Event)
    → StaysPlugged (ev ∷ evs)
    → IsAwake c
    → IsAwake (step c ev) × StaysPlugged evs
unfolding step configure activity supply tick
step-IsAwake c (configured cfg) evs s h = ground arith
step-IsAwake c (touched now) evs s h = ground arith
step-IsAwake c (ticked now) evs s h = ground arith
step-IsAwake c (supplied charging percent) evs s h = ground arith

-- A device that is awake on its charger stays out of the dark for as long as it stays plugged in,
-- whatever the settings become and however long nobody touches it.
pub plugged_never_sleeps :
    (evs : List Event) (c : Core) → StaysPlugged evs → IsAwake c → (run c evs).phase ≢ asleep
unfolding run
plugged_never_sleeps [] c s h = h.awake
plugged_never_sleeps (ev ∷ evs) c s h =
    let next = step-IsAwake c ev evs s h in plugged_never_sleeps evs (step c ev) next.1 next.0
