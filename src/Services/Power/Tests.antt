-- ===== src/Services/Power/Tests.antt =====
-- The idle policy at one configuration, with the laws at inputs that meet them.
use nev_os.Base.{List, ◌≡◌, refl, true, false, [], ◌∷◌, arith}
use nev_os.Services.Power.{active, dim, Cfg, Core, init, tick, supply, activity, phase_brightness}
use nev_os.Services.Power.Phases.{
  Event, supplied, touched, configured, ticked, step, run, IsLit, run-IsLit, IsAwake,
}
use nev_os.Services.Power.Policy.{Darkens, silence_never_brightens}

abbrev cfg : Cfg
cfg = record { sleep_after_ms = 60000; active_percent = 80; dim_percent = 30 }

abbrev lit : Core
lit = record {
  cfg = cfg;
  phase = active;
  last_activity_ms = 1000;
  brightness = 80;
  charging = false;
  battery_low = true;
  phase_changed = false;
}

abbrev plugged : Core
plugged = record lit { charging = true; battery_low = false }

dims_then_sleeps : (tick lit 21000).1 ≡ dim
unfolding tick
dims_then_sleeps = refl

dim_level : (tick lit 21000).0.brightness ≡ 24
unfolding tick phase_brightness
dim_level = refl

lit-IsLit : IsLit lit
unfolding phase_brightness
lit-IsLit = refl

run-IsLit_example :
    IsLit (run (init cfg 0) (ticked 45000 ∷ configured (record cfg { active_percent = 50 }) ∷ []))
run-IsLit_example =
    run-IsLit cfg 0 (ticked 45000 ∷ configured (record cfg { active_percent = 50 }) ∷ [])

plugged-IsAwake : IsAwake plugged
plugged-IsAwake = ground arith

-- Touched at 1000 on the charger, unplugged, and then left alone: dimmed, then dark.
abbrev left_alone : List Event
left_alone = supplied true 90 ∷ touched 1000 ∷ supplied false 90 ∷ []

silence_never_brightens_example :
    Darkens (tick (run (init cfg 0) left_alone) 2000).0 (22000 ∷ 40000 ∷ 62000 ∷ 70000 ∷ [])
unfolding run step init supply activity
silence_never_brightens_example =
    silence_never_brightens cfg 0 left_alone 2000 (22000 ∷ 40000 ∷ 62000 ∷ 70000 ∷ []) (omega arith)
      (omega arith) (ground arith)
