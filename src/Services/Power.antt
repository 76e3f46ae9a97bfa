-- ===== src/Services/Power.antt =====
-- components/nev_services/src/power_core.c and include/nev_services/power_core.h: the idle policy.
-- A function that updates `*c` returns the new state, beside its result where it has one. The null
-- guards on `c` have no counterpart. Times are `uint32_t`, brightness is `uint8_t`.
pub mod Phases
pub mod Policy
mod Tests
use Prim.Native.String.{String}
use nev_os.Base.{
  ℕ, ◌+◌, ◌*◌, ◌/◌, ◌%◌, Bool, true, false, not, ◌&&◌, ltb, leb, if◌then◌else◌, sub32, u32_mod,
  u8_mod,
}

pub data Phase : Type 0 where
  active dim asleep : Phase

pub record Cfg : Type 0 where
  pub sleep_after_ms : ℕ
  pub active_percent : ℕ
  pub dim_percent : ℕ

pub record Core : Type 0 where
  pub cfg : Cfg
  pub phase : Phase
  pub last_activity_ms : ℕ
  pub brightness : ℕ
  pub charging : Bool
  pub battery_low : Bool
  pub phase_changed : Bool

abbrev pub low_battery_percent : ℕ
low_battery_percent = 15

pub sleep_after : Core → ℕ
sleep_after c =
    if c.battery_low && not c.charging then c.cfg.sleep_after_ms / 2 else c.cfg.sleep_after_ms

-- The product is a `uint32_t`.
pub dim_after : Core → ℕ
unfolding sleep_after
dim_after c = sleep_after c * 2 % u32_mod / 3

-- The brightness that `set_phase` gives a phase; the quotient is cut to a `uint8_t`, and DIM stays
-- readable.
pub phase_brightness : Cfg → Phase → ℕ
phase_brightness cfg active = cfg.active_percent
phase_brightness cfg dim =
    let scaled : ℕ = cfg.active_percent * cfg.dim_percent / 100 % u8_mod in
    if ltb scaled 5 then 5 else scaled
phase_brightness cfg asleep = 0

abbrev same_phase : Phase → Phase → Bool
same_phase active active = true
same_phase dim dim = true
same_phase asleep asleep = true
same_phase _ _ = false

change_phase : Core → Phase → Core
change_phase c phase = record c {
  phase = phase;
  phase_changed = true;
  brightness = phase_brightness c.cfg phase;
}

pub set_phase : Core → Phase → Core
unfolding change_phase
set_phase c phase = if same_phase c.phase phase then c else change_phase c phase

pub init : Cfg → ℕ → Core
init cfg now_ms = record {
  cfg = cfg;
  phase = active;
  last_activity_ms = now_ms;
  brightness = cfg.active_percent;
  charging = false;
  battery_low = false;
  phase_changed = false;
}

-- The phase is set to 0xFF and back, so that `set_phase` always takes the change.
pub configure : Core → Cfg → Core
unfolding change_phase
configure c cfg = record (change_phase (record c { cfg = cfg }) c.phase) { phase_changed = false }

-- True: deliver the event. False: it only woke the device.
pub activity : Core → ℕ → Core × Bool
unfolding set_phase
activity c now_ms = (
  set_phase (record c { last_activity_ms = now_ms }) active,
  elim c.phase [ asleep ↦ false | _ ↦ true ],
)

pub supply : Core → Bool → ℕ → Core
supply c charging battery_percent = record c {
  charging = charging;
  battery_low = leb battery_percent low_battery_percent;
}

pub tick : Core → ℕ → Core × Phase
unfolding set_phase sleep_after dim_after
tick c now_ms = (settled, settled.phase)
  where
    since : ℕ
    since = sub32 now_ms c.last_activity_ms

    calm : Core
    calm = record c { phase_changed = false }

    settled : Core
    settled =
        if leb (sleep_after c) since
        then set_phase calm (if c.charging then dim else asleep)
        else if leb (dim_after c) since
        then set_phase calm dim
        else set_phase calm active

pub may_idle_cpu : Core → Bool
may_idle_cpu c = elim c.phase [ asleep ↦ not c.charging | _ ↦ false ]

pub phase_name : Phase → String
phase_name active = "active"
phase_name dim = "dim"
phase_name asleep = "asleep"
