-- ===== src/Services/Talk.antt =====
-- components/nev_services/src/talk_core.c and include/nev_services/talk_core.h: push-to-talk.
-- A function that updates `*p` returns the new state beside its action. The null guards on `p`
-- have no counterpart: a state is always there. Times are `uint32_t` milliseconds.
pub mod Trace
pub mod Tap
mod Tests
use Prim.Native.String.{String}
use nev_os.Base.{ℕ, ◌≡◌, Bool, true, false, Option, none, some, ltb, ◌==◌, if◌then◌else◌, sub32}

pub data State : Type 0 where
  idle arming talking : State

pub data Action : Type 0 where
  do_nothing do_start do_send do_discard : Action

pub data Discard : Type 0 where
  discard_none too_short too_long : Discard

pub record Cfg : Type 0 where
  pub arm_ms : ℕ
  pub min_speech_ms : ℕ
  pub max_ms : ℕ

pub record Ptt : Type 0 where
  pub cfg : Cfg
  pub state : State
  pub pressed_at_ms : ℕ
  pub talking_since_ms : ℕ
  pub last_discard : Discard

abbrev pub defaults : Cfg
defaults = record { arm_ms = 120; min_speech_ms = 350; max_ms = 30000 }

-- A null configuration asks for the defaults.
abbrev pub cfg_or_defaults : Option Cfg → Cfg
cfg_or_defaults none = defaults
cfg_or_defaults (some cfg) = cfg

pub init : Option Cfg → Ptt
init cfg = record {
  cfg = cfg_or_defaults cfg;
  state = idle;
  pressed_at_ms = 0;
  talking_since_ms = 0;
  last_discard = discard_none;
}

press_idle : Ptt → ℕ → Ptt × Action
press_idle p now_ms =
    if p.cfg.arm_ms == 0
    then (record armed { state = talking; talking_since_ms = now_ms }, do_start)
    else (armed, do_nothing)
  where
    armed : Ptt
    armed = record p { state = arming; pressed_at_ms = now_ms; last_discard = discard_none }

-- A press while the machine is not idle is a repeat.
pub press : Ptt → ℕ → Ptt × Action
unfolding press_idle
press p now_ms = elim p.state [ idle ↦ press_idle p now_ms | _ ↦ (p, do_nothing) ]

pub release : Ptt → ℕ → Ptt × Action
release p now_ms = elim p.state [
  | arming ↦ (record p { state = idle }, do_nothing)
  | talking ↦
      if ltb (sub32 now_ms p.talking_since_ms) p.cfg.min_speech_ms
      then (record p { state = idle; last_discard = too_short }, do_discard)
      else (record p { state = idle }, do_send)
  | idle ↦ (p, do_nothing)
]

tick_arming : Ptt → ℕ → Ptt × Action
tick_arming p now_ms =
    if ltb (sub32 now_ms p.pressed_at_ms) p.cfg.arm_ms
    then (p, do_nothing)
    else (record p { state = talking; talking_since_ms = now_ms }, do_start)

tick_talking : Ptt → ℕ → Ptt × Action
tick_talking p now_ms =
    if p.cfg.max_ms == 0
    then (p, do_nothing)
    else if ltb (sub32 now_ms p.talking_since_ms) p.cfg.max_ms
    then (p, do_nothing)
    else (record p { state = idle; last_discard = too_long }, do_discard)

pub tick : Ptt → ℕ → Ptt × Action
unfolding tick_arming tick_talking
tick p now_ms = elim p.state [
  | arming ↦ tick_arming p now_ms
  | talking ↦ tick_talking p now_ms
  | idle ↦ (p, do_nothing)
]

pub cancel : Ptt → Ptt × Action
cancel p = elim p.state [
  | talking ↦ (record p { state = idle; last_discard = discard_none }, do_discard)
  | _ ↦ (record p { state = idle }, do_nothing)
]

abbrev pub is_talking : Ptt → Bool
is_talking p = elim p.state [ talking ↦ true | _ ↦ false ]

-- How long the microphone has been open; 0 when it is not.
pub talk_ms : Ptt → ℕ → ℕ
talk_ms p now_ms = elim p.state [ talking ↦ sub32 now_ms p.talking_since_ms | _ ↦ 0 ]

pub discard_reason : Discard → String
discard_reason too_short = "Hold the button while you talk"
discard_reason too_long = "That ran long. Use Meeting for anything this size."
discard_reason discard_none = ""
