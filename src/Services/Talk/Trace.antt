-- ===== src/Services/Talk/Trace.antt =====
-- Push-to-talk over a whole history of calls, against what the button and the microphone do.
use nev_os.Base.{
  ℕ, ◌≡◌, refl, Option, none, some, List, [], ◌∷◌, arith, leb, ltb, ◌==◌, if◌then◌else◌, sub32,
}
use nev_os.Services.Talk.{
  Action, do_nothing, do_start, do_send, do_discard, Cfg, Ptt, press, idle, arming, talking,
  release, tick, cancel,
}

-- One call of the service, with the time that it passes.
pub data Event : Type 0 where
  pressed released ticked : ℕ → Event
  cancelled : Event

unfoldable pub step : Ptt → Event → Ptt × Action
step p (pressed now) = press p now
step p (released now) = release p now
step p (ticked now) = tick p now
step p cancelled = cancel p

-- The gesture seen from outside: no hold, a hold since a stamp with the microphone closed, or the
-- microphone open since a stamp.
pub data Gesture : Type 0 where
  up : Gesture
  held_since : ℕ → Gesture
  open_since : ℕ → Gesture

-- The promise of talk_core.h, call by call: the microphone opens only when a hold has lasted
-- `arm_ms`, is closed only when it is open, is sent only with `min_speech_ms` of speech, and is
-- discarded only when it is shorter, when it reached a ceiling, or when the caller gave up.
-- `none` is a breach of the promise.
unfoldable pub obey : Cfg → Gesture → Event → Action → Option Gesture
obey cfg up (pressed now) do_nothing = if cfg.arm_ms == 0 then none else some (held_since now)
obey cfg up (pressed now) do_start = if cfg.arm_ms == 0 then some (open_since now) else none
obey cfg up ev do_nothing = some up
obey cfg (held_since t) (pressed now) do_nothing = some (held_since t)
obey cfg (held_since t) (released now) do_nothing = some up
obey cfg (held_since t) (ticked now) do_nothing =
    if ltb (sub32 now t) cfg.arm_ms then some (held_since t) else none
obey cfg (held_since t) (ticked now) do_start =
    if leb cfg.arm_ms (sub32 now t) then some (open_since now) else none
obey cfg (held_since t) cancelled do_nothing = some up
obey cfg (open_since t) (pressed now) do_nothing = some (open_since t)
obey cfg (open_since t) (released now) do_send =
    if leb cfg.min_speech_ms (sub32 now t) then some up else none
obey cfg (open_since t) (released now) do_discard =
    if ltb (sub32 now t) cfg.min_speech_ms then some up else none
obey cfg (open_since t) (ticked now) do_nothing =
    if cfg.max_ms == 0
    then some (open_since t)
    else if ltb (sub32 now t) cfg.max_ms
    then some (open_since t)
    else none
obey cfg (open_since t) (ticked now) do_discard =
    if cfg.max_ms == 0 then none else if leb cfg.max_ms (sub32 now t) then some up else none
obey cfg (open_since t) cancelled do_discard = some up
obey cfg _ _ _ = none

-- The gesture after a history, driven only by the calls and the actions that came back.
unfoldable pub session : Ptt → Gesture → List Event → Option (Ptt × Gesture)
session p g [] = some (p, g)
session p g (ev ∷ evs) =
    let (p', act) = step p ev in
    elim (obey p.cfg g ev act) [ none ↦ none | some g' ↦ session p' g' evs ]

unfoldable pub run : Ptt → List Event → Ptt
run p [] = p
run p (ev ∷ evs) = run (step p ev).0 evs

-- What the machine believes.
abbrev pub gesture_of : Ptt → Gesture
gesture_of p = elim p.state [
  | idle ↦ up
  | arming ↦ held_since p.pressed_at_ms
  | talking ↦ open_since p.talking_since_ms
]

pub step-obey :
    (p : Ptt) (ev : Event)
    → let (p', act) = step p ev in obey p.cfg (gesture_of p) ev act ≡ some (gesture_of p')
unfolding step obey press release tick cancel
step-obey p (pressed now) = ground arith
step-obey p (released now) = ground arith
step-obey p (ticked now) = ground arith
step-obey p cancelled = ground arith

-- Over every history of presses, releases, ticks and cancels, at any times, from any state, no
-- action breaks the promise of the header, and at the end the machine's own state is the gesture
-- that the actions amount to: the microphone is open exactly when the state is talking.
pub session-run :
    (evs : List Event) (p : Ptt)
    → session p (gesture_of p) evs ≡ some (run p evs, gesture_of (run p evs))
unfolding session run
session-run [] p = refl
session-run (ev ∷ evs) p = ground (arith, step-obey p ev, session-run evs (step p ev).0)
