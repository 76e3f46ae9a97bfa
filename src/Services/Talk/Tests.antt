-- ===== src/Services/Talk/Tests.antt =====
-- The functions of talk_core.c at concrete times, with the laws at inputs that meet them.
use nev_os.Base.{◌≡◌, refl, none, some, List, [], ◌∷◌}
use nev_os.Services.Talk.{
  Ptt, init, press, tick, release, talking, idle, do_nothing, do_start, do_send, defaults, talk_ms,
  discard_none,
}
use nev_os.Services.Talk.Trace.{
  Event, pressed, released, ticked, session, session-run, step, run, up,
}
use nev_os.Services.Talk.Tap.{actions}

abbrev fresh : Ptt
fresh = record {
  cfg = defaults;
  state = idle;
  pressed_at_ms = 0;
  talking_since_ms = 0;
  last_discard = discard_none;
}

abbrev open_mic : Ptt
open_mic = record fresh { state = talking; talking_since_ms = 4_294_967_000 }

question : List Event
question = pressed 1000 ∷ ticked 1100 ∷ ticked 1120 ∷ ticked 1500 ∷ released 1800 ∷ []

init_fresh : init none ≡ fresh
unfolding init
init_fresh = refl

actions-question :
    actions fresh question ≡ do_nothing ∷ do_nothing ∷ do_start ∷ do_nothing ∷ do_send ∷ []
unfolding actions question step press tick release
actions-question = refl

-- The stamp wraps between the opening and the reading.
talk_ms_wraps : talk_ms open_mic 704 ≡ 1000
unfolding talk_ms
talk_ms_wraps = refl

session-run_example : session fresh up question ≡ some (run fresh question, up)
unfolding run question step press tick release
session-run_example = session-run question fresh
