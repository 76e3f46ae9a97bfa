-- ===== src/Services/Net/Trace.antt =====
-- The Wi-Fi machine over a whole history of driver reports, settings changes and ticks.
use nev_os.Base.{ℕ, ◌≡◌, refl, Bool, true, false, Option, none, some, List, [], ◌∷◌, ◌++◌, arith}
use nev_os.Services.Net.{
  Action, do_connect, do_disconnect, do_up, do_down, Core, credentials, associated, got_address,
  lost, tick, is_online,
}

pub data Event : Type 0 where
  settings : Bool → ℕ → Event
  driver_associated driver_address driver_lost ticked : ℕ → Event

unfoldable pub step : Core → Event → Core × Action
step c (settings have now) = credentials c have now
step c (driver_associated now) = associated c now
step c (driver_address now) = got_address c now
step c (driver_lost now) = lost c now
step c (ticked now) = tick c now

unfoldable pub run : Core → List Event → Core
run c [] = c
run c (ev ∷ evs) = run (step c ev).0 evs

pub run-append : (evs fvs : List Event) (c : Core) → run c (evs ++ fvs) ≡ run (run c evs) fvs
unfolding run
run-append [] fvs c = refl
run-append (ev ∷ evs) fvs c = run-append evs fvs (step c ev).0

-- A listener on the bus, who knows of the link what the published events say: WIFI_UP may only be
-- published while it is down, WIFI_DOWN only while it is up. `none` is a breach.
unfoldable pub hear : Bool → Action → Option Bool
hear false do_up = some true
hear true do_up = none
hear true do_down = some false
hear false do_down = none
hear up _ = some up

unfoldable pub listen : Core → Bool → List Event → Option Bool
listen c up [] = some up
listen c up (ev ∷ evs) =
    let (c', act) = step c ev in elim (hear up act) [ none ↦ none | some up' ↦ listen c' up' evs ]

step-hear :
    (c : Core) (ev : Event)
    → let (c', act) = step c ev in hear (is_online c) act ≡ some (is_online c')
unfolding step hear credentials associated got_address lost tick
step-hear c (settings have now) = ground arith
step-hear c (driver_associated now) = ground arith
step-hear c (driver_address now) = ground arith
step-hear c (driver_lost now) = ground arith
step-hear c (ticked now) = ground arith

-- Over every history, WIFI_UP and WIFI_DOWN alternate, and a listener who was right at the start
-- is right at the end: the link that the events describe is up exactly in the online state.
pub listen-run :
    (evs : List Event) (c : Core) → listen c (is_online c) evs ≡ some (is_online (run c evs))
unfolding listen run
listen-run [] c = refl
listen-run (ev ∷ evs) c = ground (arith, step-hear c ev, listen-run evs (step c ev).0)

-- What net_service.c's `act` asks of the radio: associate, let go, or neither.
unfoldable pub radio : Bool → Action → Bool
radio on do_connect = true
radio on do_disconnect = false
radio on _ = on

unfoldable pub radio_run : Core → Bool → List Event → Bool
radio_run c on [] = on
radio_run c on (ev ∷ evs) = let (c', act) = step c ev in radio_run c' (radio on act) evs
