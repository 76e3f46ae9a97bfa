-- ===== src/Services/Net/Tests.antt =====
-- The Wi-Fi machine at the configuration of net_service.c, with the laws at inputs that meet them.
use nev_os.Base.{
  ◌≡◌, ◌≤◌, refl, true, false, List, [], ◌∷◌, some, arith, map, ◌%◌, u32_mod, ◌≢◌, false,
}
use nev_os.Services.Net.{
  Cfg, Core, init, idle, online, backoff, credentials, lost, next_backoff, do_down, is_online,
}
use nev_os.Services.Net.Trace.{
  Event, settings, driver_associated, driver_address, driver_lost, ticked, step, run, listen,
  listen-run, radio_run,
}
use nev_os.Services.Net.Backoff.{delay, IsSane, backoff_exact, failures, failed, ends_row}
use nev_os.Services.Net.Retry.{
  resaved_waits, resaved, retick, as_event, forget_exact, ticks, loses, addresses, reported,
}

abbrev cfg : Cfg
cfg = record { backoff_min_ms = 1000; backoff_max_ms = 30000; dhcp_timeout_ms = 8000 }

cfg-IsSane : IsSane cfg
cfg-IsSane = omega arith

-- Six failures in a row: 1, 2, 4, 8, 16 and then 30 seconds.
abbrev failing : List Event
failing =
    settings true 0
    ∷ driver_lost 10
    ∷ driver_lost 20
    ∷ driver_lost 30
    ∷ driver_lost 40
    ∷ driver_lost 50
    ∷ driver_lost 60
    ∷ []

six_failures : (run (init cfg 0) failing).backoff_ms ≡ 30000
unfolding run step init credentials lost next_backoff
six_failures = refl

abbrev portal : List Event
portal = settings true 0 ∷ driver_associated 100 ∷ []

abbrev up_core : Core
up_core = record {
  cfg = cfg;
  state = online;
  have_credentials = true;
  since_ms = 0;
  backoff_ms = 0;
  attempts = 0;
  connections = 1;
}

abbrev backing_off : Core
backing_off = record up_core { state = backoff; since_ms = 500; backoff_ms = 16000; attempts = 5 }

listen-run_example :
    listen up_core true (driver_lost 5 ∷ ticked 2000 ∷ driver_address 2100 ∷ [])
    ≡ some (is_online (run up_core (driver_lost 5 ∷ ticked 2000 ∷ driver_address 2100 ∷ [])))
listen-run_example = listen-run (driver_lost 5 ∷ ticked 2000 ∷ driver_address 2100 ∷ []) up_core

backoff_exact_example :
    let c = run (init cfg 0) failing in
    let n = failures (init cfg 0) 0 failing in
    (c.backoff_ms ≡ delay cfg n) × (c.backoff_ms ≤ 30000) × (c.attempts ≡ n % u32_mod)
backoff_exact_example = backoff_exact cfg 0 failing cfg-IsSane

counts_six : failures (init cfg 0) 0 failing ≡ 6
unfolding failures run step init credentials lost failed ends_row
counts_six = refl

-- A second attempt, after a first that failed, that waits for an address from 1700 on.
abbrev second_try : List Event
second_try = settings true 0 ∷ driver_lost 100 ∷ ticked 1500 ∷ []

resaved_waits_example :
    let c' = run backing_off (map as_event (resaved 600 ∷ retick 16000 ∷ [])) in
    (c'.state ≡ backoff)
    × (c'.backoff_ms ≡ 16000)
    × (c'.since_ms ≡ 500)
    × (radio_run backing_off true (map as_event (resaved 600 ∷ retick 16000 ∷ [])) ≡ true)
resaved_waits_example =
    resaved_waits (resaved 600 ∷ retick 16000 ∷ []) backing_off true refl (tt, (omega arith, tt))

forget_exact_example :
    let reports = ticks 200 ∷ loses 300 ∷ addresses 400 ∷ loses 500 ∷ ticks 90000 ∷ [] in
    let c' = (step up_core (settings false 100)).0 in
    (c'.state ≡ idle)
    × (up_core.state ≡ online
        → ((step up_core (settings false 100)).1 ≡ do_down)
          × (radio_run up_core true (settings false 100 ∷ map reported reports) ≡ true))
    × (up_core.state ≢ online
        → radio_run up_core true (settings false 100 ∷ map reported reports) ≡ false)
forget_exact_example =
    forget_exact up_core 100 (ticks 200 ∷ loses 300 ∷ addresses 400 ∷ loses 500 ∷ ticks 90000 ∷ [])
      true
