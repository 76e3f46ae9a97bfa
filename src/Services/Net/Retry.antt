-- ===== src/Services/Net/Retry.antt =====
-- That the machine goes on trying, and what it does with settings that change.
use nev_os.Base.{
  ℕ, ◌<◌, ◌≡◌, ◌≢◌, refl, ap, Bool, true, false, List, [], ◌∷◌, map, All, arith, ◌∙◌, sub32, ◌⊎◌,
  if◌then◌else◌,
}
use nev_os.Services.Net.{
  do_disconnect, is_online, State, lost, got_address, associated, do_down, Core, credentials, tick,
  idle, connecting, waiting_ip, online, backoff, do_nothing, do_connect,
}
use nev_os.Services.Net.Trace.{
  Event, settings, driver_associated, driver_address, driver_lost, ticked, step, run, radio,
  radio_run,
}
use nev_os.Services.Net.Backoff.{delay}

-- An attempt begins: the radio is told to connect, or it has associated and waits for an address.
abbrev pub Begins : Core → Event → Type 0
Begins c ev =
    ((step c ev).1 ≡ do_connect) ⊎ ((c.state ≡ connecting) × ((step c ev).0.state ≡ waiting_ip))

-- The time that a call brings.
abbrev pub time_of : Event → ℕ
time_of (settings have now) = now
time_of (driver_associated now) = now
time_of (driver_address now) = now
time_of (driver_lost now) = now
time_of (ticked now) = now

abbrev pub Before : ℕ → ℕ → ℕ → Type 0
Before start limit now = sub32 now start < limit

-- What can reach the machine between two driver reports: settings that still name a network, and
-- ticks.
pub data Quiet : Type 0 where
  resaved retick : ℕ → Quiet

abbrev pub as_event : Quiet → Event
as_event (resaved now) = settings true now
as_event (retick now) = ticked now

-- No tick reaches the end of the delay.
abbrev pub Early : ℕ → ℕ → Quiet → Type 0
Early start delay (resaved now) = Unit {0}
Early start delay (retick now) = sub32 now start < delay

credentials-backoff :
    (c : Core) (now : ℕ)
    → c.state ≡ backoff
    → credentials c true now ≡ (record c { have_credentials = true }, do_nothing)
unfolding credentials
credentials-backoff c now st = ground arith

tick_early :
    (c : Core) (now : ℕ)
    → c.state ≡ backoff
    → sub32 now c.since_ms < c.backoff_ms
    → tick c now ≡ (c, do_nothing)
unfolding tick
tick_early c now st h = ground arith

-- While the machine backs off, credentials that are saved again do not cut the delay short: with
-- any number of them and of ticks before its end, the machine is still backing off, with the same
-- delay and start, and the radio is as it was.
pub resaved_waits :
    (qs : List Quiet) (c : Core) (on : Bool)
    → c.state ≡ backoff
    → All (Early c.since_ms c.backoff_ms) qs
    → let c' = run c (map as_event qs) in
      (c'.state ≡ backoff)
      × (c'.backoff_ms ≡ c.backoff_ms)
      × (c'.since_ms ≡ c.since_ms)
      × (radio_run c on (map as_event qs) ≡ on)
unfolding run step radio_run radio
resaved_waits [] c on st h = (st, refl, refl, refl)
resaved_waits (resaved now ∷ qs) c on st h = ground (
  arith,
  credentials-backoff c now st,
  resaved_waits qs (record c { have_credentials = true }) on st h.1,
)
resaved_waits (retick now ∷ qs) c on st h =
    ground (arith, tick_early c now st h.0, resaved_waits qs c on st h.1)

-- What can reach the machine while the settings stay as they are.
pub data Report : Type 0 where
  associates addresses loses ticks : ℕ → Report

abbrev pub reported : Report → Event
reported (associates now) = driver_associated now
reported (addresses now) = driver_address now
reported (loses now) = driver_lost now
reported (ticks now) = ticked now

unnamed :
    (c : Core) (r : Report) (on : Bool)
    → c.have_credentials ≡ false
    → let (c', act) = step c (reported r) in (c'.have_credentials ≡ false) × (radio on act ≡ on)
unfolding step radio associated got_address lost tick
unnamed c (associates now) on h = ground arith
unnamed c (addresses now) on h = ground arith
unnamed c (loses now) on h = ground arith
unnamed c (ticks now) on h = ground arith

radio_kept :
    (c : Core) (rs : List Report) (on : Bool)
    → c.have_credentials ≡ false
    → radio_run c on (map reported rs) ≡ on
unfolding radio_run
radio_kept c [] on h = refl
radio_kept c (r ∷ rs) on h =
    ap (λ o. radio_run (step c (reported r)).0 o (map reported rs)) (unnamed c r on h).1
    ∙ radio_kept (step c (reported r)).0 rs on (unnamed c r on h).0

other_state :
    (c : Core) (now : ℕ) (on : Bool)
    → (c.state ≢ online)
    → radio on (credentials c false now).1 ≡ false
unfolding radio credentials
other_state c now on st = by_state c.state st
  where
    by_state :
        (s : State)
        → (s ≢ online)
        → radio on (if is_online (record c { state = s }) then do_down else do_disconnect) ≡ false
    by_state idle st = refl
    by_state connecting st = refl
    by_state waiting_ip st = refl
    by_state online st = absurd (st refl)
    by_state backoff st = refl

-- Forgetting the network while the link is up leaves the radio as it was: the settings change says
-- DOWN and makes the machine idle, and until the settings change again nothing that the driver
-- reports and no tick asks the radio to let go. In every other state the same settings change asks
-- for that at once.
pub forget_exact :
    (c : Core) (now : ℕ) (rs : List Report) (on : Bool)
    → let c' = (step c (settings false now)).0 in
      (c'.state ≡ idle)
      × (c.state ≡ online
          → ((step c (settings false now)).1 ≡ do_down)
            × (radio_run c on (settings false now ∷ map reported rs) ≡ on))
      × (c.state ≢ online → radio_run c on (settings false now ∷ map reported rs) ≡ false)
unfolding step radio_run radio credentials
forget_exact c now rs on = (
  ground arith,
  λ st. (
    ground (arith, st),
    radio_kept (credentials c false now).0 rs (radio on (credentials c false now).1) (ground arith)
        ∙ ground (arith, st),
  ),
  λ st.
      radio_kept (credentials c false now).0 rs (radio on (credentials c false now).1)
        (ground arith)
      ∙ other_state c now on st,
)
