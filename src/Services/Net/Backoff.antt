-- ===== src/Services/Net/Backoff.antt =====
-- The retry delay as a function of the number of consecutive failures.
use native.Mathlib.Nat.{pow-suc}
use nev_os.Base.{
  ℕ, zero, suc, ◌+◌, ◌*◌, ◌%◌, ◌^◌, ◌≤◌, ◌<◌, ◌≡◌, ◌⊎◌, refl, ap, ◌++◌, min, Bool, true, false,
  List, [], ◌∷◌, arith, u32_mod, leb, sub32, if◌then◌else◌,
}
use nev_os.Services.Net.{
  Cfg, Core, idle, connecting, waiting_ip, online, init, credentials, associated, got_address, lost,
  tick, next_backoff,
}
use nev_os.Services.Net.Trace.{
  Event, settings, driver_associated, driver_address, driver_lost, ticked, step, run,
}

-- No delay before the first failure; then the least delay, doubled with each further failure and
-- held at the greatest.
unfoldable pub delay : Cfg → ℕ → ℕ
delay cfg zero = 0
delay cfg (suc k) = min cfg.backoff_max_ms (cfg.backoff_min_ms * 2 ^ k)

-- A configuration whose doubling cannot wrap.
pub record IsSane (cfg : Cfg) : Type 0 where
  pub some_delay : 0 < cfg.backoff_min_ms
  pub ordered : cfg.backoff_min_ms ≤ cfg.backoff_max_ms
  pub no_wrap : cfg.backoff_max_ms * 2 < u32_mod

-- A failure: the driver loses a network that was tried or used, or an attempt runs out of time.
unfoldable pub failed : Core → Event → Bool
failed c (settings have now) = false
failed c (driver_associated now) = false
failed c (driver_address now) = false
failed c (driver_lost now) = elim c.state [ idle ↦ false | _ ↦ true ]
failed c (ticked now) = elim c.state [
  | connecting ↦ leb (c.cfg.dhcp_timeout_ms * 2 % u32_mod) (sub32 now c.since_ms)
  | waiting_ip ↦ leb c.cfg.dhcp_timeout_ms (sub32 now c.since_ms)
  | _ ↦ false
]

-- What ends a row of failures: an address, or a network named where there was none.
unfoldable pub ends_row : Core → Event → Bool
ends_row c (settings true now) = elim c.state [ idle ↦ true | _ ↦ false ]
ends_row c (settings false now) = false
ends_row c (driver_associated now) = false
ends_row c (driver_address now) = true
ends_row c (driver_lost now) = false
ends_row c (ticked now) = false

-- The failures in a row at the end of a history, after `n` that came before it.
unfoldable pub failures : Core → ℕ → List Event → ℕ
failures c n [] = n
failures c n (ev ∷ evs) =
    failures (step c ev).0 (if ends_row c ev then 0 else if failed c ev then n + 1 else n) evs

-- What holds after `n` failures in a row.
pub record Tracks (cfg : Cfg) (c : Core) (n : ℕ) : Type 0 where
  pub sane : IsSane cfg
  pub same : c.cfg ≡ cfg
  pub exact : c.backoff_ms ≡ delay cfg n
  pub counted : c.attempts ≡ n % u32_mod
  pub settled : c.state ≡ online → n ≡ 0
  pub known : (c.state ≡ connecting) ⊎ (c.state ≡ waiting_ip) → c.have_credentials ≡ true

doubled : (a k : ℕ) → a * 2 ^ suc k ≡ (a * 2 ^ k) * 2
doubled a k = omega (arith, ap (λ t. a * t) (pow-suc 2 k))

min-le-doubled : (a k : ℕ) → a ≤ a * 2 ^ k
min-le-doubled a zero = omega arith
min-le-doubled a (suc k) = omega (arith, doubled a k, min-le-doubled a k)

-- One more failure takes the delay from its value for `k` failures to its value for `k + 1`.
next_backoff-delay :
    (cfg : Cfg) (c : Core) (k : ℕ)
    → IsSane cfg
    → c.cfg ≡ cfg
    → c.backoff_ms ≡ delay cfg k
    → next_backoff c ≡ delay cfg (suc k)
unfolding next_backoff delay
next_backoff-delay cfg c zero s same e = ground arith
next_backoff-delay cfg c (suc k) s same e =
    ground (arith, doubled cfg.backoff_min_ms k, min-le-doubled cfg.backoff_min_ms k)

delay-zero : (cfg : Cfg) → delay cfg 0 ≡ 0
unfolding delay
delay-zero cfg = refl

pub delay-le : (cfg : Cfg) (k : ℕ) → delay cfg k ≤ cfg.backoff_max_ms
unfolding delay
delay-le cfg zero = omega arith
delay-le cfg (suc k) = omega arith

abbrev pub row : Core → ℕ → Event → ℕ
row c n ev = if ends_row c ev then 0 else if failed c ev then n + 1 else n

pub step-Tracks :
    (cfg : Cfg) (c : Core) (n : ℕ) (ev : Event)
    → Tracks cfg c n
    → Tracks cfg (step c ev).0 (row c n ev)
unfolding step credentials associated got_address lost tick failed ends_row
step-Tracks cfg c n (settings true now) t = ground (arith, delay-zero cfg)
step-Tracks cfg c n (settings false now) t = ground (arith, delay-zero cfg)
step-Tracks cfg c n (driver_associated now) t = ground arith
step-Tracks cfg c n (driver_address now) t = ground (arith, delay-zero cfg)
step-Tracks cfg c n (driver_lost now) t =
    ground (arith, next_backoff-delay cfg c n t.sane t.same t.exact)
step-Tracks cfg c n (ticked now) t =
    ground (arith, next_backoff-delay cfg c n t.sane t.same t.exact)

pub run-Tracks :
    (cfg : Cfg) (evs : List Event) (c : Core) (n : ℕ)
    → Tracks cfg c n
    → Tracks cfg (run c evs) (failures c n evs)
unfolding run failures
run-Tracks cfg [] c n t = t
run-Tracks cfg (ev ∷ evs) c n t =
    run-Tracks cfg evs (step c ev).0 (row c n ev) (step-Tracks cfg c n ev t)

pub init-Tracks : (cfg : Cfg) (now : ℕ) → IsSane cfg → Tracks cfg (init cfg now) 0
unfolding init
init-Tracks cfg now s = ground (arith, delay-zero cfg)

pub failures-append :
    (evs : List Event) (ev : Event) (c : Core) (n : ℕ)
    → failures c n (evs ++ ev ∷ []) ≡ row (run c evs) (failures c n evs) ev
unfolding failures run
failures-append [] ev c n = refl
failures-append (e ∷ evs) ev c n = failures-append evs ev (step c e).0 (row c n e)

-- Under a sane configuration and after any history from the start, the delay is zero if no failure
-- stands in a row at its end, and `min backoff_max_ms (backoff_min_ms * 2 ^ (n - 1))` if n > 0 do;
-- so it never passes the ceiling. The machine's own counter is n modulo 2 ^ 32. A failure is a loss
-- outside the idle state or an attempt that runs out of time; an address and the first naming of a
-- network begin the row again.
pub backoff_exact :
    (cfg : Cfg) (now : ℕ) (evs : List Event)
    → IsSane cfg
    → let c = run (init cfg now) evs in
      let n = failures (init cfg now) 0 evs in
      (c.backoff_ms ≡ delay cfg n)
      × (c.backoff_ms ≤ cfg.backoff_max_ms)
      × (c.attempts ≡ n % u32_mod)
backoff_exact cfg now evs s =
    let n = failures (init cfg now) 0 evs in
    let t : Tracks cfg (run (init cfg now) evs) n =
      run-Tracks cfg evs (init cfg now) 0 (init-Tracks cfg now s) in
    (t.exact, omega (arith, t.exact, delay-le cfg n), t.counted)
