-- ===== src/Services/Net.antt =====
-- components/nev_services/src/net_core.c and include/nev_services/net_core.h: the Wi-Fi state
-- machine, and what net_service.c's `act` makes the radio do.
-- A function that updates `*c` returns the new state beside its action. The null guards on `c`
-- have no counterpart. Times and counters are `uint32_t`.
pub mod Trace
pub mod Backoff
pub mod Retry
mod Tests
use Prim.Native.String.{String}
use nev_os.Base.{
  ℕ, ◌+◌, ◌*◌, ◌%◌, Bool, true, false, ltb, leb, ◌==◌, if◌then◌else◌, sub32, add32, u32_mod,
}

pub data State : Type 0 where
  idle connecting waiting_ip online backoff : State

pub data Action : Type 0 where
  do_nothing do_connect do_disconnect do_up do_down : Action

pub record Cfg : Type 0 where
  pub backoff_min_ms : ℕ
  pub backoff_max_ms : ℕ
  pub dhcp_timeout_ms : ℕ

pub record Core : Type 0 where
  pub cfg : Cfg
  pub state : State
  pub have_credentials : Bool
  pub since_ms : ℕ
  pub backoff_ms : ℕ
  pub attempts : ℕ
  pub connections : ℕ

abbrev pub is_online : Core → Bool
is_online c = elim c.state [ online ↦ true | _ ↦ false ]

enter : Core → State → ℕ → Action → Core × Action
enter c state now_ms action = (record c { state = state; since_ms = now_ms }, action)

-- `c->backoff_ms *= 2` wraps before it is held against the ceiling.
next_backoff : Core → ℕ
next_backoff c =
    if c.backoff_ms == 0
    then c.cfg.backoff_min_ms
    else if ltb c.cfg.backoff_max_ms (c.backoff_ms * 2 % u32_mod)
    then c.cfg.backoff_max_ms
    else c.backoff_ms * 2 % u32_mod

fail : Core → ℕ → Core × Action
unfolding enter
fail c now_ms =
    enter (record c { attempts = add32 c.attempts 1; backoff_ms = next_backoff c }) backoff now_ms
      (if is_online c then do_down else do_nothing)

pub init : Cfg → ℕ → Core
init cfg now_ms = record {
  cfg = cfg;
  state = idle;
  have_credentials = false;
  since_ms = now_ms;
  backoff_ms = 0;
  attempts = 0;
  connections = 0;
}

pub credentials : Core → Bool → ℕ → Core × Action
unfolding enter
credentials c have now_ms =
    if have
    then (elim c.state [
      | idle ↦
          enter (record c { have_credentials = true; backoff_ms = 0; attempts = 0 }) connecting
            now_ms do_connect
      | _ ↦ (record c { have_credentials = true }, do_nothing)
    ])
    else enter (record c { have_credentials = false }) idle now_ms
        (if is_online c then do_down else do_disconnect)

pub associated : Core → ℕ → Core × Action
unfolding enter
associated c now_ms = elim c.state [
  | connecting ↦ enter c waiting_ip now_ms do_nothing
  | _ ↦ (c, do_nothing)
]

pub got_address : Core → ℕ → Core × Action
unfolding enter
got_address c now_ms = elim c.state [
  | online ↦ (c, do_nothing)
  | _ ↦
      enter (record c { backoff_ms = 0; attempts = 0; connections = add32 c.connections 1 }) online
        now_ms do_up
]

pub lost : Core → ℕ → Core × Action
unfolding fail
lost c now_ms = elim c.state [ idle ↦ (c, do_nothing) | _ ↦ fail c now_ms ]

-- `c->cfg.dhcp_timeout_ms * 2` is a `uint32_t` product.
pub tick : Core → ℕ → Core × Action
unfolding fail enter
tick c now_ms = elim c.state [
  | waiting_ip ↦ if leb c.cfg.dhcp_timeout_ms since then fail c now_ms else (c, do_nothing)
  | connecting ↦
      if leb (c.cfg.dhcp_timeout_ms * 2 % u32_mod) since then fail c now_ms else (c, do_nothing)
  | backoff ↦
      if ltb since c.backoff_ms
      then (c, do_nothing)
      else if c.have_credentials
      then enter c connecting now_ms do_connect
      else enter c idle now_ms do_nothing
  | _ ↦ (c, do_nothing)
]
  where
    since : ℕ
    since = sub32 now_ms c.since_ms

pub state_name : State → String
state_name idle = "idle"
state_name connecting = "connecting"
state_name waiting_ip = "waiting for an address"
state_name online = "online"
state_name backoff = "backing off"
