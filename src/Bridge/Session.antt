-- ===== src/Bridge/Session.antt =====
-- components/nev_bridge/src/nev_bridge.c: the link to the companion daemon. `log` has what the bridge
-- said to the bus, to the clock and on the wire, the last first.
pub mod Daemon
pub mod Lifecycle
pub mod Bus
pub mod Replies
pub mod Calls
pub mod Upkeep
pub mod Trace
pub mod Receipt
pub mod Silence
pub mod Deadline
mod Tests
use nev_os.Base.{
  ℕ, ◌+◌, ◌*◌, ◌/◌, ◌%◌, ◌-◌, Bool, true, false, not, Option, none, some, List, [], ◌∷◌, ltb, leb,
  ◌==◌, if◌then◌else◌, length, take, replicate, u32_mod, sub32, add32, c_string,
}
use nev_os.Bridge.Ws.Poll.{Event}
use nev_os.Bridge.Proto.{ok, Result, encode, Schema, Values}
use nev_os.Bridge.Proto.Frame.{frame, Split, frame_wrap}
use nev_os.Bridge.Proto.Messages.{hello, pair}

-- nev_bridge_state_t
pub data State : Type 0 where
  offline searching connecting pairing ready : State

-- nev_mdns_result_t, its address as text
pub record Found : Type 0 where
  pub ip : List ℕ
  pub port : ℕ
  pub name : List ℕ

-- An event of the audio domain: whether it is a chunk in a blob, and what nev_bus.h says of one. `pcm`
-- is the blob's bytes.
pub record Audio : Type 0 where
  pub is_chunk : Bool
  pub has_blob : Bool
  pub kind : ℕ
  pub session : ℕ
  pub seq : ℕ
  pub final : Bool
  pub samples : ℕ
  pub pcm : Option (List ℕ)

pub data Key : Type 0 where
  device_id_key pair_token_key : Key

-- What the bridge calls: the clock, nev_ws.h, nev_mdns.h, nev_store.h, nev_rand.h and the bus, over the
-- state `W` of all of them. `fixed_daemon` is what the environment of a host build asks for.
pub record Outside (W : Type 0) : Type 0 where
  pub now_ms : W → ℕ
  pub net_is_up : W → Bool
  pub fixed_daemon : W → Option (List ℕ × ℕ)
  pub ws_open : W → List ℕ → ℕ → Bool × W
  pub ws_poll : W → Event × W
  pub ws_send : W → List ℕ → Bool × W
  pub ws_can_send : W → Bool
  pub ws_close : W → W
  pub mdns_start : W → Bool × W
  pub mdns_poll : W → Option Found × W
  pub mdns_stop : W → W
  pub store_str : W → Key → List ℕ
  pub store_set_str : W → Key → List ℕ → Bool × W
  pub store_commit : W → W
  pub rand_below : W → ℕ → ℕ × W
  pub rand_fill : W → ℕ → List ℕ × W
  pub rand_u32 : W → ℕ × W
  pub subscribe : W → Bool × W
  pub received : W → List Audio × W

-- The messages that the bridge sends.
pub data Kind : Type 0 where
  says_hello says_pair says_pong says_ping says_audio says_request says_marker : Kind

-- The events that carry a text.
pub data Topic : Type 0 where
  transcript_partial_topic transcript_final_topic agent_token_topic agent_done_topic
        notification_topic :
      Topic

-- What the bridge relays from the daemon: a text with its number, a mood with its intensity and its
-- duration, an update with its size and its digest.
pub data News : Type 0 where
  text : Topic → List ℕ → ℕ → News
  mood : ℕ → ℕ → ℕ → News
  offer : List ℕ → ℕ → List ℕ → News

pub data Effect : Type 0 where
  connected disconnected paired : Effect
  news : News → Effect
  wallclock : ℕ → Effect
  sent : Kind → List ℕ → Effect

-- bridge_t and s_audio_kind
pub record Bridge (W : Type 0) : Type 0 where
  pub state : State
  pub started : Bool
  pub daemon_ip : List ℕ
  pub daemon_port : ℕ
  pub daemon_name : List ℕ
  pub device_id : List ℕ
  pub token : List ℕ
  pub code : List ℕ
  pub backoff_ms : ℕ
  pub retry_at_ms : ℕ
  pub last_rx_ms : ℕ
  pub last_ping_ms : ℕ
  pub subscribed : Bool
  pub audio_kind : ℕ
  pub log : List Effect
  pub world : W

abbrev pub backoff_min_ms : ℕ
backoff_min_ms = 1000

abbrev pub backoff_max_ms : ℕ
backoff_max_ms = 30000

abbrev pub ping_interval_ms : ℕ
ping_interval_ms = 20000

abbrev pub silence_limit_ms : ℕ
silence_limit_ms = 60000

abbrev pub encode_cap : ℕ
encode_cap = 4300

-- snprintf with "%s" into a buffer of `cap` bytes
abbrev pub clip : ℕ → List ℕ → List ℕ
clip cap s = take (cap - 1) (c_string s)

-- "%06u" of a number below 1000000
abbrev pub six_digits : ℕ → List ℕ
six_digits n =
    (48 + n / 100000 % 10)
    ∷ (48 + n / 10000 % 10)
    ∷ (48 + n / 1000 % 10)
    ∷ (48 + n / 100 % 10)
    ∷ (48 + n / 10 % 10)
    ∷ (48 + n % 10)
    ∷ []

abbrev pub is_ready : State → Bool
is_ready ready = true
is_ready _ = false

abbrev pub is_offline : State → Bool
is_offline offline = true
is_offline _ = false

module _ {W : Type 0} where
  abbrev pub note : Bridge W → Effect → Bridge W
  note b e = record b { log = e ∷ b.log }

  module _ (out : Outside W) where
    unfoldable pub send_payload : Bridge W → Kind → List ℕ → Bool × Bridge W
    send_payload b kind payload =
        elim (frame_wrap payload (replicate (encode_cap + 8) 0) (encode_cap + 8)) [
          | frame (buf, n) ↦
              let (taken, w) = out.ws_send b.world (take n buf) in
              let b1 = record b { world = w } in
              if taken then (true, note b1 (sent kind payload)) else (false, b1)
          | _ ↦ (false, b)
        ]

    -- An encoder into the scratch buffer, and send_payload of what it wrote.
    unfoldable pub encode_send : Bridge W → Kind → (s : Schema) → Values s.fields → Bool × Bridge W
    encode_send b kind s vs = elim (encode s vs (replicate encode_cap 0) encode_cap) [
      | ok payload ↦ send_payload b kind payload
      | _ ↦ (false, b)
    ]

    unfoldable pub disconnect : Bridge W → Bridge W
    disconnect b =
        let b1 = if is_ready b.state then note b disconnected else b in
        let w = out.mdns_stop (out.ws_close b.world) in
        let doubled = b.backoff_ms * 2 % u32_mod in
        record b1 {
          state = offline;
          daemon_name = [];
          code = [];
          retry_at_ms = add32 (out.now_ms w) b.backoff_ms;
          backoff_ms = if ltb backoff_max_ms doubled then backoff_max_ms else doubled;
          world = w;
        }

    unfoldable pub send_hello : List ℕ → Bridge W → Bridge W
    send_hello version b =
        let (taken, b1) =
          encode_send b says_hello hello
            (1, (clip 33 b.device_id, (clip 25 version, (clip 65 b.token, tt)))) in
        if taken then b1 else disconnect b1

    unfoldable pub send_pair : Bridge W → Bridge W
    send_pair b =
        let (n, w) = out.rand_below b.world 1000000 in
        let (taken, b1) =
          encode_send (record b { code = six_digits n; world = w }) says_pair pair
            (six_digits n, tt) in
        if taken then record b1 { state = pairing } else disconnect b1
