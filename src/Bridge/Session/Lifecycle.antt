-- ===== src/Bridge/Session/Lifecycle.antt =====
-- The life of the bridge and the calls of the applications, of nev_bridge.c.
use nev_os.Base.{
  take, Option, ℕ, zero, suc, ◌+◌, ◌-◌, ◌*◌, ◌/◌, ◌%◌, ◌^◌, Bool, true, false, not, ◌&&◌, none,
  some, List, [], ◌∷◌, ltb, if◌then◌else◌, sub32, add32,
}
use nev_os.Bridge.Ws.Poll.{nothing, opened, message, ended}
use nev_os.Bridge.Proto.Messages.{audio_chunk, agent_request, capture_marker, ping}
use nev_os.Bridge.Session.{
  State, offline, searching, connecting, Audio, Outside, Bridge, says_audio, says_request,
  says_marker, says_ping, device_id_key, pair_token_key, backoff_min_ms, backoff_max_ms,
  ping_interval_ms, silence_limit_ms, clip, is_ready, is_offline, encode_send, disconnect,
  send_hello,
}
use nev_os.Bridge.Session.Daemon.{store_token, commit, on_message}

abbrev pub is_null : Option (List ℕ) → Bool
is_null none = true
is_null (some bytes) = false

-- The bytes at a pointer.
abbrev pub pointed : Option (List ℕ) → List ℕ
pointed none = []
pointed (some bytes) = bytes

-- "%02x"
abbrev pub hex : ℕ → ℕ
hex n = if ltb n 10 then 48 + n else 87 + n

abbrev pub two_hex : List ℕ → List ℕ
two_hex [] = []
two_hex (x ∷ xs) = hex (x / 16 % 16) ∷ hex (x % 16) ∷ two_hex xs

module _ {W : Type 0} (out : Outside W) where
  -- A fresh identity is stored at once.
  unfoldable pub identify : Bridge W → List ℕ → Bridge W
  identify b [] =
      let (raw, w) = out.rand_fill b.world 6 in
      let id = 110 ∷ 101 ∷ 118 ∷ 45 ∷ two_hex raw in
      commit out (record b { device_id = id; world = (out.store_set_str w device_id_key id).1 })
  identify b (c ∷ cs) = record b { device_id = clip 33 (c ∷ cs) }

  unfoldable pub init : W → Bridge W
  init w0 =
      let (found_slot, w) = out.subscribe w0 in
      let b : Bridge W = record {
        state = offline;
        started = true;
        daemon_ip = [];
        daemon_port = 0;
        daemon_name = [];
        device_id = [];
        token = clip 65 (out.store_str w pair_token_key);
        code = [];
        backoff_ms = backoff_min_ms;
        retry_at_ms = 0;
        last_rx_ms = 0;
        last_ping_ms = 0;
        subscribed = found_slot;
        audio_kind = 0;
        log = [];
        world = w;
      } in
      identify b (out.store_str w device_id_key)

  unfoldable pub stop : Bridge W → Bridge W
  stop b = record b {
    started = false;
    state = offline;
    world = out.mdns_stop (out.ws_close b.world);
  }

  -- `none` is a null pointer.
  unfoldable pub send_audio : Bridge W → ℕ → ℕ → Bool → Option (List ℕ) → ℕ → Bool × Bridge W
  send_audio b session seq final pcm samples =
      if not (is_ready b.state)
      then (false, b)
      else if ltb 0 samples && is_null pcm
      then (false, b)
      else if ltb 4096 (samples * 2)
      then (false, b)
      else encode_send out b says_audio audio_chunk
          (seq, (session, (final, (take (samples * 2) (pointed pcm), (b.audio_kind, tt)))))

  unfoldable pub ask : Bridge W → ℕ → List ℕ → List ℕ → Bool × Bridge W
  ask b turn words app =
      if not (is_ready b.state)
      then (false, b)
      else encode_send out b says_request agent_request (turn, (clip 513 words, (clip 17 app, tt)))

  unfoldable pub mark : Bridge W → ℕ → ℕ → Bool × Bridge W
  mark b session at_seconds =
      if not (is_ready b.state)
      then (false, b)
      else encode_send out b says_marker capture_marker (session, (at_seconds, tt))

  unfoldable pub forget : Bridge W → Bridge W
  forget b =
      let b1 = commit out (store_token out (record b { token = [] }) []) in
      if is_offline b1.state then b1 else disconnect out b1

  -- One event of the audio domain.
  unfoldable pub forward : Bridge W → Audio → Bridge W
  forward b a =
      if (a.is_chunk && a.has_blob) && is_ready b.state
      then (send_audio (record b { audio_kind = a.kind }) a.session a.seq a.final a.pcm a.samples).1
      else b

  unfoldable pub forward_all : Bridge W → List Audio → Bridge W
  forward_all b [] = b
  forward_all b (a ∷ rest) = forward_all (forward b a) rest

  unfoldable pub drain_audio : Bridge W → Bridge W
  drain_audio b =
      if not b.subscribed
      then b
      else (let (events, w) = out.received b.world in forward_all (record b { world = w }) events)

  abbrev pub dial : Bridge W → Bridge W
  dial b =
      let (opened_socket, w) = out.ws_open b.world b.daemon_ip b.daemon_port in
      let b1 = record b { world = w } in
      if opened_socket then record b1 { state = connecting } else disconnect out b1

  -- The first steps, where there is no link yet.
  unfoldable pub look_in : Bridge W → State → Bridge W
  look_in b offline =
      if ltb (2 ^ 31 - 1) (sub32 (out.now_ms b.world) b.retry_at_ms)
      then b
      else elim (out.fixed_daemon b.world) [
        | some (ip, port) ↦
            dial (record b { daemon_ip = ip; daemon_port = port; daemon_name = clip 49 ip })
        | none ↦
            let (asking, w) = out.mdns_start b.world in
            if asking
            then record b { state = searching; world = w }
            else record b { retry_at_ms = add32 (out.now_ms w) backoff_max_ms; world = w }
      ]
  look_in b searching =
      let (answer, w) = out.mdns_poll b.world in
      elim answer [
        | none ↦ record b { world = w }
        | some found ↦ dial (record b {
          daemon_ip = found.ip;
          daemon_port = found.port;
          daemon_name = clip 49 found.name;
          world = out.mdns_stop w;
        })
      ]
  look_in b _ = b

  abbrev pub look : Bridge W → Bridge W
  look b = look_in b b.state

  -- The messages of one poll, at most `budget`; false where the link was lost.
  unfoldable pub rounds : List ℕ → ℕ → Bridge W → Bool × Bridge W
  rounds version zero b = (true, b)
  rounds version (suc budget) b =
      let (event, w) = out.ws_poll b.world in
      let b1 = record b { world = w } in
      elim event [
        | nothing ↦ (true, b1)
        | ended ↦ (false, disconnect out b1)
        | opened ↦
            let now = out.now_ms w in
            rounds version budget
              (send_hello out version (record b1 { last_rx_ms = now; last_ping_ms = now }))
        | message bytes ↦
            let b2 = on_message out b1 bytes in
            elim (is_offline b2.state) [ true ↦ (false, b2) | false ↦ rounds version budget b2 ]
      ]

  -- A link that is silent for too long is dropped, and a ping asks for a sign of life before.
  unfoldable pub alive : Bridge W → Bridge W
  alive b =
      let now = out.now_ms b.world in
      if not (is_ready b.state)
      then b
      else if ltb silence_limit_ms (sub32 now b.last_rx_ms)
      then disconnect out b
      else if ltb ping_interval_ms (sub32 now b.last_ping_ms) && out.ws_can_send b.world
      then (let (nonce, w) = out.rand_u32 b.world in
          let b1 = (encode_send out (record b { world = w }) says_ping ping (nonce, tt)).1 in
          record b1 { last_ping_ms = out.now_ms b1.world })
      else b

  -- The rest of a poll, where there is a link.
  unfoldable pub talk : List ℕ → Bridge W → State → Bridge W
  talk version b offline = b
  talk version b searching = b
  talk version b _ = let (up, b1) = rounds version 6 b in if up then alive b1 else b1

  -- The part of a poll that needs the network.
  abbrev pub linked : List ℕ → Bridge W → Bridge W
  linked version b = let b1 = look b in talk version b1 b1.state

  unfoldable pub poll : List ℕ → Bridge W → Bridge W
  poll version b0 =
      if not b0.started
      then b0
      else (let b = drain_audio b0 in
          if out.net_is_up b.world
          then linked version b
          else if is_offline b.state
          then b
          else disconnect out b)
