-- ===== src/Bridge/Session/Daemon.antt =====
-- What the bridge makes of a message from the daemon: on_message of nev_bridge.c and what it calls.
use nev_os.Base.{
  ◌%◌, u16_mod, c_string, c_string, none, some, Option, ℕ, not, List, [], ◌∷◌, ltb, ◌==◌,
  if◌then◌else◌, length, replicate,
}
use nev_os.Bridge.Proto.{ok, decode, peek_id}
use nev_os.Bridge.Proto.Frame.{frame, frame_split}
use nev_os.Bridge.Proto.Messages.{
  hello_ack, pair_result, ping, pong, transcript_partial, transcript_final, agent_token, agent_done,
  mood_hint, notification, ota_available,
}
use nev_os.Bridge.Session.{
  news, News, notification_topic, agent_done_topic, agent_token_topic, transcript_final_topic,
  transcript_partial_topic, ready, Outside, Bridge, note, Topic, text, mood, offer, wallclock,
  connected, paired, says_pong, pair_token_key, backoff_min_ms, backoff_max_ms, clip, encode_send,
  disconnect, send_pair,
}

-- publish_text: a C string, and a number that goes into 16 bits.
abbrev pub spoken : Topic → List ℕ → ℕ → News
spoken topic words extra = text topic (c_string words) (extra % u16_mod)

-- The event that a message becomes.
unfoldable pub news_of : ℕ → List ℕ → Option News
news_of id payload =
    if id == transcript_partial.id
    then elim (decode transcript_partial payload) [
      | ok (session, (words, rest)) ↦ some (spoken transcript_partial_topic words session)
      | _ ↦ none
    ]
    else if id == transcript_final.id
    then elim (decode transcript_final payload) [
      | ok (session, (words, rest)) ↦ some (spoken transcript_final_topic words session)
      | _ ↦ none
    ]
    else if id == agent_token.id
    then elim (decode agent_token payload) [
      | ok (turn, (words, rest)) ↦ some (spoken agent_token_topic words turn)
      | _ ↦ none
    ]
    else if id == agent_done.id
    then elim (decode agent_done payload) [
      | ok (turn, (error, rest)) ↦ some (spoken agent_done_topic error turn)
      | _ ↦ none
    ]
    else if id == mood_hint.id
    then elim (decode mood_hint payload) [
      | ok (kind, (intensity, (duration_ms, rest))) ↦ some (mood kind intensity duration_ms)
      | _ ↦ none
    ]
    else if id == notification.id
    then elim (decode notification payload) [
      | ok (title, (words, (urgent, rest))) ↦
          some (spoken notification_topic title (if urgent then 1 else 0))
      | _ ↦ none
    ]
    else if id == ota_available.id
    then elim (decode ota_available payload) [
      | ok (version, (url, (size_bytes, (sha256, rest)))) ↦
          let digest = if length sha256 == 32 then sha256 else replicate 32 0 in
          some (offer (clip 25 version) size_bytes digest)
      | _ ↦ none
    ]
    else none

module _ {W : Type 0} (out : Outside W) where
  -- Lines of nev_store.h's calls that drop the answer.
  abbrev pub store_token : Bridge W → List ℕ → Bridge W
  store_token b s = record b { world = (out.store_set_str b.world pair_token_key s).1 }

  abbrev pub commit : Bridge W → Bridge W
  commit b = record b { world = out.store_commit b.world }

  -- A token that the daemon no longer knows is forgotten.
  unfoldable pub pair_again : Bridge W → Bridge W
  pair_again b = elim b.token [ [] ↦ b | t ∷ ts ↦ store_token (record b { token = [] }) [] ]

  unfoldable pub on_hello_ack : Bridge W → List ℕ → Bridge W
  on_hello_ack b payload = elim (decode hello_ack payload) [
    | ok (accepted, (needs_pairing, (daemon_name, (unix_time, rest)))) ↦
        let b1 = record b { daemon_name = clip 49 daemon_name } in
        let b2 = if ltb 0 unix_time then note b1 (wallclock unix_time) else b1 in
        if accepted
        then note (record b2 { backoff_ms = backoff_min_ms; state = ready }) connected
        else if needs_pairing
        then send_pair out (pair_again b2)
        else disconnect out (record b2 { backoff_ms = backoff_max_ms })
    | _ ↦ disconnect out b
  ]

  unfoldable pub on_pair_result : Bridge W → List ℕ → Bridge W
  on_pair_result b payload = elim (decode pair_result payload) [
    | ok (granted, (token, (reason, rest))) ↦
        if not granted
        then disconnect out b
        else (let b1 = record b { token = clip 65 token } in
            let b2 = commit (store_token b1 b1.token) in
            let b3 = record b2 { code = []; backoff_ms = backoff_min_ms; state = ready } in
            note (note b3 paired) connected)
    | _ ↦ disconnect out b
  ]

  -- A ping is answered with its nonce.
  unfoldable pub on_ping : Bridge W → List ℕ → Bridge W
  on_ping b payload = elim (decode ping payload) [
    | ok (nonce, rest) ↦ (encode_send out b says_pong pong (nonce, tt)).1
    | _ ↦ b
  ]

  -- A message that becomes an event is published, any other is ignored.
  unfoldable pub relay : Bridge W → ℕ → List ℕ → Bridge W
  relay b id payload = elim (news_of id payload) [ none ↦ b | some n ↦ note b (news n) ]

  -- One message of the link, which carries one frame of the protocol.
  unfoldable pub on_message : Bridge W → List ℕ → Bridge W
  on_message b bytes = elim (frame_split bytes) [
    | frame (payload, used) ↦ elim (peek_id payload) [
      | ok id ↦
          let b1 = record b { last_rx_ms = out.now_ms b.world } in
          if id == hello_ack.id
          then on_hello_ack b1 payload
          else if id == pair_result.id
          then on_pair_result b1 payload
          else if id == ping.id
          then on_ping b1 payload
          else if id == pong.id
          then b1
          else relay b1 id payload
      | _ ↦ disconnect out b
    ]
    | _ ↦ disconnect out b
  ]
