-- ===== src/Bridge/Session/Receipt.antt =====
-- When the bridge last heard the daemon: what a message and a send do to last_rx_ms.
use nev_os.Base.{
  ◌∙◌, ◌≡◌, refl, inl, inr, List, arith, if_elim, Option-cases, ℕ, true, false, not, ◌==◌, ltb,
  replicate, take, subst, Bool, ◌+◌, if◌then◌else◌,
}
use nev_os.Bridge.Proto.{encode, decode, peek_id, Schema, Values}
use nev_os.Bridge.Proto.Decoded.{Result-cases}
use nev_os.Bridge.Proto.Frame.{frame_wrap, frame_split}
use nev_os.Bridge.Proto.Messages.{hello_ack, pair_result, ping, pong}
use nev_os.Bridge.Session.{
  Outside, Bridge, Kind, ready, says_pair, says_pong, wallclock, connected, pair, clip,
  backoff_min_ms, backoff_max_ms, encode_cap, pairing, six_digits, note, send_payload, encode_send,
  disconnect, send_pair, sent,
}
use nev_os.Bridge.Session.Bus.{Split-cases}
use nev_os.Bridge.Session.Daemon.{
  pair_again, news_of, on_hello_ack, on_pair_result, on_ping, relay, on_message,
}

module _ {W : Type 0} (out : Outside W) where
  -- What a send leaves alone.
  pub record Kept (b d : Bridge W) : Type 0 where
    pub same_rx : d.last_rx_ms ≡ b.last_rx_ms
    pub same_state : d.state ≡ b.state
    pub same_started : d.started ≡ b.started

  send_payload-Kept :
      (b : Bridge W) (k : Kind) (payload : List ℕ) → Kept b (send_payload out b k payload).1
  unfolding send_payload
  send_payload-Kept b k payload =
      elim (Split-cases (frame_wrap payload (replicate (encode_cap + 8) 0) (encode_cap + 8))) [
        | inl (a, e) ↦
            let r = out.ws_send b.world (take a.1 a.0) in
            let d : Bridge W = record b { world = r.1 } in
            rw (send_payload, e)
              (if_elim (λ (r : Bool × Bridge W). Kept b r.1) r.0 (true, note d (sent k payload))
                (false, d) (λ yes. ground arith) (λ no. ground arith))
        | inr (inl e) ↦ rw (send_payload, e) (ground arith)
        | inr (inr e) ↦ rw (send_payload, e) (ground arith)
      ]

  pub encode_send-Kept :
      (b : Bridge W) (k : Kind) (s : Schema) (vs : Values s.fields)
      → Kept b (encode_send out b k s vs).1
  unfolding encode_send
  encode_send-Kept b k s vs =
      elim (Result-cases (encode s vs (replicate encode_cap 0) encode_cap)) [
        | inl (payload, e) ↦ rw (encode_send, e) (send_payload-Kept b k payload)
        | inr (inl e) ↦ rw (encode_send, e) (ground arith)
        | inr (inr e) ↦ rw (encode_send, e) (ground arith)
      ]

  -- The daemon was last heard at `t`.
  abbrev Heard : ℕ → Bridge W → Type 0
  Heard t b = b.last_rx_ms ≡ t

  disconnect-rx : (b : Bridge W) → (disconnect out b).last_rx_ms ≡ b.last_rx_ms
  unfolding disconnect
  disconnect-rx b = ground arith

  send_pair-rx : (b : Bridge W) → (send_pair out b).last_rx_ms ≡ b.last_rx_ms
  unfolding send_pair
  send_pair-rx b =
      let n = out.rand_below b.world 1000000 in
      let b1 : Bridge W = record b { code = six_digits n.0; world = n.1 } in
      let r = encode_send out b1 says_pair pair (six_digits n.0, tt) in
      let d : Bridge W = r.1 in
      let kept : Kept b1 d = encode_send-Kept b1 says_pair pair (six_digits n.0, tt) in
      if_elim (Heard b.last_rx_ms) r.0 (record d { state = pairing }) (disconnect out d)
        (λ yes. kept.same_rx) (λ no. disconnect-rx d ∙ kept.same_rx)

  pair_again-rx : (b : Bridge W) → (pair_again out b).last_rx_ms ≡ b.last_rx_ms
  unfolding pair_again
  pair_again-rx b = ground arith

  on_hello_ack-rx :
      (b : Bridge W) (payload : List ℕ) → (on_hello_ack out b payload).last_rx_ms ≡ b.last_rx_ms
  unfolding on_hello_ack
  on_hello_ack-rx b payload = elim (Result-cases (decode hello_ack payload)) [
    | inl ((accepted, (needs_pairing, (daemon_name, (unix_time, rest)))), e) ↦
        let b1 : Bridge W = record b { daemon_name = clip 49 daemon_name } in
        let b2 : Bridge W = if ltb 0 unix_time then note b1 (wallclock unix_time) else b1 in
        let g : b2.last_rx_ms ≡ b.last_rx_ms = ground arith in
        rw (on_hello_ack, e)
          (if_elim (Heard b.last_rx_ms) accepted
            (note (record b2 { backoff_ms = backoff_min_ms; state = ready }) connected) _ (λ yes. g)
            (λ no.
              if_elim (Heard b.last_rx_ms) needs_pairing (send_pair out (pair_again out b2))
                (disconnect out (record b2 { backoff_ms = backoff_max_ms }))
                (λ yes. send_pair-rx (pair_again out b2) ∙ pair_again-rx b2 ∙ g)
                (λ no. disconnect-rx (record b2 { backoff_ms = backoff_max_ms }) ∙ g)))
    | inr (inl e) ↦ rw (on_hello_ack, e) (disconnect-rx b)
    | inr (inr e) ↦ rw (on_hello_ack, e) (disconnect-rx b)
  ]

  on_pair_result-rx :
      (b : Bridge W) (payload : List ℕ) → (on_pair_result out b payload).last_rx_ms ≡ b.last_rx_ms
  unfolding on_pair_result
  on_pair_result-rx b payload = elim (Result-cases (decode pair_result payload)) [
    | inl ((granted, (token, (reason, rest))), e) ↦
        rw (on_pair_result, e)
          (if_elim (Heard b.last_rx_ms) (not granted) (disconnect out b) _ (λ no. disconnect-rx b)
            (λ yes. refl))
    | inr (inl e) ↦ rw (on_pair_result, e) (disconnect-rx b)
    | inr (inr e) ↦ rw (on_pair_result, e) (disconnect-rx b)
  ]

  on_ping-rx : (b : Bridge W) (payload : List ℕ) → (on_ping out b payload).last_rx_ms ≡ b.last_rx_ms
  unfolding on_ping
  on_ping-rx b payload = elim (Result-cases (decode ping payload)) [
    | inl ((nonce, rest), e) ↦
        rw (on_ping, e) (encode_send-Kept b says_pong pong (nonce, tt)).same_rx
    | inr (inl e) ↦ rw (on_ping, e) refl
    | inr (inr e) ↦ rw (on_ping, e) refl
  ]

  relay-rx :
      (b : Bridge W) (id : ℕ) (payload : List ℕ)
      → (relay out b id payload).last_rx_ms ≡ b.last_rx_ms
  unfolding relay
  relay-rx b id payload = elim (Option-cases (news_of id payload)) [
    | inl e ↦ rw (relay, e) refl
    | inr (n, e) ↦ rw (relay, e) refl
  ]

  disconnect-gone : (b : Bridge W) → (disconnect out b).state ≡ ready → ⊥
  unfolding disconnect
  disconnect-gone b e = ground (arith, e)

  -- A bridge that is ready after a message has noted the time at which it came.
  pub on_message-rx :
      (b : Bridge W) (bytes : List ℕ)
      → (on_message out b bytes).state ≡ ready
      → (on_message out b bytes).last_rx_ms ≡ out.now_ms b.world
  unfolding on_message
  on_message-rx b bytes up = elim (Split-cases (frame_split bytes)) [
    | inl (a, e) ↦ elim (Result-cases (peek_id a.0)) [
      | inl (id, k) ↦
          let now = out.now_ms b.world in
          let b1 : Bridge W = record b { last_rx_ms = now } in
          rw (on_message, e)
            (rw k (
              if_elim (Heard now) (id == hello_ack.id) (on_hello_ack out b1 a.0) _
                (λ yes. on_hello_ack-rx b1 a.0)
                (λ no.
                  if_elim (Heard now) (id == pair_result.id) (on_pair_result out b1 a.0) _
                    (λ yes. on_pair_result-rx b1 a.0)
                    (λ no.
                      if_elim (Heard now) (id == ping.id) (on_ping out b1 a.0) _
                        (λ yes. on_ping-rx b1 a.0)
                        (λ no.
                          if_elim (Heard now) (id == pong.id) b1 (relay out b1 id a.0) (λ yes. refl)
                            (λ no. relay-rx b1 id a.0))))))
      | inr (inl k) ↦
          let is : on_message out b bytes ≡ disconnect out b = rw (on_message, e) (rw k refl) in
          absurd (disconnect-gone b (subst (λ (x : Bridge W). x.state ≡ ready) is up))
      | inr (inr k) ↦
          let is : on_message out b bytes ≡ disconnect out b = rw (on_message, e) (rw k refl) in
          absurd (disconnect-gone b (subst (λ (x : Bridge W). x.state ≡ ready) is up))
    ]
    | inr (inl e) ↦
        let is : on_message out b bytes ≡ disconnect out b = rw (on_message, e) refl in
        absurd (disconnect-gone b (subst (λ (x : Bridge W). x.state ≡ ready) is up))
    | inr (inr e) ↦
        let is : on_message out b bytes ≡ disconnect out b = rw (on_message, e) refl in
        absurd (disconnect-gone b (subst (λ (x : Bridge W). x.state ≡ ready) is up))
  ]
