-- ===== src/Bridge/Session/Upkeep.antt =====
-- What a poll and the start keep.
use nev_os.Base.{
  add32, sub32, inr, ◌^◌, ◌⊎◌, inl, ℕ, zero, suc, ◌-◌, ◌^◌, ◌≡◌, refl, sym, ap, ◌∙◌, true, not,
  ◌&&◌, List, [], ◌∷◌, arith, ltb, Bool-cases, Option-cases, if_elim, if◌then◌else◌,
}
use nev_os.Bridge.Ws.Poll.{Event, nothing, opened, message, ended}
use nev_os.Bridge.Proto.Messages.{ping}
use nev_os.Bridge.Session.{
  backoff_max_ms, ping_interval_ms, silence_limit_ms, device_id_key, says_ping, backoff_min_ms,
  clip, pair_token_key, State, offline, searching, connecting, pairing, ready, Outside, Bridge,
  is_ready, is_offline, encode_send, disconnect, send_hello,
}
use nev_os.Bridge.Session.Bus.{
  IsStore, IsSession, Said-IsSession, encode_send-Said, send_hello-IsSession,
}
use nev_os.Bridge.Session.Replies.{on_message-Good}
use nev_os.Bridge.Session.Daemon.{on_message}
use nev_os.Bridge.Session.Lifecycle.{
  talk, two_hex, look_in, identify, init, drain_audio, look, rounds, alive, linked, poll,
}
use nev_os.Bridge.Session.Calls.{off, dial-Good, drain_audio-Good}

Event-cases :
    (e : Event)
    → (e ≡ nothing) ⊎ (e ≡ opened) ⊎ (e ≡ ended) ⊎ ((bytes : List ℕ) × (e ≡ message bytes))
Event-cases nothing = inl refl
Event-cases opened = inr (inl refl)
Event-cases ended = inr (inr (inl refl))
Event-cases (message bytes) = inr (inr (inr (bytes, refl)))

module _ {W : Type 0} (out : Outside W) (law : IsStore out) where
  abbrev Good : Bridge W → Type 0
  Good = IsSession out law

  -- By the state, which a helper of its own takes apart.
  look_in-Good : (b : Bridge W) (s : State) → b.state ≡ s → Good b → Good (look_in out b s)
  unfolding look_in
  look_in-Good b offline e h =
      if_elim Good (ltb (2 ^ 31 - 1) (sub32 (out.now_ms b.world) b.retry_at_ms)) b _ (λ early. h)
        (λ due. elim (Option-cases (out.fixed_daemon b.world)) [
          | inr (a, k) ↦
              rw (look_in, k)
                (dial-Good out law
                  (record b { daemon_ip = a.0; daemon_port = a.1; daemon_name = clip 49 a.0 })
                  (ground (arith, h)))
          | inl k ↦
              let r = out.mdns_start b.world in
              rw (look_in, k)
                (if_elim Good r.0 (record b { state = searching; world = r.1 })
                  (record b { retry_at_ms = add32 (out.now_ms r.1) backoff_max_ms; world = r.1 })
                  (λ yes. ground (arith, h, law.mdns_start_same b.world))
                  (λ no. ground (arith, h, law.mdns_start_same b.world)))
        ])
  look_in-Good b searching e h =
      let r = out.mdns_poll b.world in
      elim (Option-cases r.0) [
        | inl k ↦ rw (look_in, k) (ground (arith, h, law.mdns_poll_same b.world))
        | inr (found, k) ↦
            rw (look_in, k)
              (dial-Good out law
                (record b {
                  daemon_ip = found.ip;
                  daemon_port = found.port;
                  daemon_name = clip 49 found.name;
                  world = out.mdns_stop r.1;
                })
                (ground (arith, h, law.mdns_poll_same b.world, law.mdns_stop_same r.1)))
      ]
  look_in-Good b connecting e h = h
  look_in-Good b pairing e h = h
  look_in-Good b ready e h = h

  rounds-Good :
      (version : List ℕ) (budget : ℕ) (b : Bridge W) → Good b → Good (rounds out version budget b).1
  unfolding rounds
  rounds-Good version zero b h = h
  rounds-Good version (suc budget) b h =
      let r = out.ws_poll b.world in
      let b1 : Bridge W = record b { world = r.1 } in
      let g : Good b1 = ground (arith, h, law.ws_poll_same b.world) in
      elim (Event-cases r.0) [
        | inl e ↦ rw (rounds, e) g
        | inr (inl e) ↦
            let b2 : Bridge W = record b1 {
              last_rx_ms = out.now_ms r.1;
              last_ping_ms = out.now_ms r.1;
            } in
            let g2 : Good b2 = ground (arith, g) in
            rw (rounds, e)
              (rounds-Good version budget (send_hello out version b2)
                (send_hello-IsSession out law version b2 g2))
        | inr (inr (inl e)) ↦ rw (rounds, e) (off out law b1 g)
        | inr (inr (inr (bytes, e))) ↦
            let b2 : Bridge W = on_message out b1 bytes in
            let g2 : Good b2 = on_message-Good out law b1 bytes g in
            elim (Bool-cases (is_offline b2.state)) [
              | inl k ↦ rw (rounds, e) (rw k g2)
              | inr k ↦ rw (rounds, e) (rw k (rounds-Good version budget b2 g2))
            ]
      ]

  alive-Good : (b : Bridge W) → Good b → Good (alive out b)
  unfolding alive
  alive-Good b h =
      let now = out.now_ms b.world in
      let r = out.rand_u32 b.world in
      let b1 : Bridge W = record b { world = r.1 } in
      let g1 : Good b1 = ground (arith, h, law.rand_u32_same b.world) in
      let d : Bridge W = (encode_send out b1 says_ping ping (r.0, tt)).1 in
      let g : Good d =
        Said-IsSession out law says_ping b1 d (encode_send-Said out law b1 says_ping ping (r.0, tt))
          (λ no. absurd (ground (arith, no))) g1 in
      if_elim Good (not (is_ready b.state)) b _ (λ no. h)
        (λ yes.
          if_elim Good (ltb silence_limit_ms (sub32 now b.last_rx_ms)) (disconnect out b) _
            (λ silent. off out law b h)
            (λ heard_of.
              if_elim Good
                (ltb ping_interval_ms (sub32 now b.last_ping_ms) && out.ws_can_send b.world)
                (record d { last_ping_ms = out.now_ms d.world }) b (λ due. ground (arith, g))
                (λ early. h)))

  after_rounds :
      (version : List ℕ) (b : Bridge W)
      → Good b
      → Good (
          if (rounds out version 6 b).0
          then alive out (rounds out version 6 b).1
          else (rounds out version 6 b).1)
  after_rounds version b h =
      let r = rounds out version 6 b in
      let g : Good r.1 = rounds-Good version 6 b h in
      if_elim Good r.0 (alive out r.1) r.1 (λ yes. alive-Good r.1 g) (λ no. g)

  talk-Good : (version : List ℕ) (b : Bridge W) (s : State) → Good b → Good (talk out version b s)
  unfolding talk
  talk-Good version b offline h = h
  talk-Good version b searching h = h
  talk-Good version b connecting h = after_rounds version b h
  talk-Good version b pairing h = after_rounds version b h
  talk-Good version b ready h = after_rounds version b h

  pub poll-Good : (version : List ℕ) (b : Bridge W) → Good b → Good (poll out version b)
  unfolding poll
  poll-Good version b0 h =
      let b : Bridge W = drain_audio out b0 in
      let g : Good b = drain_audio-Good out law b0 h in
      if_elim Good (not b0.started) b0 _ (λ no. h)
        (λ yes.
          if_elim Good (out.net_is_up b.world) (linked out version b) _
            (λ up.
              talk-Good version (look out b) (look out b).state (look_in-Good b b.state refl g))
            (λ down.
              if_elim Good (is_offline b.state) b (disconnect out b) (λ idle. g)
                (λ lost. off out law b g)))

  identify-Good : (b : Bridge W) (id : List ℕ) → Good b → Good (identify out b id)
  unfolding identify
  identify-Good b [] h =
      let r = out.rand_fill b.world 6 in
      let id : List ℕ = 110 ∷ 101 ∷ 118 ∷ 45 ∷ two_hex r.0 in
      let w = (out.store_set_str r.1 device_id_key id).1 in
      ground (arith, h, law.rand_fill_same b.world 6, law.set_id r.1 id, law.store_commit_same w)
  identify-Good b (c ∷ cs) h = ground (arith, h)

  pub init-Good :
      (w : W)
      → clip 65 (out.store_str w pair_token_key) ≡ out.store_str w pair_token_key
      → Good (init out w)
  unfolding init
  init-Good w0 e =
      let r = out.subscribe w0 in
      let b : Bridge W = record {
        state = offline;
        started = true;
        daemon_ip = [];
        daemon_port = 0;
        daemon_name = [];
        device_id = [];
        token = clip 65 (out.store_str r.1 pair_token_key);
        code = [];
        backoff_ms = backoff_min_ms;
        retry_at_ms = 0;
        last_rx_ms = 0;
        last_ping_ms = 0;
        subscribed = r.0;
        audio_kind = 0;
        log = [];
        world = r.1;
      } in
      let same = law.subscribe_same w0 in
      let kept : out.store_str r.1 pair_token_key ≡ clip 65 (out.store_str r.1 pair_token_key) =
        same ∙ sym e ∙ ap (clip 65) (sym same) in
      identify-Good b (out.store_str r.1 device_id_key) (ground (arith, kept))
