-- ===== src/Bridge/Session/Calls.antt =====
-- What the calls of the applications keep, and the forwarding of audio.
use nev_os.Base.{
  refl, take, Option, ℕ, ◌*◌, ◌≡◌, Bool, true, false, not, ◌&&◌, List, [], ◌∷◌, arith, ltb, if_elim,
}
use nev_os.Bridge.Proto.{Schema, Values}
use nev_os.Bridge.Proto.Messages.{audio_chunk, agent_request, capture_marker}
use nev_os.Bridge.Session.{
  says_audio, clip, says_request, says_marker, pair_token_key, connecting, Audio, Outside, Bridge,
  Kind, is_ready, is_offline, encode_send, disconnect,
}
use nev_os.Bridge.Session.Bus.{
  IsStore, IsSession, Said-IsSession, encode_send-Said, disconnect-IsSession,
}
use nev_os.Bridge.Session.Daemon.{store_token, commit}
use nev_os.Bridge.Session.Lifecycle.{
  pointed, is_null, stop, send_audio, ask, mark, forget, forward, forward_all, drain_audio, dial,
}

module _ {W : Type 0} (out : Outside W) (law : IsStore out) where
  abbrev Good : Bridge W → Type 0
  Good = IsSession out law

  pub off : (b : Bridge W) → Good b → Good (disconnect out b)
  off b h = disconnect-IsSession out law b h

  app-Good :
      (b : Bridge W) (k : Kind) (s : Schema) (vs : Values s.fields)
      → is_ready b.state ≡ true
      → Good b
      → Good (encode_send out b k s vs).1
  app-Good b k s vs e h =
      Said-IsSession out law k b _ (encode_send-Said out law b k s vs) (λ a. e) h

  pub send_audio-Good :
      (b : Bridge W) (session seq : ℕ) (final : Bool) (pcm : Option (List ℕ)) (samples : ℕ)
      → Good b
      → Good (send_audio out b session seq final pcm samples).1
  unfolding send_audio
  send_audio-Good b session seq final pcm samples h =
      if_elim (λ (r : Bool × Bridge W). Good r.1) (not (is_ready b.state)) (false, b) _ (λ no. h)
        (λ yes.
          if_elim (λ (r : Bool × Bridge W). Good r.1) (ltb 0 samples && is_null pcm) (false, b) _
            (λ null. h)
            (λ there.
              if_elim (λ (r : Bool × Bridge W). Good r.1) (ltb 4096 (samples * 2)) (false, b) _
                (λ long. h)
                (λ fits.
                  app-Good b says_audio audio_chunk
                    (
                      seq,
                      (session, (final, (take (samples * 2) (pointed pcm), (b.audio_kind, tt)))),
                    )
                    (ground (arith, yes)) h)))

  pub ask-Good :
      (b : Bridge W) (turn : ℕ) (words app : List ℕ) → Good b → Good (ask out b turn words app).1
  unfolding ask
  ask-Good b turn words app h =
      if_elim (λ (r : Bool × Bridge W). Good r.1) (not (is_ready b.state)) (false, b) _ (λ no. h)
        (λ yes.
          app-Good b says_request agent_request (turn, (clip 513 words, (clip 17 app, tt)))
            (ground (arith, yes)) h)

  pub mark-Good :
      (b : Bridge W) (session at_seconds : ℕ) → Good b → Good (mark out b session at_seconds).1
  unfolding mark
  mark-Good b session at_seconds h =
      if_elim (λ (r : Bool × Bridge W). Good r.1) (not (is_ready b.state)) (false, b) _ (λ no. h)
        (λ yes.
          app-Good b says_marker capture_marker (session, (at_seconds, tt)) (ground (arith, yes)) h)

  pub forget-Good : (b : Bridge W) → Good b → Good (forget out b)
  unfolding forget
  forget-Good b h =
      let b1 : Bridge W = commit out (store_token out (record b { token = [] }) []) in
      let g : Good b1 = ground (
        arith,
        h,
        law.set_token b.world [] (omega arith) refl,
        law.store_commit_same (out.store_set_str b.world pair_token_key []).1,
      ) in
      if_elim Good (is_offline b1.state) b1 (disconnect out b1) (λ yes. g) (λ no. off b1 g)

  pub stop-Good : (b : Bridge W) → Good b → Good (stop out b)
  unfolding stop
  stop-Good b h =
      ground (arith, h, law.ws_close_same b.world, law.mdns_stop_same (out.ws_close b.world))

  forward-Good : (b : Bridge W) (a : Audio) → Good b → Good (forward out b a)
  unfolding forward
  forward-Good b a h =
      let b1 : Bridge W = record b { audio_kind = a.kind } in
      if_elim Good ((a.is_chunk && a.has_blob) && is_ready b.state) _ b
        (λ yes. send_audio-Good b1 a.session a.seq a.final a.pcm a.samples (ground (arith, h)))
        (λ no. h)

  forward_all-Good : (b : Bridge W) (events : List Audio) → Good b → Good (forward_all out b events)
  unfolding forward_all
  forward_all-Good b [] h = h
  forward_all-Good b (a ∷ rest) h = forward_all-Good (forward out b a) rest (forward-Good b a h)

  pub drain_audio-Good : (b : Bridge W) → Good b → Good (drain_audio out b)
  unfolding drain_audio
  drain_audio-Good b h =
      let r = out.received b.world in
      let b1 : Bridge W = record b { world = r.1 } in
      if_elim Good (not b.subscribed) b (forward_all out b1 r.0) (λ no. h)
        (λ yes. forward_all-Good b1 r.0 (ground (arith, h, law.received_same b.world)))

  pub dial-Good : (b : Bridge W) → Good b → Good (dial out b)
  dial-Good b h =
      let r = out.ws_open b.world b.daemon_ip b.daemon_port in
      let b1 : Bridge W = record b { world = r.1 } in
      let g : Good b1 = ground (arith, h, law.ws_open_same b.world b.daemon_ip b.daemon_port) in
      if_elim Good r.0 (record b1 { state = connecting }) (disconnect out b1)
        (λ yes. ground (arith, g)) (λ no. off b1 g)
