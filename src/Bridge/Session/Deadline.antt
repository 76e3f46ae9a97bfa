-- ===== src/Bridge/Session/Deadline.antt =====
-- A connection that is ready, and the minute that a daemon may be silent.
use nev_os.Base.{
  if_elim, ◌≤◌, ◌&&◌, ◌+◌, take, false, Bool-cases, ℕ, zero, suc, ◌<◌, ◌≡◌, sym, ◌∙◌, subst, Bool,
  true, not, inl, inr, List, ◌∷◌, replicate, arith, ltb, sub32,
}
use nev_os.Bridge.Session.{
  says_ping, ping_interval_ms, encode_cap, Kind, note, sent, send_payload, encode_send, offline,
  ready, Outside, disconnected, Bridge, silence_limit_ms, is_ready, disconnect,
}
use nev_os.Bridge.Session.Lifecycle.{alive, poll}
use nev_os.Bridge.Session.Trace.{polls, step, run}
use nev_os.Bridge.Proto.{encode, Schema, Values}
use nev_os.Bridge.Proto.Decoded.{Result-cases}
use nev_os.Bridge.Proto.Frame.{frame_wrap}
use nev_os.Bridge.Proto.Messages.{ping}
use nev_os.Bridge.Session.Bus.{Split-cases}
use nev_os.Bridge.Session.Daemon.{on_message}
use nev_os.Bridge.Session.Receipt.{Kept, encode_send-Kept, on_message-rx}
use nev_os.Bridge.Session.Silence.{IsSilent, listened, poll-silent, ready_late}

-- What a ping asks of the world leaves it silent.
pub record IsCalm {W : Type 0} (out : Outside W) (At : W → Type 0) : Type 0 where
  pub rand_at : (w : W) → At w → At (out.rand_u32 w).1
  pub send_at : (w : W) (xs : List ℕ) → At w → At (out.ws_send w xs).1

module _ {W : Type 0} (out : Outside W) (At : W → Type 0) (law : IsSilent out At)
    (calm : IsCalm out At) (version : List ℕ) where
  send_payload-At :
      (b : Bridge W) (k : Kind) (payload : List ℕ)
      → At b.world
      → At (send_payload out b k payload).1.world
  unfolding send_payload
  send_payload-At b k payload h =
      elim (Split-cases (frame_wrap payload (replicate (encode_cap + 8) 0) (encode_cap + 8))) [
        | inl (a, e) ↦
            let r = out.ws_send b.world (take a.1 a.0) in
            let d : Bridge W = record b { world = r.1 } in
            let g = calm.send_at b.world (take a.1 a.0) h in
            rw (send_payload, e)
              (if_elim (λ (r : Bool × Bridge W). At r.1.world) r.0 (true, note d (sent k payload))
                (false, d) (λ yes. g) (λ no. g))
        | inr (inl e) ↦ rw (send_payload, e) h
        | inr (inr e) ↦ rw (send_payload, e) h
      ]

  encode_send-At :
      (b : Bridge W) (k : Kind) (s : Schema) (vs : Values s.fields)
      → At b.world
      → At (encode_send out b k s vs).1.world
  unfolding encode_send
  encode_send-At b k s vs h =
      elim (Result-cases (encode s vs (replicate encode_cap 0) encode_cap)) [
        | inl (payload, e) ↦ rw (encode_send, e) (send_payload-At b k payload h)
        | inr (inl e) ↦ rw (encode_send, e) h
        | inr (inr e) ↦ rw (encode_send, e) h
      ]

  -- A connection that is ready, in the silence since the last message at `t`.
  record StillUp (t : ℕ) (b : Bridge W) : Type 0 where
    pub silent : At b.world
    pub started : b.started ≡ true
    pub up : b.state ≡ ready
    pub heard : b.last_rx_ms ≡ t

  alive-StillUp :
      (t : ℕ) (b : Bridge W)
      → StillUp t b
      → ltb silence_limit_ms (sub32 (out.now_ms b.world) b.last_rx_ms) ≡ false
      → StillUp t (alive out b)
  unfolding alive
  alive-StillUp t b h early =
      let now = out.now_ms b.world in
      let r = out.rand_u32 b.world in
      let b1 : Bridge W = record b { world = r.1 } in
      let d : Bridge W = (encode_send out b1 says_ping ping (r.0, tt)).1 in
      let kept : Kept out b1 d = encode_send-Kept out b1 says_ping ping (r.0, tt) in
      let still : At d.world =
        encode_send-At b1 says_ping ping (r.0, tt) (calm.rand_at b.world h.silent) in
      if_elim (StillUp t) (not (is_ready b.state)) b _ (λ no. h)
        (λ up.
          if_elim (StillUp t) (ltb silence_limit_ms (sub32 now b.last_rx_ms)) (disconnect out b) _
            (λ late. absurd (ground (arith, late, early)))
            (λ fresh.
              if_elim (StillUp t)
                (ltb ping_interval_ms (sub32 now b.last_ping_ms) && out.ws_can_send b.world)
                (record d { last_ping_ms = out.now_ms d.world }) b
                (λ pings. record {
                  silent = still;
                  started = kept.same_started ∙ h.started;
                  up = kept.same_state ∙ h.up;
                  heard = kept.same_rx ∙ h.heard;
                })
                (λ quiet. h)))

  -- The time that poll number `n` reads, counted from 0.
  abbrev pub time_of_poll : ℕ → Bridge W → ℕ
  time_of_poll n b =
      out.now_ms (listened out At law version (run out version b (replicate n polls))).world

  waits_out :
      (n t : ℕ) (b : Bridge W)
      → StillUp t b
      → silence_limit_ms < sub32 (time_of_poll n b) t
      → (k : ℕ) × (k ≤ n)
        × ((run out version b (replicate (suc k) polls)).state ≡ offline)
        × ((run out version b (replicate (suc k) polls)).log
            ≡ disconnected ∷ (run out version b (replicate k polls)).log)
  unfolding run step
  waits_out zero t b h late =
      let g =
        ready_late out At law version b h.silent h.started h.up
          (subst (λ x. silence_limit_ms < sub32 (time_of_poll 0 b) x) (sym h.heard) late) in
      (0, omega arith, g.0, g.1)
  waits_out (suc n) t b h late =
      let l : Bridge W = listened out At law version b in
      let same : l.last_rx_ms ≡ b.last_rx_ms = ground arith in
      elim (Bool-cases (ltb silence_limit_ms (sub32 (out.now_ms l.world) l.last_rx_ms))) [
        | inl over ↦
            let g =
              ready_late out At law version b h.silent h.started h.up
                (ground (arith, over, same)) in
            (0, omega arith, g.0, g.1)
        | inr early ↦
            let p = poll-silent out At law version b h.silent h.started (inr (inr h.up)) in
            let w : StillUp t l = record {
              silent = p.1;
              started = ground (arith, h.started);
              up = ground (arith, h.up);
              heard = same ∙ h.heard;
            } in
            let w' : StillUp t (poll out version b) =
              subst (StillUp t) (sym p.0) (alive-StillUp t l w early) in
            let rest = waits_out n t (poll out version b) w' late in
            (suc rest.0, omega (arith, rest.1), rest.2, rest.3)
      ]

  -- A connection that a message leaves ready is given up once more than a minute has passed since that
  -- message, however many pings go out meanwhile: if poll number n after it is more than 60 seconds later,
  -- then one of the polls up to it made the bridge offline, and BRIDGE.DISCONNECTED is what that poll
  -- published last. Condition: the network is up, and neither the daemon nor the audio service says
  -- anything after the message.
  pub silence_disconnects :
      (b : Bridge W) (bytes : List ℕ) (n : ℕ)
      → let heard = on_message out b bytes in
        At heard.world
        → heard.started ≡ true
        → heard.state ≡ ready
        → silence_limit_ms < sub32 (time_of_poll n heard) (out.now_ms b.world)
        → (k : ℕ) × (k ≤ n)
          × ((run out version heard (replicate (suc k) polls)).state ≡ offline)
          × ((run out version heard (replicate (suc k) polls)).log
              ≡ disconnected ∷ (run out version heard (replicate k polls)).log)
  silence_disconnects b bytes n h started up late =
      waits_out n (out.now_ms b.world) (on_message out b bytes)
        (record { silent = h; started = started; up = up; heard = on_message-rx out b bytes up })
        late
