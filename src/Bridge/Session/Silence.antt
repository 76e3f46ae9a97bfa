-- ===== src/Bridge/Session/Silence.antt =====
-- A daemon that falls silent, on an open link.
use nev_os.Base.{
  if◌then◌else◌, Bool-cases, ℕ, zero, suc, ◌<◌, ◌≡◌, refl, sym, ap, ◌∙◌, subst, Bool, true, not,
  ◌⊎◌, inl, inr, List, [], ◌∷◌, replicate, arith, ltb, sub32, if_then, if_else,
}
use nev_os.Bridge.Ws.Poll.{nothing}
use nev_os.Bridge.Session.{
  searching, is_offline, State, offline, connecting, pairing, ready, Outside, disconnected, Bridge,
  silence_limit_ms, is_ready, disconnect,
}
use nev_os.Bridge.Session.Lifecycle.{
  forward_all, drain_audio, look_in, rounds, alive, talk, linked, poll,
}
use nev_os.Bridge.Session.Trace.{polls, step, run}

-- The network is up, and neither the link nor the audio service has anything.
pub record IsSilent {W : Type 0} (out : Outside W) (At : W → Type 0) : Type 0 where
  pub net_up : (w : W) → At w → out.net_is_up w ≡ true
  pub no_audio : (w : W) → At w → (out.received w).0 ≡ []
  pub no_audio_at : (w : W) → At w → At (out.received w).1
  pub no_event : (w : W) → At w → (out.ws_poll w).0 ≡ nothing
  pub no_event_at : (w : W) → At w → At (out.ws_poll w).1

module _ {W : Type 0} (out : Outside W) (At : W → Type 0) (law : IsSilent out At)
    (version : List ℕ) where
  -- What a poll of a silent link comes to.
  abbrev pub drained : Bridge W → Bridge W
  drained b = if b.subscribed then record b { world = (out.received b.world).1 } else b

  abbrev pub listened : Bridge W → Bridge W
  listened b = record (drained b) { world = (out.ws_poll (drained b).world).1 }

  drain_audio-silent :
      (b : Bridge W) → At b.world → (drain_audio out b ≡ drained b) × At (drained b).world
  unfolding drain_audio forward_all
  drain_audio-silent b h = elim (Bool-cases b.subscribed) [
    | inl e ↦ ground (arith, e, law.no_audio b.world h, law.no_audio_at b.world h, h)
    | inr e ↦ ground (arith, e, h)
  ]

  abbrev pub InTouch : State → Type 0
  InTouch s = (s ≡ connecting) ⊎ (s ≡ pairing) ⊎ (s ≡ ready)

  rounds-silent :
      (k : ℕ) (b : Bridge W)
      → At b.world
      → rounds out version (suc k) b ≡ (true, record b { world = (out.ws_poll b.world).1 })
  unfolding rounds
  rounds-silent k b h = rw (rounds, law.no_event b.world h) refl

  talk-silent :
      (b : Bridge W) (s : State)
      → At b.world
      → InTouch s
      → talk out version b s ≡ alive out (record b { world = (out.ws_poll b.world).1 })
  unfolding talk
  talk-silent b offline h e = absurd (ground (arith, e))
  talk-silent b searching h e = absurd (ground (arith, e))
  talk-silent b connecting h e =
      ap (λ (r : Bool × Bridge W). if r.0 then alive out r.1 else r.1) (rounds-silent 5 b h)
  talk-silent b pairing h e =
      ap (λ (r : Bool × Bridge W). if r.0 then alive out r.1 else r.1) (rounds-silent 5 b h)
  talk-silent b ready h e =
      ap (λ (r : Bool × Bridge W). if r.0 then alive out r.1 else r.1) (rounds-silent 5 b h)

  look_in-silent : (b : Bridge W) (s : State) → InTouch s → look_in out b s ≡ b
  unfolding look_in
  look_in-silent b offline e = absurd (ground (arith, e))
  look_in-silent b searching e = absurd (ground (arith, e))
  look_in-silent b connecting e = refl
  look_in-silent b pairing e = refl
  look_in-silent b ready e = refl

  drained-state : (b : Bridge W) → (drained b).state ≡ b.state
  drained-state b = ground arith

  pub poll-silent :
      (b : Bridge W)
      → At b.world
      → b.started ≡ true
      → InTouch b.state
      → (poll out version b ≡ alive out (listened b)) × At (listened b).world
  unfolding poll
  poll-silent b h started e =
      let d : Bridge W = drained b in
      let s = drain_audio-silent b h in
      let e1 : InTouch d.state = subst InTouch (sym (drained-state b)) e in
      (
        if_else (not b.started) _ _ (ground (arith, started))
            ∙ ap
                (λ (x : Bridge W).
                  if out.net_is_up x.world
                  then linked out version x
                  else (if is_offline x.state then x else disconnect out x))
                s.0
            ∙ if_then (out.net_is_up d.world) _ _ (law.net_up d.world s.1)
            ∙ ap (λ (x : Bridge W). talk out version x x.state) (look_in-silent d d.state e1)
            ∙ talk-silent d d.state s.1 e1,
        law.no_event_at d.world s.1,
      )

  -- One silent poll of a connection that is ready.
  pub ready_late :
      (b : Bridge W)
      → At b.world
      → b.started ≡ true
      → b.state ≡ ready
      → silence_limit_ms < sub32 (out.now_ms (listened b).world) b.last_rx_ms
      → ((poll out version b).state ≡ offline) × ((poll out version b).log ≡ disconnected ∷ b.log)
  unfolding alive disconnect
  ready_late b h started e long =
      let l : Bridge W = listened b in
      let same : l.state ≡ b.state = drained-state b in
      let p : poll out version b ≡ disconnect out l =
        (poll-silent b h started (inr (inr e))).0
        ∙ if_else (not (is_ready l.state)) _ _ (ground (arith, same, e))
        ∙ if_then (ltb silence_limit_ms (sub32 (out.now_ms l.world) l.last_rx_ms)) _ _
            (ground (arith, long)) in
      (ap (λ (x : Bridge W). x.state) p, ap (λ (x : Bridge W). x.log) p ∙ ground (arith, same, e))

  -- Before that there is no limit: a daemon that accepts the connection and then says nothing holds the
  -- bridge in the state that it is in, for any number of polls and however much time passes. Condition: as
  -- above, and the bridge connects or pairs.
  pub silence_holds :
      (n : ℕ) (b : Bridge W)
      → At b.world
      → b.started ≡ true
      → (b.state ≡ connecting) ⊎ (b.state ≡ pairing)
      → (run out version b (replicate n polls)).state ≡ b.state
  unfolding run step alive
  silence_holds zero b h started e = refl
  silence_holds (suc n) b h started e =
      let l : Bridge W = listened b in
      let same : l.state ≡ b.state = drained-state b in
      let p = poll-silent b h started (ground (arith, e)) in
      let stays : poll out version b ≡ l =
        p.0 ∙ if_then (not (is_ready l.state)) _ _ (ground (arith, same, e)) in
      ap (λ (x : Bridge W). (run out version x (replicate n polls)).state) stays
      ∙ silence_holds n l p.1 (ground (arith, started)) (ground (arith, same, e))
      ∙ same
