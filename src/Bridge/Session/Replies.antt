-- ===== src/Bridge/Session/Replies.antt =====
-- What the messages of the daemon keep.
use nev_os.Base.{
  Option-cases, inr, ◌⊎◌, inl, ℕ, ◌==◌, ◌≡◌, refl, not, List, [], ◌∷◌, arith, ltb, if_elim,
  if◌then◌else◌,
}
use nev_os.Bridge.Proto.{decode, peek_id}
use nev_os.Bridge.Proto.Decoded.{Result-cases}
use nev_os.Bridge.Proto.Frame.{frame_split}
use nev_os.Bridge.Proto.Messages.{hello_ack, pair_result, ping, pong}
use nev_os.Bridge.Session.{
  pair_token_key, clip, says_pong, ready, Outside, connected, wallclock, Bridge, note,
  backoff_min_ms, backoff_max_ms, disconnect, send_pair,
}
use nev_os.Bridge.Session.Bus.{
  clip-c_string, length-clip, send_pair-IsSession, IsStore, IsSession, Said-IsSession,
  encode_send-Said, disconnect-IsSession, Split-cases,
}
use nev_os.Bridge.Session.Daemon.{
  store_token, commit, news_of, pair_again, on_hello_ack, on_pair_result, on_ping, relay,
  on_message,
}

List-cases : (xs : List ℕ) → (xs ≡ []) ⊎ ((x : ℕ) × (ys : List ℕ) × (xs ≡ x ∷ ys))
List-cases [] = inl refl
List-cases (x ∷ ys) = inr (x, ys, refl)

module _ {W : Type 0} (out : Outside W) (law : IsStore out) where
  abbrev Good : Bridge W → Type 0
  Good = IsSession out law

  pair_again-Good : (b : Bridge W) → Good b → Good (pair_again out b)
  unfolding pair_again
  pair_again-Good b h = elim (List-cases b.token) [
    | inl e ↦ rw (pair_again, e) h
    | inr (x, xs, e) ↦
        rw (pair_again, e) (ground (arith, h, law.set_token b.world [] (omega arith) refl))
  ]

  on_hello_ack-Good : (b : Bridge W) (payload : List ℕ) → Good b → Good (on_hello_ack out b payload)
  unfolding on_hello_ack
  on_hello_ack-Good b payload h = elim (Result-cases (decode hello_ack payload)) [
    | inl ((accepted, (needs_pairing, (daemon_name, (unix_time, rest)))), e) ↦
        let b1 : Bridge W = record b { daemon_name = clip 49 daemon_name } in
        let b2 : Bridge W = if ltb 0 unix_time then note b1 (wallclock unix_time) else b1 in
        let g : Good b2 =
          if_elim Good (ltb 0 unix_time) (note b1 (wallclock unix_time)) b1
            (λ yes. ground (arith, h)) (λ no. ground (arith, h)) in
        rw (on_hello_ack, e)
          (if_elim Good accepted
            (note (record b2 { backoff_ms = backoff_min_ms; state = ready }) connected) _
            (λ yes. ground (arith, g))
            (λ no.
              if_elim Good needs_pairing (send_pair out (pair_again out b2))
                (disconnect out (record b2 { backoff_ms = backoff_max_ms }))
                (λ yes. send_pair-IsSession out law (pair_again out b2) (pair_again-Good b2 g))
                (λ no.
                  disconnect-IsSession out law (record b2 { backoff_ms = backoff_max_ms })
                    (ground (arith, g)))))
    | inr (inl e) ↦ rw (on_hello_ack, e) (disconnect-IsSession out law b h)
    | inr (inr e) ↦ rw (on_hello_ack, e) (disconnect-IsSession out law b h)
  ]

  on_pair_result-Good :
      (b : Bridge W) (payload : List ℕ) → Good b → Good (on_pair_result out b payload)
  unfolding on_pair_result
  on_pair_result-Good b payload h = elim (Result-cases (decode pair_result payload)) [
    | inl ((granted, (token, (reason, rest))), e) ↦
        let b1 : Bridge W = record b { token = clip 65 token } in
        let b2 : Bridge W = commit out (store_token out b1 b1.token) in
        let s =
          law.set_token b.world (clip 65 token) (length-clip 64 token) (clip-c_string 64 token) in
        let c =
          law.store_commit_same (out.store_set_str b.world pair_token_key (clip 65 token)).1 in
        rw (on_pair_result, e)
          (if_elim Good (not granted) (disconnect out b) _ (λ no. disconnect-IsSession out law b h)
            (λ yes. ground (arith, h, s, c)))
    | inr (inl e) ↦ rw (on_pair_result, e) (disconnect-IsSession out law b h)
    | inr (inr e) ↦ rw (on_pair_result, e) (disconnect-IsSession out law b h)
  ]

  on_ping-Good : (b : Bridge W) (payload : List ℕ) → Good b → Good (on_ping out b payload)
  unfolding on_ping
  on_ping-Good b payload h = elim (Result-cases (decode ping payload)) [
    | inl ((nonce, rest), e) ↦
        rw (on_ping, e)
          (Said-IsSession out law says_pong b _
            (encode_send-Said out law b says_pong pong (nonce, tt))
            (λ no. absurd (ground (arith, no))) h)
    | inr (inl e) ↦ rw (on_ping, e) h
    | inr (inr e) ↦ rw (on_ping, e) h
  ]

  relay-Good : (b : Bridge W) (id : ℕ) (payload : List ℕ) → Good b → Good (relay out b id payload)
  unfolding relay
  relay-Good b id payload h = elim (Option-cases (news_of id payload)) [
    | inl e ↦ rw (relay, e) h
    | inr (n, e) ↦ rw (relay, e) (ground (arith, h))
  ]

  pub on_message-Good : (b : Bridge W) (bytes : List ℕ) → Good b → Good (on_message out b bytes)
  unfolding on_message
  on_message-Good b bytes h = elim (Split-cases (frame_split bytes)) [
    | inl (a, e) ↦ elim (Result-cases (peek_id a.0)) [
      | inl (id, k) ↦
          let b1 : Bridge W = record b { last_rx_ms = out.now_ms b.world } in
          let g : Good b1 = ground (arith, h) in
          rw (on_message, e)
            (rw k (
              if_elim Good (id == hello_ack.id) (on_hello_ack out b1 a.0) _
                (λ yes. on_hello_ack-Good b1 a.0 g)
                (λ no.
                  if_elim Good (id == pair_result.id) (on_pair_result out b1 a.0) _
                    (λ yes. on_pair_result-Good b1 a.0 g)
                    (λ no.
                      if_elim Good (id == ping.id) (on_ping out b1 a.0) _
                        (λ yes. on_ping-Good b1 a.0 g)
                        (λ no.
                          if_elim Good (id == pong.id) b1 (relay out b1 id a.0) (λ yes. g)
                            (λ no. relay-Good b1 id a.0 g))))))
      | inr (inl k) ↦ rw (on_message, e) (rw k (disconnect-IsSession out law b h))
      | inr (inr k) ↦ rw (on_message, e) (rw k (disconnect-IsSession out law b h))
    ]
    | inr (inl e) ↦ rw (on_message, e) (disconnect-IsSession out law b h)
    | inr (inr e) ↦ rw (on_message, e) (disconnect-IsSession out law b h)
  ]
