-- ===== src/Bridge/Ws/Rounds.antt =====
-- The loops of nev_ws.c end.
use nev_os.Base.{
  ◌<◌, if_then, if_else, Bool, true, false, [], steady, if◌then◌else◌, inr, inl, ℕ, zero, suc, ◌+◌,
  ◌-◌, ◌≤◌, ◌≡◌, refl, sym, ap, ◌∙◌, some, List, length, take, drop, arith, ltb, ◌==◌, Bool-cases,
  Option-cases, length-drop,
}
use nev_os.Bridge.Ws.Frame.{op_bin, op_ping, op_pong, need_more, frame_read}
use nev_os.Bridge.Ws.Client.{bad_frame}
use nev_os.Bridge.Ws.Client.{Port, Client, flush_rounds, send_control, queue, flush_tx, flushed}
use nev_os.Bridge.Ws.Poll.{Event, message, wait, ending, reject, take_frames, control}
use nev_os.Bridge.Ws.Taking.{Parsed-cases, frame_read-consumed}

frame_read-empty : (buf : List ℕ) → length buf ≤ 0 → frame_read buf ≡ need_more
unfolding frame_read
frame_read-empty buf h = ground arith

module _ {S : Type 0} (port : Port S) where
  flush_rounds-rx :
      (fuel : ℕ) (z c : Client S)
      → z.rx ≡ c.rx
      → (flushed port z (flush_rounds port fuel c)).1.rx ≡ c.rx
  unfolding flush_rounds
  flush_rounds-rx zero z c h = h
  flush_rounds-rx (suc fuel) z c h =
      let r = port.send c.net (drop c.tx_sent c.tx) in
      elim (Bool-cases (ltb c.tx_sent (length c.tx))) [
        | inr e ↦ rw (flush_rounds, e) refl
        | inl e ↦ elim (Option-cases r.0) [
          | inl e1 ↦ rw (flush_rounds, e) (rw e1 refl)
          | inr (zero, e1) ↦ rw (flush_rounds, e) (rw e1 refl)
          | inr (suc n, e1) ↦
              rw (flush_rounds, e)
                (rw e1
                  (flush_rounds-rx fuel z (record c { tx_sent = c.tx_sent + suc n; net = r.1 }) h))
        ]
      ]

  send_control-rx :
      (c : Client S) (opcode : ℕ) (payload : List ℕ)
      → (send_control port c opcode payload).rx ≡ c.rx
  unfolding send_control queue flush_tx
  send_control-rx c opcode payload =
      let d : Client S = (queue port c opcode payload).1 in
      ground (arith, flush_rounds-rx (suc (length d.tx - d.tx_sent)) d d refl)

  control-rx :
      (c d : Client S) (opcode : ℕ) (payload : List ℕ)
      → control port c opcode payload ≡ some d
      → d.rx ≡ c.rx
  unfolding control
  control-rx c d opcode payload h = elim (Bool-cases (opcode == op_ping)) [
    | inl p ↦
        let is : send_control port c op_pong payload ≡ d = ground (arith, h, p) in
        ap (λ (x : Client S). x.rx) (sym is) ∙ send_control-rx c op_pong payload
    | inr p ↦ elim (Bool-cases (opcode == op_pong)) [
      | inl q ↦ let is : c ≡ d = ground (arith, h, p, q) in ap (λ (x : Client S). x.rx) (sym is)
      | inr q ↦ absurd (ground (arith, h, p, q))
    ]
  ]

  take_frames-fuel :
      (fuel : ℕ) (c : Client S)
      → length c.rx < fuel
      → take_frames port (suc fuel) c ≡ take_frames port fuel c
  unfolding take_frames
  take_frames-fuel zero c h = absurd (omega arith)
  take_frames-fuel (suc fuel) c h = elim (Parsed-cases (frame_read c.rx)) [
    | inl k ↦ rw (take_frames, k) refl
    | inr (inl k) ↦ rw (take_frames, k) refl
    | inr (inr (op, at, n, m, k)) ↦
        let b = frame_read-consumed c.rx op at n m k in
        let payload : List ℕ = take n (drop at c.rx) in
        elim (Option-cases (control port c op payload)) [
          | inl q ↦ rw (take_frames, k) (rw q refl)
          | inr (d, q) ↦
              let more =
                take_frames-fuel fuel (record d { rx = drop m d.rx })
                  (omega
                    (arith, h, b, length-drop m d.rx, ap length (control-rx c d op payload q))) in
              rw (take_frames, k)
                (rw q (
                  ap
                    (λ x.
                      if op == op_bin
                      then some (message payload, record c { pending_consume = m })
                      else x)
                    more))
        ]
  ]

  take_frames-total :
      (fuel : ℕ) (c : Client S)
      → length c.rx < fuel
      → (r : Event × Client S) × (take_frames port fuel c ≡ some r)
  unfolding take_frames
  take_frames-total zero c h = absurd (omega arith)
  take_frames-total (suc fuel) c h = elim (Parsed-cases (frame_read c.rx)) [
    | inl k ↦ (wait port c, rw (take_frames, k) refl)
    | inr (inl k) ↦ (ending port c bad_frame, rw (take_frames, k) refl)
    | inr (inr (op, at, n, m, k)) ↦
        let b = frame_read-consumed c.rx op at n m k in
        let payload : List ℕ = take n (drop at c.rx) in
        elim (Bool-cases (op == op_bin)) [
          | inl e ↦ (
            (message payload, record c { pending_consume = m }),
            rw (take_frames, k) (if_then (op == op_bin) _ _ e),
          )
          | inr e ↦ elim (Option-cases (control port c op payload)) [
            | inl q ↦ (
              ending port c (reject port op),
              rw (take_frames, k) (rw q (if_else (op == op_bin) _ _ e)),
            )
            | inr (d, q) ↦
                let more =
                  take_frames-total fuel (record d { rx = drop m d.rx })
                    (omega
                      (arith, h, b, length-drop m d.rx, ap length (control-rx c d op payload q))) in
                (more.0, rw (take_frames, k) (rw q (if_else (op == op_bin) _ _ e ∙ more.1)))
          ]
        ]
  ]

  -- A flush of `k` bytes, where the socket takes at most what it is offered.
  flush_rounds-fuel :
      (fuel : ℕ) (c : Client S)
      → length c.tx - c.tx_sent < fuel
      → flush_rounds port (suc fuel) c ≡ flush_rounds port fuel c
  unfolding flush_rounds
  flush_rounds-fuel zero c h = absurd (omega arith)
  flush_rounds-fuel (suc fuel) c h =
      let r = port.send c.net (drop c.tx_sent c.tx) in
      elim (Bool-cases (ltb c.tx_sent (length c.tx))) [
        | inr e ↦ rw (flush_rounds, e) refl
        | inl e ↦ elim (Option-cases r.0) [
          | inl e1 ↦ rw (flush_rounds, e) (rw e1 refl)
          | inr (zero, e1) ↦ rw (flush_rounds, e) (rw e1 refl)
          | inr (suc n, e1) ↦
              let more : c.tx_sent < length c.tx = ground (arith, e) in
              rw (flush_rounds, e)
                (rw e1 (
                  flush_rounds-fuel fuel (record c { tx_sent = c.tx_sent + suc n; net = r.1 })
                    (omega arith)))
        ]
      ]

  flush_rounds-total :
      (fuel : ℕ) (c : Client S)
      → length c.tx - c.tx_sent < fuel
      → (r : Bool × Client S) × (flush_rounds port fuel c ≡ some r)
  unfolding flush_rounds
  flush_rounds-total zero c h = absurd (omega arith)
  flush_rounds-total (suc fuel) c h =
      let r = port.send c.net (drop c.tx_sent c.tx) in
      elim (Bool-cases (ltb c.tx_sent (length c.tx))) [
        | inr e ↦ ((true, record c { tx = []; tx_sent = 0 }), rw (flush_rounds, e) refl)
        | inl e ↦ elim (Option-cases r.0) [
          | inl e1 ↦ ((false, record c { net = r.1 }), rw (flush_rounds, e) (rw e1 refl))
          | inr (zero, e1) ↦ ((true, record c { net = r.1 }), rw (flush_rounds, e) (rw e1 refl))
          | inr (suc n, e1) ↦
              let left : c.tx_sent < length c.tx = ground (arith, e) in
              let more =
                flush_rounds-total fuel (record c { tx_sent = c.tx_sent + suc n; net = r.1 })
                  (omega arith) in
              (more.0, rw (flush_rounds, e) (rw e1 more.1))
        ]
      ]

  -- The two loops end, with an answer, whatever is in the buffers: the one over the frames after no more
  -- rounds than there are bytes read and one, and the one that flushes after no more than there are bytes
  -- to send and one. The answer is the same for any greater number, and flush_tx gives it.
  pub rounds_enough :
      (c : Client S)
      → ((r : Event × Client S) × ((extra : ℕ)
            → take_frames port (suc (length c.rx) + extra) c ≡ some r))
        × ((extra : ℕ)
            → flush_rounds port (suc (length c.tx - c.tx_sent) + extra) c ≡ some (flush_tx port c))
  unfolding flush_tx
  rounds_enough c =
      let n = suc (length c.rx) in
      let m = suc (length c.tx - c.tx_sent) in
      let taken = take_frames-total n c (omega arith) in
      let sends = flush_rounds-total m c (omega arith) in
      (
        (
          taken.0,
          λ extra.
              steady (λ k. take_frames port k c) n extra
                (λ k h. take_frames-fuel k c (omega (arith, h)))
              ∙ taken.1,
        ),
        λ extra.
            steady (λ k. flush_rounds port k c) m extra
              (λ k h. flush_rounds-fuel k c (omega (arith, h)))
            ∙ sends.1
            ∙ sym (ap (λ o. some (flushed port c o)) sends.1),
      )
