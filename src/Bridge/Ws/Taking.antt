-- ===== src/Bridge/Ws/Taking.antt =====
-- Taking frames from the buffer keeps what holds of a client.
use nev_os.Base.{
  Option, subst, inr, ◌⊎◌, inl, ℕ, zero, suc, ◌-◌, ◌≤◌, ◌≡◌, refl, sym, ◌∙◌, true, some, List, ◌++◌,
  length, take, drop, arith, ltb, ◌==◌, Bool-cases, Option-cases, if_elim, length-append,
  length-drop,
}
use nev_os.Bridge.Ws.Frame.{
  rx_cap, op_bin, op_ping, op_pong, Parsed, frame, need_more, malformed, read_length, frame_read,
}
use nev_os.Bridge.Ws.Client.{
  peer_closed, bad_frame, frame_too_large, ready, Why, Port, Client, send_control,
}
use nev_os.Bridge.Ws.Poll.{
  reject, message, nothing, ending, wait, control, Event, take_frames, answered, take_message,
  poll_open,
}
use nev_os.Bridge.Ws.Traffic.{IsPort, owed}
use nev_os.Bridge.Ws.Invariant.{
  IsBuffered, IsClient, IsStreamed-same, fail-IsClient, send_control-IsClient, Kept,
}

-- A frame has its two bytes of header and is whole in the buffer.
pub frame_read-consumed :
    (buf : List ℕ) (op at n c : ℕ) → frame_read buf ≡ frame op at n c → (2 ≤ c) × (c ≤ length buf)
unfolding frame_read read_length
frame_read-consumed buf op at n c h = ground arith

pub Parsed-cases :
    (p : Parsed)
    → (p ≡ need_more)
      ⊎ (p ≡ malformed)
      ⊎ ((op : ℕ) × (at : ℕ) × (n : ℕ) × (c : ℕ) × (p ≡ frame op at n c))
Parsed-cases need_more = inl refl
Parsed-cases malformed = inr (inl refl)
Parsed-cases (frame op at n c) = inr (inr (op, at, n, c, refl))

module _ {S : Type 0} (port : Port S) (sent : S → List ℕ) (law : IsPort port sent)
    (request : List ℕ) where
  abbrev Good : Client S → Type 0
  Good = IsClient port sent law request

  ready-live : (c : Client S) → Good c → c.state ≡ ready → c.live ≡ true
  ready-live c h e = ground (arith, h.0)

  -- A change of the buffers alone.
  pub rebuffered :
      (c d : Client S)
      → sent d.net ≡ sent c.net
      → d.live ≡ c.live
      → owed d ≡ owed c
      → IsBuffered d
      → Good c
      → Good d
  rebuffered c d e l o b h =
      (b, IsStreamed-same port sent law request c d e (λ a. (sym l ∙ a, o)) h.1)

  pub ending-Good : (c : Client S) (why : Why) → Good c → Good (ending port c why).1
  ending-Good c why h = fail-IsClient port sent law request c why h

  wait-Good : (c : Client S) → Good c → Good (wait port c).1
  wait-Good c h =
      if_elim (λ (r : Event × Client S). Good r.1) (length c.rx == rx_cap)
        (ending port c frame_too_large) (nothing, c) (λ full. ending-Good c frame_too_large h)
        (λ room. h)

  control-Good :
      (c d : Client S) (opcode : ℕ) (payload : List ℕ)
      → Good c
      → c.state ≡ ready
      → control port c opcode payload ≡ some d
      → Good d × Kept c d
  unfolding control
  control-Good c d opcode payload h e k =
      let s = send_control-IsClient port sent law request c op_pong payload h (ready-live c h e) in
      elim (Bool-cases (opcode == op_ping)) [
        | inl p ↦
            let is : send_control port c op_pong payload ≡ d = ground (arith, k, p) in
            subst (λ x. Good x × Kept c x) is s
        | inr p ↦ elim (Bool-cases (opcode == op_pong)) [
          | inl q ↦
              let is : c ≡ d = ground (arith, k, p, q) in
              subst (λ x. Good x × Kept c x) is (h, ground arith)
          | inr q ↦ absurd (ground (arith, k, p, q))
        ]
      ]

  take_frames-Good :
      (fuel : ℕ) (z c : Client S)
      → Good z
      → Good c
      → c.state ≡ ready
      → c.pending_consume ≡ 0
      → Good (answered port z (take_frames port fuel c)).1
  unfolding take_frames
  take_frames-Good zero back c i h e z = i
  take_frames-Good (suc fuel) back c i h e z = elim (Parsed-cases (frame_read c.rx)) [
    | inl k ↦ rw (take_frames, k) (wait-Good c h)
    | inr (inl k) ↦ rw (take_frames, k) (ending-Good c bad_frame h)
    | inr (inr (op, at, n, m, k)) ↦
        let b = frame_read-consumed c.rx op at n m k in
        let payload : List ℕ = take n (drop at c.rx) in
        rw (take_frames, k)
          (if_elim (λ (r : Option (Event × Client S)). Good (answered port back r).1) (op == op_bin)
            (some (message payload, record c { pending_consume = m })) _
            (λ bin.
              rebuffered c (record c { pending_consume = m }) refl refl refl
                (ground (arith, h.0, b, e)) h)
            (λ other. elim (Option-cases (control port c op payload)) [
              | inl q ↦ rw q (ending-Good c (reject port op) h)
              | inr (d, q) ↦
                  let g = control-Good c d op payload h e q in
                  let d' : Client S = record d { rx = drop m d.rx } in
                  rw q (
                    take_frames-Good fuel back d' i
                      (rebuffered d d' refl refl refl
                        (ground (arith, g.0.0, g.1, z, length-drop m d.rx)) g.0)
                      (g.1.same_state ∙ e) (g.1.same_pending ∙ z))
            ]))
  ]

  pub poll_open-Good : (c : Client S) → Good c → c.state ≡ ready → Good (poll_open port c).1
  unfolding poll_open
  poll_open-Good c0 h e =
      let c : Client S = record c0 { rx = drop c0.pending_consume c0.rx; pending_consume = 0 } in
      let g : Good c =
        rebuffered c0 c refl refl refl (ground (arith, h.0, length-drop c0.pending_consume c0.rx))
          h in
      let r = port.recv c.net (rx_cap - length c.rx) in
      let s = law.recv_sent c.net (rx_cap - length c.rx) in
      if_elim (λ (x : Event × Client S). Good x.1) (ltb (length c.rx) rx_cap) _
        (take_message port c)
        (λ room. elim (Option-cases r.0) [
          | inl k ↦
              let d : Client S = record c { net = r.1 } in
              rw k (ending-Good d peer_closed (rebuffered c d s refl refl (ground (arith, g.0)) g))
          | inr (bytes, k) ↦
              let d : Client S = record c { rx = c.rx ++ bytes; net = r.1 } in
              let fits = law.recv_some c.net (rx_cap - length c.rx) bytes k in
              let gd : Good d =
                rebuffered c d s refl refl (ground (arith, g.0, fits, length-append c.rx bytes))
                  g in
              rw k (take_frames-Good (suc (length d.rx)) d d gd gd e refl)
        ])
        (λ full. take_frames-Good (suc (length c.rx)) c c g g e refl)
