-- ===== src/Bridge/Ws/Invariant.antt =====
-- What holds of a client between two calls: its buffers, its state, and what went out on the wire.
use Prim.Native.Nat.{bit_and, bit_or}
use nev_os.Base.{
  if◌then◌else◌, ◌==◌, not, if_elim, ltb_false→le, subst, length-take, inr, length-append, inl, ℕ,
  ◌+◌, ◌≤◌, ◌≡◌, refl, sym, ap, ◌∙◌, Bool, true, false, some, List, [], ◌∷◌, ◌++◌, length, take,
  arith, ltb, append_assoc, Bool-cases, Option-cases,
}
use nev_os.Bridge.Ws.Frame.{
  op_bin, op_close, rx_cap, tx_cap, header_size, length_field, masked, frame_write,
}
use nev_os.Bridge.Ws.Client.{
  dropped_sending, State, closed, connecting, upgrading, ready, farewell, Why, Port, Client,
  hang_up, fail, flush_tx, queue, send_control, can_send, send, close,
}
use nev_os.Bridge.Ws.Masking.{length-masked}
use nev_os.Bridge.Ws.Traffic.{IsPort, Stream, framed, owed, Flushed, flush_tx-Flushed, drop-all}

length-length_field : (n : ℕ) → 5 + length (length_field n) ≡ header_size n
length-length_field n = ground arith

frame_write-length :
    (out_cap opcode : ℕ) (payload mask bytes : List ℕ)
    → frame_write out_cap opcode payload mask ≡ some bytes
    → length bytes ≤ out_cap
unfolding frame_write
frame_write-length out_cap opcode payload mask bytes h =
    let n = length payload in
    let tail = take 4 mask ++ masked 0 mask payload in
    let l0 = length-append (length_field n) tail in
    let l1 = length-append (take 4 mask) (masked 0 mask payload) in
    let l2 = length-take 4 mask in
    let l3 = length-masked 0 mask payload in
    let l4 = length-length_field n in
    elim (Bool-cases (ltb out_cap (header_size n + n))) [
      | inl e ↦ absurd (ground (arith, e, h))
      | inr e ↦
          let w : List ℕ = bit_or 0x80 (bit_and opcode 0x0F) ∷ (length_field n ++ tail) in
          let is : w ≡ bytes = ground (arith, e, h) in
          omega
            (arith, ap length is, l0, l1, l2, l3, l4, ltb_false→le out_cap (header_size n + n) e)
    ]

-- The buffers and the state.
pub record IsBuffered {S : Type 0} (c : Client S) : Type 0 where
  pub rx_fits : length c.rx ≤ rx_cap
  pub pending_in : c.state ≡ ready → c.pending_consume ≤ length c.rx
  pub connecting_fresh : c.state ≡ connecting → c.pending_consume ≡ 0
  pub upgrading_fresh : c.state ≡ upgrading → c.pending_consume ≡ 0
  pub sent_in : c.tx_sent ≤ length c.tx
  pub tx_fits : length c.tx ≤ tx_cap
  pub closed_dead : c.state ≡ closed → c.live ≡ false
  pub dead_closed : c.live ≡ false → c.state ≡ closed
  pub failed_closed : c.failed ≡ true → c.state ≡ closed

-- What sending leaves alone.
pub record Kept {S : Type 0} (c d : Client S) : Type 0 where
  pub same_state : d.state ≡ c.state
  pub same_live : d.live ≡ c.live
  pub same_rx : d.rx ≡ c.rx
  pub same_pending : d.pending_consume ≡ c.pending_consume
  pub same_failed : d.failed ≡ c.failed

module _ {S : Type 0} (port : Port S) (sent : S → List ℕ) (law : IsPort port sent)
    (request : List ℕ) where
  -- The socket got the upgrade request and whole frames, in order, but for a rest that is owed to it
  -- while it lives.
  abbrev pub IsStreamed : Client S → Type 0
  IsStreamed c =
      (rest : List ℕ) × Stream request (sent c.net ++ rest) × (c.live ≡ true → rest ≡ owed c)

  abbrev pub IsClient : Client S → Type 0
  IsClient c = IsBuffered c × IsStreamed c

  -- What was sent stays, and a client that still lives owes what it owed.
  pub IsStreamed-same :
      (c d : Client S)
      → sent d.net ≡ sent c.net
      → (d.live ≡ true → (c.live ≡ true) × (owed d ≡ owed c))
      → IsStreamed c
      → IsStreamed d
  IsStreamed-same c d e f h =
      (h.0, subst (λ l. Stream request (l ++ h.0)) (sym e) h.1, λ l. h.2 (f l).0 ∙ sym (f l).1)

  pub flush_tx-IsClient : (c : Client S) → IsClient c → c.live ≡ true → IsClient (flush_tx port c).1
  flush_tx-IsClient c h alive =
      let f : Flushed port sent law c (flush_tx port c).1 =
        flush_tx-Flushed port sent law c h.0.sent_in h.0.tx_fits in
      (
        ground (arith, f, h.0),
        (
          owed (flush_tx port c).1,
          subst (Stream request) (sym (f.moved ∙ ap (λ l. sent c.net ++ l) (sym (h.1.2 alive))))
              h.1.1,
          λ l. refl,
        ),
      )

  pub fail-IsClient : (c : Client S) (why : Why) → IsClient c → IsClient (fail port c why)
  unfolding fail hang_up
  fail-IsClient c why h =
      (ground (arith, h.0), ground (arith, IsStreamed-same c, law.hang_up_sent c.net))

  -- A frame is queued where nothing is owed.
  queue-IsClient :
      (c : Client S) (opcode : ℕ) (payload : List ℕ)
      → IsClient c
      → length c.tx ≡ 0
      → IsClient (queue port c opcode payload).1
  unfolding queue
  queue-IsClient c opcode payload h empty =
      let r = port.random c.net 4 in
      elim (Option-cases (frame_write tx_cap opcode payload r.0)) [
        | inl e ↦
            rw (queue, e)
              (
                ground (arith, h.0),
                IsStreamed-same c (record c { net = r.1 }) (law.random_sent c.net 4)
                    (λ l. (l, refl)) h.1,
              )
        | inr (bytes, e) ↦
            rw (queue, e)
              (
                ground (arith, h.0, frame_write-length tx_cap opcode payload r.0 bytes e),
                (
                  h.1.0 ++ bytes,
                  subst (Stream request)
                      (append_assoc (sent c.net) h.1.0 bytes
                        ∙ ap (λ l. l ++ (h.1.0 ++ bytes)) (sym (law.random_sent c.net 4)))
                      (framed (sent c.net ++ h.1.0) bytes opcode payload r.0 h.1.1 e),
                  λ l. ap (λ o. o ++ bytes) (h.1.2 l ∙ drop-all c.tx_sent c.tx (omega arith)),
                ),
              )
      ]

  queue-Kept :
      (c : Client S) (opcode : ℕ) (payload : List ℕ) → Kept c (queue port c opcode payload).1
  unfolding queue
  queue-Kept c opcode payload = ground arith

  pub flush_tx-Kept : (c : Client S) → IsClient c → Kept c (flush_tx port c).1
  flush_tx-Kept c h =
      let f : Flushed port sent law c (flush_tx port c).1 =
        flush_tx-Flushed port sent law c h.0.sent_in h.0.tx_fits in
      ground (arith, f)

  Kept-twice : (c d e : Client S) → Kept c d → Kept d e → Kept c e
  Kept-twice c d e h k = ground (arith, h, k)

  -- A frame that is queued, and flushed where it fits.
  queue_flush :
      (c : Client S) (opcode : ℕ) (payload : List ℕ)
      → IsClient c
      → c.live ≡ true
      → length c.tx ≡ 0
      → let d = (flush_tx port (queue port c opcode payload).1).1 in IsClient d × Kept c d
  queue_flush c opcode payload h alive empty =
      let d = (queue port c opcode payload).1 in
      let k : Kept c d = queue-Kept c opcode payload in
      let i : IsClient d = queue-IsClient c opcode payload h empty in
      (
        flush_tx-IsClient d i (k.same_live ∙ alive),
        Kept-twice c d (flush_tx port d).1 k (flush_tx-Kept d i),
      )

  pub send_control-IsClient :
      (c : Client S) (opcode : ℕ) (payload : List ℕ)
      → IsClient c
      → c.live ≡ true
      → IsClient (send_control port c opcode payload) × Kept c (send_control port c opcode payload)
  unfolding send_control
  send_control-IsClient c opcode payload h alive =
      let r = queue port c opcode payload in
      if_elim (λ (d : Client S). IsClient d × Kept c d) (not (length c.tx == 0)) c
        (if r.0 then (flush_tx port r.1).1 else r.1) (λ e. (h, ground arith))
        (λ e.
          if_elim (λ (d : Client S). IsClient d × Kept c d) r.0 (flush_tx port r.1).1 r.1
            (λ f. queue_flush c opcode payload h alive (ground (arith, e)))
            (λ f.
              (queue-IsClient c opcode payload h (ground (arith, e)), queue-Kept c opcode payload)))

  can_send-live :
      (c : Client S) → IsClient c → can_send c ≡ true → (c.live ≡ true) × (length c.tx ≡ 0)
  can_send-live c h e = ground (arith, h.0)

  pub send-IsClient :
      (c : Client S) (payload : List ℕ) → IsClient c → IsClient (send port c payload).1
  unfolding send
  send-IsClient c payload h =
      let r = queue port c op_bin payload in
      let f = flush_tx port r.1 in
      if_elim (λ (d : Bool × Client S). IsClient d.1) (not (can_send c)) (false, c) _ (λ e. h)
        (λ e.
          let ok = can_send-live c h (ground (arith, e)) in
          if_elim (λ (d : Bool × Client S). IsClient d.1) (not r.0) (false, r.1) _
            (λ e1. queue-IsClient c op_bin payload h ok.1)
            (λ e1.
              let both = queue_flush c op_bin payload h ok.0 ok.1 in
              if_elim (λ (d : Bool × Client S). IsClient d.1) f.0 (true, f.1)
                (false, fail port f.1 dropped_sending) (λ e2. both.0)
                (λ e2. fail-IsClient f.1 dropped_sending both.0)))

  farewell-IsClient :
      (c : Client S) (s : State) → IsClient c → c.state ≡ s → IsClient (farewell port c s)
  unfolding farewell
  farewell-IsClient c closed h e = h
  farewell-IsClient c connecting h e = h
  farewell-IsClient c upgrading h e = h
  farewell-IsClient c ready h e =
      (send_control-IsClient c op_close (0x03 ∷ 0xE8 ∷ []) h (ground (arith, h.0, e))).0

  pub close-IsClient : (c : Client S) → IsClient c → IsClient (close port c)
  unfolding close hang_up
  close-IsClient c h =
      let d : Client S = farewell port c c.state in
      let i : IsClient d = farewell-IsClient c c.state h refl in
      let gone : (hang_up port d).live ≡ false = ground arith in
      (
        ground (arith, i.0, gone),
        IsStreamed-same d (close port c) (ground (arith, law.hang_up_sent d.net))
            (λ l. ground (arith, gone, l)) i.1,
      )
