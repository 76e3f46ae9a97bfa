-- ===== src/Bridge/Ws/Poll.antt =====
-- nev_ws_poll of components/nev_bridge/src/nev_ws.c.
use nev_os.Base.{
  ℕ, zero, suc, ◌-◌, not, Option, none, some, List, ◌++◌, ltb, ◌==◌, if◌then◌else◌, length, take,
  drop,
}
use nev_os.Bridge.Ws.Frame.{
  rx_cap, op_text, op_bin, op_close, op_ping, op_pong, frame, need_more, malformed, frame_read,
}
use nev_os.Bridge.Ws.Client.{
  Why, State, closed, connecting, upgrading, ready, Conn, conn_pending, conn_ready, conn_failed,
  Port, Client, fail, flush_tx, send_control, unreachable, dropped_sending, peer_closed,
  frame_too_large, bad_frame, text_frame, unknown_opcode,
}
use nev_os.Bridge.Ws.Upgrade.{poll_upgrade}

-- nev_ws_event_t, a message with its bytes.
pub data Event : Type 0 where
  nothing opened : Event
  message : List ℕ → Event
  ended : Event

module _ {S : Type 0} (port : Port S) where
  abbrev pub consume : ℕ → Client S → Client S
  consume n c = record c { rx = drop n c.rx }

  abbrev pub ending : Client S → Why → Event × Client S
  ending c why = (ended, fail port c why)

  -- No frame is whole yet, and none can become whole in a full buffer.
  abbrev pub wait : Client S → Event × Client S
  wait c = if length c.rx == rx_cap then ending c frame_too_large else (nothing, c)

  -- What is no message: a control frame is answered or skipped, and the loop goes on (`some`) where the
  -- opcode is one of these.
  unfoldable pub control : Client S → ℕ → List ℕ → Option (Client S)
  control c opcode payload =
      if opcode == op_ping
      then some (send_control port c op_pong payload)
      else if opcode == op_pong
      then some c
      else none

  abbrev pub reject : ℕ → Why
  reject opcode =
      if opcode == op_close
      then peer_closed
      else if opcode == op_text
      then text_frame
      else unknown_opcode

  -- The rounds of the loop over `rx`; `none` where the fuel ran out before it ended.
  unfoldable pub take_frames : ℕ → Client S → Option (Event × Client S)
  take_frames zero c = none
  take_frames (suc fuel) c = elim (frame_read c.rx) [
    | need_more ↦ some (wait c)
    | malformed ↦ some (ending c bad_frame)
    | frame opcode at plen consumed ↦
        let payload = take plen (drop at c.rx) in
        if opcode == op_bin
        then some (message payload, record c { pending_consume = consumed })
        else elim (control c opcode payload) [
          | some c' ↦ take_frames fuel (consume consumed c')
          | none ↦ some (ending c (reject opcode))
        ]
  ]

  abbrev pub answered : Client S → Option (Event × Client S) → Event × Client S
  answered c none = (nothing, c)
  answered c (some r) = r

  -- A frame takes two bytes at least, so that the fuel is enough (Rounds.rounds_enough).
  abbrev pub take_message : Client S → Event × Client S
  take_message c = answered c (take_frames (suc (length c.rx)) c)

  -- Reads into the room of `rx`, then takes one message from it.
  unfoldable pub poll_open : Client S → Event × Client S
  poll_open c0 =
      let c = record c0 { rx = drop c0.pending_consume c0.rx; pending_consume = 0 } in
      if ltb (length c.rx) rx_cap
      then (let (answer, net) = port.recv c.net (rx_cap - length c.rx) in
          let c' = record c { net = net } in
          elim answer [
            | none ↦ ending c' peer_closed
            | some bytes ↦ let c2 = record c' { rx = c.rx ++ bytes } in take_message c2
          ])
      else take_message c

  -- What the poll answers once the upgrade was advanced.
  abbrev pub upgraded : Client S → Event × Client S
  upgraded c =
      if c.failed then (ended, c) else (elim c.state [ ready ↦ (opened, c) | _ ↦ (nothing, c) ])

  -- Past the TCP handshake, with everything flushed that the socket took.
  unfoldable pub poll_flushed : Client S → State → Event × Client S
  poll_flushed c upgrading =
      if not (length c.tx == 0) then (nothing, c) else upgraded (poll_upgrade port c)
  poll_flushed c _ = poll_open c

  unfoldable pub poll_connected : Client S → Event × Client S
  poll_connected c =
      let (alive, c1) = flush_tx port c in
      if not alive then ending c1 dropped_sending else poll_flushed c1 c1.state

  -- While the TCP handshake is in flight.
  unfoldable pub poll_connecting : Client S → Conn → Event × Client S
  poll_connecting c conn_pending = (nothing, c)
  poll_connecting c conn_failed = ending c unreachable
  poll_connecting c conn_ready = poll_connected (record c { state = upgrading })

  unfoldable pub poll_in : Client S → State → Event × Client S
  poll_in c closed = (nothing, c)
  poll_in c connecting =
      let (answer, net) = port.connect_poll c.net in poll_connecting (record c { net = net }) answer
  poll_in c upgrading = poll_connected c
  poll_in c ready = poll_connected c

  abbrev pub poll : Client S → Event × Client S
  poll c = poll_in c c.state
