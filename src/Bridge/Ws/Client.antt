-- ===== src/Bridge/Ws/Client.antt =====
-- The connection of components/nev_bridge/src/nev_ws.c: its state, the socket under it, and what it
-- sends. The bytes of `rx` and `tx` that count are the lists; their capacities are rx_cap and tx_cap.
use nev_os.Base.{
  ltb, ℕ, zero, suc, ◌+◌, ◌-◌, ◌==◌, Bool, true, false, not, Option, none, some, List, [], ◌∷◌,
  length, drop, if◌then◌else◌,
}
use nev_os.Bridge.Ws.Frame.{tx_cap, op_bin, op_close, frame_write}

-- nev_ws_state_t
pub data State : Type 0 where
  closed connecting upgrading ready : State

-- nev_conn_state_t
pub data Conn : Type 0 where
  conn_pending conn_ready conn_failed : Conn

-- The strings of the calls of `fail`.
pub data Why : Type 0 where
  no_socket request_too_long lost_upgrading response_too_large refused no_accept accept_mismatch :
      Why
  unreachable dropped_sending peer_closed frame_too_large bad_frame text_frame unknown_opcode : Why

-- nev_net.h and nev_rand.h over the state `S` of what is outside; `none` is a negative answer.
pub record Port (S : Type 0) : Type 0 where
  pub connect : S → Bool × S
  pub connect_poll : S → Conn × S
  pub send : S → List ℕ → Option ℕ × S
  pub recv : S → ℕ → Option (List ℕ) × S
  pub hang_up : S → S
  pub random : S → ℕ → List ℕ × S

-- nev_ws_t: `live` is a valid socket.
pub record Client (S : Type 0) : Type 0 where
  pub state : State
  pub live : Bool
  pub accept_expected : List ℕ
  pub rx : List ℕ
  pub pending_consume : ℕ
  pub tx : List ℕ
  pub tx_sent : ℕ
  pub failed : Bool
  pub fail_reason : Option Why
  pub net : S

module _ {S : Type 0} where
  abbrev pub can_send : Client S → Bool
  can_send c = elim c.state [ ready ↦ length c.tx == 0 | _ ↦ false ]

  module _ (port : Port S) where
    unfoldable pub hang_up : Client S → Client S
    hang_up c = if c.live then record c { live = false; net = port.hang_up c.net } else c

    unfoldable pub fail : Client S → Why → Client S
    fail c why =
        let c' = if c.failed then c else record c { failed = true; fail_reason = some why } in
        hang_up (record c' { state = closed })

    -- The rounds of the loop; `none` where the fuel ran out before it ended.
    unfoldable pub flush_rounds : ℕ → Client S → Option (Bool × Client S)
    flush_rounds zero c = none
    flush_rounds (suc fuel) c = elim (ltb c.tx_sent (length c.tx)) [
      | false ↦ some (true, record c { tx = []; tx_sent = 0 })
      | true ↦
          let (answer, net) = port.send c.net (drop c.tx_sent c.tx) in
          elim answer [
            | none ↦ some (false, record c { net = net })
            | some zero ↦ some (true, record c { net = net })
            | some (suc n) ↦ flush_rounds fuel (record c { tx_sent = c.tx_sent + suc n; net = net })
          ]
    ]

    abbrev pub flushed : Client S → Option (Bool × Client S) → Bool × Client S
    flushed c none = (true, c)
    flushed c (some r) = r

    -- Each round but the last sends a byte at least, so that the fuel is enough (Rounds.rounds_enough).
    unfoldable pub flush_tx : Client S → Bool × Client S
    flush_tx c = flushed c (flush_rounds (suc (length c.tx - c.tx_sent)) c)

    -- The lines that send_control and nev_ws_send share: a fresh mask, and the frame over `tx`, which is
    -- empty. `false` is an answer 0 of nev_ws_frame_write.
    unfoldable pub queue : Client S → ℕ → List ℕ → Bool × Client S
    queue c opcode payload =
        let (mask, net) = port.random c.net 4 in
        elim (frame_write tx_cap opcode payload mask) [
          | none ↦ (false, record c { net = net })
          | some bytes ↦ (true, record c { tx = bytes; tx_sent = 0; net = net })
        ]

    unfoldable pub send_control : Client S → ℕ → List ℕ → Client S
    send_control c opcode payload =
        if not (length c.tx == 0)
        then c
        else (let (fits, c') = queue c opcode payload in if fits then (flush_tx c').1 else c')

    unfoldable pub send : Client S → List ℕ → Bool × Client S
    send c payload =
        if not (can_send c)
        then (false, c)
        else (let (fits, c1) = queue c op_bin payload in
            if not fits
            then (false, c1)
            else (let (alive, c2) = flush_tx c1 in
                if alive then (true, c2) else (false, fail c2 dropped_sending)))

    -- A close frame, where there is an open connection to say it on.
    unfoldable pub farewell : Client S → State → Client S
    farewell c ready = send_control c op_close (0x03 ∷ 0xE8 ∷ [])
    farewell c _ = c

    unfoldable pub close : Client S → Client S
    close c = record (hang_up (farewell c c.state)) {
      state = closed;
      rx = [];
      tx = [];
      tx_sent = 0;
    }
