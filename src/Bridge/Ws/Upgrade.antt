-- ===== src/Bridge/Ws/Upgrade.antt =====
-- The HTTP upgrade of components/nev_bridge/src/nev_ws.c. A C string is the list of its bytes before
-- the NUL.
use Prim.Native.Nat.{bit_or}
use nev_os.Base.{
  c_string, ℕ, zero, suc, ◌+◌, ◌-◌, ◌/◌, ◌%◌, Bool, true, false, not, ◌&&◌, ◌||◌, Option, none,
  some, List, [], ◌∷◌, ◌++◌, ltb, leb, ◌==◌, if◌then◌else◌, length, take, drop,
}
use nev_os.Bridge.Ws.Frame.{rx_cap, tx_cap}
use nev_os.Bridge.Ws.Client.{
  closed, connecting, ready, Port, Client, fail, no_socket, request_too_long, lost_upgrading,
  response_too_large, refused, no_accept, accept_mismatch,
}

-- strncmp against a whole literal
abbrev pub starts_with : List ℕ → List ℕ → Bool
starts_with [] xs = true
starts_with (l ∷ ls) [] = false
starts_with (l ∷ ls) (x ∷ xs) = l == x && starts_with ls xs

-- strstr: where `lit` first stands, counted from `i`.
abbrev pub find_from : ℕ → List ℕ → List ℕ → Option ℕ
find_from i lit [] = none
find_from i lit (x ∷ xs) = if starts_with lit (x ∷ xs) then some i else find_from (i + 1) lit xs

abbrev pub crlf_crlf : List ℕ
crlf_crlf = 13 ∷ 10 ∷ 13 ∷ 10 ∷ []

-- "HTTP/1.1 101"
abbrev pub status_101 : List ℕ
status_101 = 72 ∷ 84 ∷ 84 ∷ 80 ∷ 47 ∷ 49 ∷ 46 ∷ 49 ∷ 32 ∷ 49 ∷ 48 ∷ 49 ∷ []

-- "Sec-WebSocket-Accept"
abbrev pub accept_name : List ℕ
accept_name =
    83 ∷ 101 ∷ 99 ∷ 45 ∷ 87 ∷ 101 ∷ 98 ∷ 83 ∷ 111 ∷ 99 ∷ 107 ∷ 101 ∷ 116 ∷ 45 ∷ 65 ∷ 99 ∷ 99 ∷ 101
    ∷ 112 ∷ 116 ∷ []

abbrev pub skip_blanks : List ℕ → List ℕ
skip_blanks [] = []
skip_blanks (x ∷ xs) = if (x == 32) || (x == 9) then skip_blanks xs else x ∷ xs

-- What follows `name` and a colon, the case of both left aside.
abbrev pub value_here : List ℕ → List ℕ → Option (List ℕ)
value_here [] [] = none
value_here [] (x ∷ xs) = if x == 58 then some (skip_blanks xs) else none
value_here (l ∷ ls) [] = none
value_here (l ∷ ls) (x ∷ xs) = if bit_or x 0x20 == bit_or l 0x20 then value_here ls xs else none

-- `first`: a line starts here.
abbrev pub header_from : Bool → List ℕ → List ℕ → Option (List ℕ)
header_from first name [] = none
header_from first name (x ∷ xs) =
    let later = header_from (x == 10) name xs in
    if first then (elim (value_here name (x ∷ xs)) [ some v ↦ some v | none ↦ later ]) else later

abbrev pub header_value : List ℕ → List ℕ → Option (List ℕ)
header_value head name = header_from true name head

-- "%u" of a uint16_t, which has five digits at most
abbrev pub decimal : ℕ → ℕ → List ℕ
decimal zero n = []
decimal (suc k) n = if ltb n 10 then (48 + n) ∷ [] else decimal k (n / 10) ++ (48 + n % 10) ∷ []

abbrev pub crlf : List ℕ
crlf = 13 ∷ 10 ∷ []

-- "GET "
abbrev text_get : List ℕ
text_get = 71 ∷ 69 ∷ 84 ∷ 32 ∷ []

-- " HTTP/1.1" and "Host: "
abbrev text_host : List ℕ
text_host =
    32 ∷ 72 ∷ 84 ∷ 84 ∷ 80 ∷ 47 ∷ 49 ∷ 46 ∷ 49 ∷ 13 ∷ 10 ∷ 72 ∷ 111 ∷ 115 ∷ 116 ∷ 58 ∷ 32 ∷ []

-- "Upgrade: websocket", "Connection: Upgrade" and "Sec-WebSocket-Key: "
abbrev text_key : List ℕ
text_key =
    13 ∷ 10 ∷ 85 ∷ 112 ∷ 103 ∷ 114 ∷ 97 ∷ 100 ∷ 101 ∷ 58 ∷ 32 ∷ 119 ∷ 101 ∷ 98 ∷ 115 ∷ 111 ∷ 99
    ∷ 107 ∷ 101 ∷ 116 ∷ 13 ∷ 10 ∷ 67 ∷ 111 ∷ 110 ∷ 110 ∷ 101 ∷ 99 ∷ 116 ∷ 105 ∷ 111 ∷ 110 ∷ 58 ∷ 32
    ∷ 85 ∷ 112 ∷ 103 ∷ 114 ∷ 97 ∷ 100 ∷ 101 ∷ 13 ∷ 10 ∷ 83 ∷ 101 ∷ 99 ∷ 45 ∷ 87 ∷ 101 ∷ 98 ∷ 83
    ∷ 111 ∷ 99 ∷ 107 ∷ 101 ∷ 116 ∷ 45 ∷ 75 ∷ 101 ∷ 121 ∷ 58 ∷ 32 ∷ []

-- "Sec-WebSocket-Version: 13"
abbrev text_version : List ℕ
text_version =
    13 ∷ 10 ∷ 83 ∷ 101 ∷ 99 ∷ 45 ∷ 87 ∷ 101 ∷ 98 ∷ 83 ∷ 111 ∷ 99 ∷ 107 ∷ 101 ∷ 116 ∷ 45 ∷ 86 ∷ 101
    ∷ 114 ∷ 115 ∷ 105 ∷ 111 ∷ 110 ∷ 58 ∷ 32 ∷ 49 ∷ 51 ∷ 13 ∷ 10 ∷ 13 ∷ 10 ∷ []

abbrev pub upgrade_request : List ℕ → List ℕ → ℕ → List ℕ → List ℕ
upgrade_request path ipv4 port key =
    text_get ++ path ++ text_host ++ ipv4 ++ 58 ∷ decimal 5 port ++ text_key ++ key ++ text_version

module _ {S : Type 0} (port : Port S) where
  -- `key_of` and `accept_of` stand for nev_base64 and nev_ws_accept_for_key.
  unfoldable pub start :
      (List ℕ → List ℕ) → (List ℕ → List ℕ) → S → List ℕ → ℕ → List ℕ → Bool × Client S
  start key_of accept_of net0 ipv4 number path =
      let (valid, net) = port.connect net0 in
      let c : Client S = record {
        state = closed;
        live = valid;
        accept_expected = [];
        rx = [];
        pending_consume = 0;
        tx = [];
        tx_sent = 0;
        failed = false;
        fail_reason = none;
        net = net;
      } in
      if not valid
      then (false, record c { failed = true; fail_reason = some no_socket })
      else (let (nonce, net') = port.random net 16 in
          let key = key_of nonce in
          let c' = record c { accept_expected = accept_of key; net = net' } in
          let request = upgrade_request path ipv4 number key in
          if leb tx_cap (length request)
          then (false, fail port c' request_too_long)
          else (true, record c' { state = connecting; tx = request; tx_sent = 0 }))

  -- The response up to its end is `head`, and `head_len` counts the four bytes of the end.
  unfoldable pub accept_response : Client S → List ℕ → ℕ → Client S
  accept_response c head head_len =
      if not (starts_with status_101 head)
      then fail port c refused
      else (elim (header_value head accept_name) [
        | none ↦ fail port c no_accept
        | some value ↦
            if not (starts_with c.accept_expected value)
            then fail port c accept_mismatch
            else record c { rx = drop head_len c.rx; state = ready }
      ])

  unfoldable pub poll_upgrade : Client S → Client S
  poll_upgrade c0 =
      let (answer, net) = port.recv c0.net (rx_cap - length c0.rx - 1) in
      let c = record c0 { net = net } in
      elim answer [
        | none ↦ fail port c lost_upgrading
        | some [] ↦ c
        | some (b ∷ bs) ↦
            let c' = record c { rx = c.rx ++ (b ∷ bs) } in
            let text = c_string c'.rx in
            elim (find_from 0 crlf_crlf text) [
              | none ↦ if leb rx_cap (length c'.rx + 2) then fail port c' response_too_large else c'
              | some end ↦ accept_response c' (take end text) (end + 4)
            ]
      ]
