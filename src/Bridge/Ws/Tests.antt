-- ===== src/Bridge/Ws/Tests.antt =====
-- Frames and connections on concrete inputs.
use nev_os.Base.{
  ◌∙◌, ◌-◌, ℕ, zero, suc, ◌+◌, ◌≡◌, refl, ap, true, some, List, [], ◌∷◌, ◌++◌, length, take,
  replicate, length-take, arith,
}
use nev_os.Bridge.Ws.Frame.{read_length, op_bin, frame, frame_read, frame_write}
use nev_os.Bridge.Ws.Client.{conn_ready, Port, Client, flush_rounds, flush_tx}
use nev_os.Bridge.Ws.Upgrade.{
  accept_response, upgrade_request, poll_upgrade, crlf_crlf, accept_name, crlf, status_101, start,
}
use nev_os.Bridge.Ws.Poll.{
  Event, poll_open, poll_flushed, poll_connected, poll_connecting, poll_in, opened, message, poll,
  take_frames,
}
use nev_os.Bridge.Ws.Wire.{server_frame, answer, frame_read-stream}
use nev_os.Bridge.Ws.Canonical.{IsFrame, frame_read-IsFrame}
use nev_os.Bridge.Ws.Masking.{server_read, frame_write_exact}
use nev_os.Bridge.Ws.Traffic.{IsPort}
use nev_os.Bridge.Ws.Invariant.{IsClient}
use nev_os.Bridge.Ws.History.{polled, sends, closes, run, run-IsClient}
use nev_os.Bridge.Ws.Rounds.{rounds_enough}

abbrev hi : List ℕ
hi = 104 ∷ 105 ∷ []

frame_read-stream_example :
    frame_read (take 3 (server_frame op_bin hi ++ 9 ∷ [])) ≡ answer op_bin 2 2 3
frame_read-stream_example =
    frame_read-stream op_bin hi (9 ∷ []) 3 (omega arith) (omega arith) (omega arith)

hi_read : frame_read (130 ∷ 2 ∷ 104 ∷ 105 ∷ 9 ∷ []) ≡ frame op_bin 2 2 4
unfolding frame_read read_length
hi_read = refl

frame_read-IsFrame_example : IsFrame (130 ∷ 2 ∷ 104 ∷ 105 ∷ 9 ∷ []) op_bin 2 2 4
frame_read-IsFrame_example =
    frame_read-IsFrame (130 ∷ 2 ∷ 104 ∷ 105 ∷ 9 ∷ []) op_bin 2 2 4 (ground arith) hi_read

frame_write_exact_example :
    (bytes : List ℕ) × (frame_write 8 op_bin hi (1 ∷ 2 ∷ 3 ∷ 4 ∷ []) ≡ some bytes)
    × (length bytes ≡ 8)
    × (server_read bytes ≡ some (op_bin, hi))
frame_write_exact_example =
    (frame_write_exact 8 op_bin hi (1 ∷ 2 ∷ 3 ∷ 4 ∷ []) (omega arith) refl (ground arith)
        (ground arith) (omega arith)).0
      (omega arith)

-- A socket that takes three bytes at most, with the chunks that arrive.
record Loop : Type 0 where
  out : List ℕ
  inbox : List (List ℕ)

abbrev next : List (List ℕ) → List ℕ
next [] = []
next (x ∷ xs) = x

abbrev later : List (List ℕ) → List (List ℕ)
later [] = []
later (x ∷ xs) = xs

abbrev loop : Port Loop
loop = record {
  connect = λ s. (true, s);
  connect_poll = λ s. (conn_ready, s);
  send = λ s xs. (some (length (take 3 xs)), record s { out = s.out ++ take 3 xs });
  recv = λ s n. (some (take n (next s.inbox)), record s { inbox = later s.inbox });
  hang_up = λ s. s;
  random = λ s n. (replicate n 7, s);
}

take-of : (n : ℕ) (xs : List ℕ) → take n xs ≡ take (length (take n xs)) xs
take-of zero xs = refl
take-of (suc n) [] = refl
take-of (suc n) (x ∷ xs) = ap (λ l. x ∷ l) (take-of n xs)

loop-IsPort : IsPort loop (λ s. s.out)
loop-IsPort = record {
  send_some = λ s xs n e.
      let is : length (take 3 xs) ≡ n = ground (arith, e) in
      (
        omega (arith, is, length-take 3 xs),
        ap (λ l. s.out ++ l) (take-of 3 xs ∙ ap (λ k. take k xs) is),
      );
  send_none = λ s xs e. absurd (ground (arith, e));
  recv_some = λ s n xs e.
      let is : take n (next s.inbox) ≡ xs = ground (arith, e) in
      omega (arith, ap length is, length-take n (next s.inbox));
  recv_sent = λ s n. refl;
  connect_sent = λ s. refl;
  connect_poll_sent = λ s. refl;
  hang_up_sent = λ s. refl;
  random_sent = λ s n. refl;
}

-- The socket before any call: the answer to the upgrade, and a message right behind it.
abbrev net : Loop
net = record {
  out = [];
  inbox = (status_101 ++ crlf ++ accept_name ++ 58 ∷ 65 ∷ 66 ∷ crlf_crlf ++ 130 ∷ 2 ∷ hi) ∷ [];
}

abbrev first : Client Loop
first = (start loop (λ n. hi) (λ k. 65 ∷ 66 ∷ []) net hi 4821 (47 ∷ [])).1

run-IsClient_example :
    IsClient loop
      (λ s. s.out)
      loop-IsPort
      (upgrade_request (47 ∷ []) hi 4821 hi)
      (run loop first (polled ∷ polled ∷ sends hi ∷ closes ∷ []))
run-IsClient_example =
    run-IsClient loop (λ s. s.out) loop-IsPort (λ n. hi) (λ k. 65 ∷ 66 ∷ []) net hi 4821 (47 ∷ [])
      (polled ∷ polled ∷ sends hi ∷ closes ∷ []) refl

-- The handshake and the message.
first-poll : (poll loop first).0 ≡ opened
unfolding start poll_in poll_connecting poll_connected flush_tx flush_rounds poll_flushed
    poll_upgrade accept_response
first-poll = refl

second-poll : (poll loop (poll loop first).1).0 ≡ message hi
unfolding start poll_in poll_connecting poll_connected flush_tx flush_rounds poll_flushed
    poll_upgrade accept_response poll_open take_frames frame_read read_length
second-poll = refl

rounds_enough_example :
    ((r : Event × Client Loop) × ((extra : ℕ)
        → take_frames loop (suc (length first.rx) + extra) first ≡ some r))
    × ((extra : ℕ)
        → flush_rounds loop (suc (length first.tx - first.tx_sent) + extra) first
          ≡ some (flush_tx loop first))
rounds_enough_example = rounds_enough loop first
