-- ===== src/Bridge/Ws/History.antt =====
-- A client over a whole history of calls, from nev_ws_open on.
use nev_os.Base.{
  some, none, ℕ, ◌≡◌, refl, sym, ◌∙◌, subst, Bool, true, false, not, List, [], ◌∷◌, ◌++◌, length,
  leb, if_elim, arith,
}
use nev_os.Bridge.Ws.Frame.{tx_cap}
use nev_os.Bridge.Ws.Client.{
  hang_up, no_socket, closed, connecting, Port, Client, send, close, fail, request_too_long,
}
use nev_os.Bridge.Ws.Upgrade.{start, upgrade_request}
use nev_os.Bridge.Ws.Poll.{poll}
use nev_os.Bridge.Ws.Traffic.{owed, IsPort, Stream, asked}
use nev_os.Bridge.Ws.Invariant.{IsStreamed, IsClient, send-IsClient, close-IsClient}
use nev_os.Bridge.Ws.Polling.{poll-Good}

pub data Call : Type 0 where
  polled : Call
  sends : List ℕ → Call
  closes : Call

module _ {S : Type 0} (port : Port S) where
  unfoldable pub step : Client S → Call → Client S
  step c polled = (poll port c).1
  step c (sends payload) = (send port c payload).1
  step c closes = close port c

  unfoldable pub run : Client S → List Call → Client S
  run c [] = c
  run c (call ∷ calls) = run (step c call) calls

module _ {S : Type 0} (port : Port S) (sent : S → List ℕ) (law : IsPort port sent) where
  step-IsClient :
      (request : List ℕ) (c : Client S) (call : Call)
      → IsClient port sent law request c
      → IsClient port sent law request (step port c call)
  unfolding step
  step-IsClient request c polled h = poll-Good port sent law request c h
  step-IsClient request c (sends payload) h = send-IsClient port sent law request c payload h
  step-IsClient request c closes h = close-IsClient port sent law request c h

  run_from-IsClient :
      (request : List ℕ) (calls : List Call) (c : Client S)
      → IsClient port sent law request c
      → IsClient port sent law request (run port c calls)
  unfolding run
  run_from-IsClient request [] c h = h
  run_from-IsClient request (call ∷ calls) c h =
      run_from-IsClient request calls (step port c call) (step-IsClient request c call h)

  module _ (key_of accept_of : List ℕ → List ℕ) (net : S) (ipv4 : List ℕ) (number : ℕ)
      (path : List ℕ) where
    abbrev key : List ℕ
    key = key_of (port.random (port.connect net).1 16).0

    abbrev request : List ℕ
    request = upgrade_request path ipv4 number key

    fresh :
        (c : Client S)
        → sent c.net ≡ []
        → (c.live ≡ true → request ≡ owed c)
        → IsStreamed port sent law request c
    fresh c e f = (request, subst (λ l. Stream request (l ++ request)) (sym e) asked, f)

    start-IsClient :
        sent net ≡ []
        → IsClient port sent law request (start port key_of accept_of net ipv4 number path).1
    unfolding start fail hang_up
    start-IsClient e =
        let a = port.connect net in
        let b = port.random a.1 16 in
        let silent_a : sent a.1 ≡ [] = law.connect_sent net ∙ e in
        let silent : sent b.1 ≡ [] = law.random_sent a.1 16 ∙ silent_a in
        let c : Client S = record {
          state = closed;
          live = a.0;
          accept_expected = [];
          rx = [];
          pending_consume = 0;
          tx = [];
          tx_sent = 0;
          failed = false;
          fail_reason = none;
          net = a.1;
        } in
        let c' : Client S = record c { accept_expected = accept_of key; net = b.1 } in
        if_elim (λ (r : Bool × Client S). IsClient port sent law request r.1) (not a.0)
          (false, record c { failed = true; fail_reason = some no_socket }) _
          (λ no. (
            ground (arith, no),
            fresh (record c { failed = true; fail_reason = some no_socket }) silent_a
                (λ l. absurd (ground (arith, no, l))),
          ))
          (λ yes.
            if_elim (λ (r : Bool × Client S). IsClient port sent law request r.1)
              (leb tx_cap (length request)) (false, fail port c' request_too_long)
              (true, record c' { state = connecting; tx = request; tx_sent = 0 })
              (λ long. (
                ground (arith, yes),
                fresh (fail port c' request_too_long)
                    (ground (arith, yes, law.hang_up_sent b.1, silent))
                    (λ l. absurd (ground (arith, yes, l))),
              ))
              (λ fits. (
                ground (arith, yes, fits),
                fresh (record c' { state = connecting; tx = request; tx_sent = 0 }) silent
                    (λ l. refl),
              )))

    -- Over every history of polls, sends and closes after nev_ws_open, what was read never passes the
    -- buffer's end, a message that was handed out lies inside of it, a failed client is closed, a closed
    -- one has let its socket go, and the socket got the upgrade request and whole frames in order, of
    -- which a live client still owes exactly the rest in its buffer. Condition: the socket was unused.
    pub run-IsClient :
        (calls : List Call)
        → sent net ≡ []
        → IsClient port sent law request
            (run port (start port key_of accept_of net ipv4 number path).1 calls)
    run-IsClient calls e = run_from-IsClient request calls _ (start-IsClient e)
