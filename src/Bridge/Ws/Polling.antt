-- ===== src/Bridge/Ws/Polling.antt =====
-- A poll keeps what holds of a client, whatever the socket answers.
use nev_os.Base.{
  c_string, subst, inr, ◌⊎◌, inl, ℕ, ◌+◌, ◌-◌, ◌≡◌, refl, true, not, List, [], ◌∷◌, ◌++◌, length,
  take, drop, arith, leb, ◌==◌, Option-cases, if_elim, length-append, length-drop,
}
use nev_os.Bridge.Ws.Frame.{rx_cap}
use nev_os.Bridge.Ws.Client.{
  unreachable, dropped_sending, State, closed, connecting, upgrading, ready, Conn, conn_pending,
  conn_ready, conn_failed, Port, Client, fail, flush_tx, lost_upgrading, response_too_large,
  refused, no_accept, accept_mismatch,
}
use nev_os.Bridge.Ws.Upgrade.{
  accept_name, header_value, status_101, crlf_crlf, starts_with, find_from, poll_upgrade,
  accept_response,
}
use nev_os.Bridge.Ws.Poll.{
  upgraded, poll_flushed, poll_connecting, poll_in, nothing, ending, Event, poll_connected, poll,
}
use nev_os.Bridge.Ws.Traffic.{IsPort}
use nev_os.Bridge.Ws.Invariant.{IsClient, fail-IsClient, flush_tx-IsClient, flush_tx-Kept, Kept}
use nev_os.Bridge.Ws.Taking.{rebuffered, ending-Good, poll_open-Good}

module _ {S : Type 0} (port : Port S) (sent : S → List ℕ) (law : IsPort port sent)
    (request : List ℕ) where
  abbrev Good : Client S → Type 0
  Good = IsClient port sent law request

  upgraded_same : (c : Client S) → c ≡ (upgraded port c).1
  upgraded_same c = ground arith

  accept_response-Good :
      (c : Client S) (head : List ℕ) (n : ℕ)
      → Good c
      → c.state ≡ upgrading
      → Good (accept_response port c head n)
  unfolding accept_response
  accept_response-Good c head n h e =
      let d : Client S = record c { rx = drop n c.rx; state = ready } in
      let open_d : Good d =
        rebuffered port sent law request c d refl refl refl
          (ground (arith, h.0, e, length-drop n c.rx)) h in
      if_elim Good (not (starts_with status_101 head)) (fail port c refused) _
        (λ no. fail-IsClient port sent law request c refused h)
        (λ yes. elim (Option-cases (header_value head accept_name)) [
          | inl k ↦ rw k (fail-IsClient port sent law request c no_accept h)
          | inr (value, k) ↦ rw k (
              if_elim Good (not (starts_with c.accept_expected value)) (fail port c accept_mismatch)
                d (λ no. fail-IsClient port sent law request c accept_mismatch h) (λ yes. open_d))
        ])

  poll_upgrade-Good : (c : Client S) → Good c → c.state ≡ upgrading → Good (poll_upgrade port c)
  unfolding poll_upgrade
  poll_upgrade-Good c0 h e =
      let r = port.recv c0.net (rx_cap - length c0.rx - 1) in
      let c : Client S = record c0 { net = r.1 } in
      let g : Good c =
        rebuffered port sent law request c0 c (law.recv_sent c0.net (rx_cap - length c0.rx - 1))
          refl refl (ground (arith, h.0)) h in
      elim (Option-cases r.0) [
        | inl k ↦ rw (poll_upgrade, k) (fail-IsClient port sent law request c lost_upgrading g)
        | inr ([], k) ↦ rw (poll_upgrade, k) g
        | inr (b ∷ bs, k) ↦
            let d : Client S = record c { rx = c.rx ++ (b ∷ bs) } in
            let fits = law.recv_some c0.net (rx_cap - length c0.rx - 1) (b ∷ bs) k in
            let gd : Good d =
              rebuffered port sent law request c d refl refl refl
                (ground (arith, g.0, fits, length-append c.rx (b ∷ bs))) g in
            elim (Option-cases (find_from 0 crlf_crlf (c_string d.rx))) [
              | inl q ↦
                  rw (poll_upgrade, k)
                    (rw q (
                      if_elim Good (leb rx_cap (length d.rx + 2)) (fail port d response_too_large) d
                        (λ big. fail-IsClient port sent law request d response_too_large gd)
                        (λ small. gd)))
              | inr (end, q) ↦
                  rw (poll_upgrade, k)
                    (rw q (accept_response-Good d (take end (c_string d.rx)) (end + 4) gd e))
            ]
      ]

  poll_flushed-Good :
      (c : Client S) (s : State)
      → Good c
      → c.state ≡ s
      → (s ≡ upgrading) ⊎ (s ≡ ready)
      → Good (poll_flushed port c s).1
  unfolding poll_flushed
  poll_flushed-Good c upgrading h e which =
      let d : Client S = poll_upgrade port c in
      let g : Good d = poll_upgrade-Good c h e in
      if_elim (λ (r : Event × Client S). Good r.1) (not (length c.tx == 0)) (nothing, c)
        (upgraded port d) (λ waiting. h) (λ out. subst Good (upgraded_same d) g)
  poll_flushed-Good c ready h e which = poll_open-Good port sent law request c h e
  poll_flushed-Good c closed h e which = absurd (ground (arith, which))
  poll_flushed-Good c connecting h e which = absurd (ground (arith, which))

  poll_connected-Good :
      (c : Client S)
      → Good c
      → (c.state ≡ upgrading) ⊎ (c.state ≡ ready)
      → Good (poll_connected port c).1
  unfolding poll_connected
  poll_connected-Good c h e =
      let alive : c.live ≡ true = ground (arith, h.0, e) in
      let d : Client S = (flush_tx port c).1 in
      let g : Good d = flush_tx-IsClient port sent law request c h alive in
      let k : Kept c d = flush_tx-Kept port sent law request c h in
      if_elim (λ (r : Event × Client S). Good r.1) (not (flush_tx port c).0)
        (ending port d dropped_sending) _
        (λ dead. ending-Good port sent law request d dropped_sending g)
        (λ up. poll_flushed-Good d d.state g refl (ground (arith, k.same_state, e)))

  poll_connecting-Good :
      (c : Client S) (answer : Conn)
      → Good c
      → c.state ≡ connecting
      → Good (poll_connecting port c answer).1
  unfolding poll_connecting
  poll_connecting-Good c conn_pending h e = h
  poll_connecting-Good c conn_failed h e = ending-Good port sent law request c unreachable h
  poll_connecting-Good c conn_ready h e =
      let d : Client S = record c { state = upgrading } in
      poll_connected-Good d
        (rebuffered port sent law request c d refl refl refl (ground (arith, h.0, e)) h) (inl refl)

  poll_in-Good : (c : Client S) (s : State) → Good c → c.state ≡ s → Good (poll_in port c s).1
  unfolding poll_in
  poll_in-Good c closed h e = h
  poll_in-Good c connecting h e =
      let r = port.connect_poll c.net in
      let d : Client S = record c { net = r.1 } in
      poll_connecting-Good d r.0
        (rebuffered port sent law request c d (law.connect_poll_sent c.net) refl refl
          (ground (arith, h.0)) h)
        e
  poll_in-Good c upgrading h e = poll_connected-Good c h (inl e)
  poll_in-Good c ready h e = poll_connected-Good c h (inr e)

  pub poll-Good : (c : Client S) → Good c → Good (poll port c).1
  poll-Good c h = poll_in-Good c c.state h refl
