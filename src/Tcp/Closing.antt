-- ===== src/Tcp/Closing.antt =====
-- Sessions over TCP leave no socket open.
use hyper_link.Base.{
  ℕ, zero, suc, ◌+◌, ◌≡◌, refl, ◌∙◌, arith, Option, none, some, Option-cases, inl, inr, List, [],
  ◌∷◌, Text, codes, length, take, drop, min, Result, ok, err, ◌≤◌, length-drop, length-drop,
}
use hyper_link.Session.{Session, open_session, destroy_session}
use hyper_link.Session.Protocol.{Request, run}
use hyper_link.Session.Keeps.{KeepsAll, run-Holds, destroy_session_lem}
use hyper_link.Tcp.{
  Sockets, TcpEndpoint, TcpTransport, TcpMode, send_loop, send_over, send, receive_over,
  receive_into, receive, keep_transport, close, destroy, connect, discover, tcp_transport,
  new_transport, send_chunk_bytes, tcp_not_connected, failed,
}
use hyper_link.Tcp.Ledger.{
  Ledger, Accounts, Balanced, owns, reset-Balanced, empty_ledger, counted, counted-Accounts,
}
use hyper_link.Tcp.Ownership.{keep-Balanced, Owns, connect_as-Owns}

module _ {A V : Type 0} (s : Sockets A V) (ledger : V → Ledger) (accounts : Accounts s ledger) where
  -- The result, and a ledger that is as it was.
  abbrev Leaves : {B : Type 0} → Option (Result B × V) → V → Type 0
  Leaves {B = B} outcome v =
      (r : Result B) × (v' : V) × (outcome ≡ some (r, v')) × (ledger v' ≡ ledger v)

  send_loop-Leaves :
      (fuel d : ℕ) (payload : Text) (sent : ℕ) (v : V)
      → length payload ≤ fuel
      → Leaves (send_loop s fuel d payload sent v) v
  unfolding send_loop
  send_loop-Leaves fuel d [] sent v h = (ok sent, v, refl, refl)
  send_loop-Leaves zero d (c ∷ rest) sent v h = absurd (ground (arith, h))
  send_loop-Leaves (suc fuel) d (c ∷ rest) sent v h =
      let chunk = take (min (length (c ∷ rest)) send_chunk_bytes) (c ∷ rest) in
      let v₁ = (s.send d chunk v).1 in
      let kept = accounts.send_keeps d chunk v in
      elim (Option-cases (s.send d chunk v).0) [
        | inl r ↦ (err (failed s (codes "send failed: ") v₁), v₁, rw (send_loop, r) refl, kept)
        | inr (zero, r) ↦
            (err (failed s (codes "send failed: ") v₁), v₁, rw (send_loop, r) refl, kept)
        | inr (suc n, r) ↦
            let shorter : length (drop n rest) ≤ fuel = omega (arith, length-drop n rest, h) in
            let (result, v', e, kept') =
              send_loop-Leaves fuel d (drop n rest) (sent + suc n) v₁ shorter in
            (result, v', rw (send_loop, r) e, kept' ∙ kept)
      ]

  send_over-Leaves :
      (handle : Option ℕ) (payload : Text) (v : V) → Leaves (send_over s handle payload v) v
  unfolding send_over
  send_over-Leaves none payload v = (err tcp_not_connected, v, refl, refl)
  send_over-Leaves (some d) payload v =
      send_loop-Leaves (length payload) d payload 0 v (omega arith)

  receive_over-Leaves :
      (handle : Option ℕ) (size : ℕ) (v : V) → Leaves (receive_over s handle size v) v
  unfolding receive_over
  receive_over-Leaves none size v = (err tcp_not_connected, v, refl, refl)
  receive_over-Leaves (some d) size v =
      let v₁ = (s.recv d size v).1 in
      elim (Option-cases (s.recv d size v).0) [
        | inl r ↦ (
          err (failed s (codes "receive failed: ") v₁),
          v₁,
          rw (receive_over, r) refl,
          accounts.recv_keeps d size v,
        )
        | inr (received, r) ↦
            (ok received, v₁, rw (receive_over, r) refl, accounts.recv_keeps d size v)
      ]

  keep_transport-Owns :
      {B : Type 0} (t : TcpTransport) (v : V) (outcome : Option (Result B × V))
      → Leaves outcome v
      → Owns s ledger accounts (t, v)
      → (r : Result B) × (state : TcpTransport × V) × (keep_transport s t outcome ≡ some (r, state))
        × Owns s ledger accounts state
  unfolding keep_transport
  keep_transport-Owns t v outcome (r, v', e, kept) h =
      (r, (t, v'), rw (keep_transport, e) refl, keep-Balanced _ kept h)

  close-Owns :
      (state : TcpTransport × V)
      → Owns s ledger accounts state
      → Owns s ledger accounts (close s state)
  unfolding close
  close-Owns (t, v) h =
      let (f, g) =
        reset-Balanced s ledger accounts t.listen_socket _ (λ x. 0)
          (let (f, g) = reset-Balanced s ledger accounts t.data_socket v (owns t.listen_socket) h in
            (f, λ x. ground (arith, g x))) in
      (f, λ x. ground (arith, g x))

  pub tcp_transport-KeepsAll : KeepsAll (Owns s ledger accounts) (tcp_transport s)
  unfolding tcp_transport discover connect send receive_into receive
  tcp_transport-KeepsAll = record {
    discovers = λ options (t, v) h. (_, (t, v), refl, h);
    connects =
        λ peer config (t, v) h. (_, _, refl, connect_as-Owns s ledger accounts t.mode (t, v) h);
    sends =
        λ payload (t, v) h. keep_transport-Owns t v _ (send_over-Leaves t.data_socket payload v) h;
    receives = λ n (t, v) h. keep_transport-Owns t v _ (receive_over-Leaves t.data_socket n v) h;
    receives_into =
        λ n (t, v) h. keep_transport-Owns t v _ (receive_over-Leaves t.data_socket n v) h;
    closes = close-Owns;
  }

  -- The destructor closes in the other order, and leaves nothing open.
  destroy-Balanced :
      (state : TcpTransport × V)
      → Owns s ledger accounts state
      → Balanced (ledger (destroy s state).1) (λ x. 0)
  unfolding destroy
  destroy-Balanced (t, v) (f, h) =
      let (f', g) =
        reset-Balanced s ledger accounts t.listen_socket v (owns t.data_socket)
          (f, λ x. ground (arith, h x)) in
      reset-Balanced s ledger accounts t.data_socket _ (λ x. 0) (f', λ x. ground (arith, g x))

  pub tcp_transport-destroy :
      (state : TcpTransport × V)
      → Owns s ledger accounts state
      → Balanced (ledger ((tcp_transport s).destroy state).1) (λ x. 0)
  unfolding tcp_transport
  tcp_transport-destroy state h = destroy-Balanced state h

-- Whatever a client asks of a session over a new TCP transport, and whatever the calls of the system
-- return: the requests end, and when the session is destroyed behind them, every descriptor that was opened
-- has been closed as often as it was opened, and none was closed that was not open.
pub tcp_sessions_close :
    {A W : Type 0} (s : Sockets A W) (mode : TcpMode) (endpoint : TcpEndpoint)
    (session : Session (TcpTransport × (W × Ledger))) (w : W) (requests : List Request)
    → open_session (some (tcp_transport (counted s))) ≡ ok session
    → (state : Session (TcpTransport × (W × Ledger)) × (TcpTransport × (W × Ledger))) × (run
          requests
          (session, (new_transport mode endpoint, (w, empty_ledger)))
        ≡ some state)
      × Balanced (destroy_session state).1.1 (λ x. 0)
unfolding open_session new_transport
tcp_sessions_close {W = W} s mode endpoint session w requests opened =
    let ledger : W × Ledger → Ledger = λ (w, l). l in
    let accounts = counted-Accounts s in
    let keeps = tcp_transport-KeepsAll (counted s) ledger accounts in
    let (state, e, h) =
      run-Holds (Owns (counted s) ledger accounts) (tcp_transport (counted s)) keeps requests
        (session, (new_transport mode endpoint, (w, empty_ledger)))
        (ground arith, (refl, λ x. refl)) in
    (
      state,
      e,
      destroy_session_lem (Owns (counted s) ledger accounts) (tcp_transport (counted s)) keeps
          (λ (t, v). Balanced (ledger v) (λ x. 0)) state
          (λ w h. tcp_transport-destroy (counted s) ledger accounts w h) h,
    )
