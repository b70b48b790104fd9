-- ===== src/FileTransfer/Send/Closing.antt =====
-- A sender's thread ends, and leaves no socket open.
use hyper_link.Base.{
  ℕ, ◌+◌, ◌≡◌, refl, sym, ap, subst, ◌∙◌, arith, false, ◌⊎◌, inl, inr, Option, none, some, List, [],
  ◌∷◌, Text, codes, Result, ok, err,
}
use hyper_link.Base.Program.{Program, ◌>>=◌, ◌>>◌, >>=-ok}
use hyper_link.AutoConfig.{default_options}
use hyper_link.Session.{
  PeerInfo, Session, open_session, destroy_session, discover, not_connected, require_connected,
  close, delete,
}
use hyper_link.Session
use hyper_link.Session.Protocol.{
  Request, discover_request, connect_request, send_request, close_request, perform, forget,
}
use hyper_link.Session.Keeps.{Holds, perform_keeps, destroy_session_lem}
use hyper_link.Tcp.{Sockets, TcpTransport, client, new_transport, tcp_transport}
use hyper_link.Tcp.Ledger.{
  Ledger, Accounts, Balanced, owns, counted, counted-Accounts, empty_ledger,
}
use hyper_link.Tcp.Ownership.{Owns}
use hyper_link.Tcp.Closing.{tcp_transport-KeepsAll, tcp_transport-destroy}
use hyper_link.FileTransfer.Args.{Options}
use hyper_link.FileTransfer.Streams.{StreamResult}
use hyper_link.FileTransfer.Connection.{
  connect_stream, connect_session, connect_first, start_session, or_destroy, no_session, no_peers,
  endpoint_for_stream,
}
use hyper_link.FileTransfer.Send.{
  Inputs, open_range, send_range, on_world, close_session, send_file_range, thread_result,
}
use hyper_link.FileTransfer.Send.Stays.{
  After, Leads, bind-Leads, then-Leads, open_range-Stays, send_range-Stays,
}

forget-some :
    {B S : Type 0} (o : Option (Result B × S)) (s : S)
    → forget o ≡ some s
    → (r : Result B) × (o ≡ some (r, s))
unfolding forget
forget-some none s e = absurd (ground arith)
forget-some (some (r, t)) s e = (r, ap (λ x. some (r, x)) (ground arith))

some_injective : {S : Type 0} {a b : S} → some a ≡ some b → a ≡ b
some_injective e = ground arith

module _ {A U : Type 0} (sockets : Sockets A U) (ledger : U → Ledger)
    (accounts : Accounts sockets ledger) where
  abbrev World : Type 0
  World = Session (TcpTransport × U) × (TcpTransport × U)

  abbrev On : (World → Type 0) → World × ℕ → Type 0
  On P s = P s.0

  -- No session and no open socket; a session over the TCP transport that owns all open sockets.
  abbrev Idle : World → Type 0
  Idle (session, (t, u)) = (session ≡ no_session) × Balanced (ledger u) (λ x. 0)

  abbrev Held : World → Type 0
  Held =
      Holds (Owns sockets ledger accounts) (tcp_transport sockets)
        (tcp_transport-KeepsAll sockets ledger accounts)

  abbrev Closable : World → Type 0
  Closable w = Idle w ⊎ Held w

  both_ways : {B : Type 0} (P : World → Type 0) (r : Result B) (w : World) → P w → After P P r w
  both_ways P (ok a) w h = h
  both_ways P (err error) w h = h

  -- What a client's request leads to.
  request-Leads :
      {B : Type 0} (request : Request) (m : Program (World) B)
      → ((w : World) → perform request w ≡ forget (m w))
      → Leads Held Held Held m
  request-Leads request m same w h =
      let (w', e, h') =
        perform_keeps (Owns sockets ledger accounts) (tcp_transport sockets)
          (tcp_transport-KeepsAll sockets ledger accounts) request w h in
      let (r, f) = forget-some (m w) w' (sym (same w) ∙ e) in (r, w', f, both_ways Held r w' h')

  destroyed : (w : World) → Held w → Balanced (ledger (destroy_session w).1) (λ x. 0)
  destroyed w h =
      destroy_session_lem (Owns sockets ledger accounts) (tcp_transport sockets)
        (tcp_transport-KeepsAll sockets ledger accounts) (λ (t, u). Balanced (ledger u) (λ x. 0)) w
        (λ v k. tcp_transport-destroy sockets ledger accounts v k) h

  or_destroy-Leads :
      {B : Type 0} (m : Program (World) B)
      → Leads Held Held Held m
      → Leads Held Held Idle (or_destroy m)
  unfolding or_destroy
  or_destroy-Leads {B = B} m leads w h = let (r, w', e, h') = leads w h in finish r w' e h'
    where
      finish :
          (r : Result B) (w' : World)
          → m w ≡ some (r, w')
          → After Held Held r w'
          → (q : Result B) × (t : World) × (or_destroy m w ≡ some (q, t)) × After Held Idle q t
      finish (ok a) w' e h' = (ok a, w', rw (or_destroy, e) refl, h')
      finish (err error) w' e h' = (
        err error,
        (no_session, destroy_session w'),
        rw (or_destroy, e) refl,
        (refl, destroyed w' h'),
      )

  connect_first-Leads : (peers : List PeerInfo) → Leads Held Held Held (connect_first peers)
  unfolding connect_first
  connect_first-Leads [] = λ w h. (err no_peers, w, refl, h)
  connect_first-Leads (peer ∷ peers) =
      request-Leads (connect_request peer default_options default_options (codes "hyperlink-file"))
        (connect_first (peer ∷ peers)) (λ w. unfold perform connect_first in refl)

  connect_stream-Leads :
      (options : Options) (stream : ℕ)
      → Leads Idle Held Idle (connect_stream sockets client options stream)
  unfolding connect_stream connect_session new_transport
  connect_stream-Leads options stream (session, (t, u)) (none_yet, closed) =
      let opened : Session (TcpTransport × U) = record {
        transport = some (tcp_transport sockets);
        connected = false;
      } in
      let start : World =
        (session, (new_transport client (endpoint_for_stream options stream), u)) in
      let held : Held (opened, start.1) = (refl, (closed.0, λ x. ground (arith, closed.1 x))) in
      let started : start_session (tcp_transport sockets) start ≡ some (ok tt, (opened, start.1)) =
        unfold start_session open_session in refl in
      let body = discover default_options >>= connect_first in
      let leads =
        bind-Leads Held Held Held Held (discover default_options) connect_first
          (request-Leads (discover_request default_options) (discover default_options)
            (λ w. unfold perform in refl))
          connect_first-Leads in
      let (r, w', e, h) = or_destroy-Leads body leads (opened, start.1) held in
      (
        r,
        w',
        >>=-ok (start_session (tcp_transport sockets)) (λ _. or_destroy body) start started ∙ e,
        h,
      )

  on_world-Leads :
      {B : Type 0} (I K D E : World → Type 0) (m : Program (World) B)
      → ((w : World) → D w → E w)
      → Leads I K D m
      → Leads (On I) (On K) (On E) (on_world m)
  on_world-Leads {B = B} I K D E m weaker leads (w, b) h =
      let (r, w', e, k) = leads w h in (r, (w', b), rw (e, on_world) refl, after r w' k)
    where
      after : (r : Result B) (w' : World) → After K D r w' → After (On K) (On E) r (w', b)
      after (ok a) w' k = k
      after (err error) w' k = weaker w' k

  weaken :
      {B : Type 0} (I K D E : World → Type 0) (m : Program (World) B)
      → ((w : World) → D w → E w)
      → Leads I K D m
      → Leads I K E m
  weaken {B = B} I K D E m weaker leads w h =
      let (r, w', e, k) = leads w h in (r, w', e, after r w' k)
    where
      after : (r : Result B) (w' : World) → After K D r w' → After K E r w'
      after (ok a) w' k = k
      after (err error) w' k = weaker w' k

  -- The calls that read files touch neither the session nor the sockets.
  abbrev pub Untouched : World → World → Type 0
  Untouched w w' = (w'.0 ≡ w.0) × (w'.1.0 ≡ w.1.0) × (ledger w'.1.1 ≡ ledger w.1.1)

  pub record Reads (inputs : Inputs World) : Type 0 where
    pub open_input_reads : (path : Text) (w : World) → Untouched w (inputs.open_input path w).1
    pub seek_reads : (path : Text) (n : ℕ) (w : World) → Untouched w (inputs.seek path n w).1
    pub read_reads : (path : Text) (p n : ℕ) (w : World) → Untouched w (inputs.read path p n w).1

  Untouched-Idle : (w w' : World) → Untouched w w' → Idle w → Idle w'
  Untouched-Idle w w' (e, f, g) (h, k) = (e ∙ h, subst (λ l. Balanced l (λ x. 0)) (sym g) k)

  Untouched-Held : (w w' : World) → Untouched w w' → Held w → Held w'
  Untouched-Held w w' (e, f, g) (h, k) = (
    ap (λ session. session.transport) e ∙ h,
    subst (λ t. Owns sockets ledger accounts (t, w'.1.1)) (sym f)
        (subst (λ l. Balanced l (λ x. owns w.1.0.data_socket x + owns w.1.0.listen_socket x))
          (sym g) k),
  )

  module _ (inputs : Inputs World) (reads : Reads inputs) where
    close_session-Leads : Leads (On Held) (On Held) (On Closable) (close_session sockets inputs)
    unfolding close_session
    close_session-Leads (w, b) h =
        let (w', e, h') =
          perform_keeps (Owns sockets ledger accounts) (tcp_transport sockets)
            (tcp_transport-KeepsAll sockets ledger accounts) close_request w h in
        let closed : some (Session.close w) ≡ some w' = unfold perform in e in
        (ok tt, (Session.close w, b), refl, subst Held (sym (some_injective closed)) h')

    send-Leads : (payload : Text) → Leads Held Held Closable (Session.send payload)
    send-Leads payload =
        weaken Held Held Held Closable (Session.send payload) (λ w h. inr h)
          (request-Leads (send_request payload) (Session.send payload)
            (λ w. unfold perform in refl))

    Idle-send : (payload : Text) → Leads Idle Idle Closable (Session.send payload)
    Idle-send payload (session, v) (e, k) =
        let refused : Session.send payload (no_session, v)
            ≡ some (err not_connected, (no_session, v)) =
          unfold Session.send require_connected in refl in
        (
          err not_connected,
          (no_session, v),
          ap (λ x. Session.send payload (x, v)) e ∙ refused,
          inl (refl, k),
        )

    opening :
        (path : Text) (offset : ℕ)
        → Leads (On Idle) (On Idle) (On Closable) (open_range inputs Session.send path offset)
    opening path offset =
        open_range-Stays Idle Closable (λ w h. inl h) inputs Session.send
          (λ p w h. Untouched-Idle w _ (reads.open_input_reads p w) h)
          (λ p n w h. Untouched-Idle w _ (reads.seek_reads p n w) h)
          (λ p q n w h. Untouched-Idle w _ (reads.read_reads p q n w) h) Idle-send path offset

    thread-Leads :
        (options : Options) (path name : Text) (total offset size stream : ℕ)
        → Leads (On Idle) (On Held) (On Closable) (
            open_range inputs Session.send path offset
            >> on_world (connect_stream sockets client options stream)
            >> send_range inputs Session.send options.parallel path name total offset size
            >> close_session sockets inputs)
    thread-Leads options path name total offset size stream =
        let first = open_range inputs Session.send path offset in
        let second = on_world (connect_stream sockets client options stream) in
        let third = send_range inputs Session.send options.parallel path name total offset size in
        then-Leads (On Idle) (On Held) (On Held) (On Closable) (first >> second >> third)
          (close_session sockets inputs)
          (then-Leads (On Idle) (On Held) (On Held) (On Closable) (first >> second) third
            (then-Leads (On Idle) (On Idle) (On Held) (On Closable) first second
              (opening path offset)
              (on_world-Leads Idle Held Idle Closable (connect_stream sockets client options stream)
                (λ w h. inl h) (connect_stream-Leads options stream)))
            (send_range-Stays Held Closable (λ w h. inr h) inputs Session.send
              (λ p w h. Untouched-Held w _ (reads.open_input_reads p w) h)
              (λ p n w h. Untouched-Held w _ (reads.seek_reads p n w) h)
              (λ p q n w h. Untouched-Held w _ (reads.read_reads p q n w) h) send-Leads
              options.parallel path name total offset size))
          close_session-Leads

    -- The end of a thread, whatever it ends with.
    Closed : Option (StreamResult × World) → Type 0
    Closed outcome =
        (result : StreamResult) × (t : TcpTransport) × (u : U) × (outcome
          ≡ some (result, (no_session, (t, u))))
        × Balanced (ledger u) (λ x. 0)

    Closable-end : (w : World) → Closable w → Balanced (ledger (destroy_session w).1) (λ x. 0)
    Closable-end (session, v) (inl (e, k)) =
        subst (λ x. Balanced (ledger (destroy_session (x, v)).1) (λ x. 0)) (sym e)
          (unfold destroy_session close delete in k)
    Closable-end w (inr h) = destroyed w h

    thread_result-Closed :
        (r : Result (Unit {0})) (s : World × ℕ)
        → After (On Held) (On Closable) r s
        → Closed (thread_result (some (r, s)))
    unfolding thread_result Closed
    thread_result-Closed (ok a) (w, b) h = (_, _, _, refl, destroyed w h)
    thread_result-Closed (err error) (w, b) h = (_, _, _, refl, Closable-end w h)

    send_file_range-Closed :
        (options : Options) (path name : Text) (total offset size stream : ℕ) (t : TcpTransport)
        (u : U)
        → Balanced (ledger u) (λ x. 0)
        → Closed (
            send_file_range sockets inputs options path name total offset size stream
              (no_session, (t, u)))
    unfolding send_file_range
    send_file_range-Closed options path name total offset size stream t u h =
        let (r, s, e, h') =
          thread-Leads options path name total offset size stream ((no_session, (t, u)), 0)
            (refl, h) in
        subst Closed (sym (ap thread_result e)) (thread_result-Closed r s h')

-- For calls that read files and touch neither sessions nor sockets, and whatever the calls of sockets and
-- files return: a sender's thread that starts with no socket open ends with a result, in which it may report an exception, and
-- every socket that it opened is closed again, once.
pub sender_closes :
    {A W : Type 0} (s : Sockets A W)
    (inputs : Inputs (Session (TcpTransport × (W × Ledger)) × (TcpTransport × (W × Ledger))))
    (options : Options) (path name : Text) (total offset size stream : ℕ) (t : TcpTransport) (w : W)
    → Reads (counted s) (λ (v, l). l) (counted-Accounts s) inputs
    → (result : StreamResult) × (t' : TcpTransport) × (u : W × Ledger) × (send_file_range
          (counted s)
          inputs
          options
          path
          name
          total
          offset
          size
          stream
          (no_session, (t, (w, empty_ledger)))
        ≡ some (result, (no_session, (t', u))))
      × Balanced u.1 (λ x. 0)
unfolding Closed
sender_closes s inputs options path name total offset size stream t w reads =
    send_file_range-Closed (counted s) (λ (v, l). l) (counted-Accounts s) inputs reads options path
      name total offset size stream t (w, empty_ledger) (refl, λ x. refl)
