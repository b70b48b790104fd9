-- ===== src/Session/Keeps.antt =====
-- An invariant of a transport is one of every session over it.
use hyper_link.Base.{
  ℕ, ◌≡◌, refl, sym, ap, subst, Bool, true, false, Option, some, List, [], ◌∷◌, Text, Result, ok,
  err, Result-cases, inl, inr,
}
use hyper_link.Base.Program.{Program, ◌>>◌}
use hyper_link.AutoConfig.{AutoConfigOptions, NegotiatedConfig, negotiate, require_valid}
use hyper_link.Session.{
  PeerInfo, Transport, Session, call, require_connected, mark_connected, discover, connect, send,
  receive, receive_into, close, delete, destroy_session,
}
use hyper_link.Session.Protocol.{
  Request, discover_request, connect_request, send_request, receive_request, receive_into_request,
  close_request, perform, run, forget,
}

module _ {W : Type 0} (Invariant : W → Type 0) where
  -- The program returns, and keeps the invariant.
  abbrev pub Keeps : {A : Type 0} → Program W A → Type 0
  Keeps {A = A} m =
      (w : W) → Invariant w → (r : Result A) × (w' : W) × (m w ≡ some (r, w')) × Invariant w'

  -- All calls of the transport do.
  pub record KeepsAll (transport : Transport W) : Type 0 where
    pub discovers : (options : AutoConfigOptions) → Keeps (transport.discover options)
    pub connects :
        (peer : PeerInfo) (config : NegotiatedConfig) → Keeps (transport.connect peer config)
    pub sends : (payload : Text) → Keeps (transport.send payload)
    pub receives : (max_bytes : ℕ) → Keeps (transport.receive max_bytes)
    pub receives_into : (size : ℕ) → Keeps (transport.receive_into size)
    pub closes : (w : W) → Invariant w → Invariant (transport.close w)

  module _ (transport : Transport W) (keeps : KeepsAll transport) where
    abbrev pub Holds : Session W × W → Type 0
    Holds (session, w) = (session.transport ≡ some transport) × Invariant w

    abbrev Ends : Option (Session W × W) → Type 0
    Ends outcome = (s : Session W × W) × (outcome ≡ some s) × Holds s

    over : Bool → Session W
    over c = record { transport = some transport; connected = c }

    discover-Holds :
        (options : AutoConfigOptions) (c : Bool) (w : W)
        → Invariant w
        → Ends (forget (discover options (over c, w)))
    unfolding over forget discover call
    discover-Holds options c w h = elim (Result-cases (require_valid [] options)) [
      | inr (error, e) ↦ ((over c, w), rw (forget, e) refl, (refl, h))
      | inl (a, e) ↦
          let (r, w', f, h') = keeps.discovers options w h in
          ((over c, w'), rw (forget, e, call, f) refl, (refl, h'))
    ]

    connected-Holds :
        (c : Bool) (w : W) (m : Program W (Unit {0})) (r : Result (Unit {0})) (w' : W)
        → m w ≡ some (r, w')
        → Invariant w'
        → Ends (forget ((call (λ t. m) >> mark_connected) (over c, w)))
    unfolding over forget call mark_connected
    connected-Holds c w m (err error) w' f h = ((over c, w'), rw (forget, call, f) refl, (refl, h))
    connected-Holds c w m (ok a) w' f h = ((over true, w'), rw (forget, call, f) refl, (refl, h))

    connect-Holds :
        (peer : PeerInfo) (local_options peer_options : AutoConfigOptions) (name : Text) (c : Bool)
        (w : W)
        → Invariant w
        → Ends (forget (connect peer local_options peer_options name (over c, w)))
    unfolding over forget connect call mark_connected
    connect-Holds peer local_options peer_options name c w h =
        elim (Result-cases (negotiate local_options peer_options name)) [
          | inr (error, e) ↦ ((over c, w), rw (forget, e) refl, (refl, h))
          | inl (config, e) ↦
              let (r, w', f, h') = keeps.connects peer config w h in
              rw (forget, e) (connected-Holds c w (transport.connect peer config) r w' f h')
        ]

    data-Holds :
        {A : Type 0} (operation : Transport W → Program W A) (c : Bool) (w : W)
        → Keeps (operation transport)
        → Invariant w
        → Ends (forget ((require_connected >> call operation) (over c, w)))
    unfolding over forget require_connected call
    data-Holds operation false w k h = ((over false, w), refl, (refl, h))
    data-Holds operation true w k h =
        let (r, w', f, h') = k w h in ((over true, w'), rw (forget, call, f) refl, (refl, h'))

    close-Holds : (c : Bool) (w : W) → Invariant w → Holds (close (over c, w))
    unfolding over close
    close-Holds false w h = (refl, h)
    close-Holds true w h = (refl, keeps.closes w h)

    perform-Holds :
        (request : Request) (c : Bool) (w : W) → Invariant w → Ends (perform request (over c, w))
    unfolding perform send receive receive_into
    perform-Holds (discover_request options) c w h = discover-Holds options c w h
    perform-Holds (connect_request peer l p name) c w h = connect-Holds peer l p name c w h
    perform-Holds (send_request payload) c w h =
        data-Holds (λ t. t.send payload) c w (keeps.sends payload) h
    perform-Holds (receive_request n) c w h = data-Holds (λ t. t.receive n) c w (keeps.receives n) h
    perform-Holds (receive_into_request n) c w h =
        data-Holds (λ t. t.receive_into n) c w (keeps.receives_into n) h
    perform-Holds close_request c w h = (_, refl, close-Holds c w h)

    held :
        (session : Session W)
        → session.transport ≡ some transport
        → over session.connected ≡ session
    unfolding over
    held session e = ap (λ t. record { transport = t; connected = session.connected }) (sym e)

    pub perform_keeps : (request : Request) (s : Session W × W) → Holds s → Ends (perform request s)
    perform_keeps request (session, w) (same, h) =
        subst (λ start. Ends (perform request (start, w))) (held session same)
          (perform-Holds request session.connected w h)

    pub run-Holds : (requests : List Request) (s : Session W × W) → Holds s → Ends (run requests s)
    unfolding run
    run-Holds [] s h = (s, refl, h)
    run-Holds (request ∷ requests) (session, w) (same, h) =
        let (s', e, h') = perform_keeps request (session, w) (same, h) in
        let (s'', f, h'') = run-Holds requests s' h' in (s'', rw (run, e) f, h'')

    -- The destructor of the session ends with the one of the transport.
    pub destroy_session_lem :
        (Final : W → Type 0) (s : Session W × W)
        → ((w : W) → Invariant w → Final (transport.destroy w))
        → Holds s
        → Final (destroy_session s)
    unfolding destroy_session close delete over
    destroy_session_lem Final (session, w) final (same, h) =
        subst (λ start. Final (destroy_session (start, w))) (held session same)
          (ends session.connected)
      where
        ends : (c : Bool) → Final (destroy_session (over c, w))
        ends false = final w h
        ends true = final (transport.close w) (keeps.closes w h)
