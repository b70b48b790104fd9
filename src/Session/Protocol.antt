-- ===== src/Session/Protocol.antt =====
-- The order in which a session calls its transport, seen by a transport that keeps a log.
use hyper_link.Base.{
  ℕ, ◌≡◌, ◌≢◌, refl, sym, subst, ap, arith, Bool, true, false, Option, none, some, List, [], ◌∷◌,
  ◌++◌, Text, Result, ok, err, Option-cases, Result-cases, inl, inr,
}
use hyper_link.Base.Program.{Program, ◌>>◌}
use hyper_link.AutoConfig.{AutoConfigOptions, NegotiatedConfig, negotiate, require_valid}
use hyper_link.Session.{
  PeerInfo, Transport, Session, call, require_connected, mark_connected, discover, connect, send,
  receive, receive_into, close, open_session,
}

-- The calls that matter to a connection: one that connected, one that moved data, and one that closed it.
pub data Event : Type 0 where
  connected_event data_event closed_event : Event

-- Whether the transport is connected after the events; `none` if data moves, or a connection is closed,
-- while there is none.
unfoldable pub replay : Bool → List Event → Option Bool
replay now [] = some now
replay now (connected_event ∷ events) = replay true events
replay true (data_event ∷ events) = replay true events
replay false (data_event ∷ events) = none
replay true (closed_event ∷ events) = replay false events
replay false (closed_event ∷ events) = none

replay-append :
    (start now : Bool) (events : List Event) (event : Event)
    → replay start events ≡ some now
    → replay start (events ++ event ∷ []) ≡ replay now (event ∷ [])
unfolding replay
replay-append start now [] event h = ground arith
replay-append start now (connected_event ∷ events) event h = replay-append true now events event h
replay-append true now (data_event ∷ events) event h = replay-append true now events event h
replay-append false now (data_event ∷ events) event h = absurd (ground arith)
replay-append true now (closed_event ∷ events) event h = replay-append false now events event h
replay-append false now (closed_event ∷ events) event h = absurd (ground arith)

module _ {W : Type 0} where
  -- A call that is not logged, one that always is, and one that is logged unless it throws.
  unfoldable pub pass : {A : Type 0} → Program W A → Program (W × List Event) A
  pass m (w, log) = elim (m w) [ none ↦ none | some (result, w') ↦ some (result, (w', log)) ]

  unfoldable pub observe : {A : Type 0} → Event → Program W A → Program (W × List Event) A
  observe event m (w, log) = elim (m w) [
    | none ↦ none
    | some (result, w') ↦ some (result, (w', log ++ event ∷ []))
  ]

  unfoldable pub observe_success : {A : Type 0} → Event → Program W A → Program (W × List Event) A
  observe_success event m (w, log) = elim (m w) [
    | none ↦ none
    | some (ok a, w') ↦ some (ok a, (w', log ++ event ∷ []))
    | some (err error, w') ↦ some (err error, (w', log))
  ]

  -- The transport `inner` with a log.
  unfoldable pub logged : Transport W → Transport (W × List Event)
  logged inner = record {
    discover = λ options. pass (inner.discover options);
    connect = λ peer config. observe_success connected_event (inner.connect peer config);
    send = λ payload. observe data_event (inner.send payload);
    receive = λ max_bytes. observe data_event (inner.receive max_bytes);
    receive_into = λ size. observe data_event (inner.receive_into size);
    close = λ (w, log). (inner.close w, log ++ closed_event ∷ []);
    destroy = λ (w, log). (inner.destroy w, log);
  }

-- What a client asks of a session.
pub data Request : Type 0 where
  discover_request : AutoConfigOptions → Request
  connect_request : PeerInfo → AutoConfigOptions → AutoConfigOptions → Text → Request
  send_request : Text → Request
  receive_request : ℕ → Request
  receive_into_request : ℕ → Request
  close_request : Request

unfoldable pub forget : {A S : Type 0} → Option (Result A × S) → Option S
forget none = none
forget (some (result, s)) = some s

module _ {V : Type 0} where
  -- A client that catches what an operation throws, and goes on.
  unfoldable pub perform : Request → Session V × V → Option (Session V × V)
  perform (discover_request options) s = forget (discover options s)
  perform (connect_request peer local_options peer_options name) s =
      forget (connect peer local_options peer_options name s)
  perform (send_request payload) s = forget (send payload s)
  perform (receive_request max_bytes) s = forget (receive max_bytes s)
  perform (receive_into_request size) s = forget (receive_into size s)
  perform close_request s = some (close s)

  unfoldable pub run : List Request → Session V × V → Option (Session V × V)
  run [] s = some s
  run (request ∷ requests) s = elim (perform request s) [ none ↦ none | some s' ↦ run requests s' ]

run_step :
    {V : Type 0} (request : Request) (requests : List Request) (s : Session V × V)
    {s' s'' : Session V × V}
    → perform request s ≡ some s'
    → run requests s' ≡ some s''
    → run (request ∷ requests) s ≡ some s''
unfolding run
run_step request requests s e f = rw (run, e) f

-- The calls of the transport return, by a result or by a throw.
pub record Returns {W : Type 0} (transport : Transport W) : Type 0 where
  pub discovers : (options : AutoConfigOptions) (w : W) → transport.discover options w ≢ none
  pub connects :
      (peer : PeerInfo) (config : NegotiatedConfig) (w : W) → transport.connect peer config w ≢ none
  pub sends : (payload : Text) (w : W) → transport.send payload w ≢ none
  pub receives : (max_bytes : ℕ) (w : W) → transport.receive max_bytes w ≢ none
  pub receives_into : (size : ℕ) (w : W) → transport.receive_into size w ≢ none

module _ {W : Type 0} (inner : Transport W) where
  -- The session holds the transport, and is connected exactly if the log says so.
  abbrev pub InStep : Session (W × List Event) × (W × List Event) → Type 0
  InStep (session, (w, log)) =
      (session.transport ≡ some (logged inner)) × (replay false log ≡ some session.connected)

  abbrev EndsInStep : Option (Session (W × List Event) × (W × List Event)) → Type 0
  EndsInStep outcome =
      (s : Session (W × List Event) × (W × List Event)) × (outcome ≡ some s) × InStep s

  session_of : Bool → Session (W × List Event)
  session_of c = record { transport = some (logged inner); connected = c }

  -- Moving data over a session.
  data_in_step :
      {A : Type 0} (operation : Transport (W × List Event) → Program (W × List Event) A)
      (m : Program W A) (c : Bool) (w : W) (log : List Event)
      → operation (logged inner) ≡ observe data_event m
      → m w ≢ none
      → replay false log ≡ some c
      → EndsInStep (forget ((require_connected >> call operation) (session_of c, (w, log))))
  unfolding session_of forget require_connected call observe logged replay
  data_in_step operation m false w log same returns h = (_, refl, (refl, h))
  data_in_step operation m true w log same returns h = elim (Option-cases (m w)) [
    | inl e ↦ absurd (returns e)
    | inr ((result, w'), e) ↦ (
      (session_of true, (w', log ++ data_event ∷ [])),
      rw (forget, call, same, e) refl,
      (refl, replay-append false true log data_event h),
    )
  ]

  discover_in_step :
      (options : AutoConfigOptions) (c : Bool) (w : W) (log : List Event)
      → inner.discover options w ≢ none
      → replay false log ≡ some c
      → EndsInStep (forget (discover options (session_of c, (w, log))))
  unfolding session_of forget discover call pass logged replay
  discover_in_step options c w log returns h = elim (Result-cases (require_valid [] options)) [
    | inr (error, e) ↦ ((session_of c, (w, log)), rw (forget, e) refl, (refl, h))
    | inl (a, e) ↦ elim (Option-cases (inner.discover options w)) [
      | inl f ↦ absurd (returns f)
      | inr ((result, w'), f) ↦ ((session_of c, (w', log)), rw (forget, e, call, f) refl, (refl, h))
    ]
  ]

  connect_in_step :
      (peer : PeerInfo) (local_options peer_options : AutoConfigOptions) (name : Text) (c : Bool)
      (w : W) (log : List Event)
      → ((config : NegotiatedConfig) → inner.connect peer config w ≢ none)
      → replay false log ≡ some c
      → EndsInStep (forget (connect peer local_options peer_options name (session_of c, (w, log))))
  unfolding session_of forget connect call mark_connected observe_success logged replay
  connect_in_step peer local_options peer_options name c w log returns h =
      elim (Result-cases (negotiate local_options peer_options name)) [
        | inr (error, e) ↦ ((session_of c, (w, log)), rw (forget, e) refl, (refl, h))
        | inl (config, e) ↦ elim (Option-cases (inner.connect peer config w)) [
          | inl f ↦ absurd (returns config f)
          | inr ((err error, w'), f) ↦
              ((session_of c, (w', log)), rw (forget, e, call, f) refl, (refl, h))
          | inr ((ok a, w'), f) ↦ (
            (session_of true, (w', log ++ connected_event ∷ [])),
            rw (forget, e, call, f) refl,
            (refl, replay-append false c log connected_event h),
          )
        ]
      ]

  close_in_step :
      (c : Bool) (w : W) (log : List Event)
      → replay false log ≡ some c
      → EndsInStep (some (close (session_of c, (w, log))))
  unfolding session_of close logged replay
  close_in_step false w log h = (_, refl, (refl, h))
  close_in_step true w log h = (_, refl, (refl, replay-append false true log closed_event h))

  perform_in_step :
      (request : Request) (c : Bool) (w : W) (log : List Event)
      → Returns inner
      → replay false log ≡ some c
      → EndsInStep (perform request (session_of c, (w, log)))
  unfolding perform logged send receive receive_into
  perform_in_step (discover_request options) c w log r h =
      discover_in_step options c w log (r.discovers options w) h
  perform_in_step (connect_request peer l p name) c w log r h =
      connect_in_step peer l p name c w log (λ config. r.connects peer config w) h
  perform_in_step (send_request payload) c w log r h =
      data_in_step (λ t. t.send payload) (inner.send payload) c w log refl (r.sends payload w) h
  perform_in_step (receive_request n) c w log r h =
      data_in_step (λ t. t.receive n) (inner.receive n) c w log refl (r.receives n w) h
  perform_in_step (receive_into_request n) c w log r h =
      data_in_step (λ t. t.receive_into n) (inner.receive_into n) c w log refl (r.receives_into n w)
        h
  perform_in_step close_request c w log r h = close_in_step c w log h

  -- A session that holds the transport is one of two.
  holds :
      (session : Session (W × List Event))
      → session.transport ≡ some (logged inner)
      → session_of session.connected ≡ session
  unfolding session_of
  holds session e = ap (λ t. record { transport = t; connected = session.connected }) (sym e)

  run-InStep :
      (requests : List Request) (s : Session (W × List Event) × (W × List Event))
      → Returns inner
      → InStep s
      → EndsInStep (run requests s)
  unfolding run
  run-InStep [] s r h = (s, refl, h)
  run-InStep (request ∷ requests) (session, (w, log)) r (same, h) =
      let (s', e, h') =
        subst (λ start. EndsInStep (perform request (start, (w, log)))) (holds session same)
          (perform_in_step request session.connected w log r h) in
      let (s'', f, h'') = run-InStep requests s' r h' in
      (s'', run_step request requests (session, (w, log)) e f, h'')

-- Whatever a client asks of a new session, over a transport whose calls return: the requests end, data is
-- sent and received only between a successful connect and the close that follows, the transport is
-- closed only while it is connected, and the session knows at the end whether it is connected.
pub session_follows_protocol :
    {W : Type 0} (inner : Transport W) (session : Session (W × List Event)) (w : W)
    (requests : List Request)
    → Returns inner
    → open_session (some (logged inner)) ≡ ok session
    → (session' : Session (W × List Event)) × (w' : W) × (log : List Event) × (run requests
          (session, (w, []))
        ≡ some (session', (w', log)))
      × (replay false log ≡ some session'.connected)
unfolding open_session replay
session_follows_protocol inner session w requests returns opened =
    let ((session', (w', log)), e, (same, h)) =
      run-InStep inner requests (session, (w, [])) returns (ground arith, ground arith) in
    (session', w', log, e, h)
