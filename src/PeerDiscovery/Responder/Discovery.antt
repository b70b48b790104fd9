-- ===== src/PeerDiscovery/Responder/Discovery.antt =====
-- The sockets of a responder while they are set up, and the thread that answers discovery messages.
use hyper_link.Base.{
  ℕ, zero, suc, ◌+◌, ◌<◌, refl, arith, Option, none, some, [], ◌∷◌, Text, text_eq, Result, ok,
}
use hyper_link.Base.Int.{pos}
use hyper_link.Base.Program.{Program, ◌>>=◌, ◌>>◌, pure, lift}
use hyper_link.Base.Triple.{call, run, Ends, Yields, bind-Yields, if-Yields}
use hyper_link.Tcp.Ledger.{only}
use hyper_link.PeerDiscovery.{maximum_advertisement_bytes}
use hyper_link.PeerDiscovery.Advertisement.{PeerDiscoveryResponderOptions}
use hyper_link.PeerDiscovery.Network.{
  Network, Ipv4Endpoint, datagram, stream, require, ipv4_endpoint, open_socket, set_nonblocking,
}
use hyper_link.PeerDiscovery.Network.Accounts.{View, Accounts, Held, Safe, Stays}
use hyper_link.PeerDiscovery.Network.Flag.{flag-Yields}
use hyper_link.PeerDiscovery.Network.Handles.{
  Steady-Safe, call-Stays, bind-Stays, pure-Stays, lift-Stays, run-Stays, require-Stays,
  set_nonblocking-Stays, open_socket-Yields,
}
use hyper_link.PeerDiscovery.Network.Scopes.{keep_handle-Yields, with_handle-Yields, close-Held}
use hyper_link.PeerDiscovery.Responder.{
  discovery_socket_failed, discovery_bind_failed, probe_socket_failed, probe_bind_failed,
  bound_socket, make_udp_socket, listening_socket, make_probe_socket,
}
use hyper_link.PeerDiscovery.Responder.Serving.{
  answer, discovery_message, discovery_round, discovery_loop, serve_discovery, is_readable, poll_us,
}

module _ {W : Type 0} (net : Network W) (view : View W) (accounts : Accounts net view)
    (t n : ℕ) where
  -- A socket that is set up belongs to the caller, and one that cannot be is closed.
  set_up :
      (owned : ℕ → ℕ) (d : ℕ) (address : Result Ipv4Endpoint)
      (bind : Ipv4Endpoint → Program W (Unit {0}))
      → ((e : Ipv4Endpoint) → Stays view 0 t n owned (bind e))
      → Stays view 0 t n owned (run (net.set_option d) >> (lift address >>= bind))
  set_up owned d address bind binds =
      bind-Stays net view accounts 0 t n owned (run (net.set_option d)) (λ a. lift address >>= bind)
        (run-Stays net view accounts 0 t n owned (net.set_option d) (accounts.set_option_steady d))
        (λ a.
          bind-Stays net view accounts 0 t n owned (lift address) bind
            (lift-Stays net view accounts 0 t n owned address) binds)

  pub make_udp_socket-Yields :
      (owned : ℕ → ℕ) (options : PeerDiscoveryResponderOptions)
      → Yields
          (Safe view 0 t n owned)
          (λ d. Safe view 0 t n (λ x. only d x + owned x))
          (Held view owned)
          (make_udp_socket net options)
  unfolding make_udp_socket bound_socket
  make_udp_socket-Yields owned options =
      bind-Yields (Safe view 0 t n owned) (λ d. Safe view 0 t n (λ x. only d x + owned x))
        (λ d. Safe view 0 t n (λ x. only d x + owned x)) (Held view owned)
        (open_socket net datagram discovery_socket_failed) _
        (open_socket-Yields net view accounts 0 t n owned datagram discovery_socket_failed)
        (λ d. keep_handle-Yields net view accounts 0 t n owned d _ (
          set_up (λ x. only d x + owned x) d _ (bound_socket net d)
            (λ e.
              require-Stays net view accounts 0 t n (λ x. only d x + owned x) discovery_bind_failed
                (net.bind d e) (accounts.bind_steady d e))))

  listening_socket-Stays :
      (owned : ℕ → ℕ) (d : ℕ) (e : Ipv4Endpoint) → Stays view 0 t n owned (listening_socket net d e)
  unfolding listening_socket
  listening_socket-Stays owned d e =
      bind-Stays net view accounts 0 t n owned (require net probe_bind_failed (net.bind d e)) _
        (require-Stays net view accounts 0 t n owned probe_bind_failed (net.bind d e)
          (accounts.bind_steady d e))
        (λ a.
          require-Stays net view accounts 0 t n owned probe_bind_failed (net.listen d)
            (accounts.listen_steady d))

  pub make_probe_socket-Yields :
      (owned : ℕ → ℕ) (bind_host : Text) (probe_port : ℕ)
      → Yields
          (Safe view 0 t n owned)
          (λ d. Safe view 0 t n (λ x. only d x + owned x))
          (Held view owned)
          (make_probe_socket net bind_host probe_port)
  unfolding make_probe_socket
  make_probe_socket-Yields owned bind_host probe_port =
      bind-Yields (Safe view 0 t n owned) (λ d. Safe view 0 t n (λ x. only d x + owned x))
        (λ d. Safe view 0 t n (λ x. only d x + owned x)) (Held view owned)
        (open_socket net stream probe_socket_failed) _
        (open_socket-Yields net view accounts 0 t n owned stream probe_socket_failed)
        (λ d. keep_handle-Yields net view accounts 0 t n owned d _ (
          bind-Stays net view accounts 0 t n (λ x. only d x + owned x)
            (run (net.set_option d)
              >> (lift (ipv4_endpoint net bind_host probe_port) >>= listening_socket net d))
            (λ a. set_nonblocking net d)
            (set_up (λ x. only d x + owned x) d _ (listening_socket net d)
              (listening_socket-Stays (λ x. only d x + owned x) d))
            (λ a. set_nonblocking-Stays net view accounts 0 t n (λ x. only d x + owned x) d)))

  answer-Stays :
      (owned : ℕ → ℕ) (d : ℕ) (advertisement : Text) (received : Option (Text × Ipv4Endpoint))
      → Stays view 0 t n owned (answer net d advertisement received)
  unfolding answer
  answer-Stays owned d advertisement none = pure-Stays net view accounts 0 t n owned tt
  answer-Stays owned d advertisement (some (message, source)) =
      if-Yields (Safe view 0 t n owned) (λ a. Safe view 0 t n owned) (Held view owned)
        (text_eq message discovery_message) _ (pure tt)
        (λ ours w h. (
          ok tt,
          _,
          refl,
          Steady-Safe net view accounts 0 t n owned w _
              (accounts.sendto_steady d advertisement source w) h,
        ))
        (λ other. pure-Stays net view accounts 0 t n owned tt)

  pub discovery_round-Stays :
      (owned : ℕ → ℕ) (d : ℕ) (advertisement : Text)
      → Stays view 0 t n owned (discovery_round net d advertisement)
  unfolding discovery_round
  discovery_round-Stays owned d advertisement w h =
      let (selected, v) = net.select (d ∷ []) [] (pos poll_us) w in
      if-Yields (Safe view 0 t n owned) (λ a. Safe view 0 t n owned) (Held view owned)
        (is_readable d selected)
        (call (net.recvfrom d maximum_advertisement_bytes) >>= answer net d advertisement) (pure tt)
        (λ ready.
          bind-Stays net view accounts 0 t n owned
            (call (net.recvfrom d maximum_advertisement_bytes)) (answer net d advertisement)
            (call-Stays net view accounts 0 t n owned (net.recvfrom d maximum_advertisement_bytes)
              (accounts.recvfrom_steady d maximum_advertisement_bytes))
            (answer-Stays owned d advertisement))
        (λ quiet. pure-Stays net view accounts 0 t n owned tt) v
        (Steady-Safe net view accounts 0 t n owned w v
          (accounts.select_steady (d ∷ []) [] (pos poll_us) w) h)

module _ {W : Type 0} (net : Network W) (view : View W) (accounts : Accounts net view) (t : ℕ) where
  discovery_loop-Yields :
      (f : ℕ) (owned : ℕ → ℕ) (d : ℕ) (advertisement : Text)
      → Yields
          (Safe view 0 t f owned)
          (λ a. Held view owned)
          (Held view owned)
          (discovery_loop net f d advertisement)
  unfolding discovery_loop
  discovery_loop-Yields zero owned d advertisement = λ w (h, p, q). absurd (omega (arith, q))
  discovery_loop-Yields (suc f) owned d advertisement =
      flag-Yields net view accounts 0 t f owned (λ a. Held view owned) (Held view owned)
        (discovery_round net d advertisement >> discovery_loop net f d advertisement) (pure tt)
        (bind-Yields (Safe view 0 t f owned) (λ a. Safe view 0 t f owned) (λ a. Held view owned)
          (Held view owned) (discovery_round net d advertisement) _
          (discovery_round-Stays net view accounts t f owned d advertisement)
          (λ a. discovery_loop-Yields f owned d advertisement))
        (λ w h. (ok tt, w, refl, h.0))

module _ {W : Type 0} (net : Network W) (view : View W) (accounts : Accounts net view) where
  -- The thread that answers discovery messages ends as well, and closes its socket.
  pub serve_discovery-Ends :
      (d fuel : ℕ) (advertisement : Text) (owned : ℕ → ℕ) (w : W)
      → view.turns w < fuel
      → Held view (λ x. only d x + owned x) w
      → Ends (λ a. Held view owned) (Held view owned) (serve_discovery net fuel d advertisement w)
  unfolding serve_discovery
  serve_discovery-Ends d fuel advertisement owned w enough h =
      let t = suc (view.ticks 0 w) in
      with_handle-Yields net view accounts 0 t fuel owned d
        (Safe view 0 t fuel (λ x. only d x + owned x)) (λ a. Held view (λ x. only d x + owned x))
        (λ a. Held view owned) (discovery_loop net fuel d advertisement)
        (discovery_loop-Yields net view accounts t fuel (λ x. only d x + owned x) d advertisement)
        (λ a v k. close-Held net view accounts 0 owned d v k) w (h, omega arith, enough)
