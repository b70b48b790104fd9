-- ===== src/PeerDiscovery/Probe/Closing.antt =====
-- A probe ends, and leaves no socket behind.
use hyper_link.Base.{
  ℕ, zero, suc, ◌+◌, ◌-◌, ◌≤◌, ◌<◌, min, ◌≡◌, refl, arith, Bool, true, false, Bool-cases, ◌⊎◌, inl,
  inr, Option, none, some, ltb, ◌==◌, if◌then◌else◌, Result, ok, err,
}
use hyper_link.Base.Program.{Program, ◌>>=◌, ◌>>◌, pure, throw, lift}
use hyper_link.Base.Triple.{call, Ends, Yields, bind-Yields, if-Yields, weaken_result}
use hyper_link.Tcp.Ledger.{only}
use hyper_link.PeerDiscovery.{DiscoveredPeer, PeerDiscoveryOptions}
use hyper_link.PeerDiscovery.Network.{
  Network, stream, Ipv4Endpoint, Connecting, connected, in_progress, refused, Moved, bytes_moved,
  would_block, move_failed, ipv4_endpoint, set_nonblocking, wait_for_socket, open_socket,
}
use hyper_link.PeerDiscovery.Network.Accounts.{View, Accounts, Held, Safe, Stays}
use hyper_link.PeerDiscovery.Network.Handles.{
  Steady-Held, Steady-Safe, call-Stays, bind-Stays, pure-Stays, throw-Stays, throw_last-Stays,
  set_nonblocking-Stays, lift-Stays, wait_for_socket-Yields, open_socket-Yields,
}
use hyper_link.PeerDiscovery.Network.Scopes.{with_handle-Yields, close-Held}
use hyper_link.PeerDiscovery.Probe.{
  connect_failed, receive_failed, check_connected, finish_connect, end_round, probe_loop,
  timed_probe, connected_probe, probe_tcp_receive, deadline_after, no_data, socket_failed,
  probe_buffer_bytes,
}

module _ {W : Type 0} (net : Network W) (view : View W) (accounts : Accounts net view) (n : ℕ)
    (owned : ℕ → ℕ) where
  module _ (deadline : ℕ) where
    check_connected-Stays :
        (t : ℕ) (error : Option ℕ) → Stays view deadline t n owned (check_connected net error)
    unfolding check_connected
    check_connected-Stays t none = throw-Stays net view accounts deadline t n owned _
    check_connected-Stays t (some error) =
        if-Yields (Safe view deadline t n owned) (λ a. Safe view deadline t n owned)
          (Held view owned) (error == 0) (pure tt) (throw (connect_failed (net.strerror error)))
          (λ e. pure-Stays net view accounts deadline t n owned tt)
          (λ e. throw-Stays net view accounts deadline t n owned _)

    earlier :
        (t : ℕ) (a : Unit {0}) (w : W)
        → Safe view deadline t n owned w
        → Safe view deadline (suc t) n owned w
    earlier t a w (h, p, q) = (h, omega (arith, p), q)

    waits :
        (t d : ℕ) (write : Bool)
        → Stays view deadline (suc t) n owned (wait_for_socket net d write deadline)
    waits t d write =
        weaken_result (Safe view deadline (suc t) n owned) (λ a. Safe view deadline (suc t) n owned)
          (Held view owned) (λ a. Safe view deadline t n owned)
          (wait_for_socket net d write deadline) (earlier t)
          (wait_for_socket-Yields net view accounts deadline t n owned d write)

    finish_connect-Stays :
        (t d : ℕ) (connecting : Connecting)
        → Stays view deadline (suc t) n owned (finish_connect net d deadline connecting)
    unfolding finish_connect
    finish_connect-Stays t d connected = pure-Stays net view accounts deadline (suc t) n owned tt
    finish_connect-Stays t d refused =
        throw_last-Stays net view accounts deadline (suc t) n owned connect_failed
    finish_connect-Stays t d in_progress =
        bind-Stays net view accounts deadline (suc t) n owned (wait_for_socket net d true deadline)
          _ (waits t d true)
          (λ a.
            bind-Stays net view accounts deadline (suc t) n owned (call (net.socket_error d))
              (check_connected net)
              (call-Stays net view accounts deadline (suc t) n owned (net.socket_error d)
                (accounts.socket_error_steady d))
              (check_connected-Stays (suc t)))

    -- The loop returns no more than the payload.
    abbrev Loaded : ℕ → ℕ → W → Type 0
    Loaded payload received w = Held view owned w × (received ≤ payload)

    end_round-Yields :
        (t payload received : ℕ) (rounds : ℕ → Program W ℕ) (moved : Moved)
        → received ≤ payload
        → ((k : ℕ) → moved ≡ bytes_moved k → k ≤ payload - received)
        → ((r : ℕ)
            → r ≤ payload
            → Yields (Safe view deadline t n owned) (Loaded payload) (Held view owned) (rounds r))
        → Yields
            (Safe view deadline t n owned)
            (Loaded payload)
            (Held view owned)
            (end_round net rounds received moved)
    unfolding end_round
    end_round-Yields t payload received rounds move_failed fits room next =
        λ w h. (err (receive_failed (net.last_socket_error w)), w, refl, h.0)
    end_round-Yields t payload received rounds would_block fits room next = next received fits
    end_round-Yields t payload received rounds (bytes_moved k) fits room next =
        if-Yields (Safe view deadline t n owned) (Loaded payload) (Held view owned) (k == 0)
          (pure received) (rounds (received + k)) (λ ended w h. (ok received, w, refl, (h.0, fits)))
          (λ more. next (received + k) (omega (arith, room k refl, fits)))

    probe_loop-Yields :
        (t payload d received : ℕ)
        → received ≤ payload
        → Yields
            (Safe view deadline t n owned)
            (Loaded payload)
            (Held view owned)
            (probe_loop net t payload d deadline received)
    unfolding probe_loop
    probe_loop-Yields zero payload d received fits = λ w (h, p, q). absurd (omega (arith, p))
    probe_loop-Yields (suc t) payload d received fits =
        let capacity = min probe_buffer_bytes (payload - received) in
        let rounds = probe_loop net t payload d deadline in
        let receive = call (net.recv d capacity) >>= end_round net rounds received in
        if-Yields (Safe view deadline (suc t) n owned) (Loaded payload) (Held view owned)
          (ltb received payload) (wait_for_socket net d false deadline >> receive) (pure received)
          (λ more.
            bind-Yields (Safe view deadline (suc t) n owned) (λ a. Safe view deadline t n owned)
              (Loaded payload) (Held view owned) (wait_for_socket net d false deadline)
              (λ a. receive) (wait_for_socket-Yields net view accounts deadline t n owned d false)
              (λ a w h.
                end_round-Yields t payload received rounds (net.recv d capacity w).0 fits
                  (λ k e. omega (arith, accounts.recv_fits d capacity k w e))
                  (probe_loop-Yields t payload d) (net.recv d capacity w).1
                  (Steady-Safe net view accounts deadline t n owned w _
                    (accounts.recv_steady d capacity w) h)))
          (λ done w h. (ok received, w, refl, (h.0, fits)))

module _ {R W : Type 0} (net : Network W) (measure : ℕ → ℕ → R) (view : View W)
    (accounts : Accounts net view) (n : ℕ) (owned : ℕ → ℕ) (options : PeerDiscoveryOptions) where
  -- A rate over some of the bytes of the payload, and no open socket but those from before.
  abbrev pub Measured : (ℕ → ℕ) → R → W → Type 0
  Measured sockets rate w =
      Held view sockets w
      × ((bytes : ℕ) × (elapsed : ℕ) × (0 < bytes)
          × (bytes ≤ options.probe_payload_bytes)
          × (rate ≡ measure bytes elapsed))

  timed_probe-Yields :
      (deadline t d : ℕ)
      → Yields
          (Safe view deadline t n owned)
          (Measured owned)
          (Held view owned)
          (timed_probe net measure t options.probe_payload_bytes d deadline)
  unfolding timed_probe
  timed_probe-Yields deadline t d w h =
      bind-Yields (Safe view deadline t n owned)
        (Loaded net view accounts n owned deadline options.probe_payload_bytes) (Measured owned)
        (Held view owned) (probe_loop net t options.probe_payload_bytes d deadline 0) _
        (probe_loop-Yields net view accounts n owned deadline t options.probe_payload_bytes d 0
          (omega arith))
        (λ received w' (k, fits).
          rated received (net.now w).0 w' k fits (Bool-cases (received == 0)))
        (net.now w).1
        (Steady-Safe net view accounts deadline t n owned w _ (accounts.now_steady w) h)
    where
      rated :
          (received started : ℕ) (w' : W)
          → Held view owned w'
          → received ≤ options.probe_payload_bytes
          → (received == 0 ≡ true) ⊎ (received == 0 ≡ false)
          → Ends (Measured owned) (Held view owned) (
              (if received == 0
                  then throw no_data
                  else call net.now >>= λ ended. pure (measure received (ended - started)))
                w')
      rated received started w' k fits (inl none_came) = rw none_came (err no_data, w', refl, k)
      rated received started w' k fits (inr some_came) = rw some_came (
        ok _,
        (net.now w').1,
        refl,
        (
          Steady-Held net view accounts deadline owned w' _ (accounts.now_steady w') k,
          (received, (net.now w').0 - started, ground arith, fits, refl),
        ),
      )

  -- The clock reaches a deadline that lies a timeout ahead within `t` readings.
  abbrev pub Paced : ℕ → Type 0
  Paced t =
      (w : W)
      → view.ticks (deadline_after options.probe_timeout (net.now w).0) (net.now w).1 < suc t

  connected_probe-Yields :
      (t d : ℕ) (endpoint : Ipv4Endpoint)
      → Paced t
      → (u : ℕ)
      → Yields
          (Safe view 0 u n owned)
          (Measured owned)
          (Held view owned)
          (connected_probe net measure (suc t) options d endpoint)
  unfolding connected_probe
  connected_probe-Yields t d endpoint paced u w h =
      let deadline = deadline_after options.probe_timeout (net.now w).0 in
      let (k, p, q) = Steady-Safe net view accounts 0 u n owned w _ (accounts.now_steady w) h in
      let w₁ = (net.now w).1 in
      let h₁ : Safe view deadline (suc t) n owned w₁ = (k, paced w, q) in
      let (c, w₂) = net.connect d endpoint w₁ in
      bind-Yields (Safe view deadline (suc t) n owned) (λ a. Safe view deadline (suc t) n owned)
        (Measured owned) (Held view owned) (finish_connect net d deadline c)
        (λ a. timed_probe net measure (suc t) options.probe_payload_bytes d deadline)
        (finish_connect-Stays net view accounts n owned deadline t d c)
        (λ a. timed_probe-Yields deadline (suc t) d) w₂
        (Steady-Safe net view accounts deadline (suc t) n owned w₁ _
          (accounts.connect_steady d endpoint w₁) h₁)

module _ {R W : Type 0} (net : Network W) (measure : ℕ → ℕ → R) (view : View W)
    (accounts : Accounts net view) (options : PeerDiscoveryOptions) (t : ℕ)
    (paced : Paced net measure view accounts 0 (λ x. 0) options t) where
  configured_probe :
      (peer : DiscoveredPeer R) (n u d : ℕ) (owned : ℕ → ℕ)
      → Yields
          (Safe view 0 u n owned)
          (Measured net measure view accounts n owned options owned)
          (Held view owned)
          (set_nonblocking net d
            >> (lift (ipv4_endpoint net peer.endpoint.host peer.endpoint.probe_port)
                >>= connected_probe net measure (suc t) options d))
  configured_probe peer n u d owned =
      bind-Yields (Safe view 0 u n owned) (λ a. Safe view 0 u n owned)
        (Measured net measure view accounts n owned options owned) (Held view owned)
        (set_nonblocking net d) (λ a. rest) (set_nonblocking-Stays net view accounts 0 u n owned d)
        (λ a.
          bind-Yields (Safe view 0 u n owned) (λ e. Safe view 0 u n owned)
            (Measured net measure view accounts n owned options owned) (Held view owned)
            (lift address) (connected_probe net measure (suc t) options d)
            (lift-Stays net view accounts 0 u n owned address)
            (λ endpoint.
              connected_probe-Yields net measure view accounts n owned options t d endpoint paced
                u))
    where
      address : Result Ipv4Endpoint
      address = ipv4_endpoint net peer.endpoint.host peer.endpoint.probe_port

      rest : Program W R
      rest = lift address >>= connected_probe net measure (suc t) options d

  -- Over any system calls that open and close sockets as documented, with a clock that reaches a deadline
  -- one timeout ahead within `t` readings, a probe of a peer ends, with fuel for these readings. By a
  -- result or by an exception, the sockets open behind it are those open before, and none was closed twice; a
  -- result is the rate of a number of received bytes that is positive and at most the payload.
  pub probe_closes :
      (peer : DiscoveredPeer R) (owned : ℕ → ℕ) (w : W)
      → Held view owned w
      → Ends
          (Measured net measure view accounts 0 owned options owned)
          (Held view owned)
          (probe_tcp_receive net measure (suc t) peer options w)
  unfolding probe_tcp_receive
  probe_closes peer owned w h =
      let u = suc (view.ticks 0 w) in
      let n = suc (view.turns w) in
      bind-Yields (Safe view 0 u n owned) (λ d. Safe view 0 u n (λ x. only d x + owned x))
        (Measured net measure view accounts 0 owned options owned) (Held view owned)
        (open_socket net stream socket_failed) _
        (open_socket-Yields net view accounts 0 u n owned stream socket_failed)
        (λ d.
          with_handle-Yields net view accounts 0 u n owned d
            (Safe view 0 u n (λ x. only d x + owned x))
            (Measured net measure view accounts n (λ x. only d x + owned x) options
              (λ x. only d x + owned x))
            (Measured net measure view accounts 0 owned options owned) _
            (configured_probe peer n u d (λ x. only d x + owned x))
            (λ rate w' (k, m). (close-Held net view accounts 0 owned d w' k, m)))
        w (h, omega arith, omega arith)
