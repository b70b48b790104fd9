-- ===== src/Bench/Run.antt =====
-- examples/bench.cpp: `connect_session` and the threads of `run_server` and `run_client`.
pub mod Counts
use hyper_link.Base.{
  ℕ, zero, suc, ◌+◌, ◌-◌, ◌*◌, ◌%◌, ◌^◌, Option, none, some, List, [], ◌∷◌, Text, codes, replicate,
  length, is_empty, ltb, if◌then◌else◌, Error, runtime_error, Result, ok, err,
}
use hyper_link.Base.Program.{Program, ◌>>=◌, ◌>>◌, pure, throw}
use hyper_link.Base.Triple.{call, run}
use hyper_link.AutoConfig
use hyper_link.Session.{PeerInfo, Transport, Session, discover, connect, destroy_session}
use hyper_link.Session
use hyper_link.Tcp.{TcpMode, client, server, TcpTransport, Sockets, new_transport, tcp_transport}
use hyper_link.FileTransfer.Connection.{no_session, start_session, or_destroy}
use hyper_link.FileTransfer.Send.{on_world}
use hyper_link.Bench.{BenchOptions, StreamResult, endpoint_for_stream}

unfoldable pub no_peers : Error
no_peers = runtime_error (codes "transport returned no peers")

module _ {V : Type 0} where
  unfoldable pub connect_first : List PeerInfo → Program (Session V × V) (Unit {0})
  connect_first [] = throw no_peers
  connect_first (peer ∷ peers) =
      connect peer AutoConfig.default_options AutoConfig.default_options (codes "hyperlink-bench")

  unfoldable pub connect_session : Transport V → Program (Session V × V) (Unit {0})
  connect_session transport =
      start_session transport >> or_destroy (discover AutoConfig.default_options >>= connect_first)

-- A session over a new TCP transport for a stream.
unfoldable pub connect_stream :
    {A U : Type 0}
    → Sockets A U
    → TcpMode
    → BenchOptions
    → ℕ
    → Program (Session (TcpTransport × U) × (TcpTransport × U)) (Unit {0})
connect_stream sockets mode options stream (session, (transport, u)) =
    connect_session (tcp_transport sockets)
      (session, (new_transport mode (endpoint_for_stream options stream), u))

abbrev pub payload_byte : ℕ
payload_byte = 165

-- The loops of the threads, on a state `W` of the world and the bytes of the result; `now` is the steady
-- clock in nanoseconds.
module _ {W : Type 0} where
  unfoldable pub count_bytes : ℕ → Program (W × ℕ) (Unit {0})
  count_bytes n (w, bytes) = some (ok tt, (w, (bytes + n) % 2 ^ 64))

  -- The loop goes on as long as bytes arrive: as much fuel as bytes, and one more, is enough.
  unfoldable pub server_loop : (ℕ → Program W Text) → ℕ → ℕ → Program (W × ℕ) (Unit {0})
  server_loop receive_into zero chunk = λ s. none
  server_loop receive_into (suc fuel) chunk = on_world (receive_into chunk) >>= λ received.
      if is_empty received
      then pure tt
      else count_bytes (length received) >> server_loop receive_into fuel chunk

  module _ (now : W → ℕ × W) where
    -- The loop reads the clock once in a round, and as much fuel as there are readings before the
    -- deadline, and one more, is enough.
    unfoldable pub client_loop : (Text → Program W ℕ) → ℕ → ℕ → Text → Program (W × ℕ) (Unit {0})
    client_loop send zero deadline payload = λ s. none
    client_loop send (suc fuel) deadline payload = on_world (call now) >>= λ time.
        if ltb time deadline
        then (on_world (send payload) >>= count_bytes) >> client_loop send fuel deadline payload
        else pure tt

    -- The elapsed time.
    unfoldable pub server_stream : (ℕ → Program W Text) → ℕ → ℕ → Program (W × ℕ) ℕ
    server_stream receive_into fuel chunk = on_world (call now) >>= λ started.
        server_loop receive_into fuel chunk
        >> (on_world (call now) >>= λ ended. pure (ended - started))

    unfoldable pub client_stream :
        (Text → Program W ℕ) → (W → W) → ℕ → BenchOptions → Program (W × ℕ) ℕ
    client_stream send close fuel options = on_world (call now) >>= λ started.
        client_loop send fuel (started + options.seconds * 1000000000)
          (replicate options.chunk_bytes payload_byte)
        >> on_world (run close)
        >> (on_world (call now) >>= λ ended. pure (ended - started))

-- The end of a thread: the session is destroyed, and an exception becomes a part of the result.
unfoldable pub thread_result :
    {V : Type 0}
    → Option (Result ℕ × ((Session V × V) × ℕ))
    → Option (StreamResult × (Session V × V))
thread_result none = none
thread_result (some (ok elapsed, (s, bytes))) =
    some
      (record { bytes = bytes; elapsed = elapsed; error = none }, (no_session, destroy_session s))
thread_result (some (err error, (s, bytes))) =
    some
      (record { bytes = bytes; elapsed = 0; error = some error }, (no_session, destroy_session s))

module _ {A U : Type 0} (sockets : Sockets A U)
    (now : Session (TcpTransport × U) × (TcpTransport × U)
      → ℕ × (Session (TcpTransport × U) × (TcpTransport × U))) where
  unfoldable pub server_thread :
      ℕ
      → BenchOptions
      → ℕ
      → Session (TcpTransport × U) × (TcpTransport × U)
      → Option (StreamResult × (Session (TcpTransport × U) × (TcpTransport × U)))
  server_thread fuel options stream s = thread_result (
      (on_world (connect_stream sockets server options stream)
          >> server_stream now Session.receive_into fuel options.chunk_bytes)
        (s, 0))

  unfoldable pub client_thread :
      ℕ
      → BenchOptions
      → ℕ
      → Session (TcpTransport × U) × (TcpTransport × U)
      → Option (StreamResult × (Session (TcpTransport × U) × (TcpTransport × U)))
  client_thread fuel options stream s = thread_result (
      (on_world (connect_stream sockets client options stream)
          >> client_stream now Session.send Session.close fuel options)
        (s, 0))
