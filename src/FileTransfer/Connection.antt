-- ===== src/FileTransfer/Connection.antt =====
-- The connections of the streams: `connect_session` and `endpoint_for_stream`.
use hyper_link.Base.{
  ℕ, ◌+◌, ◌*◌, ◌%◌, ◌^◌, false, none, some, List, [], ◌∷◌, codes, Error, runtime_error, ok, err,
}
use hyper_link.Base.Program.{Program, ◌>>=◌, ◌>>◌, throw}
use hyper_link.AutoConfig.{default_options}
use hyper_link.Session.{
  PeerInfo, Transport, Session, open_session, discover, connect, destroy_session,
}
use hyper_link.Tcp.{TcpEndpoint, TcpMode, TcpTransport, Sockets, new_transport, tcp_transport}
use hyper_link.FileTransfer.Args.{Options}

unfoldable pub no_peers : Error
no_peers = runtime_error (codes "transport returned no peers")

abbrev pub stream_buffer_bytes : ℕ
stream_buffer_bytes = 8 * 1024 * 1024

unfoldable pub endpoint_for_stream : Options → ℕ → TcpEndpoint
endpoint_for_stream options stream = record {
  host = options.host;
  port = (options.port + stream) % 2 ^ 16;
  send_buffer_bytes = stream_buffer_bytes;
  receive_buffer_bytes = stream_buffer_bytes;
}

-- No session: what stands in the place of one that is not constructed yet, or is destroyed.
abbrev pub no_session : {V : Type 0} → Session V
no_session = record { transport = none; connected = false }

module _ {V : Type 0} where
  -- The session is constructed; the state has a place for it.
  unfoldable pub start_session : Transport V → Program (Session V × V) (Unit {0})
  start_session transport (session, v) = elim (open_session (some transport)) [
    | err error ↦ some (err error, (session, v))
    | ok opened ↦ some (ok tt, (opened, v))
  ]

  -- An exception destroys the session.
  unfoldable pub or_destroy : {A : Type 0} → Program (Session V × V) A → Program (Session V × V) A
  or_destroy m s = elim (m s) [
    | none ↦ none
    | some (ok a, s') ↦ some (ok a, s')
    | some (err error, s') ↦ some (err error, (no_session, destroy_session s'))
  ]

  unfoldable pub connect_first : List PeerInfo → Program (Session V × V) (Unit {0})
  connect_first [] = throw no_peers
  connect_first (peer ∷ peers) =
      connect peer default_options default_options (codes "hyperlink-file")

  unfoldable pub connect_session : Transport V → Program (Session V × V) (Unit {0})
  connect_session transport =
      start_session transport >> or_destroy (discover default_options >>= connect_first)

-- A session over a new TCP transport for a stream.
unfoldable pub connect_stream :
    {A U : Type 0}
    → Sockets A U
    → TcpMode
    → Options
    → ℕ
    → Program (Session (TcpTransport × U) × (TcpTransport × U)) (Unit {0})
connect_stream sockets mode options stream (session, (transport, u)) =
    connect_session (tcp_transport sockets)
      (session, (new_transport mode (endpoint_for_stream options stream), u))
