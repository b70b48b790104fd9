-- ===== src/FileTransfer/Output/Threads.antt =====
-- The whole of `receive_file_part`: the thread of a stream, from its connection to its result.
use hyper_link.Base.{ℕ, Option, none, some, Result, ok, err}
use hyper_link.Base.Program.{◌>>◌}
use hyper_link.Session.{Session, destroy_session}
use hyper_link.Session
use hyper_link.Tcp.{Sockets, TcpTransport, server}
use hyper_link.FileTransfer.Args.{Options}
use hyper_link.FileTransfer.Streams.{StreamResult}
use hyper_link.FileTransfer.Connection.{connect_stream, no_session}
use hyper_link.FileTransfer.Output.{Files, ReceiveSharedState, Thread, on_world, receive_items}

-- The end of the thread: the session is destroyed, and an exception becomes a part of the result.
unfoldable pub thread_result :
    {V : Type 0}
    → Option (Result (Unit {0}) × Thread (Session V × V))
    → Option (StreamResult × (ReceiveSharedState × (Session V × V)))
thread_result none = none
thread_result (some (ok a, t)) =
    some
      (record { bytes = t.bytes; error = none }, (t.shared, (no_session, destroy_session t.world)))
thread_result (some (err error, t)) = some (
  record { bytes = t.bytes; error = some error },
  (t.shared, (no_session, destroy_session t.world)),
)

module _ {A U : Type 0} (sockets : Sockets A U)
    (files : Files (Session (TcpTransport × U) × (TcpTransport × U))) where
  unfoldable pub receive_file_part :
      ℕ
      → Options
      → ℕ
      → ReceiveSharedState × (Session (TcpTransport × U) × (TcpTransport × U))
      → Option
          (StreamResult × (ReceiveSharedState × (Session (TcpTransport × U) × (TcpTransport × U))))
  receive_file_part fuel options stream (shared, s) = thread_result (
      (on_world (connect_stream sockets server options stream)
          >> receive_items files Session.receive_into fuel options.output_dir)
        (record { world = s; shared = shared; bytes = 0 }))
