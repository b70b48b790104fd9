-- ===== src/Examples/Senders.antt =====
-- An example of a sender's thread over a small network.
use hyper_link.Base.{ℕ, ◌≡◌, refl, true, some, ◌∷◌, [], Text, codes, ok}
use hyper_link.Session.{Session}
use hyper_link.Tcp.{TcpTransport, client, new_transport}
use hyper_link.Tcp.Ledger.{Ledger, Balanced, counted, counted-Accounts, empty_ledger}
use hyper_link.FileTransfer.Args.{default_options}
use hyper_link.FileTransfer.Streams.{StreamResult}
use hyper_link.FileTransfer.Connection.{no_session, endpoint_for_stream}
use hyper_link.FileTransfer.Send.{Inputs, send_file_range}
use hyper_link.FileTransfer.Send.Closing.{Reads, sender_closes}
use hyper_link.Examples.Sockets.{network}

abbrev World : Type 0
World = Session (TcpTransport × ((ℕ × Text) × Ledger)) × (TcpTransport × ((ℕ × Text) × Ledger))

-- A file of one byte, again and again.
abbrev endless : Inputs World
endless = record {
  open_input = λ path w. (true, w);
  seek = λ path n w. (true, w);
  read = λ path position n w. (7 ∷ [], w);
  read_symlink = λ path w. (ok [], w);
}

endless-Reads : Reads (counted network) (λ (v, l). l) (counted-Accounts network) endless
endless-Reads = record {
  open_input_reads = λ path w. (refl, refl, refl);
  seek_reads = λ path n w. (refl, refl, refl);
  read_reads = λ path p n w. (refl, refl, refl);
}

sender_closes_example :
    (result : StreamResult) × (t' : TcpTransport) × (u : (ℕ × Text) × Ledger) × (send_file_range
        (counted network)
        endless
        default_options
        (codes "in")
        (codes "f")
        5
        3
        2
        1
        (
          no_session,
          (new_transport client (endpoint_for_stream default_options 1), ((3, []), empty_ledger)),
        )
      ≡ some (result, (no_session, (t', u))))
    × Balanced u.1 (λ x. 0)
sender_closes_example =
    sender_closes network endless default_options (codes "in") (codes "f") 5 3 2 1
      (new_transport client (endpoint_for_stream default_options 1)) (3, []) endless-Reads
