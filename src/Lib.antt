-- ===== src/Lib.antt =====
-- HyperLink: links between two hosts over a cable, and the tools that move files over them.
--
-- The program. A `Session` (include/hyperlink/session.hpp, src/session.cpp) drives a `Transport` with
-- settings that two ends negotiate (src/auto_config.cpp). A receiver advertises itself in datagrams, and
-- a sender collects them, probes the peers and takes the fastest (src/peer_discovery.cpp). The tool
-- `hyperlink_file` (examples/file_transfer.cpp) cuts a file into one byte range for each stream and puts
-- a header before each part; directories go entry by entry, or through `tar`. The tool `hyperlink`
-- (examples/cli.cpp) runs the other tools through the shell; `hyperlink_bench` (examples/bench.cpp)
-- measures a link.
--
-- The files.
--   Base: lists, byte strings, exceptions as values (`Result`), programs with a state (`Program`),
--     orders and the insertion sort that stands for `std::ranges::sort`.
--   AutoConfig: `validate` and `negotiate`. Session: the class `Session`, one function for each member;
--     a transport is a record of operations on a state of the world, so that all theorems hold for
--     every transport. Session/Protocol runs any list of a client's requests over a transport that
--     keeps a log, Session/Keeps any over a transport with an invariant; Session/Moves is about closing
--     and moving.
--   FileTransfer: Wire (`write_u64_be`, `read_u64_be`, `make_header`), Receive (`receive_exact`,
--     `receive_header`, `receive_header_optional`), Names (`safe_file_name`, `safe_relative_path`),
--     Output (what `receive_file_part` and the other receivers write, over the record `Files` of the
--     calls of the file system; Output/Schedule interleaves the threads, a turn of a thread being what
--     it does up to its loop, or one round of the loop; Output/Part is about the code of one part), Send
--     (`send_file_range` and `send_directory_items`, over the record `Inputs` of the calls that read
--     files; Send/Stays and Send/Closing are about what a thread leaves behind, Send/Discovered about
--     the start of `run_send`), Connection (`connect_session`), Partition
--     (`partition_directory_items`; the order that `std::sort` gives to equals is a parameter),
--     Streams (`byte_range_for_stream`, `rethrow_first_error`, `total_bytes`), Quote (`shell_quote` and
--     the `tar` commands), Args (`parse_args`).
--   CommandLine: the loop over `argv` and `std::stoul`, which the three parsers share. Bench, Cli: the
--     parsers of `hyperlink_bench` and `hyperlink`; Bench/Run the threads of the benchmark; Cli/Run the
--     commands that `hyperlink` runs.
--   Tcp: the POSIX variant of src/network_transport.cpp, over the record `Sockets` of the calls of the
--     system. Tcp/Ledger keeps a ledger of the open descriptors beside them, Tcp/Ownership and Tcp/Closing
--     are about who closes them, Tcp/Sending about a `send` call that takes a part of the bytes.
--   Usb: the transport of src/usb_libusb_transport.cpp, over the record `Libusb`. Cli/Dispatch:
--     `main` and `find_on_path` of `hyperlink`.
--   Shell: how a POSIX shell splits a command into words, which is no code of the program.
--   PeerDiscovery: Decimal, Ipv4, Advertisement (the responder's options and `start`'s checks, and
--     `parse_peer_advertisement_for_testing`), Ranking (`deduplicate_candidates`, `rank_candidates`,
--     `select_fastest_peer_for_testing`), over the record Network of the system calls (POSIX): Targets
--     (`enumerate_discovery_targets`), Replies (`receive_discovery_replies`), Probe (`probe_tcp_receive`),
--     Client (`PeerDiscovery` and the test harness), Responder (`start`, `stop` and the sockets;
--     Responder/Serving the functions of the threads, Responder/Switch the switch that it refines).
--     Network/Accounts says what the calls do to the sockets that are open and to the time that is
--     left. A rate, a `double` in the program, is a type with a linear order.
--   Examples: the theorems at concrete inputs.
--
-- Numbers, loops and state. A number is a natural number with the wrap-around of its type written out; a
-- `size_t` and an `unsigned long` have 64 bits. A byte string is a list of numbers. A throw is an `err`
-- with the message. The read loops take as fuel the number of bytes that are wanted, which is enough
-- since a read delivers at least one byte or ends the loop, and so do the loops that copy payloads; the
-- loop of `receive_file_part` takes one unit for each header, and one for the end; decimal printing takes
-- the number plus one.
-- The loops of peer discovery with a deadline take one unit for each reading of the clock before it,
-- and those of the responder's threads one for each reading of the flag `running_` as set.
-- A thread of the responder is the socket that it owns until it is joined; what `std::terminate` does
-- to an exception of its function is not modelled. All other loops are structural. What `recv` does is the hypothesis `IsStream`: it delivers between
-- one byte and the number that was asked for, in order, or finds the connection closed.
--
-- Not modelled: sockets, threads, clocks and the file system themselves, the Windows variants, output to
-- the terminal, what `hyperlink_file` does around its threads and with the pipes of
-- `tar`, and the walk through a directory. `Tcp.send` leaves out the signal SIGPIPE, and
-- `wait_for_socket` the limit FD_SETSIZE. The timeouts of `PeerDiscoveryOptions` are natural numbers
-- of milliseconds, where the program's type is signed. Rates are linearly ordered, so that NaN and a
-- negative zero, which a measured rate never is, are left out. Paths are resolved by their text:
-- symbolic links in the output directory are not followed.
pub mod Base
pub mod AutoConfig
pub mod CommandLine
pub mod Session
pub mod Tcp
pub mod Usb
pub mod Cli
pub mod Bench
mod Examples
pub mod FileTransfer
pub mod PeerDiscovery
pub mod Shell
