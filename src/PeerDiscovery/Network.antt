-- ===== src/PeerDiscovery/Network.antt =====
-- src/peer_discovery.cpp: the handles of its sockets, `ipv4_endpoint`, `set_nonblocking` and
-- `wait_for_socket`, over an interface of the system calls (the POSIX variant).
pub mod Accounts
pub mod Flag
pub mod Handles
pub mod Scopes
use hyper_link.Base.{
  ℕ, ◌-◌, ◌/◌, Bool, true, false, Option, none, some, List, [], ◌∷◌, ◌++◌, Text, codes, leb,
  if◌then◌else◌, Error, runtime_error, peer_discovery_error, Result, ok, err,
}
use hyper_link.Base.Int.{ℤ, pos, minus, is_positive}
use hyper_link.Base.Program.{Program, ◌>>=◌, ◌>>◌, pure, throw, lift}
use hyper_link.Base.Triple.{call, run}

-- `SOCK_DGRAM` and `SOCK_STREAM`.
pub data SocketType : Type 0 where
  datagram stream : SocketType

-- `sockaddr_in`: an address as a 32-bit number, and a port.
pub record Ipv4Endpoint : Type 0 where
  pub address : ℕ
  pub port : ℕ

-- What `select` returns: a negative number, zero, or a positive number with the sets that it leaves.
pub data Selected : Type 0 where
  select_failed : Selected
  nothing_ready : Selected
  some_ready : (readable : ℕ → Bool) → (writable : ℕ → Bool) → Selected

-- What `connect` returns on a socket that does not block.
pub data Connecting : Type 0 where
  connected in_progress refused : Connecting

-- What `send` and `recv` return on such a socket: a number of bytes, `EWOULDBLOCK` or `EAGAIN`, or
-- another error.
pub data Moved : Type 0 where
  bytes_moved : ℕ → Moved
  would_block : Moved
  move_failed : Moved

-- The system calls on a state `W` of the world. A test is true on success, `none` stands for an invalid
-- socket; `now` is the steady clock in nanoseconds, and `select` takes microseconds. `set_option` is
-- the call of `setsockopt` whose result is not checked, and `socket_error` the one of `getsockopt`.
pub record Network (W : Type 0) : Type 0 where
  pub socket : SocketType → W → Option ℕ × W
  pub set_option : ℕ → W → W
  pub get_flags : ℕ → W → Option ℕ × W
  pub set_nonblocking_flag : ℕ → ℕ → W → Bool × W
  pub bind : ℕ → Ipv4Endpoint → W → Bool × W
  pub listen : ℕ → W → Bool × W
  pub accept : ℕ → W → Option ℕ × W
  pub connect : ℕ → Ipv4Endpoint → W → Connecting × W
  pub socket_error : ℕ → W → Option ℕ × W
  pub select : List ℕ → List ℕ → ℤ → W → Selected × W
  pub send : ℕ → ℕ → W → Moved × W
  pub recv : ℕ → ℕ → W → Moved × W
  pub sendto : ℕ → Text → Ipv4Endpoint → W → Bool × W
  pub recvfrom : ℕ → ℕ → W → Option (Text × Ipv4Endpoint) × W
  pub close : ℕ → W → W
  pub now : W → ℕ × W
  pub running : W → Bool × W
  pub last_socket_error : W → Text
  pub strerror : ℕ → Text
  pub inet_pton : Text → Option ℕ
  pub inet_ntop : ℕ → Option Text

unfoldable pub invalid_address : Text → Error
invalid_address host = peer_discovery_error (codes "invalid IPv4 address: " ++ host)

unfoldable pub not_configured : Text → Error
not_configured message = runtime_error (codes "could not configure TCP probe: " ++ message)

unfoldable pub timed_out : Error
timed_out = runtime_error (codes "probe timed out")

unfoldable pub wait_failed : Text → Error
wait_failed message = runtime_error (codes "probe wait failed: " ++ message)

-- `duration_cast<microseconds>(deadline - now)`, which rounds towards zero.
unfoldable pub remaining_us : ℕ → ℕ → ℤ
remaining_us deadline now =
    if leb now deadline then pos ((deadline - now) / 1000) else minus ((now - deadline) / 1000)

module _ {W : Type 0} (net : Network W) where
  -- `throw` with the text of the last error of a socket.
  abbrev pub throw_last : {A : Type 0} → (Text → Error) → Program W A
  throw_last error w = some (err (error (net.last_socket_error w)), w)

  -- A check whose failure throws so.
  abbrev pub require : (Text → Error) → (W → Bool × W) → Program W (Unit {0})
  require error operation = do done ← call operation; if done then pure tt else throw_last error

  unfoldable pub ipv4_endpoint : Text → ℕ → Result Ipv4Endpoint
  ipv4_endpoint host port = elim (net.inet_pton host) [
    | none ↦ err (invalid_address host)
    | some address ↦ ok (record { address = address; port = port })
  ]

  unfoldable pub ipv4_string : ℕ → Text
  ipv4_string address = elim (net.inet_ntop address) [ none ↦ [] | some text ↦ text ]

  unfoldable pub opened_socket : (Text → Error) → Option ℕ → Program W ℕ
  opened_socket error none = throw_last error
  opened_socket error (some socket) = pure socket

  unfoldable pub open_socket : SocketType → (Text → Error) → Program W ℕ
  open_socket type error = call (net.socket type) >>= opened_socket error

  -- A handle is an open socket. Its destructor closes it, behind a result and behind an exception.
  unfoldable pub with_handle : {A : Type 0} → ℕ → Program W A → Program W A
  with_handle socket body w = elim (body w) [
    | none ↦ none
    | some (result, w') ↦ some (result, net.close socket w')
  ]

  -- A handle that is returned is not closed, but one that an exception passes is.
  unfoldable pub keep_handle : ℕ → Program W (Unit {0}) → Program W ℕ
  keep_handle socket body w = elim (body w) [
    | none ↦ none
    | some (ok _, w') ↦ some (ok socket, w')
    | some (err error, w') ↦ some (err error, net.close socket w')
  ]

  -- The handles of a vector that is destroyed.
  unfoldable pub close_all : List ℕ → W → W
  close_all [] w = w
  close_all (socket ∷ sockets) w = close_all sockets (net.close socket w)

  -- `flags | O_NONBLOCK` is a part of the second call.
  unfoldable pub set_flags : ℕ → Option ℕ → Program W (Unit {0})
  set_flags socket none = throw_last not_configured
  set_flags socket (some flags) = require not_configured (net.set_nonblocking_flag socket flags)

  unfoldable pub set_nonblocking : ℕ → Program W (Unit {0})
  set_nonblocking socket = call (net.get_flags socket) >>= λ flags. set_flags socket flags

  unfoldable pub check_selected : Selected → Program W (Unit {0})
  check_selected select_failed = throw_last wait_failed
  check_selected nothing_ready = throw timed_out
  check_selected (some_ready readable writable) = pure tt

  unfoldable pub select_one : ℕ → Bool → ℤ → Program W Selected
  select_one socket true timeout = call (net.select [] (socket ∷ []) timeout)
  select_one socket false timeout = call (net.select (socket ∷ []) [] timeout)

  unfoldable pub wait_for_socket : ℕ → Bool → ℕ → Program W (Unit {0})
  wait_for_socket socket write deadline = do
    now ← call net.now
    if is_positive (remaining_us deadline now)
        then select_one socket write (remaining_us deadline now) >>= check_selected
        else throw timed_out
