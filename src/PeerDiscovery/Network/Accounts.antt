-- ===== src/PeerDiscovery/Network/Accounts.antt =====
-- What the system calls do to the sockets that are open, and to the time that is left.
use hyper_link.Base.{ℕ, ◌+◌, ◌≤◌, ◌<◌, ◌≡◌, true, Option, List, [], ◌∷◌, Text}
use hyper_link.Base.Program.{Program}
use hyper_link.Base.Triple.{Yields}
use hyper_link.Base.Int.{ℤ}
use hyper_link.Tcp.Ledger.{Ledger, Balanced, close_one, opened, only}
use hyper_link.PeerDiscovery.Network.{Network, SocketType, Ipv4Endpoint, bytes_moved}

-- A view of the world: the sockets that are open, and how often it can still read the clock before a
-- deadline and the flag of a responder as set.
pub record View (W : Type 0) : Type 0 where
  pub ledger : W → Ledger
  pub ticks : ℕ → W → ℕ
  pub turns : W → ℕ

-- What the handles of a list count.
abbrev pub owned_by : List ℕ → ℕ → ℕ
owned_by [] x = 0
owned_by (socket ∷ sockets) x = only socket x + owned_by sockets x

module _ {W : Type 0} (view : View W) where
  -- The open sockets are those that `owned` counts.
  abbrev pub Held : (ℕ → ℕ) → W → Type 0
  Held owned w = Balanced (view.ledger w) owned

  module _ (deadline : ℕ) where
    -- And fewer than `t` readings of the clock before the deadline and `n` of the flag are left.
    abbrev pub Safe : ℕ → ℕ → (ℕ → ℕ) → W → Type 0
    Safe t n owned w = Held owned w × (view.ticks deadline w < t) × (view.turns w < n)

    -- A step that keeps its sockets, whatever it ends with.
    abbrev pub Stays : {A : Type 0} → ℕ → ℕ → (ℕ → ℕ) → Program W A → Type 0
    Stays t n owned m = Yields (Safe t n owned) (λ a. Safe t n owned) (Held owned) m

module _ {W : Type 0} (net : Network W) (view : View W) where
  -- No more time is left behind a call than before it.
  abbrev pub Later : W → W → Type 0
  Later w w' =
      ((deadline : ℕ) → view.ticks deadline w' ≤ view.ticks deadline w)
      × (view.turns w' ≤ view.turns w)

  -- A call that neither opens nor closes a socket, and one that may open one.
  abbrev pub Steady : W → W → Type 0
  Steady w w' = (view.ledger w' ≡ view.ledger w) × Later w w'

  abbrev pub Opens : W → Option ℕ × W → Type 0
  Opens w (handle, w') = (view.ledger w' ≡ opened handle (view.ledger w)) × Later w w'

  -- Only `socket` and `accept` open sockets and only `close` closes them; the clock reaches every
  -- deadline after finitely many readings, and the flag is reset after finitely many.
  pub record Accounts : Type 0 where
    pub socket_opens : (type : SocketType) (w : W) → Opens w (net.socket type w)
    pub accept_opens : (d : ℕ) (w : W) → Opens w (net.accept d w)
    pub close_closes :
        (d : ℕ) (w : W)
        → (view.ledger (net.close d w) ≡ close_one d (view.ledger w)) × Later w (net.close d w)
    pub set_option_steady : (d : ℕ) (w : W) → Steady w (net.set_option d w)
    pub get_flags_steady : (d : ℕ) (w : W) → Steady w (net.get_flags d w).1
    pub set_flag_steady : (d f : ℕ) (w : W) → Steady w (net.set_nonblocking_flag d f w).1
    pub bind_steady : (d : ℕ) (e : Ipv4Endpoint) (w : W) → Steady w (net.bind d e w).1
    pub listen_steady : (d : ℕ) (w : W) → Steady w (net.listen d w).1
    pub connect_steady : (d : ℕ) (e : Ipv4Endpoint) (w : W) → Steady w (net.connect d e w).1
    pub socket_error_steady : (d : ℕ) (w : W) → Steady w (net.socket_error d w).1
    pub select_steady : (r s : List ℕ) (t : ℤ) (w : W) → Steady w (net.select r s t w).1
    pub send_steady : (d n : ℕ) (w : W) → Steady w (net.send d n w).1
    pub recv_steady : (d n : ℕ) (w : W) → Steady w (net.recv d n w).1
    pub recv_fits : (d n k : ℕ) (w : W) → (net.recv d n w).0 ≡ bytes_moved k → k ≤ n
    pub sendto_steady :
        (d : ℕ) (payload : Text) (e : Ipv4Endpoint) (w : W) → Steady w (net.sendto d payload e w).1
    pub recvfrom_steady : (d n : ℕ) (w : W) → Steady w (net.recvfrom d n w).1
    pub now_steady : (w : W) → Steady w (net.now w).1
    pub now_ticks :
        (deadline : ℕ) (w : W)
        → (net.now w).0 < deadline
        → view.ticks deadline (net.now w).1 < view.ticks deadline w
    pub running_steady : (w : W) → Steady w (net.running w).1
    pub running_turns :
        (w : W) → (net.running w).0 ≡ true → view.turns (net.running w).1 < view.turns w
