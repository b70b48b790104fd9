-- ===== src/Session/Moves.antt =====
-- What is left of a session that was closed or moved from.
use hyper_link.Base.{◌≡◌, refl, ℕ, Bool, true, false, Option, none, some, Text, err}
use hyper_link.Session.{
  Transport, Session, call, require_connected, send, receive, receive_into, close, delete,
  move_construct, move_assign, not_connected,
}

-- A session that refuses to move data, leaves the world alone, and has nothing to close.
abbrev pub IsIdle : {W : Type 0} → Session W → W → Type 0
IsIdle session w =
    ((payload : Text) → send payload (session, w) ≡ some (err not_connected, (session, w)))
    × ((max_bytes : ℕ) → receive max_bytes (session, w) ≡ some (err not_connected, (session, w)))
    × ((size : ℕ) → receive_into size (session, w) ≡ some (err not_connected, (session, w)))
    × (close (session, w) ≡ (session, w))

unconnected-IsIdle :
    {W : Type 0} (transport : Option (Transport W)) (w : W)
    → IsIdle (record { transport = transport; connected = false }) w
unfolding send receive receive_into require_connected close
unconnected-IsIdle none w = (λ payload. refl, λ n. refl, λ n. refl, refl)
unconnected-IsIdle (some transport) w = (λ payload. refl, λ n. refl, λ n. refl, refl)

-- After `close`, a session that holds a transport refuses to send and to receive, and closes nothing more.
pub close-IsIdle :
    {W : Type 0} (transport : Transport W) (connected : Bool) (w : W)
    → IsIdle
        (close (record { transport = some transport; connected = connected }, w)).0
        (close (record { transport = some transport; connected = connected }, w)).1
unfolding close
close-IsIdle transport true w = unconnected-IsIdle (some transport) _
close-IsIdle transport false w = unconnected-IsIdle (some transport) _

-- A move assignment closes a connected target before its transport is deleted, hands over the transport
-- and the connection, and leaves a session that refuses to send and to receive.
pub move_assign-IsIdle :
    {W : Type 0} (old : Transport W) (other : Session W) (w : W)
    → let (target, rest, w') =
        move_assign (record { transport = some old; connected = true }) other w in
      (target ≡ other) × (w' ≡ old.destroy (old.close w)) × IsIdle rest w'
unfolding move_assign close delete
move_assign-IsIdle old other w = (refl, refl, unconnected-IsIdle none _)

-- The move constructor leaves a connected session connected but without a transport: to send or to
-- receive over it is a call through a null pointer.
pub move_construct-dangling :
    {W : Type 0} (transport : Transport W) (w : W) (payload : Text) (size : ℕ)
    → let (session, rest) =
        move_construct (record { transport = some transport; connected = true }) in
      (session ≡ record { transport = some transport; connected = true })
      × (send payload (rest, w) ≡ none)
      × (receive size (rest, w) ≡ none)
      × (receive_into size (rest, w) ≡ none)
unfolding move_construct send receive receive_into require_connected call
move_construct-dangling transport w payload size = (refl, refl, refl, refl)
