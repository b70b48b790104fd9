-- ===== src/Session.antt =====
-- include/hyperlink/session.hpp and src/session.cpp: a session over a transport. The transport is an
-- interface: whatever implements it is a parameter here. `none` stands for a call through a null
-- pointer, and for a call of the transport that does not return.
pub mod Protocol
pub mod Moves
pub mod Keeps
use hyper_link.Base.{
  ℕ, Bool, true, false, Option, none, some, List, [], ◌∷◌, ◌++◌, Text, codes, Error,
  invalid_argument, logic_error, Result, ok, err, if◌then◌else◌,
}
use hyper_link.Base.Program.{Program, ◌>>=◌, ◌>>◌, pure, throw, lift}
use hyper_link.AutoConfig.{AutoConfigOptions, NegotiatedConfig, negotiate, require_valid}

pub data UsbSpeed : Type 0 where
  unknown low_speed full_speed high_speed super_speed super_speed_plus : UsbSpeed
  usb4_20gbps usb4_40gbps usb4_80gbps : UsbSpeed

pub record PeerInfo : Type 0 where
  pub id : Text
  pub display_name : Text
  pub vendor_id : ℕ
  pub product_id : ℕ
  pub usb_speed : UsbSpeed
  pub theoretical_bits_per_second : ℕ
  pub supports_high_speed : Bool
  pub supports_super_speed : Bool

-- The virtual functions of `Transport`, in a state `W` of the world. `receive_into` takes the size of the
-- buffer and returns the bytes that it wrote there; `close` and the destructor do not throw.
pub record Transport (W : Type 0) : Type 0 where
  pub discover : AutoConfigOptions → Program W (List PeerInfo)
  pub connect : PeerInfo → NegotiatedConfig → Program W (Unit {0})
  pub send : Text → Program W ℕ
  pub receive : ℕ → Program W Text
  pub receive_into : ℕ → Program W Text
  pub close : W → W
  pub destroy : W → W

pub record Session (W : Type 0) : Type 0 where
  pub transport : Option (Transport W)
  pub connected : Bool

unfoldable pub not_connected : Error
not_connected = logic_error (codes "Session is not connected")

unfoldable pub usb_speed_to_string : UsbSpeed → Text
usb_speed_to_string unknown = codes "unknown"
usb_speed_to_string low_speed = codes "USB low-speed"
usb_speed_to_string full_speed = codes "USB full-speed"
usb_speed_to_string high_speed = codes "USB high-speed"
usb_speed_to_string super_speed = codes "USB 5Gbps"
usb_speed_to_string super_speed_plus = codes "USB 10Gbps/20Gbps"
usb_speed_to_string usb4_20gbps = codes "USB4 20Gbps"
usb_speed_to_string usb4_40gbps = codes "USB4 40Gbps"
usb_speed_to_string usb4_80gbps = codes "USB4/USB 80Gbps"

module _ {W : Type 0} where
  -- The constructor.
  unfoldable pub open_session : Option (Transport W) → Result (Session W)
  open_session none = err (invalid_argument (codes "Session requires a transport"))
  open_session (some transport) = ok (record { transport = some transport; connected = false })

  -- `transport_->operation(...)`.
  unfoldable pub call : {A : Type 0} → (Transport W → Program W A) → Program (Session W × W) A
  call operation (session, w) = elim session.transport [
    | none ↦ none
    | some transport ↦ elim (operation transport w) [
      | none ↦ none
      | some (result, w') ↦ some (result, (session, w'))
    ]
  ]

  unfoldable pub require_connected : Program (Session W × W) (Unit {0})
  require_connected (session, w) =
      if session.connected
      then some (ok tt, (session, w))
      else some (err not_connected, (session, w))

  -- `connected_ = true;`
  unfoldable pub mark_connected : Program (Session W × W) (Unit {0})
  mark_connected (session, w) = some (ok tt, (record session { connected = true }, w))

  unfoldable pub discover : AutoConfigOptions → Program (Session W × W) (List PeerInfo)
  discover options =
      lift (require_valid [] options) >> call (λ transport. transport.discover options)

  unfoldable pub connect :
      PeerInfo → AutoConfigOptions → AutoConfigOptions → Text → Program (Session W × W) (Unit {0})
  connect peer local_options peer_options session_name =
      lift (negotiate local_options peer_options session_name) >>= λ config.
      call (λ transport. transport.connect peer config) >> mark_connected

  unfoldable pub send : Text → Program (Session W × W) ℕ
  send payload = require_connected >> call (λ transport. transport.send payload)

  unfoldable pub receive : ℕ → Program (Session W × W) Text
  receive max_bytes = require_connected >> call (λ transport. transport.receive max_bytes)

  unfoldable pub receive_into : ℕ → Program (Session W × W) Text
  receive_into size = require_connected >> call (λ transport. transport.receive_into size)

  unfoldable pub close : Session W × W → Session W × W
  close (session, w) = elim session.transport [
    | none ↦ (session, w)
    | some transport ↦
        if session.connected
        then (record session { connected = false }, transport.close w)
        else (session, w)
  ]

  -- The deletion of what a `unique_ptr` holds.
  unfoldable pub delete : Option (Transport W) → W → W
  delete none w = w
  delete (some transport) w = transport.destroy w

  -- The destructor, whose last step is the one of `transport_`.
  unfoldable pub destroy_session : Session W × W → W
  destroy_session state = let (session, w) = close state in delete session.transport w

  -- The move constructor, which is the defaulted one: it returns the new session and what is left of
  -- the old one.
  unfoldable pub move_construct : Session W → Session W × Session W
  move_construct other = (other, record other { transport = none })

  -- The move assignment to another object: it returns the target, what is left of `other`, and the world.
  unfoldable pub move_assign : Session W → Session W → W → Session W × Session W × W
  move_assign target other w =
      let (closed, w') = close (target, w) in
      (
        record { transport = other.transport; connected = other.connected },
        record { transport = none; connected = false },
        delete closed.transport w',
      )
