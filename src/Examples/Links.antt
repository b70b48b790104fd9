-- ===== src/Examples/Links.antt =====
-- Examples of negotiations and sessions.
use hyper_link.Base.{
  ℕ, ◌≡◌, ◌≢◌, ◌↔◌, refl, arith, true, false, some, none, List, [], ◌∷◌, codes, ok,
}
use hyper_link.Base.Program.{pure}
use hyper_link.AutoConfig.{
  AutoConfigOptions, NegotiatedConfig, host, device, default_options, shared_config, negotiate,
  profile_from_rank, resolve_mode, balanced, throughput, validate, require_valid,
}
use hyper_link.AutoConfig.Negotiation.{
  IsValid, IsShared, negotiate-IsShared, negotiate_roles, AreOpposite,
}
use hyper_link.Session.{
  open_session, Transport, Session, PeerInfo, unknown, send, receive, receive_into, move_assign,
  move_construct,
}
use hyper_link.Session.Protocol.{
  Event, Request, send_request, close_request, connect_request, Returns, logged, run, replay,
  session_follows_protocol,
}
use hyper_link.Session.Moves.{IsIdle, move_assign-IsIdle, move_construct-dangling}

abbrev other_options : AutoConfigOptions
other_options = record default_options {
  mode = host;
  profile = throughput;
  preferred_packet_bytes = 4096;
}

default_options-IsValid : IsValid default_options
default_options-IsValid = record {
  large_enough = omega arith;
  small_enough = omega arith;
  timed = refl;
}

other_options-IsValid : IsValid other_options
other_options-IsValid = record {
  large_enough = omega arith;
  small_enough = omega arith;
  timed = refl;
}

negotiate-IsShared_example :
    (c : NegotiatedConfig) × (negotiate default_options other_options (codes "link") ≡ ok c)
    × IsShared default_options other_options (codes "link") c
negotiate-IsShared_example =
    negotiate-IsShared default_options other_options (codes "link") default_options-IsValid
      other_options-IsValid

abbrev here : NegotiatedConfig
here = record {
  local_mode = device;
  profile = balanced;
  packet_bytes = 4096;
  encryption_enabled = true;
  session_name = codes "link";
}

abbrev there : NegotiatedConfig
there = record here { local_mode = host }

negotiated_here : negotiate default_options other_options (codes "link") ≡ ok here
unfolding negotiate shared_config resolve_mode profile_from_rank require_valid validate
negotiated_here = refl

negotiated_there : negotiate other_options default_options (codes "link") ≡ ok there
unfolding negotiate shared_config resolve_mode profile_from_rank require_valid validate
negotiated_there = refl

negotiate_roles_example :
    AreOpposite here.local_mode there.local_mode ↔ (default_options.mode ≢ other_options.mode)
negotiate_roles_example =
    negotiate_roles default_options other_options (codes "link") here there negotiated_here
      negotiated_there

-- A transport that counts the bytes that it was given.
abbrev counting : Transport ℕ
counting = record {
  discover = λ options. pure [];
  connect = λ peer config. pure tt;
  send = λ payload w. some (ok 1, w);
  receive = λ max_bytes. pure [];
  receive_into = λ size. pure [];
  close = λ w. 0;
  destroy = λ w. w;
}

counting-Returns : Returns counting
counting-Returns = record {
  discovers = λ options w. ground arith;
  connects = λ peer config w. ground arith;
  sends = λ payload w. ground arith;
  receives = λ n w. ground arith;
  receives_into = λ n w. ground arith;
}

abbrev peer : PeerInfo
peer = record {
  id = codes "tcp";
  display_name = codes "TCP peer";
  vendor_id = 0;
  product_id = 0;
  usb_speed = unknown;
  theoretical_bits_per_second = 0;
  supports_high_speed = false;
  supports_super_speed = false;
}

abbrev new_session : Session (ℕ × List Event)
new_session = record { transport = some (logged counting); connected = false }

abbrev requests : List Request
requests =
    send_request (codes "early")
    ∷ connect_request peer default_options other_options (codes "link")
    ∷ send_request (codes "data")
    ∷ close_request
    ∷ close_request
    ∷ []

session_follows_protocol_example :
    (session' : Session (ℕ × List Event)) × (w' : ℕ) × (log : List Event) × (run requests
        (new_session, (7, []))
      ≡ some (session', (w', log)))
    × (replay false log ≡ some session'.connected)
unfolding open_session
session_follows_protocol_example =
    session_follows_protocol counting new_session 7 requests counting-Returns refl

abbrev other_session : Session ℕ
other_session = record { transport = some counting; connected = true }

move_assign-IsIdle_example :
    let (target, rest, w') =
      move_assign (record { transport = some counting; connected = true }) other_session 7 in
    (target ≡ other_session) × (w' ≡ 0) × IsIdle rest w'
move_assign-IsIdle_example = move_assign-IsIdle counting other_session 7

move_construct-dangling_example :
    let (session, rest) = move_construct (record { transport = some counting; connected = true }) in
    (session ≡ record { transport = some counting; connected = true })
    × (send (codes "data") (rest, 7) ≡ none)
    × (receive 16 (rest, 7) ≡ none)
    × (receive_into 16 (rest, 7) ≡ none)
move_construct-dangling_example = move_construct-dangling counting 7 (codes "data") 16
