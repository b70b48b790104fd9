-- ===== src/Examples/Networks.antt =====
-- A network that is written down, and the theorems on peer discovery over it.
use hyper_link.Base.{
  ℕ, zero, suc, ◌+◌, ◌-◌, ◌*◌, ◌≤◌, ◌<◌, ◌≡◌, refl, arith, true, false, Option, none, some, List,
  [], ◌∷◌, Text, codes, length, runtime_error, ◌==◌, ◌∙◌, ltb, ◌↔◌, All, Result, ok,
}
use mathlib.Core.List.{Memᴰ}
use hyper_link.Base.Order.{number_order}
use hyper_link.Base.Triple.{Ends}
use hyper_link.Base.Distinct.{Ascending}
use hyper_link.AutoConfig
use hyper_link.Session.{Session}
use hyper_link.Session.Protocol.{discover_request, send_request, close_request, run}
use hyper_link.Usb.{Device, Libusb, libusb_high, libusb_transport}
use hyper_link.Usb.Lists.{Counting, usb_sessions_free}
use hyper_link.Tcp.Ledger.{Ledger, empty_ledger, open_one, close_one, open_one-Balanced, only}
use hyper_link.FileTransfer.Args
use hyper_link.FileTransfer.Args.{Options}
use hyper_link.PeerDiscovery.{DiscoveredPeer, default_options}
use hyper_link.PeerDiscovery.Advertisement.{PeerDiscoveryResponderOptions}
use hyper_link.PeerDiscovery.Network.{
  Network, Ipv4Endpoint, connected, some_ready, bytes_moved, set_nonblocking, set_flags,
}
use hyper_link.PeerDiscovery.Network.Accounts.{View, Accounts, Held, Opens, owned_by}
use hyper_link.PeerDiscovery.Probe.{probe_tcp_receive, deadline_after}
use hyper_link.PeerDiscovery.Probe.Closing.{Measured, probe_closes}
use hyper_link.PeerDiscovery.Ranking.{Rates}
use hyper_link.PeerDiscovery.Replies.{receive_discovery_replies}
use hyper_link.PeerDiscovery.Replies.Closing.{Fits, receive_discovery_replies_closes}
use hyper_link.PeerDiscovery.Client.{select_fastest}
use hyper_link.PeerDiscovery.Client.Closing.{select_fastest_closes}
use hyper_link.PeerDiscovery.Targets.{
  DiscoveryTarget, Interface, enumerate_discovery_targets, all_targets, target_lt, loopback_target,
}
use hyper_link.PeerDiscovery.Targets.Order.{Complete, enumerate_discovery_targets-Ascending}
use hyper_link.PeerDiscovery.Responder.{Responder, Threads, new_responder}
use hyper_link.PeerDiscovery.Responder.Serving.{
  ActiveProbe, probe_round, serve_probes, sockets_of, maximum_concurrent_probe_clients,
}
use hyper_link.PeerDiscovery.Responder.Rounds.{probe_round_bounded, serve_probes_ends}
use hyper_link.PeerDiscovery.Responder.Starting.{Phase, off, Stands}
use hyper_link.PeerDiscovery.Responder.Switch.{
  Command, start_command, stop_command, Steps, perform_all, responder_refines_switch,
}

-- The open sockets, the clock, how often the flag of a responder is still read as set, the clients that wait,
-- and the next descriptor.
record Wire : Type 0 where
  ledger : Ledger
  clock : ℕ
  turns : ℕ
  waiting : ℕ
  fresh : ℕ

abbrev open_next : Wire → Option ℕ × Wire
open_next w = (some w.fresh, record w { ledger = open_one w.fresh w.ledger; fresh = suc w.fresh })

abbrev take_client : ℕ → Wire → Option ℕ × Wire
take_client zero w = (none, w)
take_client (suc waiting) w = open_next (record w { waiting = waiting })

abbrev peer_address : Ipv4Endpoint
peer_address = record { address = 2130706433; port = 47789 }

abbrev wired : Network Wire
wired = record {
  socket = λ type w. open_next w;
  set_option = λ d w. w;
  get_flags = λ d w. (some 2, w);
  set_nonblocking_flag = λ d flags w. (true, w);
  bind = λ d e w. (true, w);
  listen = λ d w. (true, w);
  accept = λ d w. take_client w.waiting w;
  connect = λ d e w. (connected, w);
  socket_error = λ d w. (some 0, w);
  select = λ r s timeout w. (some_ready (λ d. true) (λ d. true), w);
  send = λ d n w. (bytes_moved n, w);
  recv = λ d n w. (bytes_moved n, w);
  sendto = λ d message e w. (true, w);
  recvfrom = λ d n w. (some (codes "HLINK_PEER_V2 47790 47791 1 desk", peer_address), w);
  close = λ d w. record w { ledger = close_one d w.ledger };
  now = λ w. (w.clock, record w { clock = suc w.clock });
  running = λ w. (ltb 0 w.turns, record w { turns = w.turns - 1 });
  last_socket_error = λ w. codes "error";
  strerror = λ n. codes "error";
  inet_pton = λ host. some 2130706433;
  inet_ntop = λ address. some (codes "127.0.0.1");
}

abbrev wire_view : View Wire
wire_view = record {
  ledger = λ w. w.ledger;
  ticks = λ deadline w. deadline - w.clock;
  turns = λ w. w.turns;
}

take_client-Opens : (waiting : ℕ) (w : Wire) → Opens wired wire_view w (take_client waiting w)
take_client-Opens zero w = (refl, ((λ d. omega arith), omega arith))
take_client-Opens (suc waiting) w = (refl, ((λ d. omega arith), omega arith))

wired-Accounts : Accounts wired wire_view
wired-Accounts = record {
  socket_opens = λ type w. (refl, ((λ d. omega arith), omega arith));
  accept_opens = λ d w. take_client-Opens w.waiting w;
  close_closes = λ d w. (refl, ((λ d. omega arith), omega arith));
  set_option_steady = λ d w. (refl, ((λ d. omega arith), omega arith));
  get_flags_steady = λ d w. (refl, ((λ d. omega arith), omega arith));
  set_flag_steady = λ d f w. (refl, ((λ d. omega arith), omega arith));
  bind_steady = λ d e w. (refl, ((λ d. omega arith), omega arith));
  listen_steady = λ d w. (refl, ((λ d. omega arith), omega arith));
  connect_steady = λ d e w. (refl, ((λ d. omega arith), omega arith));
  socket_error_steady = λ d w. (refl, ((λ d. omega arith), omega arith));
  select_steady = λ r s t w. (refl, ((λ d. omega arith), omega arith));
  send_steady = λ d n w. (refl, ((λ d. omega arith), omega arith));
  recv_steady = λ d n w. (refl, ((λ d. omega arith), omega arith));
  recv_fits = λ d n k w e. ground arith;
  sendto_steady = λ d p e w. (refl, ((λ d. omega arith), omega arith));
  recvfrom_steady = λ d n w. (refl, ((λ d. omega arith), omega arith));
  now_steady = λ w. (refl, ((λ d. omega arith), omega arith));
  now_ticks = λ d w h. omega (arith, h);
  running_steady = λ w. (refl, ((λ d. omega arith), omega arith));
  running_turns = λ w h. ground arith;
}

-- Nothing is open, and the flag is read as set three times; and with a socket that listens.
abbrev idle_wire : Wire
idle_wire = record { ledger = empty_ledger; clock = 5; turns = 3; waiting = 20; fresh = 1 }

abbrev listening_wire : Wire
listening_wire = record idle_wire { ledger = open_one 0 empty_ledger }

idle-Held : Held wire_view (λ x. 0) idle_wire
idle-Held = (refl, λ x. refl)

listening-Held : Held wire_view (λ x. only 0 x + 0) listening_wire
listening-Held = open_one-Balanced 0 empty_ledger (λ x. 0) idle-Held

configured : (d : ℕ) (w : Wire) → (w' : Wire) × (set_nonblocking wired d w ≡ some (ok tt, w'))
unfolding set_nonblocking set_flags
configured d w = (w, refl)

-- The readings before a deadline that lies so many milliseconds ahead.
wired_pace :
    (timeout : ℕ) (w : Wire)
    → wire_view.ticks (deadline_after timeout (wired.now w).0) (wired.now w).1
      < suc (timeout * 1000000)
unfolding deadline_after
wired_pace timeout w = omega arith

abbrev desk : DiscoveredPeer ℕ
desk = record {
  endpoint = record {
    host = codes "127.0.0.1";
    transfer_port = 47790;
    probe_port = 47791;
    parallel_streams = 1;
  };
  display_name = codes "desk";
  source_address = codes "127.0.0.1";
  measured_bytes_per_second = 0;
}

abbrev whole_rate : ℕ → ℕ → ℕ
whole_rate bytes elapsed = bytes

probe_closes_example :
    Ends
      (Measured wired whole_rate wire_view wired-Accounts 0 (λ x. 0) default_options (λ x. 0))
      (Held wire_view (λ x. 0))
      (probe_tcp_receive wired whole_rate (suc (500 * 1000000)) desk default_options idle_wire)
probe_closes_example =
    probe_closes wired whole_rate wire_view wired-Accounts default_options (500 * 1000000)
      (wired_pace 500) desk (λ x. 0) idle_wire idle-Held

receive_discovery_replies_closes_example :
    Ends
      (λ replies v. Held wire_view (λ x. 0) v × All Fits replies)
      (Held wire_view (λ x. 0))
      (receive_discovery_replies wired
        (suc (1500 * 1000000))
        default_options
        (loopback_target ∷ [])
        idle_wire)
receive_discovery_replies_closes_example =
    receive_discovery_replies_closes wired wire_view wired-Accounts default_options (1500 * 1000000)
      (wired_pace 1500) (loopback_target ∷ []) (λ x. 0) idle_wire idle-Held

abbrev ethernet : Interface
ethernet = record {
  is_ipv4 = true;
  is_up = true;
  address = 3232235777;
  broadaddr = none;
  netmask = some 4294967040;
}

abbrev list_interfaces : Wire → Option (List Interface) × Wire
list_interfaces w = (some (ethernet ∷ []), w)

abbrev byte_rates : Rates ℕ
byte_rates = record { zero_rate = 0; rate_eq = ◌==◌; rate_lt = ltb; ordered = number_order }

abbrev Chosen : DiscoveredPeer ℕ → Wire → Type 0
Chosen peer w =
    Held wire_view (λ x. 0) w
    × ((bytes : ℕ) × (elapsed : ℕ) × (0 < bytes)
        × (bytes ≤ default_options.probe_payload_bytes)
        × (peer.measured_bytes_per_second ≡ whole_rate bytes elapsed))

select_fastest_closes_example : Ends Chosen (Held wire_view (λ x. 0)) (
    select_fastest ⦃rates = byte_rates⦄ wired whole_rate list_interfaces
      (suc (1500 * 1000000))
      default_options
      idle_wire)
select_fastest_closes_example =
    select_fastest_closes ⦃rates = byte_rates⦄ wired whole_rate list_interfaces wire_view
      wired-Accounts (λ w. (refl, ((λ d. omega arith), omega arith))) default_options
      (1500 * 1000000) (wired_pace 1500) (λ w. omega (arith, wired_pace 500 w)) (λ x. 0) idle_wire
      idle-Held

abbrev print_address : ℕ → Text
print_address address = codes "192.168.1.1"

enumerate_discovery_targets-Ascending_example :
    Ascending target_lt (enumerate_discovery_targets print_address (some (ethernet ∷ [])))
    × Memᴰ loopback_target (enumerate_discovery_targets print_address (some (ethernet ∷ [])))
    × ((target : DiscoveryTarget)
        → Memᴰ target (enumerate_discovery_targets print_address (some (ethernet ∷ [])))
        → Complete target)
    × ((target : DiscoveryTarget)
        → Memᴰ target (all_targets print_address (some (ethernet ∷ [])))
          ↔ Memᴰ target (enumerate_discovery_targets print_address (some (ethernet ∷ []))))
enumerate_discovery_targets-Ascending_example =
    enumerate_discovery_targets-Ascending print_address (some (ethernet ∷ []))

abbrev two_clients : List ActiveProbe
two_clients = record { socket = 7; deadline = 1 } ∷ record { socket = 8; deadline = 900 } ∷ []

abbrev busy_wire : Wire
busy_wire = record idle_wire {
  ledger = open_one 7 (open_one 8 (open_one 0 empty_ledger));
  fresh = 9;
}

busy-Held : Held wire_view (λ x. owned_by (sockets_of two_clients) x + (only 0 x + 0)) busy_wire
busy-Held =
    let (f, h) =
      open_one-Balanced 7 (open_one 8 (open_one 0 empty_ledger)) (λ x. only 8 x + (only 0 x + 0))
        (open_one-Balanced 8 (open_one 0 empty_ledger) (λ x. only 0 x + 0) listening-Held) in
    (f, λ x. h x ∙ omega arith)

probe_round_bounded_example :
    (clients : List ActiveProbe) × (w : Wire) × (probe_round wired 4 0 two_clients busy_wire
      ≡ some (ok clients, w))
    × (length clients ≤ maximum_concurrent_probe_clients)
    × Held wire_view (λ x. owned_by (sockets_of clients) x + (only 0 x + 0)) w
probe_round_bounded_example =
    probe_round_bounded wired wire_view wired-Accounts configured 0 4 (λ x. only 0 x + 0)
      two_clients busy_wire (omega arith) (omega arith) busy-Held

serve_probes_ends_example :
    (w : Wire) × (serve_probes wired 4 0 listening_wire ≡ some (ok tt, w))
    × Held wire_view (λ x. 0) w
serve_probes_ends_example =
    serve_probes_ends wired wire_view wired-Accounts configured 0 4 (λ x. 0) listening_wire
      (omega arith) listening-Held

abbrev wired_threads : Threads Wire
wired_threads = record { create = λ w. (true, w); not_created = runtime_error (codes "no thread") }

abbrev desk_options : PeerDiscoveryResponderOptions
desk_options = record {
  bind_host = codes "0.0.0.0";
  transfer_port = 47790;
  probe_port = 47791;
  discovery_port = 47789;
  parallel_streams = 1;
  display_name = codes "desk";
}

abbrev three_calls : List Command
three_calls = start_command ∷ start_command ∷ stop_command ∷ []

responder_refines_switch_example :
    (outcomes : List (Result (Unit {0}))) × (s : Responder × Wire) × (q : Phase) × (perform_all
        wired wired_threads three_calls
        (new_responder desk_options, idle_wire)
      ≡ some (outcomes, s))
    × Steps off three_calls outcomes q
    × Stands wire_view (λ x. 0) q s
responder_refines_switch_example =
    responder_refines_switch wired wired_threads wire_view wired-Accounts
      (λ w. (refl, ((λ d. omega arith), omega arith))) (λ x. 0) three_calls off
      (new_responder desk_options, idle_wire) (refl, refl, refl, idle-Held)

abbrev discovering : Options
discovering = record Args.default_options {
  send = true;
  auto_discover = true;
  file = codes "notes";
}

abbrev plugged : Device
plugged = record {
  descriptor = some (1133, 49970);
  speed = libusb_high;
  bus_number = 1;
  device_address = 4;
}

-- The state is the number of lists.
abbrev one_bus : Libusb ℕ
one_bus = record {
  init = λ lists. (true, lists);
  get_device_list = λ lists. (some (plugged ∷ []), suc lists);
  free_device_list = λ lists. lists - 1;
  exit = λ lists. lists;
}

plugged_in : some (plugged ∷ []) ≡ none → ⊥
plugged_in e = ground arith

abbrev bus_lists : Counting one_bus
bus_lists = record {
  lists = λ lists. lists;
  reads = λ w devices e. refl;
  fails = λ w e. absurd (plugged_in e);
  frees = λ w n e. omega (arith, e);
}

usb_sessions_free_example :
    (session : Session ℕ) × (lists : ℕ) × (run
        (discover_request AutoConfig.default_options
          ∷ send_request (codes "a")
          ∷ close_request
          ∷ [])
        (record { transport = some (libusb_transport one_bus); connected = false }, 0)
      ≡ some (session, lists))
    × (session.transport ≡ some (libusb_transport one_bus))
    × (lists ≡ 0)
usb_sessions_free_example =
    usb_sessions_free one_bus bus_lists
      (discover_request AutoConfig.default_options ∷ send_request (codes "a") ∷ close_request ∷ [])
      (record { transport = some (libusb_transport one_bus); connected = false }) 0 refl refl
