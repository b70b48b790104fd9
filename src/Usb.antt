-- ===== src/Usb.antt =====
-- src/usb_libusb_transport.cpp: the transport over libusb, which lists the devices and moves no data.
pub mod Lists
use hyper_link.Base.{
  ℕ, ◌+◌, ◌%◌, ◌/◌, Bool, true, false, Option, none, some, List, [], ◌∷◌, ◌++◌, Text, codes, ltb,
  if◌then◌else◌, Error, runtime_error, Result, ok, err,
}
use hyper_link.Base.Program.{Program, throw}
use hyper_link.AutoConfig.{AutoConfigOptions}
use hyper_link.PeerDiscovery.Decimal.{to_string}
use hyper_link.Session.{
  PeerInfo, Transport, UsbSpeed, unknown, low_speed, full_speed, high_speed, super_speed,
  super_speed_plus, usb4_20gbps, usb4_40gbps, usb4_80gbps,
}

-- `enum libusb_speed`, with one value for every number that the switch does not name.
pub data LibusbSpeed : Type 0 where
  libusb_low libusb_full libusb_high libusb_super libusb_super_plus libusb_unknown : LibusbSpeed

unfoldable pub usb_speed_from_libusb : LibusbSpeed → UsbSpeed
usb_speed_from_libusb libusb_low = low_speed
usb_speed_from_libusb libusb_full = full_speed
usb_speed_from_libusb libusb_high = high_speed
usb_speed_from_libusb libusb_super = super_speed
usb_speed_from_libusb libusb_super_plus = super_speed_plus
usb_speed_from_libusb libusb_unknown = unknown

unfoldable pub theoretical_bits_per_second : UsbSpeed → ℕ
theoretical_bits_per_second low_speed = 1500000
theoretical_bits_per_second full_speed = 12000000
theoretical_bits_per_second high_speed = 480000000
theoretical_bits_per_second super_speed = 5000000000
theoretical_bits_per_second super_speed_plus = 10000000000
theoretical_bits_per_second usb4_20gbps = 20000000000
theoretical_bits_per_second usb4_40gbps = 40000000000
theoretical_bits_per_second usb4_80gbps = 80000000000
theoretical_bits_per_second unknown = 0

unfoldable pub supports_super_speed : UsbSpeed → Bool
supports_super_speed super_speed = true
supports_super_speed super_speed_plus = true
supports_super_speed usb4_20gbps = true
supports_super_speed usb4_40gbps = true
supports_super_speed usb4_80gbps = true
supports_super_speed speed = false

unfoldable pub supports_high_speed : UsbSpeed → Bool
supports_high_speed high_speed = true
supports_high_speed speed = supports_super_speed speed

-- What libusb tells of a device: the ids of the vendor and the product if the descriptor can be read, the speed, and
-- the numbers of the bus and of the address.
pub record Device : Type 0 where
  pub descriptor : Option (ℕ × ℕ)
  pub speed : LibusbSpeed
  pub bus_number : ℕ
  pub device_address : ℕ

-- The calls of libusb on a state `W` of the world: `none` is a list that cannot be read, and `init` is
-- true on success.
pub record Libusb (W : Type 0) : Type 0 where
  pub init : W → Bool × W
  pub get_device_list : W → Option (List Device) × W
  pub free_device_list : W → W
  pub exit : W → W

unfoldable pub list_failed : Error
list_failed = runtime_error (codes "libusb_get_device_list failed")

unfoldable pub init_failed : Error
init_failed = runtime_error (codes "libusb_init failed")

unfoldable pub no_connect : Error
no_connect = runtime_error (codes "libusb transport connect is not implemented yet")

unfoldable pub no_send : Error
no_send = runtime_error (codes "libusb transport send is not implemented yet")

unfoldable pub no_receive : Error
no_receive = runtime_error (codes "libusb transport receive is not implemented yet")

unfoldable pub hex_digit : ℕ → ℕ
hex_digit n = if ltb n 10 then b'0' + n else 87 + n

-- A 16-bit number by `std::hex` and `std::setw(4)` with zeros.
unfoldable pub hex_word : ℕ → Text
hex_word n =
    hex_digit (n / 4096 % 16)
    ∷ hex_digit (n / 256 % 16)
    ∷ hex_digit (n / 16 % 16)
    ∷ hex_digit (n % 16)
    ∷ []

unfoldable pub peer_of : Device → ℕ × ℕ → PeerInfo
peer_of device (vendor, product) =
    let speed = usb_speed_from_libusb device.speed in
    record {
      id =
          codes "usb-"
          ++ (to_string device.bus_number ++ (codes "-" ++ to_string device.device_address));
      display_name = codes "USB device " ++ (hex_word vendor ++ (codes ":" ++ hex_word product));
      vendor_id = vendor;
      product_id = product;
      usb_speed = speed;
      theoretical_bits_per_second = theoretical_bits_per_second speed;
      supports_high_speed = supports_high_speed speed;
      supports_super_speed = supports_super_speed speed;
    }

unfoldable pub peers_of : List Device → List PeerInfo
peers_of [] = []
peers_of (device ∷ devices) = elim device.descriptor [
  | none ↦ peers_of devices
  | some ids ↦ peer_of device ids ∷ peers_of devices
]

module _ {W : Type 0} (libusb : Libusb W) where
  unfoldable pub listed : Option (List Device) → Program W (List PeerInfo)
  listed none w = some (err list_failed, w)
  listed (some devices) w = some (ok (peers_of devices), libusb.free_device_list w)

  unfoldable pub discover : AutoConfigOptions → Program W (List PeerInfo)
  discover options w = let (devices, w') = libusb.get_device_list w in listed devices w'

  unfoldable pub libusb_transport : Transport W
  libusb_transport = record {
    discover = discover;
    connect = λ peer config. throw no_connect;
    send = λ payload. throw no_send;
    receive = λ max_bytes. throw no_receive;
    receive_into = λ size. throw no_receive;
    close = λ w. w;
    destroy = libusb.exit;
  }

  unfoldable pub make_libusb_transport : Program W (Transport W)
  make_libusb_transport w =
      let (initialized, w') = libusb.init w in
      some (if initialized then ok libusb_transport else err init_failed, w')
