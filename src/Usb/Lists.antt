-- ===== src/Usb/Lists.antt =====
-- The lists of devices are freed, whatever a client asks of a session over libusb.
use hyper_link.Base.{ℕ, suc, ◌≡◌, refl, ap, ◌∙◌, Option, none, some, List, Result, ok, err}
use hyper_link.AutoConfig.{AutoConfigOptions}
use hyper_link.Session.{Session, PeerInfo}
use hyper_link.Session.Protocol.{Request, run}
use hyper_link.Session.Keeps.{Keeps, KeepsAll, run-Holds}
use hyper_link.Usb.{Device, Libusb, listed, discover, libusb_transport}

-- How many lists the program holds: a list that is read is one more, and `free_device_list` takes one.
pub record Counting {W : Type 0} (libusb : Libusb W) : Type 0 where
  pub lists : W → ℕ
  pub reads :
      (w : W) (devices : List Device)
      → (libusb.get_device_list w).0 ≡ some devices
      → lists (libusb.get_device_list w).1 ≡ suc (lists w)
  pub fails :
      (w : W) → (libusb.get_device_list w).0 ≡ none → lists (libusb.get_device_list w).1 ≡ lists w
  pub frees : (w : W) (n : ℕ) → lists w ≡ suc n → lists (libusb.free_device_list w) ≡ n

module _ {W : Type 0} (libusb : Libusb W) (counting : Counting libusb) where
  abbrev pub AllFreed : W → Type 0
  AllFreed w = counting.lists w ≡ 0

  discover-Keeps : (options : AutoConfigOptions) → Keeps AllFreed (discover libusb options)
  unfolding discover listed
  discover-Keeps options w h = split (libusb.get_device_list w).0 refl
    where
      split :
          (devices : Option (List Device))
          → (libusb.get_device_list w).0 ≡ devices
          → (r : Result (List PeerInfo)) × (w' : W) × (listed libusb devices
                (libusb.get_device_list w).1
              ≡ some (r, w'))
            × AllFreed w'
      split none e = (err _, _, refl, counting.fails w e ∙ h)
      split (some devices) e =
          (ok _, _, refl, counting.frees _ 0 (counting.reads w devices e ∙ ap suc h))

  libusb_transport-KeepsAll : KeepsAll AllFreed (libusb_transport libusb)
  unfolding libusb_transport
  libusb_transport-KeepsAll = record {
    discovers = discover-Keeps;
    connects = λ peer config w h. (err _, w, refl, h);
    sends = λ payload w h. (err _, w, refl, h);
    receives = λ n w h. (err _, w, refl, h);
    receives_into = λ n w h. (err _, w, refl, h);
    closes = λ w h. h;
  }

  -- Whatever requests a client makes of a session over libusb, if libusb counts its lists: the requests end, each
  -- by a value or by an exception, the session keeps its transport, and every list of devices that was
  -- read has been freed.
  pub usb_sessions_free :
      (requests : List Request) (session : Session W) (w : W)
      → session.transport ≡ some (libusb_transport libusb)
      → counting.lists w ≡ 0
      → (session' : Session W) × (w' : W) × (run requests (session, w) ≡ some (session', w'))
        × (session'.transport ≡ some (libusb_transport libusb))
        × (counting.lists w' ≡ 0)
  usb_sessions_free requests session w same h =
      let (s, e, k) =
        run-Holds AllFreed (libusb_transport libusb) libusb_transport-KeepsAll requests (session, w)
          (same, h) in
      (s.0, s.1, e, k.0, k.1)
