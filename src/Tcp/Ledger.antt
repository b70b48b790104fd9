-- ===== src/Tcp/Ledger.antt =====
-- A ledger of the descriptors that are open, kept beside the socket calls.
use hyper_link.Base.{
  ℕ, ◌+◌, ◌-◌, ◌≡◌, refl, ap, arith, Bool, true, false, Option, none, some, Text, ◌==◌,
  if◌then◌else◌,
}
use hyper_link.Tcp.{Sockets, BufferOption, reset}

-- How often each descriptor is open, and whether one was closed that was not.
pub record Ledger : Type 0 where
  pub count : ℕ → ℕ
  pub fault : Bool

abbrev pub empty_ledger : Ledger
empty_ledger = record { count = λ x. 0; fault = false }

-- One, for the descriptor.
abbrev pub only : ℕ → ℕ → ℕ
only d x = if x == d then 1 else 0

unfoldable pub open_one : ℕ → Ledger → Ledger
open_one d l = record { count = λ x. only d x + l.count x; fault = l.fault }

unfoldable pub close_one : ℕ → Ledger → Ledger
close_one d l =
    if l.count d == 0
    then record l { fault = true }
    else record { count = λ x. l.count x - only d x; fault = l.fault }

-- A call that may open a descriptor.
abbrev pub opened : Option ℕ → Ledger → Ledger
opened none l = l
opened (some d) l = open_one d l

module _ {A W : Type 0} where
  -- The calls with a ledger.
  unfoldable pub counted : Sockets A W → Sockets A (W × Ledger)
  counted s = record {
    getaddrinfo =
        λ host port passive (w, l). let (r, w') = s.getaddrinfo host port passive w in (r, (w', l));
    socket = λ a (w, l). let (r, w') = s.socket a w in (r, (w', opened r l));
    connect = λ d a (w, l). let (r, w') = s.connect d a w in (r, (w', l));
    set_reuse_address = λ d (w, l). (s.set_reuse_address d w, l);
    bind = λ d a (w, l). let (r, w') = s.bind d a w in (r, (w', l));
    listen = λ d (w, l). let (r, w') = s.listen d w in (r, (w', l));
    accept = λ d (w, l). let (r, w') = s.accept d w in (r, (w', opened r l));
    set_no_delay = λ d (w, l). (s.set_no_delay d w, l);
    set_buffer = λ d o n (w, l). (s.set_buffer d o n w, l);
    send = λ d payload (w, l). let (r, w') = s.send d payload w in (r, (w', l));
    recv = λ d n (w, l). let (r, w') = s.recv d n w in (r, (w', l));
    close = λ d (w, l). (s.close d w, close_one d l);
    last_socket_error = λ (w, l). s.last_socket_error w;
  }

-- The ledger holds what `owned` counts, and nothing was closed twice.
abbrev pub Balanced : Ledger → (ℕ → ℕ) → Type 0
Balanced l owned = (l.fault ≡ false) × ((x : ℕ) → l.count x ≡ owned x)

-- What a handle counts.
abbrev pub owns : Option ℕ → ℕ → ℕ
owns none x = 0
owns (some d) x = only d x

pub open_one-Balanced :
    (d : ℕ) (l : Ledger) (owned : ℕ → ℕ)
    → Balanced l owned
    → Balanced (open_one d l) (λ x. only d x + owned x)
unfolding open_one
open_one-Balanced d l owned (f, h) = (f, λ x. ap (◌+◌ (only d x)) (h x))

pub close_one-Balanced :
    (d : ℕ) (l : Ledger) (owned : ℕ → ℕ)
    → Balanced l (λ x. only d x + owned x)
    → Balanced (close_one d l) owned
unfolding close_one
close_one-Balanced d l owned (f, h) =
    let held : (l.count d == 0) ≡ false = ground (arith, h d) in
    rw held (f, λ x. ground (arith, h x))

-- What the calls do to a ledger that the world holds.
pub record Accounts {A V : Type 0} (s : Sockets A V) (ledger : V → Ledger) : Type 0 where
  pub getaddrinfo_keeps :
      (host : Option Text) (port : Text) (passive : Bool) (v : V)
      → ledger (s.getaddrinfo host port passive v).1 ≡ ledger v
  pub socket_opens : (a : A) (v : V) → ledger (s.socket a v).1 ≡ opened (s.socket a v).0 (ledger v)
  pub connect_keeps : (d : ℕ) (a : A) (v : V) → ledger (s.connect d a v).1 ≡ ledger v
  pub set_reuse_address_keeps : (d : ℕ) (v : V) → ledger (s.set_reuse_address d v) ≡ ledger v
  pub bind_keeps : (d : ℕ) (a : A) (v : V) → ledger (s.bind d a v).1 ≡ ledger v
  pub listen_keeps : (d : ℕ) (v : V) → ledger (s.listen d v).1 ≡ ledger v
  pub accept_opens : (d : ℕ) (v : V) → ledger (s.accept d v).1 ≡ opened (s.accept d v).0 (ledger v)
  pub set_no_delay_keeps : (d : ℕ) (v : V) → ledger (s.set_no_delay d v) ≡ ledger v
  pub set_buffer_keeps :
      (d : ℕ) (o : BufferOption) (n : ℕ) (v : V) → ledger (s.set_buffer d o n v) ≡ ledger v
  pub send_keeps : (d : ℕ) (payload : Text) (v : V) → ledger (s.send d payload v).1 ≡ ledger v
  pub recv_keeps : (d n : ℕ) (v : V) → ledger (s.recv d n v).1 ≡ ledger v
  pub close_closes : (d : ℕ) (v : V) → ledger (s.close d v) ≡ close_one d (ledger v)

pub counted-Accounts : {A W : Type 0} (s : Sockets A W) → Accounts (counted s) (λ (w, l). l)
unfolding counted
counted-Accounts s = record {
  getaddrinfo_keeps = λ host port passive v. refl;
  socket_opens = λ a v. refl;
  connect_keeps = λ d a v. refl;
  set_reuse_address_keeps = λ d v. refl;
  bind_keeps = λ d a v. refl;
  listen_keeps = λ d v. refl;
  accept_opens = λ d v. refl;
  set_no_delay_keeps = λ d v. refl;
  set_buffer_keeps = λ d o n v. refl;
  send_keeps = λ d payload v. refl;
  recv_keeps = λ d n v. refl;
  close_closes = λ d v. refl;
}

pub opened-Balanced :
    (handle : Option ℕ) (l : Ledger) (owned : ℕ → ℕ)
    → Balanced l owned
    → Balanced (opened handle l) (λ x. owns handle x + owned x)
opened-Balanced none l owned (f, h) = (f, λ x. ground (arith, h x))
opened-Balanced (some d) l owned h = open_one-Balanced d l owned h

module _ {A V : Type 0} (s : Sockets A V) (ledger : V → Ledger) (accounts : Accounts s ledger) where
  pub reset-Balanced :
      (handle : Option ℕ) (v : V) (owned : ℕ → ℕ)
      → Balanced (ledger v) (λ x. owns handle x + owned x)
      → Balanced (ledger (reset s handle v)) owned
  unfolding reset
  reset-Balanced none v owned (f, h) = (f, λ x. ground (arith, h x))
  reset-Balanced (some d) v owned h =
      rw (accounts.close_closes d v) (close_one-Balanced d (ledger v) owned h)
