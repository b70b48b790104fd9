-- ===== src/Tcp/Ownership.antt =====
-- Every socket that a TCP transport opens is owned by one of its handles until it is closed, once.
use hyper_link.Base.{
  ℕ, ◌+◌, ◌≡◌, refl, sym, subst, ◌∙◌, arith, Bool, true, false, Bool-cases, inl, inr, Option, none,
  some, Option-cases, Result-cases, List, [], ◌∷◌, codes, ◌==◌, Error, Result, ok, err,
}
use hyper_link.Tcp.{
  Sockets, TcpEndpoint, TcpTransport, TcpMode, client, server, reset, failed, set_socket_buffer,
  tune_socket, resolve_endpoint, connect_loop, connect_socket, listen_loop, listen_socket,
  set_data_socket, set_listen_socket, accept_peer, connect_as, BufferOption,
}
use hyper_link.Tcp.Ledger.{Ledger, Accounts, only, Balanced, owns, opened-Balanced, reset-Balanced}

-- What a result counts: the descriptor that is handed to the caller.
abbrev result_owns : Result ℕ → ℕ → ℕ
result_owns (err error) x = 0
result_owns (ok d) x = only d x

pub keep-Balanced : {l l' : Ledger} (owned : ℕ → ℕ) → l' ≡ l → Balanced l owned → Balanced l' owned
keep-Balanced owned e h = subst (λ m. Balanced m owned) (sym e) h

module _ {A V : Type 0} (s : Sockets A V) (ledger : V → Ledger) (accounts : Accounts s ledger) where
  -- The caller owns what is returned, and nothing else is left open.
  abbrev Balances : Result ℕ × V → (ℕ → ℕ) → Type 0
  Balances r owned = Balanced (ledger r.1) (λ x. result_owns r.0 x + owned x)

  nothing_new :
      (error : Error) (v : V) (owned : ℕ → ℕ)
      → Balanced (ledger v) owned
      → Balances (err error, v) owned
  nothing_new error v owned (f, h) = (f, λ x. ground (arith, h x))

  set_socket_buffer-ledger :
      (d : ℕ) (o : BufferOption) (n : ℕ) (v : V) → ledger (set_socket_buffer s d o n v) ≡ ledger v
  unfolding set_socket_buffer
  set_socket_buffer-ledger d o n v = elim (Bool-cases (n == 0)) [
    | inl kept ↦ rw kept refl
    | inr set ↦ rw set (accounts.set_buffer_keeps d o _ v)
  ]

  tune_socket-ledger : (d : ℕ) (e : TcpEndpoint) (v : V) → ledger (tune_socket s d e v) ≡ ledger v
  unfolding tune_socket
  tune_socket-ledger d e v =
      set_socket_buffer-ledger d _ _ _
      ∙ (set_socket_buffer-ledger d _ _ _ ∙ accounts.set_no_delay_keeps d v)

  -- A socket that was opened for a round of a loop, and is closed at its end.
  socket-Balanced :
      (a : A) (v : V) (owned : ℕ → ℕ)
      → Balanced (ledger v) owned
      → Balanced (ledger (s.socket a v).1) (λ x. owns (s.socket a v).0 x + owned x)
  socket-Balanced a v owned h =
      keep-Balanced _ (accounts.socket_opens a v)
        (opened-Balanced (s.socket a v).0 (ledger v) owned h)

  -- The same handle under another name.
  known :
      {v : V} {r r' : Option ℕ} (owned : ℕ → ℕ)
      → r ≡ r'
      → Balanced (ledger v) (λ x. owns r x + owned x)
      → Balanced (ledger v) (λ x. owns r' x + owned x)
  known {v = v} owned e h = subst (λ r. Balanced (ledger v) (λ x. owns r x + owned x)) e h

  not_held :
      {v : V} {r : Option ℕ} (owned : ℕ → ℕ)
      → r ≡ none
      → Balanced (ledger v) (λ x. owns r x + owned x)
      → Balanced (ledger v) owned
  not_held owned e h = let (f, g) = known owned e h in (f, λ x. ground (arith, g x))

  returned :
      {v : V} {r : Result ℕ} {d : ℕ} (owned : ℕ → ℕ)
      → r ≡ ok d
      → Balances (r, v) owned
      → Balanced (ledger v) (λ x. only d x + owned x)
  returned {v = v} owned e h = subst (λ r. Balances (r, v) owned) e h

  not_returned :
      {v : V} {r : Result ℕ} {error : Error} (owned : ℕ → ℕ)
      → r ≡ err error
      → Balances (r, v) owned
      → Balanced (ledger v) owned
  not_returned {v = v} owned e h =
      let (f, g) = subst (λ r. Balances (r, v) owned) e h in (f, λ x. ground (arith, g x))

  connect_loop-Balances :
      (e : TcpEndpoint) (addresses : List A) (v : V) (owned : ℕ → ℕ)
      → Balanced (ledger v) owned
      → Balances (connect_loop s e addresses v) owned
  unfolding connect_loop
  connect_loop-Balances e [] v owned h =
      nothing_new (failed s (codes "connect failed: ") v) v owned h
  connect_loop-Balances e (a ∷ addresses) v owned h =
      let v₁ = (s.socket a v).1 in
      let h₁ = socket-Balanced a v owned h in
      elim (Option-cases (s.socket a v).0) [
        | inl no_socket ↦
            rw (connect_loop, no_socket)
              (connect_loop-Balances e addresses v₁ owned (not_held owned no_socket h₁))
        | inr (d, made) ↦
            let v₂ = (s.connect d a v₁).1 in
            let h₂ = keep-Balanced _ (accounts.connect_keeps d a v₁) (known owned made h₁) in
            elim (Bool-cases (s.connect d a v₁).0) [
              | inl joined ↦
                  rw (connect_loop, made, joined) (keep-Balanced _ (tune_socket-ledger d e v₂) h₂)
              | inr refused ↦
                  rw (connect_loop, made, refused)
                    (connect_loop-Balances e addresses (reset s (some d) v₂) owned
                      (reset-Balanced s ledger accounts (some d) v₂ owned h₂))
            ]
      ]

  listen_loop-Balances :
      (addresses : List A) (v : V) (owned : ℕ → ℕ)
      → Balanced (ledger v) owned
      → Balances (listen_loop s addresses v) owned
  unfolding listen_loop
  listen_loop-Balances [] v owned h = nothing_new (failed s (codes "listen failed: ") v) v owned h
  listen_loop-Balances (a ∷ addresses) v owned h =
      let v₁ = (s.socket a v).1 in
      let h₁ = socket-Balanced a v owned h in
      elim (Option-cases (s.socket a v).0) [
        | inl no_socket ↦
            rw (listen_loop, no_socket)
              (listen_loop-Balances addresses v₁ owned (not_held owned no_socket h₁))
        | inr (d, made) ↦
            let v₂ = (s.bind d a (s.set_reuse_address d v₁)).1 in
            let h₂ =
              keep-Balanced _ (accounts.bind_keeps d a _ ∙ accounts.set_reuse_address_keeps d v₁)
                (known owned made h₁) in
            elim (Bool-cases (s.bind d a (s.set_reuse_address d v₁)).0) [
              | inr unbound ↦
                  rw (listen_loop, made, unbound)
                    (listen_loop-Balances addresses (reset s (some d) v₂) owned
                      (reset-Balanced s ledger accounts (some d) v₂ owned h₂))
              | inl bound ↦
                  let v₃ = (s.listen d v₂).1 in
                  let h₃ = keep-Balanced _ (accounts.listen_keeps d v₂) h₂ in
                  elim (Bool-cases (s.listen d v₂).0) [
                    | inl joined ↦ rw (listen_loop, made, bound, joined) h₃
                    | inr refused ↦
                        rw (listen_loop, made, bound, refused)
                          (listen_loop-Balances addresses (reset s (some d) v₃) owned
                            (reset-Balanced s ledger accounts (some d) v₃ owned h₃))
                  ]
            ]
      ]

  resolve_endpoint-Balanced :
      (e : TcpEndpoint) (passive : Bool) (v : V) (owned : ℕ → ℕ)
      → Balanced (ledger v) owned
      → Balanced (ledger (resolve_endpoint s e passive v).1) owned
  unfolding resolve_endpoint
  resolve_endpoint-Balanced e passive v owned h =
      keep-Balanced owned (accounts.getaddrinfo_keeps _ _ passive v) h

  connect_socket-Balances :
      (e : TcpEndpoint) (v : V) (owned : ℕ → ℕ)
      → Balanced (ledger v) owned
      → Balances (connect_socket s e v) owned
  unfolding connect_socket
  connect_socket-Balances e v owned h =
      let h₁ = resolve_endpoint-Balanced e false v owned h in
      elim (Result-cases (resolve_endpoint s e false v).0) [
        | inr (error, r) ↦ rw (connect_socket, r) (nothing_new error _ owned h₁)
        | inl (addresses, r) ↦ rw (connect_socket, r) (connect_loop-Balances e addresses _ owned h₁)
      ]

  listen_socket-Balances :
      (e : TcpEndpoint) (v : V) (owned : ℕ → ℕ)
      → Balanced (ledger v) owned
      → Balances (listen_socket s e v) owned
  unfolding listen_socket
  listen_socket-Balances e v owned h =
      let h₁ = resolve_endpoint-Balanced e true v owned h in
      elim (Result-cases (resolve_endpoint s e true v).0) [
        | inr (error, r) ↦ rw (listen_socket, r) (nothing_new error _ owned h₁)
        | inl (addresses, r) ↦ rw (listen_socket, r) (listen_loop-Balances addresses _ owned h₁)
      ]

  -- The handles of a transport own all that is open.
  abbrev pub Owns : TcpTransport × V → Type 0
  Owns (t, v) = Balanced (ledger v) (λ x. owns t.data_socket x + owns t.listen_socket x)

  swap :
      {l : Ledger} (f g h : ℕ → ℕ)
      → Balanced l (λ x. f x + (g x + h x))
      → Balanced l (λ x. g x + (f x + h x))
  swap f g h (c, e) = (c, λ x. ground (arith, e x))

  set_data_socket-Owns :
      (t : TcpTransport) (d : ℕ) (v : V)
      → Balanced (ledger v) (λ x. only d x + (owns t.data_socket x + owns t.listen_socket x))
      → Owns (set_data_socket s t d v)
  unfolding set_data_socket
  set_data_socket-Owns t d v h =
      reset-Balanced s ledger accounts t.data_socket v _
        (swap (only d) (owns t.data_socket) (owns t.listen_socket) h)

  set_listen_socket-Owns :
      (t : TcpTransport) (d : ℕ) (v : V)
      → Balanced (ledger v) (λ x. only d x + (owns t.data_socket x + owns t.listen_socket x))
      → Owns (set_listen_socket s t d v)
  unfolding set_listen_socket
  set_listen_socket-Owns t d v (f, h) =
      reset-Balanced s ledger accounts t.listen_socket v _ (f, λ x. ground (arith, h x))

  accept_peer-Owns :
      (d : ℕ) (state : TcpTransport × V) → Owns state → Owns (accept_peer s d state).1
  unfolding accept_peer
  accept_peer-Owns d (t, v) h =
      let h₁ =
        keep-Balanced _ (accounts.accept_opens d v)
          (opened-Balanced (s.accept d v).0 (ledger v) _ h) in
      elim (Option-cases (s.accept d v).0) [
        | inl r ↦ rw (accept_peer, r) (not_held _ r h₁)
        | inr (new, r) ↦
            rw (accept_peer, r)
              (set_data_socket-Owns t new _
                (keep-Balanced _ (tune_socket-ledger new t.endpoint _) (known _ r h₁)))
      ]

  pub connect_as-Owns :
      (mode : TcpMode) (state : TcpTransport × V) → Owns state → Owns (connect_as s mode state).1
  unfolding connect_as
  connect_as-Owns client (t, v) h =
      let h₁ = connect_socket-Balances t.endpoint v _ h in
      elim (Result-cases (connect_socket s t.endpoint v).0) [
        | inr (error, r) ↦ rw (connect_as, r) (not_returned _ r h₁)
        | inl (d, r) ↦ rw (connect_as, r) (set_data_socket-Owns t d _ (returned _ r h₁))
      ]
  connect_as-Owns server (t, v) h =
      let h₁ = listen_socket-Balances t.endpoint v _ h in
      elim (Result-cases (listen_socket s t.endpoint v).0) [
        | inr (error, r) ↦ rw (connect_as, r) (not_returned _ r h₁)
        | inl (d, r) ↦
            rw (connect_as, r)
              (accept_peer-Owns d _ (set_listen_socket-Owns t d _ (returned _ r h₁)))
      ]
