-- ===== src/PeerDiscovery/Responder/Switch.antt =====
-- A responder is a switch: `start` turns it on or leaves it off, `stop` turns it off, and only a
-- responder that is on holds sockets.
use hyper_link.Base.{
  ℕ, ◌+◌, ◌≡◌, refl, arith, Bool, true, false, Option, none, some, List, [], ◌∷◌, if◌then◌else◌,
  Error, Result, ok, err,
}
use hyper_link.Base.Program.{Program}
use hyper_link.Base.Triple.{Ends}
use hyper_link.Tcp.Ledger.{owns}
use hyper_link.PeerDiscovery.Network.{Network}
use hyper_link.PeerDiscovery.Network.Accounts.{View, Accounts, Steady}
use hyper_link.PeerDiscovery.Responder.{Responder, Threads, stop, start_block, or_stop, start}
use hyper_link.PeerDiscovery.Responder.Starting.{
  Phase, off, on, Stands, Started, Failed, regroup-Held, start_block-Ends, stop-Stands,
}

pub data Command : Type 0 where
  start_command stop_command : Command

-- What a command does to the switch, with what it returns or throws.
pub data Step : Phase → Command → Result (Unit {0}) → Phase → Type 0 where
  starts : Step off start_command (ok tt) on
  fails : (error : Error) → Step off start_command (err error) off
  already_on : Step on start_command (ok tt) on
  stops : (phase : Phase) → Step phase stop_command (ok tt) off

pub data Steps : Phase → List Command → List (Result (Unit {0})) → Phase → Type 0 where
  finish : (phase : Phase) → Steps phase [] [] phase
  next :
      {p q r : Phase} {command : Command} {commands : List Command} {outcome : Result (Unit {0})}
      {outcomes : List (Result (Unit {0}))}
      → Step p command outcome q
      → Steps q commands outcomes r
      → Steps p (command ∷ commands) (outcome ∷ outcomes) r

module _ {W : Type 0} (net : Network W) (threads : Threads W) where
  -- The calls on a responder, one after the other.
  unfoldable pub perform : Command → Program (Responder × W) (Unit {0})
  perform start_command s = start net threads s
  perform stop_command s = some (ok tt, stop net s)

  unfoldable pub perform_all :
      List Command → Responder × W → Option (List (Result (Unit {0})) × (Responder × W))
  perform_all [] s = some ([], s)
  perform_all (command ∷ commands) s = elim (perform command s) [
    | none ↦ none
    | some (outcome, s') ↦ elim (perform_all commands s') [
      | none ↦ none
      | some (outcomes, s'') ↦ some (outcome ∷ outcomes, s'')
    ]
  ]

module _ {W : Type 0} (net : Network W) (threads : Threads W) (view : View W)
    (accounts : Accounts net view) (creates : (w : W) → Steady net view w (threads.create w).1)
    (owned : ℕ → ℕ) where
  if_true : {A : Type 0} (b : Bool) (x y : A) → b ≡ true → (if b then x else y) ≡ x
  if_true true x y h = refl
  if_true false x y h = absurd (ground arith)

  -- What a command leads to is a step of the switch.
  abbrev Follows : Phase → Command → Option (Result (Unit {0}) × (Responder × W)) → Type 0
  Follows p command result =
      (outcome : Result (Unit {0})) × (s : Responder × W) × (q : Phase) × (result
        ≡ some (outcome, s))
      × Step p command outcome q
      × Stands view owned q s

  or_stop-Follows :
      (result : Option (Result (Unit {0}) × (Responder × W)))
      → Ends
          (Started net threads view accounts creates owned)
          (Failed net threads view accounts creates owned)
          result
      → Follows off start_command (or_stop net threads result)
  unfolding or_stop
  or_stop-Follows result (ok a, s, e, h) = (ok tt, s, on, rw (or_stop, e) refl, starts, h)
  or_stop-Follows result (err error, (r, w), e, (second, h)) = (
    err error,
    stop net (r, w),
    off,
    rw (or_stop, e) refl,
    fails error,
    stop-Stands net threads view accounts creates owned (r, w)
        (rw second (
          regroup-Held net threads view accounts creates owned
            (λ x. owns r.discovery_thread x + owned x) _ w (λ x. omega arith) h)),
  )

  perform-Follows :
      (p : Phase) (command : Command) (s : Responder × W)
      → Stands view owned p s
      → Follows p command (perform net threads command s)
  unfolding perform start
  perform-Follows off start_command (r, w) (set, first, second, h) =
      rw (start, set)
        (or_stop-Follows (start_block net threads (record r { running = true }, w)) (
          start_block-Ends net threads view accounts creates owned (record r { running = true }) w
            refl first second h))
  perform-Follows on start_command (r, w) (set, stands) =
      (ok tt, (r, w), on, if_true r.running _ _ set, already_on, (set, stands))
  perform-Follows off stop_command (r, w) (set, first, second, h) = (
    ok tt,
    stop net (r, w),
    off,
    refl,
    stops off,
    stop-Stands net threads view accounts creates owned (r, w)
        (rw (first, second)
          (regroup-Held net threads view accounts creates owned owned _ w (λ x. omega arith) h)),
  )
  perform-Follows on stop_command (r, w) (set, (d, p, first, second, h)) = (
    ok tt,
    stop net (r, w),
    off,
    refl,
    stops on,
    stop-Stands net threads view accounts creates owned (r, w) (rw (first, second) h),
  )

  -- Whatever calls of `start` and `stop` a responder gets, over any system calls that open and close
  -- sockets as documented, each of them returns or throws; the outcomes are those of a switch, which a `start`
  -- that returns turns on, and a `stop` or a `start` that throws leaves off; and in the end a responder that is
  -- on owns two sockets and one that is off none, with every other socket closed once.
  pub responder_refines_switch :
      (commands : List Command) (p : Phase) (s : Responder × W)
      → Stands view owned p s
      → (outcomes : List (Result (Unit {0}))) × (s' : Responder × W) × (q : Phase) × (perform_all
            net threads commands s
          ≡ some (outcomes, s'))
        × Steps p commands outcomes q
        × Stands view owned q s'
  unfolding perform_all
  responder_refines_switch [] p s h = ([], s, p, refl, finish p, h)
  responder_refines_switch (command ∷ commands) p s h =
      let (outcome, s', q, e, step, h') = perform-Follows p command s h in
      let (outcomes, s'', r, e', steps, h'') = responder_refines_switch commands q s' h' in
      (outcome ∷ outcomes, s'', r, rw (perform_all, e, e') refl, next step steps, h'')
