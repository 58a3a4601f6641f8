-- ===== src/Cmd/Serve/Ending.antt =====
-- When `serveDaemon` returns, and when it cannot.
use clippy.Base.{◌≡◌, ◌↔◌, ◌⊎◌, inl, inr, refl, Bool, true, false, Option, none, some}
use clippy.Cmd.Serve.{
  Main, creating, starting, listening, aborting, selecting, waiting, receiving, returned, Server,
  idle, serving, ended, Daemon, at, Step, new_fails, new_succeeds, start_fails, start_succeeds,
  listen_fails, listen_succeeds, aborts, cancels, accept_fails, closes, runtime_stops,
  selects_result, selects_done, wait_with_error, wait_without, receives, initial_daemon, Steps,
  here, next,
}
use clippy.Cmd.Serve.Consistent.{Unread, ReadNone, IsConsistent, Steps-IsConsistent}

module _ {E : Type 0} where
  -- On the way to the last receive, or before it.
  abbrev IsLate : Main E → Type 0
  IsLate (waiting none) = Unit
  IsLate receiving = Unit
  IsLate _ = ⊥

  -- `serveDaemon` has taken the result of a `Serve` that ended without error out of the channel,
  -- and is going to receive from it once more.
  pub IsStuck : Daemon E → Type 0
  IsStuck (at main sv ch c t) = IsLate main × ReadNone sv ch

  pub IsReturned : Daemon E → Type 0
  IsReturned (at (returned r) sv ch c t) = Unit
  IsReturned _ = ⊥

  abbrev pub CanReturn : Daemon E → Type 0
  CanReturn d = (d' : Daemon E) × Steps d d' × IsReturned d'

  Step-IsStuck : {d d' : Daemon E} → Step d d' → IsStuck d → IsStuck d'
  unfolding IsStuck
  Step-IsStuck (new_fails e) s = absurd s.0
  Step-IsStuck new_succeeds s = absurd s.0
  Step-IsStuck (start_fails e) s = absurd s.0
  Step-IsStuck start_succeeds s = absurd s.0
  Step-IsStuck (listen_fails e) s = absurd s.0
  Step-IsStuck listen_succeeds s = absurd s.0
  Step-IsStuck (aborts e) s = absurd s.0
  Step-IsStuck (cancels h) s = s
  Step-IsStuck (accept_fails e) (late, s) = let q = s.0 in let r = s.1 in cc
  Step-IsStuck closes (late, s) = let q = s.0 in let r = s.1 in cc
  Step-IsStuck (runtime_stops h) s = s
  Step-IsStuck (selects_result r) s = absurd s.0
  Step-IsStuck selects_done s = absurd s.0
  Step-IsStuck (wait_with_error e) s = absurd s.0
  Step-IsStuck wait_without (late, s) = (tt, s)
  Step-IsStuck (receives r) (late, s) = let q = s.0 in let r = s.1 in cc

  Steps-IsStuck : {d d' : Daemon E} → Steps d d' → IsStuck d → IsStuck d'
  Steps-IsStuck here s = s
  Steps-IsStuck (next steps step) s = Step-IsStuck step (Steps-IsStuck steps s)

  stuck_returned : (d : Daemon E) → IsStuck d → IsReturned d → ⊥
  unfolding IsStuck IsReturned
  stuck_returned (at (returned r) sv ch c t) s q = s.0
  stuck_returned (at creating sv ch c t) s q = q
  stuck_returned (at starting sv ch c t) s q = q
  stuck_returned (at listening sv ch c t) s q = q
  stuck_returned (at selecting sv ch c t) s q = q
  stuck_returned (at receiving sv ch c t) s q = q
  stuck_returned (at (aborting e) sv ch c t) s q = q
  stuck_returned (at (waiting r) sv ch c t) s q = q

  prepend : {d u v : Daemon E} → Step d u → Steps u v → Steps d v
  prepend first here = next here first
  prepend first (next steps step) = next (prepend first steps) step

  before : {d u : Daemon E} → Step d u → CanReturn u → CanReturn d
  before first (d', steps, r) = (d', prepend first steps, r)

  can_receive :
      (sv : Server E) (ch : Option (Option E)) (t : Bool)
      → Unread sv ch
      → CanReturn (at receiving sv ch true t)
  unfolding IsReturned
  can_receive idle ch t p = absurd p
  can_receive serving none t p = before closes (before (receives none) (_, here, tt))
  can_receive serving (some r) t p = cc
  can_receive (ended r) none t p = cc
  can_receive (ended r) (some r') t p = before (receives r') (_, here, tt)

  can_wait :
      (sv : Server E) (ch : Option (Option E)) (t : Bool)
      → Unread sv ch
      → CanReturn (at (waiting none) sv ch true t)
  can_wait sv ch t p = before (runtime_stops refl) (before wait_without (can_receive sv ch true p))

  can_select :
      (sv : Server E) (ch : Option (Option E)) (c t : Bool)
      → Unread sv ch
      → CanReturn (at selecting sv ch c t)
  can_select sv ch c t p = before (cancels refl) (before selects_done (can_wait sv ch t p))

  Unread-kept :
      (sv : Server E) (ch : Option (Option E))
      → Unread sv ch ⊎ ReadNone sv ch
      → ¬ (Unit {0} × ReadNone sv ch)
      → Unread sv ch
  Unread-kept sv ch (inl p) h = p
  Unread-kept sv ch (inr p) h = absurd (h (tt, p))

  can_listen :
      (sv : Server E) (ch : Option (Option E)) (c t : Bool)
      → sv ≡ idle
      → ch ≡ none
      → CanReturn (at listening sv ch c t)
  can_listen idle ch c t p q = before listen_succeeds (can_select serving ch c t q)
  can_listen serving ch c t p q = cc
  can_listen (ended r) ch c t p q = cc

  can_return : (d : Daemon E) → IsConsistent d → ¬ IsStuck d → CanReturn d
  unfolding IsConsistent IsStuck IsReturned
  can_return (at creating sv ch c t) (f, k) h =
      before new_succeeds (before start_succeeds (can_listen sv ch c t f.0 f.1))
  can_return (at starting sv ch c t) (f, k) h = before start_succeeds (can_listen sv ch c t f.0 f.1)
  can_return (at listening sv ch c t) (f, k) h = can_listen sv ch c t f.0 f.1
  can_return (at (aborting e) sv ch false t) ((p, q, r), k) h = cc
  can_return (at (aborting e) sv ch true t) (f, k) h =
      before (runtime_stops refl) (before (aborts e) (_, here, tt))
  can_return (at selecting sv ch c t) (f, k) h = can_select sv ch c t f
  can_return (at (waiting (some e)) sv ch c t) (f, k) h =
      before (cancels refl) (before (runtime_stops refl) (before (wait_with_error e) (_, here, tt)))
  can_return (at (waiting none) sv ch c t) (f, k) h =
      before (cancels refl) (can_wait sv ch t (Unread-kept sv ch f.0 h))
  can_return (at receiving sv ch c t) (f, k) h =
      before (cancels refl) (can_receive sv ch t (Unread-kept sv ch f.0 h))
  can_return (at (returned r) sv ch c t) f h = (_, here, tt)

  -- From each reachable state of `serveDaemon` there is a way to its return, unless it has received
  -- the result of a `Serve` that ended without error in the `select`: then it never returns, as it
  -- receives once more from a channel that nobody sends to again.
  pub returns_iff : (d : Daemon E) → Steps initial_daemon d → CanReturn d ↔ ¬ IsStuck d
  unfolding IsStuck IsReturned
  returns_iff d steps =
      (λ r s. stuck_returned r.0 (Steps-IsStuck r.1 s) r.2, can_return d (Steps-IsConsistent steps))
