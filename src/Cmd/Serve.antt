-- ===== src/Cmd/Serve.antt =====
-- `serveDaemon` of cmd/clippy/main.go as a step relation: the function itself, the goroutine that
-- runs `Serve` of internal/app/control.go, signals and `stop` requests, and the runtime.
pub mod Consistent
pub mod Ending
use clippy.Base.{◌≡◌, Bool, true, false, ◌||◌, Option, none, some}
use clippy.Netmesh.PeerState.{is_some}

-- Where `serveDaemon` stands: before `app.New`, before `rt.Start`, before `NewControlServer`, in
-- the `rt.Wait` behind its error, in the `select`, in the last `rt.Wait` with `serverErr`, before
-- the last receive, or behind a `return`.
pub data Main (E : Type 0) : Type 0 where
  creating starting listening selecting receiving : Main E
  aborting : E → Main E
  waiting : Option E → Main E
  returned : Option E → Main E

-- The goroutine with the result of `Serve`.
pub data Server (E : Type 0) : Type 0 where
  idle serving : Server E
  ended : Option E → Server E

-- The last three are what is in the channel `serverErrCh`, whether the context is cancelled, and
-- whether the channel that `rt.Wait` receives from is closed.
pub data Daemon (E : Type 0) : Type 0 where
  at : Main E → Server E → Option (Option E) → Bool → Bool → Daemon E

-- The context exists between `signal.NotifyContext` and the deferred `stop`, where a signal or a
-- request can cancel it.
abbrev pub has_context : {E : Type 0} → Main E → Bool
has_context creating = false
has_context (returned r) = false
has_context _ = true

-- `rt.Start` has returned without error.
abbrev pub is_started : {E : Type 0} → Main E → Bool
is_started creating = false
is_started starting = false
is_started _ = true

-- `Serve` returns the error of `Accept`, or none once the context is cancelled; the listener is
-- closed for no other reason. The runtime that has started keeps no error for `rt.Wait`.
pub data Step {E : Type 0} : Daemon E → Daemon E → Type 0 where
  new_fails :
      {sv : Server E} {ch : Option (Option E)} {c t : Bool} (e : E)
      → Step (at creating sv ch c t) (at (returned (some e)) sv ch c t)
  new_succeeds :
      {sv : Server E} {ch : Option (Option E)} {c t : Bool}
      → Step (at creating sv ch c t) (at starting sv ch c t)
  start_fails :
      {sv : Server E} {ch : Option (Option E)} {c t : Bool} (e : E)
      → Step (at starting sv ch c t) (at (returned (some e)) sv ch c t)
  start_succeeds :
      {sv : Server E} {ch : Option (Option E)} {c t : Bool}
      → Step (at starting sv ch c t) (at listening sv ch c t)
  listen_fails :
      {sv : Server E} {ch : Option (Option E)} {c t : Bool} (e : E)
      → Step (at listening sv ch c t) (at (aborting e) sv ch true t)
  listen_succeeds :
      {ch : Option (Option E)} {c t : Bool}
      → Step (at listening idle ch c t) (at selecting serving ch c t)
  aborts :
      {sv : Server E} {ch : Option (Option E)} {c : Bool} (e : E)
      → Step (at (aborting e) sv ch c true) (at (returned (some e)) sv ch c true)
  cancels :
      {main : Main E} {sv : Server E} {ch : Option (Option E)} {c t : Bool}
      → has_context main ≡ true
      → Step (at main sv ch c t) (at main sv ch true t)
  accept_fails :
      {main : Main E} {t : Bool} (e : E)
      → Step (at main serving none false t) (at main (ended (some e)) (some (some e)) false t)
  closes :
      {main : Main E} {t : Bool}
      → Step (at main serving none true t) (at main (ended none) (some none) true t)
  -- The runtime runs from `rt.Start` on; its goroutine closes the channel when the mesh is done.
  runtime_stops :
      {main : Main E} {sv : Server E} {ch : Option (Option E)} {t : Bool}
      → is_started main ≡ true
      → Step (at main sv ch true t) (at main sv ch true true)
  selects_result :
      {sv : Server E} {c t : Bool} (r : Option E)
      → Step (at selecting sv (some r) c t) (at (waiting r) sv none (c || is_some r) t)
  selects_done :
      {sv : Server E} {ch : Option (Option E)} {t : Bool}
      → Step (at selecting sv ch true t) (at (waiting none) sv ch true t)
  wait_with_error :
      {sv : Server E} {ch : Option (Option E)} {c : Bool} (e : E)
      → Step (at (waiting (some e)) sv ch c true) (at (returned (some e)) sv ch c true)
  wait_without :
      {sv : Server E} {ch : Option (Option E)} {c : Bool}
      → Step (at (waiting none) sv ch c true) (at receiving sv ch c true)
  receives :
      {sv : Server E} {c t : Bool} (r : Option E)
      → Step (at receiving sv (some r) c t) (at (returned r) sv none c t)

unfoldable pub initial_daemon : {E : Type 0} → Daemon E
initial_daemon = at creating idle none false false

-- Steps one after another.
pub data Steps {E : Type 0} (d : Daemon E) : Daemon E → Type 0 where
  here : Steps d d
  next : {u v : Daemon E} → Steps d u → Step u v → Steps d v
