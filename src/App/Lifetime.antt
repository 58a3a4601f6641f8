-- ===== src/App/Lifetime.antt =====
-- internal/app/runtime.go: `New`, and `Start` and `Wait` beside the goroutine that waits for the
-- mesh, as a step relation.
pub mod Waiting
pub mod Meshing
pub mod Tests
use clippy.Base.{◌≡◌, Bool, true, false, Option, none, some, List, [], ◌∷◌, ◌++◌, Result, ok, err}
use clippy.Base.Bytes.{Bytes}
use clippy.Base.Int.{pos}
use clippy.Netmesh.Options.{Options, OptionsError, with_defaults}
use clippy.App.Config.{Config, config_defaults}

-- What `New` hands to `netmesh.NewManager`; the fields that it leaves out are zero.
unfoldable pub mesh_options : Config → Options
mesh_options cfg = record {
  node_id = [];
  name = cfg.name;
  service_name = cfg.service_name;
  domain = cfg.domain;
  web_socket_path = cfg.web_socket_path;
  listen_addr = cfg.listen_addr;
  port = cfg.port;
  heartbeat_interval = pos 0;
  pong_timeout = pos 0;
  peer_stale_after = pos 0;
  browse_cycle = pos 0;
  reconnect_min_backoff = pos 0;
  reconnect_max_backoff = pos 0;
  max_frame_bytes = pos 0;
  send_queue_size = pos 0;
}

pub data NewError (C : Type 0) : Type 0 where
  clipboard_failed : C → NewError C
  mesh_failed : OptionsError → NewError C

-- `New`, with the options that the mesh then has. `init` is the error of `clipboard.Init`, if it
-- has one; the handler is not nil, so that `NewManager` fails at the options alone.
unfoldable pub new_runtime :
    {C : Type 0}
    → Option C
    → Result OptionsError Bytes
    → Result OptionsError Bytes
    → Config
    → Result (NewError C) Options
new_runtime (some e) new_node_id hostname cfg = err (clipboard_failed e)
new_runtime none new_node_id hostname cfg =
    elim (with_defaults new_node_id hostname (mesh_options (config_defaults cfg))) [
      | err e ↦ err (mesh_failed e)
      | ok resolved ↦ ok resolved
    ]

-- The goroutine that waits: not launched, at `<-ctx.Done()`, at `r.mesh.Wait()`, or done.
pub data Stopper : Type 0 where
  absent awaiting_end awaiting_mesh stopped : Stopper

module _ (E : Type 0) where
  -- The body of `runOnce.Do`: not begun, before `mesh.Start`, before `close(r.waitCh)` at its
  -- error, with a result, or behind its `return`.
  pub data Starter : Type 0 where
    unstarted starting over : Starter
    aborting : E → Starter
    returning : Option E → Starter

  -- `done` is whether the context has ended, `mesh_done` whether `mesh.Wait` returns.
  pub record Life : Type 0 where
    pub starter : Starter
    pub stopper : Stopper
    pub clipboard_started : Bool
    pub wait_err : Option E
    pub wait_closed : Bool
    pub done : Bool
    pub mesh_done : Bool

  abbrev pub new_life : Life
  new_life = record {
    starter = unstarted;
    stopper = absent;
    clipboard_started = false;
    wait_err = none;
    wait_closed = false;
    done = false;
    mesh_done = false;
  }

  -- What a step shows: `Start` or `Wait` returns, or the channel `waitCh` is closed.
  pub data Label : Type 0 where
    silent closes : Label
    start_returns wait_returns : Option E → Label

  -- A caller of `Start` that does not come first waits in `runOnce.Do` until the body is done, and
  -- returns no error, before the first caller returns or later. The mesh may end before the context does, at an error of its HTTP server.
  pub data Step (s : Life) : Label → Life → Type 0 where
    begins :
        s.starter ≡ unstarted
        → Step s silent (record s { starter = starting; clipboard_started = true })
    mesh_fails :
        (e : E)
        → s.starter ≡ starting
        → Step s silent (record s { starter = aborting e; wait_err = some e })
    aborts :
        (e : E)
        → s.starter ≡ aborting e
        → Step s closes (record s { starter = returning (some e); wait_closed = true })
    mesh_starts :
        s.starter ≡ starting
        → Step s silent (record s { starter = returning none; stopper = awaiting_end })
    returns_first :
        (r : Option E)
        → s.starter ≡ returning r
        → Step s (start_returns r) (record s { starter = over })
    returns_beside : (r : Option E) → s.starter ≡ returning r → Step s (start_returns none) s
    returns_later : s.starter ≡ over → Step s (start_returns none) s
    context_ends : Step s silent (record s { done = true })
    mesh_ends : Step s silent (record s { mesh_done = true })
    notices :
        s.stopper ≡ awaiting_end
        → s.done ≡ true
        → Step s silent (record s { stopper = awaiting_mesh })
    stops :
        s.stopper ≡ awaiting_mesh
        → s.mesh_done ≡ true
        → Step s closes (record s { stopper = stopped; wait_closed = true })
    returns_wait : s.wait_closed ≡ true → Step s (wait_returns s.wait_err) s

  -- The steps of a runtime, with what they show, oldest first.
  pub data Run : List Label → Life → Type 0 where
    fresh : Run [] new_life
    next :
        {shown : List Label} {s s' : Life} {l : Label}
        → Run shown s
        → Step s l s'
        → Run (shown ++ l ∷ []) s'
