-- ===== src/Cmd/Commands/Running.antt =====
-- The commands beside a daemon that serves their requests, and without one.
use clippy.Base.{◌≡◌, refl, ◌∙◌, Bool, true, Option, some, List, ◌∷◌, Result, ok}
use clippy.Base.Bytes.{Bytes, codes, bytes_beq}
use clippy.App.Config.{Config}
use clippy.App.Status.{Status}
use clippy.App.Control.{
  ControlCodec, ControlError, ControlHandler, Endpoint, request_control, control_command_status,
  control_command_stop,
}
use clippy.App.Control.Protocol.{serving, IsReadBack, request_control-handle_conn}
use clippy.Cmd.Flags.{parse_common_flags}
use clippy.Cmd.Commands.{
  Machine, already_running, stopping, running_yes, unless_running, stop_outcome, status_outcome,
  run_start, run_stop, run_status, run,
}

module _ {S : Type 0} (m : Machine S) (getenv : Bytes → Bytes) (default_endpoint : Bytes) where
  -- The flags of a command are well-formed.
  abbrev pub Parses : Bytes → List Bytes → Config × Bool → Type 0
  Parses command args r = parse_common_flags getenv default_endpoint command args ≡ ok r

  -- Every request goes to this endpoint.
  abbrev pub Reaches : ControlCodec → Endpoint S → Type 0
  Reaches codec endpoint =
      (e : Bytes) (s : S) (command : Bytes)
      → m.request e s command ≡ request_control codec endpoint s command

  module _ (codec : ControlCodec) (endpoint : Endpoint S) (reaches : Reaches codec endpoint) (s : S)
      (args : List Bytes) (c : Config) (fg : Bool)
      (reply : S × Result ControlError (Option Status)) where
    run_start-reply :
        Parses (codes "start") args (c, fg)
        → request_control codec endpoint s control_command_status ≡ reply
        → run m getenv default_endpoint (codes "start" ∷ args) s ≡ unless_running m c fg reply
    unfolding run run_start bytes_beq
    run_start-reply parses got =
        rw (parses, run_start) (rw (reaches c.control_endpoint s control_command_status, got))

    run_stop-reply :
        Parses (codes "stop") args (c, fg)
        → request_control codec endpoint s control_command_stop ≡ reply
        → run m getenv default_endpoint (codes "stop" ∷ args) s ≡ some (stop_outcome m reply)
    unfolding run run_stop bytes_beq
    run_stop-reply parses got =
        rw (parses, run_stop) (rw (reaches c.control_endpoint s control_command_stop, got))

    run_status-reply :
        Parses (codes "status") args (c, fg)
        → request_control codec endpoint s control_command_status ≡ reply
        → run m getenv default_endpoint (codes "status" ∷ args) s ≡ some (status_outcome m reply)
    unfolding run run_status bytes_beq
    run_status-reply parses got =
        rw (parses, run_status) (rw (reaches c.control_endpoint s control_command_status, got))

  -- Beside a daemon that serves the requests and reports that it is running, of whose answers the
  -- codec reads back what it has written, with flags that parse: `start` says that it is running
  -- already and launches nothing; `status` prints the status of the daemon; neither changes it;
  -- and `stop` stops it and prints the name and the identifier that it had.
  pub run-serving :
      (codec : ControlCodec) (handler : ControlHandler S) (s : S) (args : List Bytes)
      (c c' c'' : Config) (fg fg' fg'' : Bool)
      → Reaches codec (serving codec handler)
      → IsReadBack codec handler s control_command_status
      → IsReadBack codec handler s control_command_stop
      → (handler.report s).running ≡ true
      → Parses (codes "start") args (c, fg)
      → Parses (codes "status") args (c', fg')
      → Parses (codes "stop") args (c'', fg'')
      → (run m getenv default_endpoint (codes "start" ∷ args) s
          ≡ some
              (s, ok (some (already_running (handler.report s).name (handler.report s).node_id))))
        × (run m getenv default_endpoint (codes "status" ∷ args) s
            ≡ some (s, ok (some (running_yes (handler.report s)))))
        × (run m getenv default_endpoint (codes "stop" ∷ args) s
            ≡ some (
              handler.stop s,
              ok (some (stopping (handler.report s).name (handler.report s).node_id)),
            ))
  unfolding unless_running
  run-serving codec handler s args c c' c'' fg fg' fg'' reaches status stop up p p' p'' =
      let reported = request_control-handle_conn codec handler s control_command_status status in
      let stopped = request_control-handle_conn codec handler s control_command_stop stop in
      (
        run_start-reply codec _ reaches s args c fg _ p reported ∙ (unfold bytes_beq in rw up),
        run_status-reply codec _ reaches s args c' fg' _ p' reported ∙ (unfold bytes_beq in refl),
        run_stop-reply codec _ reaches s args c'' fg'' _ p'' stopped ∙ (unfold bytes_beq in refl),
      )
