-- ===== src/Cmd/Commands.antt =====
-- The commands of cmd/clippy/main.go. What they ask of the operating system is a parameter, and
-- what they print is a value.
pub mod Waiting
pub mod Launching
pub mod Running
use clippy.Base.{
  ℕ, ◌+◌, ◌*◌, ◌/◌, zero, suc, Bool, true, false, ◌&&◌, ◌||◌, Option, none, some, List, [], ◌∷◌,
  ◌==◌, ltb, leb, if◌then◌else◌, Result, ok, err, length,
}
use clippy.Base.Bytes.{Bytes, codes, bytes_beq}
use clippy.App.Config.{Config}
use clippy.App.Status.{PeerStatus, Status}
use clippy.App.Control.{ControlError, new_error, control_command_status, control_command_stop}
use clippy.Cmd.Flags.{FlagError, parse_common_flags, daemon_args}

-- Ten seconds.
abbrev pub start_timeout : ℕ
start_timeout = 10000000000

-- `200 * time.Millisecond`.
abbrev pub poll_interval : ℕ
poll_interval = 200000000

-- What the commands call: `RequestControl` at an endpoint, the clock, `time.Sleep`,
-- `os.Executable`, `SpawnDetached` of an argument vector with the environment of this process, and
-- `serveDaemon`. `S` is the state of the machine.
pub record Machine (S : Type 0) : Type 0 where
  pub request : Bytes → S → Bytes → S × Result ControlError (Option Status)
  pub now : S → ℕ
  pub sleep : ℕ → S → S
  pub executable : S → Result ControlError Bytes
  pub spawn : List Bytes → S → S × Option ControlError
  pub serve : Config → S → S × Option ControlError

-- `panicked` is the nil pointer that a command reads the name of.
pub data CommandError : Type 0 where
  usage panicked : CommandError
  bad_flags : FlagError → CommandError
  failed : ControlError → CommandError

pub data Printed : Type 0 where
  already_running started stopping : Bytes → Bytes → Printed
  not_running running_no : Printed
  running_yes : Status → Printed

-- A command ends with what it printed, or with its error.
abbrev pub Outcome : Type 0
Outcome = Result CommandError (Option Printed)

-- `err == nil && status != nil && status.Running`.
abbrev pub is_running : Result ControlError (Option Status) → Option Status
is_running (ok (some status)) = if status.running then some status else none
is_running (ok none) = none
is_running (err e) = none

-- The error of `waitForDaemon` behind the deadline.
abbrev pub timed_out : Result ControlError (Option Status) → ControlError
timed_out (err e) = e
timed_out (ok status) = new_error (codes "timed out waiting for daemon readiness")

abbrev lower_byte : ℕ → ℕ
lower_byte c = if leb b'A' c && leb c b'Z' then c + 32 else c

-- `strings.ToLower`, as far as it decides which letters i, e and p there are: the letter U+0130,
-- of the bytes 0xC4 and 0xB0, has the lower case i, and no other letter beyond ASCII has one of
-- the three.
unfoldable pub to_lower : Bytes → Bytes
to_lower [] = []
to_lower (c ∷ []) = lower_byte c ∷ []
to_lower (c ∷ d ∷ ds) =
    let rest = to_lower (d ∷ ds) in
    let behind = to_lower ds in
    if c == 0xC4 && d == 0xB0 then b'i' ∷ behind else lower_byte c ∷ rest

abbrev pub begins_pipe : Bytes → Bool
begins_pipe (a ∷ b ∷ c ∷ d ∷ rest) = a == b'p' && (b == b'i' && (c == b'p' && d == b'e'))
begins_pipe _ = false

unfoldable pub contains_pipe : Bytes → Bool
contains_pipe [] = false
contains_pipe (c ∷ cs) = begins_pipe (c ∷ cs) || contains_pipe cs

unfoldable pub is_control_unavailable : ControlError → Bool
is_control_unavailable e = e.is_op_error || contains_pipe (to_lower e.text)

module _ {S : Type 0} (m : Machine S) where
  -- The loop of `waitForDaemon` up to `deadline`, with the number of rounds that it may take.
  unfoldable pub wait_loop : ℕ → Bytes → ℕ → S → Option (S × Result ControlError Status)
  wait_loop zero endpoint deadline s = none
  wait_loop (suc rounds) endpoint deadline s =
      let (s', reply) = m.request endpoint s control_command_status in
      let rest = wait_loop rounds endpoint deadline (m.sleep poll_interval s') in
      elim (is_running reply) [
        | some status ↦ some (s', ok status)
        | none ↦ if ltb deadline (m.now s') then some (s', err (timed_out reply)) else rest
      ]

  -- Each round but the last takes at least the pause, so that two more rounds than pauses fit into
  -- the timeout are enough.
  unfoldable pub wait_for_daemon : Bytes → ℕ → S → Option (S × Result ControlError Status)
  wait_for_daemon endpoint timeout s =
      wait_loop (suc (timeout / poll_interval + 1)) endpoint (m.now s + timeout) s

  -- `runStart` once the daemon is launched.
  abbrev pub start_outcome : Option (S × Result ControlError Status) → Option (S × Outcome)
  start_outcome none = none
  start_outcome (some (s, err e)) = some (s, err (failed e))
  start_outcome (some (s, ok status)) = some (s, ok (some (started status.name status.node_id)))

  abbrev pub serve_outcome : S × Option ControlError → S × Outcome
  serve_outcome (s, some e) = (s, err (failed e))
  serve_outcome (s, none) = (s, ok none)

  -- `runStart` behind the test for a daemon that is running.
  unfoldable pub launch : Config → Bool → S → Option (S × Outcome)
  launch c true s = some (serve_outcome (m.serve c s))
  launch c false s = elim (m.executable s) [
    | err e ↦ some (s, err (failed e))
    | ok exe ↦
        let (s', error) = m.spawn (exe ∷ codes "daemon" ∷ daemon_args c) s in
        elim error [
          | some e ↦ some (s', err (failed e))
          | none ↦ start_outcome (wait_for_daemon c.control_endpoint start_timeout s')
        ]
  ]

  -- `isControlUnavailable` decides between a message and the error.
  abbrev pub unavailable_or : Printed → ControlError → Outcome
  unavailable_or message e = if is_control_unavailable e then ok (some message) else err (failed e)

  abbrev pub stop_outcome : S × Result ControlError (Option Status) → S × Outcome
  stop_outcome (s, err e) = (s, unavailable_or not_running e)
  stop_outcome (s, ok none) = (s, err panicked)
  stop_outcome (s, ok (some status)) = (s, ok (some (stopping status.name status.node_id)))

  abbrev pub status_outcome : S × Result ControlError (Option Status) → S × Outcome
  status_outcome (s, err e) = (s, unavailable_or running_no e)
  status_outcome (s, ok none) = (s, err panicked)
  status_outcome (s, ok (some status)) = (s, ok (some (running_yes status)))

  -- `runStart` from the reply to its request on.
  unfoldable pub unless_running :
      Config → Bool → S × Result ControlError (Option Status) → Option (S × Outcome)
  unless_running c foreground (s, reply) = elim (is_running reply) [
    | some status ↦ some (s, ok (some (already_running status.name status.node_id)))
    | none ↦ launch c foreground s
  ]

  -- `getenv` is `os.Getenv`, and `default_endpoint` is `DefaultControlEndpoint()`.
  module _ (getenv : Bytes → Bytes) (default_endpoint : Bytes) where
    unfoldable pub run_start : List Bytes → S → Option (S × Outcome)
    run_start args s = elim (parse_common_flags getenv default_endpoint (codes "start") args) [
      | err e ↦ some (s, err (bad_flags e))
      | ok (c, foreground) ↦
          unless_running c foreground (m.request c.control_endpoint s control_command_status)
    ]

    unfoldable pub run_stop : List Bytes → S → S × Outcome
    run_stop args s = elim (parse_common_flags getenv default_endpoint (codes "stop") args) [
      | err e ↦ (s, err (bad_flags e))
      | ok (c, foreground) ↦ stop_outcome (m.request c.control_endpoint s control_command_stop)
    ]

    unfoldable pub run_status : List Bytes → S → S × Outcome
    run_status args s = elim (parse_common_flags getenv default_endpoint (codes "status") args) [
      | err e ↦ (s, err (bad_flags e))
      | ok (c, foreground) ↦ status_outcome (m.request c.control_endpoint s control_command_status)
    ]

    unfoldable pub run_daemon : List Bytes → S → S × Outcome
    run_daemon args s = elim (parse_common_flags getenv default_endpoint (codes "daemon") args) [
      | err e ↦ (s, err (bad_flags e))
      | ok (c, foreground) ↦ serve_outcome (m.serve c s)
    ]

    unfoldable pub run : List Bytes → S → Option (S × Outcome)
    unfolding bytes_beq
    run [] s = some (s, err usage)
    run (command ∷ args) s =
        if bytes_beq command (codes "start")
        then run_start args s
        else if bytes_beq command (codes "stop")
        then some (run_stop args s)
        else if bytes_beq command (codes "status")
        then some (run_status args s)
        else if bytes_beq command (codes "daemon")
        then some (run_daemon args s)
        else some (s, err usage)
