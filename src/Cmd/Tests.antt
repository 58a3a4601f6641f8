-- ===== src/Cmd/Tests.antt =====
-- Commands with their flags, beside a daemon and without one, and the end of a daemon.
use clippy.Base.{
  ℕ, zero, suc, ◌+◌, ◌↔◌, Bool, true, none, some, Result, ◌≡◌, ok, [], ◌∷◌, List, false, arith,
  refl, if◌then◌else◌,
}
use clippy.Base.Bytes.{Bytes, codes, bytes_beq}
use clippy.Base.Int.{pos}
use clippy.Base.Number.{atoi, digit_value, parse_digits}
use clippy.Base.Text.{trim_space}
use clippy.App.Config.{Config, config_defaults}
use clippy.App.Status.{Status}
use clippy.App.Control.{
  ControlCodec, ControlHandler, ControlResponse, ControlError, Endpoint, failure, success,
  request_control, control_command_status, control_command_stop,
}
use clippy.App.Control.Protocol.{IsReadBack, serving}
use clippy.Cmd.Commands.{
  Machine, already_running, running_yes, stopping, run, wait_for_daemon, start_timeout,
}
use clippy.Cmd.Commands.Waiting.{IsClock, Ended, wait_for_daemon_ends}
use clippy.Cmd.Commands.Running.{run-serving}
use clippy.Cmd.Serve.{
  Daemon, at, receiving, Steps, here, next, new_succeeds, start_succeeds, listen_succeeds, cancels,
  closes, selects_result, runtime_stops, wait_without, initial_daemon, ended,
}
use clippy.Cmd.Serve.Consistent.{IsConsistent, Steps-IsConsistent}
use clippy.Cmd.Serve.Ending.{IsStuck, CanReturn, returns_iff}
use clippy.Cmd.Flags.{parse_common_flags, parse_flags, env_config, env_string, env_int}

-- The environment has a port only.
abbrev getenv : Bytes → Bytes
unfolding bytes_beq
getenv s = if bytes_beq s (codes "CLIPPY_PORT") then codes " 9000 " else []

abbrev endpoint : Bytes
endpoint = codes "/tmp/clippy.sock"

abbrev laptop : Config
laptop = record {
  name = codes "laptop";
  listen_addr = [];
  port = pos 0;
  service_name = codes "_clippy._tcp";
  domain = codes "local.";
  web_socket_path = codes "/ws";
  control_endpoint = endpoint;
}

abbrev laptop_on_port : Config
laptop_on_port = record laptop { port = pos 7420 }

abbrev arguments : List Bytes
arguments = codes "--name=laptop" ∷ codes "-port" ∷ codes "0x1cfc" ∷ []

abbrev report : Status
report = record {
  running = true;
  name = codes "laptop";
  node_id = codes "n1";
  started_at = 7;
  peers = [];
}

abbrev handler : ControlHandler ℕ
handler = record { report = λ s. report; stop = λ s. s + 1 }

-- A success is the byte 1, a failure the byte 0 and its text.
abbrev encode_reply : ControlResponse → Bytes
encode_reply r = elim r.ok' [ true ↦ 1 ∷ [] | false ↦ 0 ∷ r.error ]

abbrev decode_reply : Bytes → Result ControlError ControlResponse
decode_reply (suc c ∷ rest) = ok (success report)
decode_reply (zero ∷ rest) = ok (failure rest)
decode_reply [] = ok (failure [])

abbrev json : ControlCodec
json = record {
  encode_request = λ r. r.command;
  decode_request = λ b. ok (record { command = b });
  encode_response = encode_reply;
  decode_response = decode_reply;
}

-- The state of the machine is its clock; a request takes a second to fail, or none.
abbrev machine : Endpoint ℕ → Machine ℕ
machine e = record {
  request = λ at s command. request_control json e s command;
  now = λ s. s;
  sleep = λ n s. s + n;
  executable = λ s. ok (codes "/bin/clippy");
  spawn = λ argv s. (s, none);
  serve = λ c s. (s, none);
}

abbrev refused : ControlError
refused = record { is_op_error = true; text = codes "connection refused" }

abbrev silent_endpoint : Endpoint ℕ
silent_endpoint = record { dial = λ s. some refused; write = λ s b. none; answer = λ s b. (s, []) }

silent-IsClock : IsClock (machine silent_endpoint)
unfolding request_control
silent-IsClock = record { request = λ e s c. omega arith; sleep = λ n s. omega arith }

waiting_example :
    (r : ℕ × Result ControlError Status) × (wait_for_daemon
        (machine silent_endpoint)
        endpoint
        start_timeout
        0
      ≡ some r)
    × Ended (machine silent_endpoint) (0 + start_timeout) r
waiting_example =
    wait_for_daemon_ends (machine silent_endpoint) endpoint start_timeout 0 silent-IsClock

status-IsReadBack : IsReadBack json handler 0 control_command_status
unfolding bytes_beq
status-IsReadBack = record { request = refl; response = refl }

stop-IsReadBack : IsReadBack json handler 0 control_command_stop
unfolding bytes_beq
stop-IsReadBack = record { request = refl; response = refl }

abbrev from_environment : Config
from_environment = record laptop { name = []; port = pos 9000 }

serving_example :
    (run (machine (serving json handler)) getenv endpoint (codes "start" ∷ []) 0
      ≡ some (0, ok (some (already_running (codes "laptop") (codes "n1")))))
    × (run (machine (serving json handler)) getenv endpoint (codes "status" ∷ []) 0
        ≡ some (0, ok (some (running_yes report))))
    × (run (machine (serving json handler)) getenv endpoint (codes "stop" ∷ []) 0
        ≡ some (1, ok (some (stopping (codes "laptop") (codes "n1")))))
unfolding parse_common_flags parse_flags env_config env_string env_int config_defaults bytes_beq
    atoi digit_value parse_digits trim_space
serving_example =
    run-serving (machine (serving json handler)) getenv endpoint json handler 0 [] from_environment
      from_environment from_environment false false false (λ e s c. refl) status-IsReadBack
      stop-IsReadBack refl refl refl refl

-- A signal, the end of `Serve`, and a `select` that takes its result.
abbrev stuck : Daemon Bool
stuck = at receiving (ended none) none true true

to_stuck : Steps initial_daemon stuck
unfolding initial_daemon
to_stuck =
    next
      (next
        (next
          (next
            (next (next (next (next here new_succeeds) start_succeeds) listen_succeeds)
              (cancels refl))
            closes)
          (selects_result none))
        (runtime_stops refl))
      wait_without

stuck-IsConsistent_example : IsConsistent stuck
stuck-IsConsistent_example = Steps-IsConsistent to_stuck

returns_example : CanReturn stuck ↔ ¬ IsStuck stuck
returns_example = returns_iff stuck to_stuck
