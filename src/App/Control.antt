-- ===== src/App/Control.antt =====
-- internal/app/control.go: the requests that the command line makes of a running daemon. The
-- codec of package `encoding/json` is a parameter.
pub mod Protocol
use clippy.Base.{Bool, true, false, Option, none, some, [], if◌then◌else◌, Result, ok, err}
use clippy.Base.Bytes.{Bytes, codes, bytes_beq}
use clippy.App.Status.{Status}

abbrev pub control_command_status : Bytes
control_command_status = codes "status"

abbrev pub control_command_stop : Bytes
control_command_stop = codes "stop"

pub record ControlRequest : Type 0 where
  pub command : Bytes

pub record ControlResponse : Type 0 where
  pub ok' : Bool
  pub error : Bytes
  pub status : Option Status

-- An error as the callers of `RequestControl` look at it: whether there is a `net.OpError` in it,
-- and its text.
pub record ControlError : Type 0 where
  pub is_op_error : Bool
  pub text : Bytes

-- `errors.New`.
abbrev pub new_error : Bytes → ControlError
new_error text = record { is_op_error = false; text = text }

pub record ControlCodec : Type 0 where
  pub encode_request : ControlRequest → Bytes
  pub decode_request : Bytes → Result ControlError ControlRequest
  pub encode_response : ControlResponse → Bytes
  pub decode_response : Bytes → Result ControlError ControlResponse

-- `S` is what a daemon keeps.
pub record ControlHandler (S : Type 0) : Type 0 where
  pub report : S → Status
  pub stop : S → S

-- The other end of a connection: whether it can be dialled and written to, and what the bytes
-- that are sent to it do to it and are answered with.
pub record Endpoint (S : Type 0) : Type 0 where
  pub dial : S → Option ControlError
  pub write : S → Bytes → Option ControlError
  pub answer : S → Bytes → S × Bytes

abbrev pub failure : Bytes → ControlResponse
failure text = record { ok' = false; error = text; status = none }

abbrev pub success : Status → ControlResponse
success status = record { ok' = true; error = []; status = some status }

module _ (codec : ControlCodec) where
  -- `handleConn` on what it reads, with what it writes. The status is taken before `Stop`.
  unfoldable pub handle_conn : {S : Type 0} → ControlHandler S → S → Bytes → S × Bytes
  handle_conn handler s input = elim (codec.decode_request input) [
    | err e ↦ (s, codec.encode_response (failure e.text))
    | ok req ↦
        if bytes_beq req.command control_command_status
        then (s, codec.encode_response (success (handler.report s)))
        else if bytes_beq req.command control_command_stop
        then (handler.stop s, codec.encode_response (success (handler.report s)))
        else (s, codec.encode_response (failure (codes "unknown command")))
  ]

  -- `RequestControl` from the answer on.
  unfoldable pub read_response : Bytes → Result ControlError (Option Status)
  read_response output = elim (codec.decode_response output) [
    | err e ↦ err e
    | ok resp ↦ if resp.ok' then ok resp.status else err (new_error resp.error)
  ]

  unfoldable pub request_control :
      {S : Type 0} → Endpoint S → S → Bytes → S × Result ControlError (Option Status)
  request_control endpoint s command =
      let request = codec.encode_request (record { command = command }) in
      elim (endpoint.dial s) [
        | some e ↦ (s, err e)
        | none ↦ elim (endpoint.write s request) [
          | some e ↦ (s, err e)
          | none ↦ let (s', output) = endpoint.answer s request in (s', read_response output)
        ]
      ]
