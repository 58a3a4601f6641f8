-- ===== src/App/Control/Protocol.antt =====
-- What a request does to a daemon that serves it, and what it is answered with.
use clippy.Base.{
  ◌≡◌, refl, sym, subst, Bool-cases, inl, inr, none, some, false, if◌then◌else◌, ok, err,
}
use clippy.Base.Bytes.{Bytes, codes, bytes_beq, bytes_beq_iff}
use clippy.App.Control.{
  control_command_status, control_command_stop, ControlResponse, new_error, ControlCodec,
  ControlHandler, Endpoint, failure, success, handle_conn, read_response, request_control,
}

module _ (codec : ControlCodec) {S : Type 0} (handler : ControlHandler S) where
  -- An endpoint behind which `Serve` runs `handleConn`.
  abbrev pub serving : Endpoint S
  serving = record { dial = λ s. none; write = λ s b. none; answer = handle_conn codec handler }

  -- What a command is answered with.
  abbrev pub reply : S → Bytes → ControlResponse
  reply s command =
      if bytes_beq command control_command_status
      then success (handler.report s)
      else if bytes_beq command control_command_stop
      then success (handler.report s)
      else failure (codes "unknown command")

  -- The command and its answer come back from their encodings as they were.
  pub record IsReadBack (s : S) (command : Bytes) : Type 0 where
    pub request :
        codec.decode_request (codec.encode_request (record { command = command }))
        ≡ ok (record { command = command })
    pub response :
        codec.decode_response (codec.encode_response (reply s command)) ≡ ok (reply s command)

  abbrev after : S → Bytes → S
  after s command = if bytes_beq command control_command_stop then handler.stop s else s

  module _ (s : S) (command : Bytes) (h : IsReadBack s command) where
    handled :
        handle_conn codec handler s (codec.encode_request (record { command = command }))
        ≡ (after s command, codec.encode_response (reply s command))
    unfolding handle_conn
    handled =
        rw (h.request, handle_conn)
          (elim (Bool-cases (bytes_beq command control_command_status)) [
            | inl status ↦
                let other : bytes_beq command control_command_stop ≡ false =
                  subst (λ c. bytes_beq c control_command_stop ≡ false)
                    (sym ((bytes_beq_iff command control_command_status).0 status))
                    (unfold bytes_beq in refl) in
                rw (status, other)
            | inr unlike ↦ elim (Bool-cases (bytes_beq command control_command_stop)) [
              | inl stop ↦ rw (unlike, stop)
              | inr other ↦ rw (unlike, other)
            ]
          ])

    answered : read_response codec (codec.encode_response (reply s command)) ≡ (
        if (reply s command).ok'
        then ok (reply s command).status
        else err (new_error (reply s command).error))
    unfolding read_response
    answered = rw (h.response, read_response)

  -- A request to a daemon that serves it, of which the codec reads back what it has written:
  -- the commands `status` and `stop` are answered with the status that the daemon had before, any
  -- other one with the error `unknown command`; and `stop` stops the daemon, where all other
  -- commands leave it as it was.
  pub request_control-handle_conn :
      (s : S) (command : Bytes)
      → IsReadBack s command
      → request_control codec serving s command ≡ (
        if bytes_beq command control_command_stop then handler.stop s else s,
        if bytes_beq command control_command_status
            then ok (some (handler.report s))
            else if bytes_beq command control_command_stop
            then ok (some (handler.report s))
            else err (new_error (codes "unknown command")),
      )
  unfolding request_control
  request_control-handle_conn s command h =
      rw (handled s command h, answered s command h)
        (elim (Bool-cases (bytes_beq command control_command_status)) [
          | inl status ↦ rw status
          | inr unlike ↦ elim (Bool-cases (bytes_beq command control_command_stop)) [
            | inl stop ↦ rw (unlike, stop)
            | inr other ↦ rw (unlike, other)
          ]
        ])
