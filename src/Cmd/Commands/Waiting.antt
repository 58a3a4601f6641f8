-- ===== src/Cmd/Commands/Waiting.antt =====
-- Waiting for the daemon ends.
use clippy.Base.{
  true, ◌⊎◌, ltb→lt, ◌∙◌, ◌/◌, ℕ, zero, suc, ◌+◌, ◌*◌, ◌<◌, ◌≤◌, ◌≡◌, Option, none, some, arith,
  Result, ok, err, Bool-cases, Option-cases, inl, inr, ltb,
}
use clippy.Base.Bytes.{Bytes}
use clippy.App.Control.{ControlError, control_command_status}
use clippy.App.Status.{Status}
use clippy.Cmd.Commands.{Machine, timed_out, wait_loop, wait_for_daemon, is_running, poll_interval}

module _ {S : Type 0} (m : Machine S) where
  -- A request does not turn the clock back, and `time.Sleep` pauses at least as long as it says.
  pub record IsClock : Type 0 where
    pub request :
        (endpoint : Bytes) (s : S) (command : Bytes)
        → m.now s ≤ m.now (m.request endpoint s command).0
    pub sleep : (n : ℕ) (s : S) → m.now s + n ≤ m.now (m.sleep n s)

  -- The status that waiting ends with is of a running daemon; an error comes behind the deadline.
  abbrev pub Ended : ℕ → S × Result ControlError Status → Type 0
  Ended deadline (s, ok status) = status.running ≡ true
  Ended deadline (s, err e) = deadline < m.now s

  is_running-running :
      (reply : Result ControlError (Option Status)) (status : Status)
      → is_running reply ≡ some status
      → status.running ≡ true
  is_running-running (ok (some status)) status' h = ground arith
  is_running-running (ok none) status' h = cc
  is_running-running (err e) status' h = cc

  module _ (endpoint : Bytes) (deadline : ℕ) where
    -- A round ends the loop, or the loop goes on behind a pause.
    wait_loop_round :
        (rounds : ℕ) (s : S)
        → ((r : S × Result ControlError Status) × (wait_loop m (suc rounds) endpoint deadline s
              ≡ some r)
            × Ended deadline r)
          ⊎ ((m.now (m.request endpoint s control_command_status).0 ≤ deadline)
              × (wait_loop m (suc rounds) endpoint deadline s
                  ≡ wait_loop m rounds endpoint deadline
                      (m.sleep poll_interval (m.request endpoint s control_command_status).0)))
    unfolding wait_loop
    wait_loop_round rounds s =
        let after = (m.request endpoint s control_command_status).0 in
        let reply = (m.request endpoint s control_command_status).1 in
        elim (Option-cases (is_running reply)) [
          | inr (status, up) ↦
              inl ((after, ok status), rw (up, wait_loop), is_running-running reply status up)
          | inl down ↦ elim (Bool-cases (ltb deadline (m.now after))) [
            | inl late ↦ inl (
              (after, err (timed_out reply)),
              rw (down, wait_loop) (rw late),
              ltb→lt deadline (m.now after) late,
            )
            | inr early ↦ inr (ground arith, rw (down, wait_loop) (rw early))
          ]
        ]

    wait_loop_ends :
        (rounds : ℕ) (s : S)
        → IsClock
        → deadline < m.now s + rounds * poll_interval
        → (r : S × Result ControlError Status) × (wait_loop m (suc rounds) endpoint deadline s
            ≡ some r)
          × Ended deadline r
    wait_loop_ends zero s clock h = elim (wait_loop_round zero s) [
      | inl ended ↦ ended
      | inr (early, on) ↦
          let later = clock.request endpoint s control_command_status in absurd (omega arith)
    ]
    wait_loop_ends (suc rounds) s clock h = elim (wait_loop_round (suc rounds) s) [
      | inl ended ↦ ended
      | inr (early, on) ↦
          let after = (m.request endpoint s control_command_status).0 in
          let later = clock.request endpoint s control_command_status in
          let pause = clock.sleep poll_interval after in
          let (r, found, ended) =
            wait_loop_ends rounds (m.sleep poll_interval after) clock (omega arith) in
          (r, on ∙ found, ended)
    ]

  -- `waitForDaemon` returns, if each request does, where the clock does not run backwards and a
  -- pause is as long as it was asked to be: with the status of a running daemon, or with an error
  -- when the deadline has passed.
  pub wait_for_daemon_ends :
      (endpoint : Bytes) (timeout : ℕ) (s : S)
      → IsClock
      → (r : S × Result ControlError Status) × (wait_for_daemon m endpoint timeout s ≡ some r)
        × Ended (m.now s + timeout) r
  unfolding wait_for_daemon
  wait_for_daemon_ends endpoint timeout s clock =
      wait_loop_ends endpoint (m.now s + timeout) (timeout / poll_interval + 1) s clock
        (omega arith)
