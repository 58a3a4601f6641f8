-- ===== src/Cmd/Commands/Launching.antt =====
-- `runStart` of cmd/clippy/main.go where no daemon answers, and `isControlUnavailable`.
use clippy.Base.{
  ◌+◌, ◌<◌, ◌≡◌, refl, ap, ◌∙◌, ◌⊎◌, inl, inr, ◌↔◌, Bool, true, false, Option, none, some, [], ◌∷◌,
  ◌++◌, Result, ok, err, Result-split, Bool-cases, arith,
}
use clippy.Base.Bytes.{Bytes, codes}
use clippy.App.Config.{Config}
use clippy.App.Status.{Status}
use clippy.App.Control.{ControlError}
use clippy.Cmd.Flags.{daemon_args}
use clippy.Cmd.Commands.{
  Machine, Printed, Outcome, failed, started, start_timeout, wait_for_daemon, launch, to_lower,
  contains_pipe, begins_pipe, is_control_unavailable, unavailable_or,
}
use clippy.Cmd.Commands.Waiting.{IsClock, Ended, wait_for_daemon_ends}

module _ {S : Type 0} (m : Machine S) (c : Config) (s : S) where
  -- What `start` does, with its flag for the foreground: the daemon is served by this process; or
  -- this executable is spawned as a daemon, with the flags of the configuration, and waited for at
  -- the configured endpoint until it reports that it is running, or ten seconds are over.
  pub data Launched : Bool → S × Outcome → Type 0 where
    served : (s' : S) → m.serve c s ≡ (s', none) → Launched true (s', ok none)
    serve_fails :
        (s' : S) (e : ControlError)
        → m.serve c s ≡ (s', some e)
        → Launched true (s', err (failed e))
    no_executable : (e : ControlError) → m.executable s ≡ err e → Launched false (s, err (failed e))
    not_spawned :
        (exe : Bytes) (s' : S) (e : ControlError)
        → m.executable s ≡ ok exe
        → m.spawn (exe ∷ codes "daemon" ∷ daemon_args c) s ≡ (s', some e)
        → Launched false (s', err (failed e))
    not_ready :
        (exe : Bytes) (s' s'' : S) (e : ControlError)
        → m.executable s ≡ ok exe
        → m.spawn (exe ∷ codes "daemon" ∷ daemon_args c) s ≡ (s', none)
        → wait_for_daemon m c.control_endpoint 10000000000 s' ≡ some (s'', err e)
        → m.now s' + 10000000000 < m.now s''
        → Launched false (s'', err (failed e))
    ready :
        (exe : Bytes) (s' s'' : S) (status : Status)
        → m.executable s ≡ ok exe
        → m.spawn (exe ∷ codes "daemon" ∷ daemon_args c) s ≡ (s', none)
        → wait_for_daemon m c.control_endpoint 10000000000 s' ≡ some (s'', ok status)
        → status.running ≡ true
        → Launched false (s'', ok (some (started status.name status.node_id)))

  abbrev Launches : Bool → Type 0
  Launches fg = (r : S × Outcome) × (launch m c fg s ≡ some r) × Launched fg r

  launch_served : (r : S × Option ControlError) → m.serve c s ≡ r → Launches true
  unfolding launch
  launch_served (s', none) e = (_, rw e, served s' e)
  launch_served (s', some x) e = (_, rw e, serve_fails s' x e)

  module _ (exe : Bytes) (found : m.executable s ≡ ok exe) where
    launch_waited :
        (s' : S) (r : S × Result ControlError Status)
        → m.spawn (exe ∷ codes "daemon" ∷ daemon_args c) s ≡ (s', none)
        → wait_for_daemon m c.control_endpoint start_timeout s' ≡ some r
        → Ended m (m.now s' + start_timeout) r
        → Launches false
    unfolding launch
    launch_waited s' (s'', err x) e w late = (
      _,
      rw (found, launch) (rw (ap (λ x. x.1) e) (rw (ap (λ x. x.0) e) (rw w))),
      not_ready exe s' s'' x found e w late,
    )
    launch_waited s' (s'', ok status) e w up = (
      _,
      rw (found, launch) (rw (ap (λ x. x.1) e) (rw (ap (λ x. x.0) e) (rw w))),
      ready exe s' s'' status found e w up,
    )

    launch_spawned :
        (r : S × Option ControlError)
        → IsClock m
        → m.spawn (exe ∷ codes "daemon" ∷ daemon_args c) s ≡ r
        → Launches false
    unfolding launch
    launch_spawned (s', some x) clock e = (
      _,
      rw (found, launch) (rw (ap (λ x. x.1) e) (rw (ap (λ x. x.0) e))),
      not_spawned exe s' x found e,
    )
    launch_spawned (s', none) clock e =
        let (r, w, end) = wait_for_daemon_ends m c.control_endpoint start_timeout s' clock in
        launch_waited s' r e w end

  launch_no_executable : (e : ControlError) → m.executable s ≡ err e → Launches false
  launch_no_executable e h =
      ((s, err (failed e)), unfold launch in rw (h, launch), no_executable e h)

  -- `start` behind its request ends, where the clock does not run backwards and a pause is as long
  -- as it was asked to be, in one of these ways.
  pub launch-Launched : (fg : Bool) → IsClock m → Launches fg
  launch-Launched true clock = launch_served (m.serve c s) refl
  launch-Launched false clock = elim (Result-split (m.executable s)) [
    | inl (exe, found) ↦
        launch_spawned exe found (m.spawn (exe ∷ codes "daemon" ∷ daemon_args c) s) clock refl
    | inr (e, h) ↦ launch_no_executable e h
  ]

-- The word pipe stands in the text.
abbrev pub MentionsPipe : Bytes → Type 0
MentionsPipe text = (front back : Bytes) × (text ≡ front ++ (codes "pipe" ++ back))

-- A `net.OpError`, or one of whose text, in lower case, the word pipe is a part.
abbrev pub IsUnavailable : ControlError → Type 0
IsUnavailable e = (e.is_op_error ≡ true) ⊎ MentionsPipe (to_lower e.text)

begins_pipe_lem :
    (text : Bytes) → begins_pipe text ≡ true → (back : Bytes) × (text ≡ codes "pipe" ++ back)
begins_pipe_lem [] h = cc
begins_pipe_lem (a ∷ []) h = cc
begins_pipe_lem (a ∷ b ∷ []) h = cc
begins_pipe_lem (a ∷ b ∷ c ∷ []) h = cc
begins_pipe_lem (a ∷ b ∷ c ∷ d ∷ rest) h = (rest, ground arith)

contains_pipe-MentionsPipe : (text : Bytes) → contains_pipe text ≡ true → MentionsPipe text
unfolding contains_pipe
contains_pipe-MentionsPipe [] h = cc
contains_pipe-MentionsPipe (c ∷ cs) h = elim (Bool-cases (begins_pipe (c ∷ cs))) [
  | inl here ↦ let (back, e) = begins_pipe_lem (c ∷ cs) here in ([], back, e)
  | inr further ↦
      let (front, back, e) = contains_pipe-MentionsPipe cs (ground arith) in
      (c ∷ front, back, ap (λ x. c ∷ x) e)
]

MentionsPipe-contains_pipe :
    (front back : Bytes) → contains_pipe (front ++ (codes "pipe" ++ back)) ≡ true
unfolding contains_pipe
MentionsPipe-contains_pipe [] back = refl
MentionsPipe-contains_pipe (c ∷ cs) back =
    let further = MentionsPipe-contains_pipe cs back in ground arith

pub is_control_unavailable_iff :
    (e : ControlError) → (is_control_unavailable e ≡ true) ↔ IsUnavailable e
unfolding is_control_unavailable
is_control_unavailable_iff e = (to, from)
  where
    to : is_control_unavailable e ≡ true → IsUnavailable e
    to h = elim (Bool-cases e.is_op_error) [
      | inl op ↦ inl op
      | inr no' ↦ inr (contains_pipe-MentionsPipe (to_lower e.text) (ground arith))
    ]

    from : IsUnavailable e → is_control_unavailable e ≡ true
    from (inl op) = rw op
    from (inr (front, back, h)) =
        let found = ap contains_pipe h ∙ MentionsPipe-contains_pipe front back in ground arith

-- What `status` and `stop` make of the error of their request: this message where the daemon
-- cannot be reached, and the error itself where it is another one.
pub data Reported (message : Printed) (e : ControlError) : Outcome → Type 0 where
  unavailable : IsUnavailable e → Reported message e (ok (some message))
  broken : ¬ IsUnavailable e → Reported message e (err (failed e))

pub unavailable_or-Reported :
    {S : Type 0} (m : Machine S) (message : Printed) (e : ControlError)
    → Reported message e (unavailable_or m message e)
unavailable_or-Reported m message e = elim (Bool-cases (is_control_unavailable e)) [
  | inl yes' ↦ rw yes' (unavailable ((is_control_unavailable_iff e).0 yes'))
  | inr no' ↦ rw no' (broken (λ u. let found = (is_control_unavailable_iff e).1 u in ground arith))
]
