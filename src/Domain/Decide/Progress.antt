-- ===== src/Domain/Decide/Progress.antt =====
-- What Decide chooses (internal/domain/decide.go).
use agent_dock_coedx5_6sol.Prelude.{
  ◌!=◌, ◌≡◌, ◌==◌, ◌||◌, Bool, true, false, not, string_eq, refl, arith, if◌then◌else◌, if_true,
  if_false, ◌∙◌,
}
use agent_dock_coedx5_6sol.Domain.Types.{
  DesiredState, Status, CommandType, State, Command, noop_command, terminal, desired_eq, status_eq,
  command_type_eq,
}
use agent_dock_coedx5_6sol.Domain.Decide.{Sha256, command_for, pending_or, decide_active, decide}
use agent_dock_coedx5_6sol.Domain.Decide.Identity.{action_id-named}

-- Intent to cancel supersedes all but the end of a run.
pub decide_cancel :
    (sha : Sha256) (s : State)
    → s.exists ≡ true
    → terminal s.run.observed_state ≡ false
    → s.run.desired_state ≡ DesiredState.cancelled
    → decide sha s ≡ command_for sha s CommandType.cancel_run
unfolding decide
decide_cancel sha s there live intent =
    if_false (not s.exists || terminal s.run.observed_state) _ _ (ground (arith, there, live))
    ∙ if_true (s.run.desired_state == DesiredState.cancelled) _ _ (rw intent refl)

-- A command that is not Noop has a type and names its action.
abbrev pub IsNamed : Command → Type 0
IsNamed c =
    (c.kind == CommandType.noop) ≡ false
    → ((c.action_id == "") ≡ false) × ((c.kind == CommandType.unset) ≡ false)

noop-IsNamed : IsNamed noop_command
noop-IsNamed acts = cc

-- The choice of Decide, over what its tests give.
choice-IsNamed :
    (over cancelling held waiting failed : Bool) (cancel fail go : Command)
    → IsNamed cancel
    → IsNamed fail
    → IsNamed go
    → IsNamed (
        if over
        then noop_command
        else if cancelling
        then cancel
        else if held
        then noop_command
        else if waiting
        then noop_command
        else if failed
        then fail
        else go)
choice-IsNamed true _ _ _ _ _ _ _ c f g = noop-IsNamed
choice-IsNamed false true _ _ _ _ _ _ c f g = c
choice-IsNamed false false true _ _ _ _ _ c f g = noop-IsNamed
choice-IsNamed false false false true _ _ _ _ c f g = noop-IsNamed
choice-IsNamed false false false false true _ _ _ c f g = f
choice-IsNamed false false false false false _ _ _ c f g = g

module _ (sha : Sha256) (s : State) where
  decide_active-IsNamed :
      (o : Status) → (s.pending_action_id == "") ≡ true → IsNamed (decide_active sha o s)
  unfolding decide_active command_for pending_or
  decide_active-IsNamed Status.queued free acts =
      (action_id-named sha s.run CommandType.start_attempt s.attempt_id, refl)
  decide_active-IsNamed Status.provisioning free acts =
      (action_id-named sha s.run CommandType.provision_workspace s.attempt_id, refl)
  decide_active-IsNamed Status.reasoning free acts =
      ground (arith, action_id-named sha s.run CommandType.run_reasoner s.attempt_id)
  decide_active-IsNamed Status.acting free acts =
      (action_id-named sha s.run CommandType.apply_patch s.attempt_id, refl)
  decide_active-IsNamed Status.verifying free acts = ground (
    arith,
    action_id-named sha s.run CommandType.verify s.attempt_id,
    action_id-named sha s.run CommandType.succeed_run s.attempt_id,
  )
  decide_active-IsNamed _ free acts = ground arith

  pub decide-IsNamed : (s.pending_action_id == "") ≡ true → IsNamed (decide sha s)
  unfolding decide command_for
  decide-IsNamed free =
      let o = s.run.observed_state in
      let d = s.run.desired_state in
      choice-IsNamed (not s.exists || terminal o) (d == DesiredState.cancelled)
        (d == DesiredState.paused || o == Status.paused) (o == Status.waiting_approval)
        (s.failure_reason != "") (command_for sha s CommandType.cancel_run)
        (command_for sha s CommandType.fail_run) (decide_active sha o s)
        (λ acts. (action_id-named sha s.run CommandType.cancel_run s.attempt_id, refl))
        (λ acts. (action_id-named sha s.run CommandType.fail_run s.attempt_id, refl))
        (decide_active-IsNamed o free)
