-- ===== src/Domain/Lifecycle/Refinement.antt =====
-- The reducer of internal/domain/reducer.go refines the abstract lifecycle: each event that it
-- accepts is one step of it.
pub mod Legacy
pub mod Managed
use agent_dock_coedx5_6sol.Prelude.{
  ◌≡◌, ◌||◌, ◌&&◌, ◌==◌, ◌!=◌, string_eq, String, Bool, true, false, not, ok, err, ap, ok≢err,
  >>=-eq-ok, ok-injective, reject, reject-eq-ok, Bool-cases, inl, inr, arith,
}
use agent_dock_coedx5_6sol.Domain.Types.{
  DesiredState, Status, CommandType, EventType, State, Event, desired_valid, terminal,
  command_type_eq,
}
use agent_dock_coedx5_6sol.Domain.Transition.{DomainError, require_managed_pending_action}
use agent_dock_coedx5_6sol.Domain.Decide.{Sha256}
use agent_dock_coedx5_6sol.Domain.Desired.{set_desired, apply_desired_state}
use agent_dock_coedx5_6sol.Domain.Managed.{apply_action_completed, apply_action_failed}
use agent_dock_coedx5_6sol.Domain.Apply.{
  apply_desired_changed, dispatch, legacy_lifecycle_result_event, apply_event,
}
use agent_dock_coedx5_6sol.Domain.Lifecycle.{core, Step}
use Legacy.{
  step_to, run_created_again, lease-Step, attempt_started-Step, workspace-Step,
  reasoning_planned-Step, reasoning_completed-Step, tool_call_failed-Step, patch_produced-Step,
  verification_planned-Step, verification_passed-Step, run_succeeded-Step, run_failed-Step,
  run_cancelled-Step,
}
use Managed.{
  planned_effect, pause_effect, resume_effect, cancel_effect, action_completed-Step,
  action_failed-Step,
}

set_desired-Step :
    (desired : DesiredState) (s : State) {t : State}
    → terminal s.run.observed_state ≡ false
    → set_desired desired s ≡ ok t
    → Step (core s) (core t)
unfolding set_desired
set_desired-Step DesiredState.paused s live p =
    let (a, b, edge, q) = pause_effect s p in step_to q (Step.pause a b edge)
set_desired-Step DesiredState.running s live p =
    let (a, b, edge, q) = resume_effect s p in step_to q (Step.resume a b edge)
set_desired-Step DesiredState.cancelled s live p =
    step_to (cancel_effect s p) (Step.request_cancel live)
set_desired-Step _ s live p = cc

desired_changed-Step :
    (s : State) (e : Event) {t : State} → apply_desired_changed s e ≡ ok t → Step (core s) (core t)
unfolding apply_desired_changed apply_desired_state
desired_changed-Step s e p =
    let (u, there, p₁) = >>=-eq-ok (reject (not s.exists) DomainError.invalid_transition) _ p in
    let (u', valid, p₂) =
      >>=-eq-ok (reject (not (desired_valid e.payload.desired_state)) DomainError.invalid_event) _
        p₁ in
    let (u'', live, p₃) =
      >>=-eq-ok (reject (terminal s.run.observed_state) DomainError.terminal_state) _ p₂ in
    set_desired-Step e.payload.desired_state s (reject-eq-ok _ _ live) p₃

module _ (sha : Sha256) (s : State) (e : Event) {t : State} (there : s.exists ≡ true) where
  dispatch-Step : (kind : EventType) → dispatch sha kind s e ≡ ok t → Step (core s) (core t)
  unfolding dispatch
  dispatch-Step EventType.run_created p = absurd (ok≢err (run_created_again s e there) p)
  dispatch-Step EventType.desired_state_changed p = desired_changed-Step s e p
  dispatch-Step EventType.lease_acquired p = lease-Step s e p
  dispatch-Step EventType.lease_renewed p = lease-Step s e p
  dispatch-Step EventType.lease_expired p = lease-Step s e p
  dispatch-Step EventType.action_planned p = step_to (planned_effect s sha e p) Step.note
  dispatch-Step EventType.action_completed p = action_completed-Step s e p
  dispatch-Step EventType.action_failed p = action_failed-Step s e p
  dispatch-Step EventType.attempt_started p = attempt_started-Step s e p
  dispatch-Step EventType.workspace_provisioned p = workspace-Step s e p
  dispatch-Step EventType.reasoning_planned p = reasoning_planned-Step s e p
  dispatch-Step EventType.reasoning_completed p = reasoning_completed-Step s e p
  dispatch-Step EventType.tool_call_failed p = tool_call_failed-Step s e p
  dispatch-Step EventType.patch_produced p = patch_produced-Step s e p
  dispatch-Step EventType.verification_planned p = verification_planned-Step s e p
  dispatch-Step EventType.verification_passed p = verification_passed-Step s e p
  dispatch-Step EventType.run_succeeded p = run_succeeded-Step s e p
  dispatch-Step EventType.run_failed p = run_failed-Step s e p
  dispatch-Step EventType.run_cancelled p = run_cancelled-Step s e p
  dispatch-Step _ p = cc

  -- Every event that applyEvent accepts for a run that exists is one step of the abstract lifecycle.
  pub apply_event-Step : apply_event sha s e ≡ ok t → Step (core s) (core t)
  unfolding apply_event
  apply_event-Step p =
      let (u, unmanaged, q) =
        >>=-eq-ok
          (reject
            (s.pending_action_type != CommandType.unset && legacy_lifecycle_result_event e.kind)
            DomainError.invalid_transition)
          _ p in
      dispatch-Step e.kind q
