-- ===== src/Domain/Managed.antt =====
-- internal/domain/reducer.go: the managed actions, planned by the decision for the projection, and
-- completed or failed under their plan.
pub mod Plans
pub mod Cancel
use agent_dock_coedx5_6sol.Prelude.{
  ◌+◌, Bool, true, not, ◌&&◌, ◌||◌, ◌==◌, ◌!=◌, string_eq, if◌then◌else◌, Result, ok, err, ◌>>=◌,
  ◌>>◌, reject,
}
use agent_dock_coedx5_6sol.Domain.Types.{
  DesiredState, Status, CommandType, IdempotencyScope, ActionOutcome, State, EventData, Event,
  empty_event, scope_valid, desired_eq, command_type_eq, outcome_eq,
}
use agent_dock_coedx5_6sol.Domain.Transition.{
  DomainError, advance_managed_state, require_managed_logical_state, require_managed_pending_action,
}
use agent_dock_coedx5_6sol.Domain.Decide.{Sha256, decide}

-- The tests of applyActionPlanned: a plan is what the decision for the projection calls for.
unfoldable pub plan_guard : Sha256 → State → EventData → Result DomainError (Unit {0})
plan_guard sha s d = do
  reject (not s.exists) DomainError.invalid_transition
  reject
      (d.action_id == ""
        || d.action_type == CommandType.unset
        || not (scope_valid d.idempotency_scope))
      DomainError.invalid_event
  reject (s.pending_action_id != "") DomainError.invalid_transition
  let command = decide sha s
  reject
      (command.kind == CommandType.noop
        || command.kind != d.action_type
        || command.action_id != d.action_id)
      DomainError.invalid_transition
  reject (command.kind == CommandType.start_attempt && d.attempt_id != command.attempt_id)
      DomainError.invalid_transition

-- applyActionPlanned
unfoldable pub apply_action_planned : Sha256 → State → Event → Result DomainError State
apply_action_planned sha s e = do
  plan_guard sha s e.payload
  ok (record s {
    pending_action_id = e.payload.action_id;
    pending_action_type = e.payload.action_type;
    pending_attempt_id = e.payload.attempt_id;
    pending_action_scope = e.payload.idempotency_scope;
  })

unfoldable pub completed_start_attempt : State → EventData → Result DomainError State
completed_start_attempt s d = do
  reject (d.attempt_id == "") DomainError.invalid_event
  require_managed_logical_state s Status.queued
  t ← advance_managed_state s Status.provisioning
  ok (record t {
    run = record t.run { current_attempt = t.run.current_attempt + 1 };
    attempt_id = d.attempt_id;
  })

unfoldable pub completed_run_reasoner : State → EventData → Result DomainError State
completed_run_reasoner s d = do
  require_managed_logical_state s Status.reasoning
  reject (d.tool_name == "") DomainError.invalid_event
  t ← advance_managed_state s Status.acting
  ok (record t {
    reasoning_output = d.output;
    tool_name = d.tool_name;
    tool_arguments = d.tool_arguments;
  })

unfoldable pub with_reason : State → EventData → State
with_reason s d = record s {
  failure_reason = if d.reason != "" then d.reason else s.failure_reason;
}

unfoldable pub completed_fail_run : State → EventData → Result DomainError State
completed_fail_run s d = do
  reject (s.failure_reason == "" && d.reason == "") DomainError.invalid_event
  advance_managed_state (with_reason s d) Status.failed

-- The switch of applyCompletedActionResult.
unfoldable pub completed_result : CommandType → State → EventData → Result DomainError State
unfolding completed_start_attempt completed_run_reasoner completed_fail_run
completed_result CommandType.start_attempt s d = completed_start_attempt s d
completed_result CommandType.provision_workspace s d = do
  require_managed_logical_state s Status.provisioning
  advance_managed_state s Status.reasoning
completed_result CommandType.run_reasoner s d = completed_run_reasoner s d
completed_result CommandType.apply_patch s d = do
  require_managed_logical_state s Status.acting
  t ← advance_managed_state s Status.verifying
  ok (record t { patch_produced = true })
completed_result CommandType.verify s d = do
  require_managed_logical_state s Status.verifying
  ok (record s { verification_passed = true })
completed_result CommandType.succeed_run s d = do
  require_managed_logical_state s Status.verifying
  reject (not s.verification_passed) DomainError.invalid_transition
  advance_managed_state s Status.succeeded
completed_result CommandType.fail_run s d = completed_fail_run s d
completed_result CommandType.cancel_run s d = do
  reject (s.run.desired_state != DesiredState.cancelled) DomainError.invalid_transition
  advance_managed_state s Status.cancelled
completed_result _ s d = err DomainError.invalid_event

-- applyCompletedActionResult
unfoldable pub apply_completed_action_result : State → EventData → Result DomainError State
unfolding completed_result advance_managed_state require_managed_logical_state
apply_completed_action_result s d = completed_result d.action_type s d

unfoldable pub clear_pending : State → State
clear_pending s = record s {
  pending_action_id = "";
  pending_action_type = CommandType.unset;
  pending_attempt_id = "";
  pending_action_scope = IdempotencyScope.unset;
}

-- Intent to cancel drops the result of any other action.
abbrev pub cancel_wins : State → EventData → Bool
cancel_wins s d =
    s.run.desired_state == DesiredState.cancelled && d.action_type != CommandType.cancel_run

-- applyActionCompleted
unfoldable pub apply_action_completed : State → Event → Result DomainError State
unfolding clear_pending require_managed_pending_action
apply_action_completed s e = do
  reject (e.payload.receipt_id == "") DomainError.invalid_event
  require_managed_pending_action s e.payload.action_id e.payload.action_type
  t ← if cancel_wins s e.payload then ok s else apply_completed_action_result s e.payload
  ok (record (clear_pending t) {
    last_completed_action_id = e.payload.action_id;
    last_receipt_id = e.payload.receipt_id;
  })

-- ValidateActionCompletion
unfoldable pub validate_action_completion : State → EventData → Result DomainError (Unit {0})
validate_action_completion s d = do
  t ← apply_action_completed s (record empty_event { payload = d })
  ok tt

-- applyActionFailed
unfoldable pub apply_action_failed : State → Event → Result DomainError State
unfolding clear_pending require_managed_pending_action
apply_action_failed s e = do
  require_managed_pending_action s e.payload.action_id e.payload.action_type
  reject (e.payload.reason == "") DomainError.invalid_event
  reject (e.payload.outcome != ActionOutcome.failed && e.payload.outcome != ActionOutcome.ambiguous)
      DomainError.invalid_event
  let t = record (clear_pending s) { failure_reason = e.payload.reason }
  if e.payload.outcome == ActionOutcome.ambiguous && s.run.desired_state != DesiredState.cancelled
      then advance_managed_state t Status.waiting_approval
      else ok t
