-- ===== src/Domain/Apply.antt =====
-- internal/domain/reducer.go: applyEvent, one function for each case of its switch.
use agent_dock_coedx5_6sol.Prelude.{
  ◌+◌, Bool, true, false, not, ◌&&◌, ◌||◌, ◌==◌, ◌!=◌, string_eq, nat_eq, if◌then◌else◌, Result, ok,
  err, ◌>>=◌, ◌>>◌, reject,
}
use agent_dock_coedx5_6sol.Domain.Types.{
  DesiredState, Status, CommandType, EventType, State, Event, initial_state, empty_run, desired_eq,
  command_type_eq,
}
use agent_dock_coedx5_6sol.Domain.Transition.{
  DomainError, validate_transition, transition, advance_planned_result, require_active_state,
  require_planned_result_state, require_pending_action,
}
use agent_dock_coedx5_6sol.Domain.Decide.{Sha256}
use agent_dock_coedx5_6sol.Domain.Desired.{apply_desired_state}
use agent_dock_coedx5_6sol.Domain.Managed.{
  apply_action_planned, apply_action_completed, apply_action_failed,
}

-- legacyLifecycleResultEvent
abbrev pub legacy_lifecycle_result_event : EventType → Bool
legacy_lifecycle_result_event EventType.attempt_started = true
legacy_lifecycle_result_event EventType.workspace_provision_planned = true
legacy_lifecycle_result_event EventType.workspace_provisioned = true
legacy_lifecycle_result_event EventType.reasoning_planned = true
legacy_lifecycle_result_event EventType.reasoning_completed = true
legacy_lifecycle_result_event EventType.tool_call_planned = true
legacy_lifecycle_result_event EventType.tool_call_completed = true
legacy_lifecycle_result_event EventType.tool_call_failed = true
legacy_lifecycle_result_event EventType.patch_produced = true
legacy_lifecycle_result_event EventType.verification_planned = true
legacy_lifecycle_result_event EventType.verification_passed = true
legacy_lifecycle_result_event EventType.verification_failed = true
legacy_lifecycle_result_event EventType.repair_scheduled = true
legacy_lifecycle_result_event EventType.approval_requested = true
legacy_lifecycle_result_event EventType.approval_resolved = true
legacy_lifecycle_result_event EventType.checkpoint_saved = true
legacy_lifecycle_result_event EventType.run_succeeded = true
legacy_lifecycle_result_event EventType.run_failed = true
legacy_lifecycle_result_event EventType.run_cancelled = true
legacy_lifecycle_result_event _ = false

-- EventRunCreated
unfoldable pub apply_run_created : State → Event → Result DomainError State
unfolding validate_transition
apply_run_created s e = do
  reject s.exists DomainError.invalid_transition
  validate_transition Status.unset Status.queued
  ok (record initial_state {
    exists = true;
    run = record empty_run {
      id = e.run_id;
      scenario_id = e.payload.scenario_id;
      spec_hash = e.payload.spec_hash;
      desired_state = DesiredState.running;
      observed_state = Status.queued;
      created_at = e.created_at;
    };
  })

-- EventDesiredStateChanged
unfoldable pub apply_desired_changed : State → Event → Result DomainError State
unfolding apply_desired_state
apply_desired_changed s e = do
  reject (not s.exists) DomainError.invalid_transition
  apply_desired_state s e.payload.desired_state

-- EventLeaseAcquired, EventLeaseRenewed, EventLeaseExpired
unfoldable pub apply_lease_event : State → Event → Result DomainError State
apply_lease_event s e = do
  reject (not s.exists) DomainError.invalid_transition
  reject (e.worker_id == "" || e.fencing_token == 0) DomainError.invalid_event
  ok s

-- EventAttemptStarted
unfoldable pub apply_attempt_started : State → Event → Result DomainError State
unfolding require_active_state transition
apply_attempt_started s e = do
  require_active_state s Status.queued
  reject (e.payload.attempt_id == "") DomainError.invalid_event
  t ← transition s Status.provisioning
  ok (record t {
    run = record t.run { current_attempt = t.run.current_attempt + 1 };
    attempt_id = e.payload.attempt_id;
  })

-- EventWorkspaceProvisioned
unfoldable pub apply_workspace_provisioned : State → Event → Result DomainError State
unfolding require_active_state transition
apply_workspace_provisioned s e = do
  require_active_state s Status.provisioning
  transition s Status.reasoning

-- EventReasoningPlanned
unfoldable pub apply_reasoning_planned : State → Event → Result DomainError State
unfolding require_active_state
apply_reasoning_planned s e = do
  require_active_state s Status.reasoning
  reject (e.payload.action_id == "") DomainError.invalid_event
  reject (s.pending_action_id != "") DomainError.invalid_transition
  ok (record s { pending_action_id = e.payload.action_id })

-- EventReasoningCompleted
unfoldable pub apply_reasoning_completed : State → Event → Result DomainError State
unfolding require_planned_result_state require_pending_action advance_planned_result
apply_reasoning_completed s e = do
  was_paused ← require_planned_result_state s Status.reasoning
  require_pending_action s e.payload.action_id
  reject (e.payload.tool_name == "") DomainError.invalid_event
  t ← advance_planned_result s was_paused Status.acting
  ok (record t {
    pending_action_id = "";
    reasoning_output = e.payload.output;
    tool_name = e.payload.tool_name;
    tool_arguments = e.payload.tool_arguments;
  })

-- EventToolCallFailed
unfoldable pub apply_tool_call_failed : State → Event → Result DomainError State
unfolding require_planned_result_state require_pending_action
apply_tool_call_failed s e = do
  was_paused ← require_planned_result_state s Status.reasoning
  require_pending_action s e.payload.action_id
  reject (e.payload.reason == "") DomainError.invalid_event
  ok (record s { pending_action_id = ""; failure_reason = e.payload.reason })

-- EventPatchProduced
unfoldable pub apply_patch_produced : State → Event → Result DomainError State
unfolding require_active_state transition
apply_patch_produced s e = do
  require_active_state s Status.acting
  reject (e.payload.action_id == "") DomainError.invalid_event
  t ← transition s Status.verifying
  ok (record t { patch_produced = true })

-- EventVerificationPlanned
unfoldable pub apply_verification_planned : State → Event → Result DomainError State
unfolding require_active_state
apply_verification_planned s e = do
  require_active_state s Status.verifying
  reject s.verification_passed DomainError.invalid_transition
  reject (e.payload.action_id == "") DomainError.invalid_event
  reject (s.pending_action_id != "") DomainError.invalid_transition
  ok (record s { pending_action_id = e.payload.action_id })

-- EventVerificationPassed
unfoldable pub apply_verification_passed : State → Event → Result DomainError State
unfolding require_planned_result_state require_pending_action
apply_verification_passed s e = do
  was_paused ← require_planned_result_state s Status.verifying
  require_pending_action s e.payload.action_id
  ok (record s { pending_action_id = ""; verification_passed = true })

-- EventRunSucceeded
unfoldable pub apply_run_succeeded : State → Event → Result DomainError State
unfolding require_active_state transition
apply_run_succeeded s e = do
  require_active_state s Status.verifying
  reject (not s.verification_passed || s.pending_action_id != "") DomainError.invalid_transition
  transition s Status.succeeded

-- EventRunFailed
unfoldable pub apply_run_failed : State → Event → Result DomainError State
unfolding transition
apply_run_failed s e = do
  reject (not s.exists) DomainError.invalid_transition
  reject (s.run.desired_state != DesiredState.running) DomainError.invalid_transition
  let reason = if e.payload.reason != "" then e.payload.reason else s.failure_reason
  reject (reason == "") DomainError.invalid_event
  transition (record s { failure_reason = reason; pending_action_id = "" }) Status.failed

-- EventRunCancelled
unfoldable pub apply_run_cancelled : State → Event → Result DomainError State
unfolding transition
apply_run_cancelled s e = do
  reject (not s.exists || s.run.desired_state != DesiredState.cancelled)
      DomainError.invalid_transition
  transition (record s { pending_action_id = "" }) Status.cancelled

module _ (sha : Sha256) where
  -- The switch on the event's type.
  unfoldable pub dispatch : EventType → State → Event → Result DomainError State
  unfolding apply_run_created apply_desired_changed apply_lease_event apply_attempt_started
      apply_workspace_provisioned apply_reasoning_planned apply_reasoning_completed
      apply_tool_call_failed apply_patch_produced apply_verification_planned
      apply_verification_passed apply_run_succeeded apply_run_failed apply_run_cancelled
  dispatch EventType.run_created s e = apply_run_created s e
  dispatch EventType.desired_state_changed s e = apply_desired_changed s e
  dispatch EventType.lease_acquired s e = apply_lease_event s e
  dispatch EventType.lease_renewed s e = apply_lease_event s e
  dispatch EventType.lease_expired s e = apply_lease_event s e
  dispatch EventType.action_planned s e = apply_action_planned sha s e
  dispatch EventType.action_completed s e = apply_action_completed s e
  dispatch EventType.action_failed s e = apply_action_failed s e
  dispatch EventType.attempt_started s e = apply_attempt_started s e
  dispatch EventType.workspace_provisioned s e = apply_workspace_provisioned s e
  dispatch EventType.reasoning_planned s e = apply_reasoning_planned s e
  dispatch EventType.reasoning_completed s e = apply_reasoning_completed s e
  dispatch EventType.tool_call_failed s e = apply_tool_call_failed s e
  dispatch EventType.patch_produced s e = apply_patch_produced s e
  dispatch EventType.verification_planned s e = apply_verification_planned s e
  dispatch EventType.verification_passed s e = apply_verification_passed s e
  dispatch EventType.run_succeeded s e = apply_run_succeeded s e
  dispatch EventType.run_failed s e = apply_run_failed s e
  dispatch EventType.run_cancelled s e = apply_run_cancelled s e
  dispatch _ s e = err DomainError.unsupported_event

  -- applyEvent
  unfoldable pub apply_event : State → Event → Result DomainError State
  unfolding dispatch
  apply_event s e = do
    reject (s.pending_action_type != CommandType.unset && legacy_lifecycle_result_event e.kind)
        DomainError.invalid_transition
    dispatch e.kind s e
