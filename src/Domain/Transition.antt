-- ===== src/Domain/Transition.antt =====
-- internal/domain/reducer.go: the error values, the transition guard and the helpers that move a
-- projection along it. A failed call of the source may leave a half-written projection behind,
-- which every caller drops, so an error here carries no state.
use agent_dock_coedx5_6sol.Prelude.{
  String, Bool, true, false, not, ◌&&◌, ◌||◌, List, [], ◌∷◌, ◌==◌, ◌!=◌, string_eq, any,
  if◌then◌else◌, Result, ok, err, ◌>>◌, reject,
}
use agent_dock_coedx5_6sol.Domain.Types.{
  DesiredState, Status, State, terminal, status_eq, desired_eq, command_type_eq, CommandType,
}

-- `terminal_transition` wraps both ErrTerminalState and ErrInvalidTransition.
pub data DomainError : Type 0 where
  invalid_sequence duplicate_idempotency_key invalid_transition terminal_state : DomainError
  terminal_transition unsupported_event invalid_event : DomainError

-- The table of ValidateTransition: the states that may follow.
abbrev pub allowed : Status → List Status
allowed Status.unset = Status.queued ∷ []
allowed Status.queued =
    Status.provisioning ∷ Status.paused ∷ Status.waiting_approval ∷ Status.failed ∷ Status.cancelled
    ∷ []
allowed Status.provisioning =
    Status.reasoning ∷ Status.paused ∷ Status.waiting_approval ∷ Status.failed ∷ Status.cancelled
    ∷ []
allowed Status.reasoning =
    Status.acting ∷ Status.paused ∷ Status.waiting_approval ∷ Status.failed ∷ Status.cancelled ∷ []
allowed Status.acting =
    Status.verifying ∷ Status.paused ∷ Status.waiting_approval ∷ Status.failed ∷ Status.cancelled
    ∷ []
allowed Status.verifying =
    Status.succeeded ∷ Status.repairing ∷ Status.paused ∷ Status.waiting_approval ∷ Status.failed
    ∷ Status.cancelled ∷ []
allowed Status.repairing =
    Status.reasoning ∷ Status.waiting_approval ∷ Status.paused ∷ Status.failed ∷ Status.cancelled
    ∷ []
allowed Status.waiting_approval =
    Status.reasoning ∷ Status.paused ∷ Status.failed ∷ Status.cancelled ∷ []
allowed Status.paused =
    Status.queued ∷ Status.provisioning ∷ Status.reasoning ∷ Status.acting ∷ Status.verifying
    ∷ Status.repairing ∷ Status.waiting_approval ∷ Status.succeeded ∷ Status.failed
    ∷ Status.cancelled ∷ []
allowed _ = []

-- ValidateTransition
unfoldable pub validate_transition : Status → Status → Result DomainError (Unit {0})
validate_transition from to = do
  reject (terminal from) DomainError.terminal_transition
  reject (not (any (λ s. s == to) (allowed from))) DomainError.invalid_transition

-- transition
unfoldable pub transition : State → Status → Result DomainError State
unfolding validate_transition
transition s next = do
  validate_transition s.run.observed_state next
  ok (record s { run = record s.run { observed_state = next } })

-- advanceManagedState: a paused projection moves its resume state instead.
unfoldable pub advance_managed_state : State → Status → Result DomainError State
unfolding validate_transition transition
advance_managed_state s next =
    if s.run.observed_state == Status.paused
    then (do validate_transition s.resume_state next; ok (record s { resume_state = next }))
    else transition s next

-- advancePlannedResult
unfoldable pub advance_planned_result : State → Bool → Status → Result DomainError State
unfolding validate_transition transition
advance_planned_result s was_paused next =
    if not was_paused
    then transition s next
    else do validate_transition s.resume_state next; ok (record s { resume_state = next })

-- requireManagedLogicalState
unfoldable pub require_managed_logical_state : State → Status → Result DomainError (Unit {0})
require_managed_logical_state s expected =
    let logical =
      if s.run.observed_state == Status.paused then s.resume_state else s.run.observed_state in
    reject (logical != expected) DomainError.invalid_transition

-- requireActiveState
unfoldable pub require_active_state : State → Status → Result DomainError (Unit {0})
require_active_state s expected = do
  reject (not s.exists) DomainError.invalid_transition
  reject (s.run.desired_state != DesiredState.running || s.run.observed_state != expected)
      DomainError.invalid_transition

-- requirePlannedResultState: the value says whether the projection is paused.
unfoldable pub require_planned_result_state : State → Status → Result DomainError Bool
require_planned_result_state s expected = do
  reject (not s.exists) DomainError.invalid_transition
  if s.run.desired_state == DesiredState.running && s.run.observed_state == expected
      then ok false
      else if s.run.desired_state == DesiredState.paused
          && s.run.observed_state == Status.paused
          && s.resume_state == expected
      then ok true
      else err DomainError.invalid_transition

-- requirePendingAction
unfoldable pub require_pending_action : State → String → Result DomainError (Unit {0})
require_pending_action s action_id =
    reject (action_id == "" || s.pending_action_id == "" || action_id != s.pending_action_id)
      DomainError.invalid_transition

-- requireManagedPendingAction
unfoldable pub require_managed_pending_action :
    State → String → CommandType → Result DomainError (Unit {0})
require_managed_pending_action s action_id action_type =
    reject
      (action_id == ""
        || action_id != s.pending_action_id
        || action_type == CommandType.unset
        || action_type != s.pending_action_type)
      DomainError.invalid_transition
