-- ===== src/Examples/Managed.antt =====
-- The theorems on managed actions and receipts at one action each (internal/domain/reducer.go and
-- internal/domain/receipt.go).
use agent_dock_coedx5_6sol.Prelude.{◌≡◌, string_eq, true, refl, ok}
use agent_dock_coedx5_6sol.Domain.Types.{
  Status, DesiredState, CommandType, IdempotencyScope, State, Event, EventType, initial_state,
  empty_run, empty_data, command_type_eq,
}
use agent_dock_coedx5_6sol.Domain.Decide.{decide}
use agent_dock_coedx5_6sol.Domain.Managed.{
  apply_action_planned, apply_action_completed, apply_completed_action_result,
}
use agent_dock_coedx5_6sol.Domain.Managed.Plans.{decided_plan, apply_action_planned-decide}
use agent_dock_coedx5_6sol.Domain.Managed.Cancel.{cancel_of_paused_repeats}
use agent_dock_coedx5_6sol.Examples.Fixtures.{zero_sha, event, projection}

-- A run that waits for its first attempt.
abbrev waiting : State
waiting = record initial_state {
  exists = true;
  run = record empty_run {
    id = "run-1";
    desired_state = DesiredState.running;
    observed_state = Status.queued;
  };
}

abbrev planned : Event
planned =
    event EventType.action_planned 2 "k2" (decided_plan zero_sha waiting IdempotencyScope.scoped)

apply_action_planned-decide_example :
    apply_action_planned zero_sha waiting planned
    ≡ ok (record waiting {
      pending_action_id = (decide zero_sha waiting).action_id;
      pending_action_type = (decide zero_sha waiting).kind;
      pending_attempt_id = (decide zero_sha waiting).attempt_id;
      pending_action_scope = IdempotencyScope.scoped;
    })
unfolding decide
apply_action_planned-decide_example =
    apply_action_planned-decide zero_sha waiting IdempotencyScope.scoped refl refl refl refl planned
      refl

-- A paused run that is to be cancelled, with its cancellation planned.
abbrev cancelling : State
cancelling = record initial_state {
  exists = true;
  run = record empty_run {
    id = "run-1";
    desired_state = DesiredState.cancelled;
    observed_state = Status.paused;
  };
  resume_state = Status.queued;
  pending_action_id = "a";
  pending_action_type = CommandType.cancel_run;
}

abbrev cancel_completed : Event
cancel_completed = event EventType.action_completed 5 "k5" (record empty_data {
  action_id = "a";
  action_type = CommandType.cancel_run;
  receipt_id = "receipt-1";
})

abbrev after_cancel : State
after_cancel = projection (apply_action_completed cancelling cancel_completed)

cancel_of_paused_repeats_example :
    (after_cancel.run.observed_state ≡ Status.paused)
    × (after_cancel.resume_state ≡ Status.cancelled)
    × (after_cancel.pending_action_id ≡ "")
    × (decide zero_sha after_cancel ≡ decide zero_sha cancelling)
unfolding apply_action_completed apply_completed_action_result
cancel_of_paused_repeats_example =
    cancel_of_paused_repeats zero_sha cancelling cancel_completed refl refl refl refl
