-- ===== src/Controller/Managed/Types.antt =====
-- internal/controller/managed.go: what a managed controller is made with, and the events it appends.
use agent_dock_coedx5_6sol.Prelude.{String, Option, none, some, Result, [], ◌∷◌, concat}
use agent_dock_coedx5_6sol.Domain.Types.{
  EventType, IdempotencyScope, ActionOutcome, Event, State, Command, empty_data, empty_event,
}
use agent_dock_coedx5_6sol.Store.Validation.{outcome_name}
use agent_dock_coedx5_6sol.Lease.Types.{Lease, ActionReceipt, ReceiptResult, LeaseError}

pub data FaultPoint : Type 0 where
  before_action_planned after_action_planned after_action_execution : FaultPoint
  after_receipt_persisted after_action_completed : FaultPoint

pub record ActionRequest : Type 0 where
  pub state : State
  pub command : Command
  pub scope : IdempotencyScope

-- ArtifactRecord of internal/store/artifact.go
pub record ArtifactRecord : Type 0 where
  pub id : String
  pub run_id : String
  pub attempt_id : String
  pub kind : String
  pub digest : String

-- How an executor fails: with the text of an error, or by a panic.
pub data ExecutionError : Type 0 where
  failed : String → ExecutionError
  panics : ExecutionError

-- What the controller calls of internal/lease.
pub record LeaseManager (S : Type 0) : Type 0 where
  pub validate_lease : Lease → S → Result LeaseError (Unit {0})
  pub lookup : String → String → S → Result LeaseError ActionReceipt
  pub record_of : Lease → ActionReceipt → S → S × Result LeaseError ReceiptResult

-- ActionExecutor
abbrev pub Executor : Type 0 → Type 0
Executor S = ActionRequest → S → S × Result ExecutionError ActionReceipt

-- ManagedOptions as NewManaged leaves them; `artifacts` is Verify of the artifact store.
pub record ManagedOptions (S : Type 0) : Type 0 where
  pub executor : Option (Executor S)
  pub artifacts : Option (String → S → Result String ArtifactRecord)
  pub fault : Option (FaultPoint → Command → S → S × Option String)
  pub safety : Command → IdempotencyScope

-- The executor and the policy that NewManaged puts for those that are missing.
unfoldable pub default_executor :
    {S : Type 0} → Executor S → Option (Executor S) → Option (Executor S)
default_executor fallback none = some fallback
default_executor fallback (some executor) = some executor

unfoldable pub default_safety : Option (Command → IdempotencyScope) → Command → IdempotencyScope
default_safety none command = IdempotencyScope.scoped
default_safety (some safety) command = safety command

-- actionCompletedEvent
unfoldable pub action_completed_event : ActionReceipt → Event
action_completed_event receipt = record empty_event {
  kind = EventType.action_completed;
  payload = record receipt.output {
    action_id = receipt.action_id;
    action_type = receipt.action_type;
    idempotency_scope = receipt.idempotency_scope;
    receipt_id = receipt.id;
    output_digest = receipt.output_digest;
    artifact_id = receipt.artifact_id;
    artifact_digest = receipt.artifact_digest;
  };
  idempotency_key = concat (receipt.action_id ∷ ":action-completed" ∷ []);
}

-- actionFailedEvent
unfoldable pub action_failed_event : Command → String → ActionOutcome → Event
action_failed_event command reason outcome = record empty_event {
  kind = EventType.action_failed;
  payload = record empty_data {
    action_id = command.action_id;
    action_type = command.kind;
    reason = reason;
    outcome = outcome;
  };
  idempotency_key = concat (command.action_id ∷ ":action-failed:" ∷ outcome_name outcome ∷ []);
}

-- The ActionPlanned event of ReconcileLeased.
unfoldable pub action_planned_event : Command → IdempotencyScope → Event
action_planned_event command scope = record empty_event {
  kind = EventType.action_planned;
  payload = record empty_data {
    action_id = command.action_id;
    action_type = command.kind;
    attempt_id = command.attempt_id;
    idempotency_scope = scope;
  };
  idempotency_key = concat (command.action_id ∷ ":action-planned" ∷ []);
}

-- What managedAppender sets on every event.
unfoldable pub stamped : String → Lease → Event → Event
stamped run_id presented e = record e {
  run_id = run_id;
  correlation_id = run_id;
  worker_id = presented.worker_id;
  fencing_token = presented.fencing_token;
}
