-- ===== src/Domain/Types.antt =====
-- internal/domain/types.go: the values that the event log carries and the projection of it.
pub mod Enums
pub use Enums.*
unfoldable pub use Enums.{EventType-discrete}
use agent_dock_coedx5_6sol.Prelude.{
  ℕ, ℤ, String, ◌≡◌, refl, ◌↔◌, Bool, true, false, [], ◌∷◌, get_or, Eq, coded_beq, coded_beq_iff,
  derived_eq, String_discrete,
}

-- `current_attempt` counts up from 0, and a log that reduces starts one attempt at most.
pub record Run : Type 0 where
  pub id : String
  pub scenario_id : String
  pub spec_hash : String
  pub desired_state : DesiredState
  pub observed_state : Status
  pub current_attempt : ℕ
  pub version : ℕ
  pub created_at : String
  pub updated_at : String

pub record State : Type 0 where
  pub exists : Bool
  pub run : Run
  pub attempt_id : String
  pub resume_state : Status
  pub pending_action_id : String
  pub pending_action_type : CommandType
  pub pending_attempt_id : String
  pub pending_action_scope : IdempotencyScope
  pub last_completed_action_id : String
  pub last_receipt_id : String
  pub reasoning_output : String
  pub tool_name : String
  pub tool_arguments : String
  pub patch_produced : Bool
  pub verification_passed : Bool
  pub failure_reason : String
  pub last_event_type : EventType

-- Go's zero value of `Run`.
abbrev pub empty_run : Run
empty_run = record {
  id = "";
  scenario_id = "";
  spec_hash = "";
  desired_state = DesiredState.unset;
  observed_state = Status.unset;
  current_attempt = 0;
  version = 0;
  created_at = "";
  updated_at = "";
}

-- InitialState
abbrev pub initial_state : State
initial_state = record {
  exists = false;
  run = empty_run;
  attempt_id = "";
  resume_state = Status.unset;
  pending_action_id = "";
  pending_action_type = CommandType.unset;
  pending_attempt_id = "";
  pending_action_scope = IdempotencyScope.unset;
  last_completed_action_id = "";
  last_receipt_id = "";
  reasoning_output = "";
  tool_name = "";
  tool_arguments = "";
  patch_produced = false;
  verification_passed = false;
  failure_reason = "";
  last_event_type = EventType.unset;
}

pub record EventData : Type 0 where
  pub scenario_id : String
  pub spec_hash : String
  pub desired_state : DesiredState
  pub attempt_id : String
  pub action_id : String
  pub action_type : CommandType
  pub idempotency_scope : IdempotencyScope
  pub receipt_id : String
  pub outcome : ActionOutcome
  pub output : String
  pub output_digest : String
  pub artifact_id : String
  pub artifact_digest : String
  pub tool_name : String
  pub tool_arguments : String
  pub reason : String

abbrev pub empty_data : EventData
empty_data = record {
  scenario_id = "";
  spec_hash = "";
  desired_state = DesiredState.unset;
  attempt_id = "";
  action_id = "";
  action_type = CommandType.unset;
  idempotency_scope = IdempotencyScope.unset;
  receipt_id = "";
  outcome = ActionOutcome.unset;
  output = "";
  output_digest = "";
  artifact_id = "";
  artifact_digest = "";
  tool_name = "";
  tool_arguments = "";
  reason = "";
}

-- `kind` is the field `Type`.
pub record Event : Type 0 where
  pub run_id : String
  pub seq : ℕ
  pub kind : EventType
  pub payload_version : ℤ
  pub payload : EventData
  pub idempotency_key : String
  pub causation_id : String
  pub correlation_id : String
  pub worker_id : String
  pub fencing_token : ℕ
  pub created_at : String

abbrev pub empty_event : Event
empty_event = record {
  run_id = "";
  seq = 0;
  kind = EventType.unset;
  payload_version = ℤ.pos 0;
  payload = empty_data;
  idempotency_key = "";
  causation_id = "";
  correlation_id = "";
  worker_id = "";
  fencing_token = 0;
  created_at = "";
}

-- CurrentEventPayloadVersion
abbrev pub current_payload_version : ℤ
current_payload_version = ℤ.pos 1

pub record Command : Type 0 where
  pub kind : CommandType
  pub run_id : String
  pub action_id : String
  pub attempt_id : String

abbrev pub noop_command : Command
noop_command = record { kind = CommandType.noop; run_id = ""; action_id = ""; attempt_id = "" }
