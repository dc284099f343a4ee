-- ===== src/Policy/Types.antt =====
-- internal/policy/policy.go and audit.go: the policy, a request, and the audit record.
use agent_dock_coedx5_6sol.Prelude.{ℤ, String, Bool, List, Option}

pub record EnvironmentPolicy : Type 0 where
  pub allow : List String

-- Rule: the timeout is in nanoseconds.
pub record Rule : Type 0 where
  pub tool : String
  pub capability : String
  pub read_only : Bool
  pub paths : List String
  pub network : Bool
  pub max_timeout : ℤ
  pub max_output_bytes : ℤ

pub record Config : Type 0 where
  pub version : String
  pub default : String
  pub environment : EnvironmentPolicy
  pub rules : List Rule

-- rawRule: the timeout is a text.
pub record RawRule : Type 0 where
  pub tool : String
  pub capability : String
  pub read_only : Bool
  pub paths : List String
  pub network : Bool
  pub max_timeout : String
  pub max_output_bytes : ℤ

pub record RawConfig : Type 0 where
  pub version : String
  pub default : String
  pub environment : EnvironmentPolicy
  pub rules : List RawRule

-- Request: the environment as its keys with their values.
pub record Request : Type 0 where
  pub run_id : String
  pub attempt_id : String
  pub tool_name : String
  pub contract_version : String
  pub capability : String
  pub read_only : Bool
  pub paths : List String
  pub network : Bool
  pub timeout : ℤ
  pub output_limit : ℤ
  pub environment : List (String × String)

-- The errors of a decision; each text is the reason.
pub data PolicyError : Type 0 where
  denied : String → PolicyError
  denied_unrecorded : String → PolicyError
  allowed_unrecorded : PolicyError

pub record Decision : Type 0 where
  pub allowed : Bool
  pub error : Option PolicyError

pub data AuditKind : Type 0 where
  policy_allowed policy_denied execution_completed execution_failed : AuditKind
  execution_timed_out execution_canceled output_truncated sandbox_created : AuditKind
  sandbox_create_failed sandbox_destroyed sandbox_destroy_failed : AuditKind

pub record AuditEvent : Type 0 where
  pub kind : AuditKind
  pub run_id : String
  pub attempt_id : String
  pub requested_run_id : String
  pub requested_attempt_id : String
  pub tool_name : String
  pub contract_version : String
  pub policy_version : String
  pub capability : String
  pub read_only : Bool
  pub allowed_paths : List String
  pub network : Bool
  pub environment : List String
  pub timeout_millis : ℤ
  pub output_limit : ℤ
  pub image_id : String
  pub cpu : String
  pub memory : String
  pub pids : ℤ
  pub reason : String
  pub exit_code : ℤ
  pub output_bytes : ℤ
  pub timestamp : String

-- AuditRecorder: a record keeps its events in a state, and may fail.
pub record AuditRecorder (S : Type 0) : Type 0 where
  pub record_event : S → AuditEvent → S × Bool
