-- ===== src/Lease/Types.antt =====
-- internal/lease/lease.go: leases, workers, receipts and errors, and the tables that hold them.
-- A time is a number of microseconds of the database's clock since a start.
use agent_dock_coedx5_6sol.Prelude.{
  ℕ, ℤ, String, Bool, true, List, Option, Table, string_eq, int_eq, ◌+◌,
}
pub use agent_dock_coedx5_6sol.Prelude.{is_positive}
use agent_dock_coedx5_6sol.Domain.Types.{
  CommandType, IdempotencyScope, EventData, Event, command_type_eq, scope_eq,
}
use agent_dock_coedx5_6sol.Store.Equality.{field_eq, data_eq}

pub record Worker : Type 0 where
  pub id : String
  pub registered_at : ℕ
  pub heartbeat_at : ℕ

pub record Lease : Type 0 where
  pub run_id : String
  pub worker_id : String
  pub fencing_token : ℕ
  pub expires_at : ℕ
  pub heartbeat_at : ℕ

pub record AcquireResult : Type 0 where
  pub lease : Lease
  pub acquired : Bool
  pub took_over : Bool

pub record ActionReceipt : Type 0 where
  pub id : String
  pub run_id : String
  pub action_id : String
  pub action_type : CommandType
  pub idempotency_scope : IdempotencyScope
  pub output : EventData
  pub output_digest : String
  pub artifact_id : String
  pub artifact_digest : String
  pub cost_units : ℤ
  pub worker_id : String
  pub fencing_token : ℕ
  pub created_at : ℕ

-- A row of the table action_receipts, with the text that its column of type jsonb gives back.
pub record ReceiptRow : Type 0 where
  pub id : String
  pub run_id : String
  pub action_id : String
  pub action_type : CommandType
  pub idempotency_scope : IdempotencyScope
  pub output : String
  pub output_digest : String
  pub artifact_id : String
  pub artifact_digest : String
  pub cost_units : ℤ
  pub worker_id : String
  pub fencing_token : ℕ
  pub created_at : ℕ

-- What the manager uses of encoding/json and of PostgreSQL: `jsonb` is the text that a column of that
-- type gives back for a text, `none` where it refuses the text, and `interval` the microseconds that
-- make_interval(secs => ttl.Seconds()) adds to a time for a positive duration of nanoseconds.
pub record LeaseLibrary : Type 0 where
  pub marshal : EventData → Option String
  pub unmarshal : String → Option EventData
  pub jsonb : String → Option String
  pub interval : ℤ → ℕ

pub record ReceiptResult : Type 0 where
  pub receipt : ActionReceipt
  pub recorded : Bool

-- `evidence` is an error of the receipt's evidence, `constraint` one of the table's own, and
-- `malformed_output` one of json.Marshal or json.Unmarshal.
pub data LeaseError : Type 0 where
  invalid_lease worker_not_found worker_registered lease_not_found lease_held : LeaseError
  legacy_execution_in_progress lease_expired stale_lease run_not_found : LeaseError
  receipt_not_found receipt_conflict receipt_without_plan sensitive_payload : LeaseError
  evidence constraint malformed_output : LeaseError

-- The tables that the manager uses: `artifacts` holds the identities of the stored artifacts, and
-- `log` the events of a run in the order of their sequence numbers.
pub record Database : Type 0 where
  pub workers : Table Worker
  pub runs : String → Bool
  pub leases : Table Lease
  pub receipts : List ReceiptRow
  pub artifacts : String → Bool
  pub log : String → List Event

-- maxFencingToken
abbrev pub max_fencing_token : ℕ
max_fencing_token = 9223372036854775807

-- `clock_timestamp() + make_interval(secs => ttl.Seconds())`
abbrev pub after : LeaseLibrary → ℕ → ℤ → ℕ
after lib now ttl = now + lib.interval ttl

-- sameReceipt: all but the worker, the token and the time of the record
unfoldable pub same_receipt : ActionReceipt → ActionReceipt → Bool
same_receipt x y = field_eq x.id y.id (
    field_eq x.run_id y.run_id (
      field_eq x.action_id y.action_id (
        field_eq x.action_type y.action_type (
          field_eq x.idempotency_scope y.idempotency_scope (
            field_eq x.output y.output (
              field_eq x.output_digest y.output_digest (
                field_eq x.artifact_id y.artifact_id (
                  field_eq x.artifact_digest y.artifact_digest
                    (field_eq x.cost_units y.cost_units true)))))))))
