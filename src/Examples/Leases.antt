-- ===== src/Examples/Leases.antt =====
-- The theorems on leases and receipts at one run and two workers (internal/lease).
use agent_dock_coedx5_6sol.Prelude.{
  ℕ, ℤ, ◌≡◌, ◌≢◌, ◌≤◌, ◌+◌, ◌/◌, arith, refl, String, Bool, true, false, ok, Option, none, some, [],
  ◌∷◌, concat, hex, put, string_eq, String_discrete,
}
use agent_dock_coedx5_6sol.Domain.Types.{
  EventType, EventData, Event, CommandType, IdempotencyScope, empty_data, EventType-discrete,
}
use agent_dock_coedx5_6sol.Lease.Types.{
  Worker, Lease, LeaseLibrary, AcquireResult, ActionReceipt, ReceiptRow, Database,
}
use agent_dock_coedx5_6sol.Lease.Manager.{
  validate, validate_presented_lease, validate_lease_in_tx, acquire, next_lease,
}
use agent_dock_coedx5_6sol.Lease.Receipts.{
  with_id, record_receipt, receipt_guard, find_receipt, planned_attempt, last_plan,
  receipt_evidence_of, insert_receipt, row_allowed, lookup_receipt, scan_receipt, new_row,
  stamped_receipt,
}
use agent_dock_coedx5_6sol.Domain.Receipt.{
  validate_managed_action_output, digest_event_data, validate_managed_receipt_evidence,
}
use agent_dock_coedx5_6sol.Lease.Authority.{Holds, validate_unique, acquire-take_over}
use agent_dock_coedx5_6sol.Lease.Later.{Later-same}
use agent_dock_coedx5_6sol.Lease.Evidence.{Outcome, record_receipt-Outcome}
use agent_dock_coedx5_6sol.Lease.Replay.{record_receipt-again}
use agent_dock_coedx5_6sol.Lease.Steps.{
  Reach, start, next, acquired, validate_ordered, validate_fenced, lookup_receipt-kept,
}
use agent_dock_coedx5_6sol.Examples.Fixtures.{zero_sha, event, insensitive}

abbrev worker : String → Worker
worker name = record { id = name; registered_at = 0; heartbeat_at = 0 }

-- The lease of the first worker, until 10.
abbrev pub first : Lease
first = record {
  run_id = "run-1";
  worker_id = "w1";
  fencing_token = 1;
  expires_at = 10;
  heartbeat_at = 0;
}

abbrev pub second : Lease
second = record {
  run_id = "run-1";
  worker_id = "w2";
  fencing_token = 2;
  expires_at = 25;
  heartbeat_at = 20;
}

abbrev planned : Event
planned = event EventType.action_planned 2 "k2" (record empty_data {
  action_id = "a";
  action_type = CommandType.cancel_run;
  idempotency_scope = IdempotencyScope.scoped;
})

abbrev pub tables : Database
tables = record {
  workers = λ name. some (worker name);
  runs = λ run_id. true;
  leases = put (λ run_id. none) "run-1" first;
  receipts = [];
  artifacts = λ artifact_id. false;
  log = λ run_id. planned ∷ [];
}

abbrev pub taken_over : Database
taken_over = record tables { leases = put tables.leases "run-1" second }

abbrev receipt : ActionReceipt
receipt = record {
  id = "";
  run_id = "run-1";
  action_id = "a";
  action_type = CommandType.cancel_run;
  idempotency_scope = IdempotencyScope.scoped;
  output = empty_data;
  output_digest = concat ("sha256:" ∷ hex (zero_sha.sum256 "{}") ∷ []);
  artifact_id = "";
  artifact_digest = "";
  cost_units = ℤ.pos 3;
  worker_id = "";
  fencing_token = 0;
  created_at = 0;
}

-- The receipt that the first worker records at 5, and its row.
abbrev recorded_receipt : ActionReceipt
recorded_receipt = stamped_receipt (record receipt { id = "run-1:a" }) first 5

abbrev row : ReceiptRow
row = new_row (record receipt { id = "run-1:a" }) first 5 "{}"

abbrev recorded_tables : Database
recorded_tables = record tables { receipts = row ∷ [] }

abbrev micros : ℤ → ℕ
micros (ℤ.pos n) = (n + 500) / 1000
micros (ℤ.negsuc n) = 0

abbrev marshal : EventData → Option String
marshal d = some "{}"

-- Packages that know one output, its text, and the nearest whole microseconds of a duration.
abbrev pub lib : LeaseLibrary
lib = record {
  marshal = marshal;
  unmarshal = λ text. some empty_data;
  jsonb = λ text. some text;
  interval = micros;
}

abbrev pub any_digest : String → Bool
any_digest s = true

validate_unique_example :
    (first.worker_id ≡ first.worker_id) × (first.fencing_token ≡ first.fencing_token)
unfolding validate validate_presented_lease validate_lease_in_tx
validate_unique_example = validate_unique tables 3 4 first first refl refl refl

acquire-take_over_example :
    (after_db : Database) × (result : AcquireResult) × (acquire lib tables 20 20 "run-1" "w2"
        (ℤ.pos 5000)
      ≡ ok (after_db, result))
    × (result.lease.fencing_token ≡ 1 + 1)
    × (validate after_db 20 result.lease ≡ ok tt)
    × ((t : ℕ) → validate after_db t first ≢ ok tt)
acquire-take_over_example =
    acquire-take_over lib tables 20 20 "run-1" "w2" (ℤ.pos 5000) (refl, (worker "w2", refl), refl)
      first refl (omega arith) refl refl refl

record_of :
    record_receipt zero_sha lib any_digest insensitive tables 5 5 first receipt
    ≡ ok (recorded_tables, record { receipt = recorded_receipt; recorded = true })
unfolding record_receipt receipt_guard validate_presented_lease validate_lease_in_tx find_receipt
    insert_receipt planned_attempt last_plan receipt_evidence_of validate_managed_receipt_evidence
    validate_managed_action_output digest_event_data row_allowed concat hex EventType-discrete
    String_discrete
record_of = refl

record_receipt-Outcome_example :
    ((current : Lease) × Holds tables 5 first current)
    × Outcome zero_sha lib any_digest tables 5 first
        (with_id receipt)
        recorded_tables
        (record { receipt = recorded_receipt; recorded = true })
record_receipt-Outcome_example =
    record_receipt-Outcome zero_sha lib any_digest insensitive tables 5 5 first receipt
      recorded_tables (record { receipt = recorded_receipt; recorded = true }) record_of

record_receipt-again_example :
    (lookup_receipt lib recorded_tables "run-1" "a" ≡ ok recorded_receipt)
    × (record_receipt zero_sha lib any_digest insensitive recorded_tables 7 8 first receipt
        ≡ ok (recorded_tables, record { receipt = recorded_receipt; recorded = false }))
unfolding validate_lease_in_tx
record_receipt-again_example =
    record_receipt-again zero_sha lib any_digest insensitive tables 5 5 first receipt
      recorded_tables (record { receipt = recorded_receipt; recorded = true })
      (λ text stored p q. refl) record_of recorded_tables 7 8 first
      (Later-same recorded_tables recorded_tables refl refl) refl

abbrev pub take_over : Reach zero_sha lib any_digest insensitive tables taken_over
unfolding acquire next_lease
take_over = next start (
    acquired 20 20 "run-1" "w2" (ℤ.pos 5000)
      (record { lease = second; acquired = true; took_over = true }) refl)

validate_ordered_example :
    (first.fencing_token ≤ second.fencing_token)
    × (first.fencing_token ≡ second.fencing_token → first.worker_id ≡ second.worker_id)
unfolding validate validate_presented_lease validate_lease_in_tx
validate_ordered_example =
    validate_ordered zero_sha lib any_digest insensitive tables taken_over 3 21 first second
      take_over refl refl refl

validate_fenced_example : validate taken_over 22 first ≢ ok tt
unfolding validate validate_presented_lease validate_lease_in_tx
validate_fenced_example =
    validate_fenced zero_sha lib any_digest insensitive tables taken_over taken_over 3 21 22 first
      second take_over start refl refl refl (λ e. cc e)

lookup_receipt-kept_example : lookup_receipt lib recorded_tables "run-1" "a" ≡ ok recorded_receipt
unfolding lookup_receipt find_receipt scan_receipt
lookup_receipt-kept_example =
    lookup_receipt-kept zero_sha lib any_digest insensitive recorded_tables recorded_tables "run-1"
      "a" recorded_receipt start refl
