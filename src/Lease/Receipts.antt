-- ===== src/Lease/Receipts.antt =====
-- internal/lease/postgres.go: RecordReceipt and LookupReceipt. `sensitive` is
-- containsCredentialMaterial; the other parameters are those of the receipt evidence.
use agent_dock_coedx5_6sol.Prelude.{
  ℕ, String, Bool, true, false, not, ◌&&◌, ◌||◌, ◌==◌, ◌!=◌, string_eq, nat_eq, if◌then◌else◌, List,
  [], ◌∷◌, ◌++◌, any, Option, none, some, Result, ok, err, ◌>>=◌, ◌>>◌, reject, concat, is_negative,
}
use agent_dock_coedx5_6sol.Domain.Types.{
  CommandType, EventType, EventData, Event, event_type_eq, command_type_eq, scope_eq, scope_valid,
}
use agent_dock_coedx5_6sol.Domain.Decide.{Sha256}
use agent_dock_coedx5_6sol.Domain.Receipt.{ReceiptError, validate_managed_receipt_evidence}
use agent_dock_coedx5_6sol.Lease.Types.{
  Lease, ActionReceipt, ReceiptRow, ReceiptResult, LeaseError, Database, LeaseLibrary, same_receipt,
}
use agent_dock_coedx5_6sol.Lease.Manager.{
  validate_presented_lease, validate_lease_in_tx, require_row,
}

-- The row of a run and an action.
unfoldable pub find_receipt : List ReceiptRow → String → String → Option ReceiptRow
find_receipt [] run_id action_id = none
find_receipt (x ∷ xs) run_id action_id =
    if x.run_id == run_id && x.action_id == action_id
    then some x
    else find_receipt xs run_id action_id

-- scanReceipt: the output is read back from the text of its column.
unfoldable pub scan_receipt : LeaseLibrary → ReceiptRow → Result LeaseError ActionReceipt
scan_receipt lib row = do
  output ← require_row LeaseError.malformed_output (lib.unmarshal row.output)
  ok (record {
    id = row.id;
    run_id = row.run_id;
    action_id = row.action_id;
    action_type = row.action_type;
    idempotency_scope = row.idempotency_scope;
    output = output;
    output_digest = row.output_digest;
    artifact_id = row.artifact_id;
    artifact_digest = row.artifact_digest;
    cost_units = row.cost_units;
    worker_id = row.worker_id;
    fencing_token = row.fencing_token;
    created_at = row.created_at;
  })

-- lookupReceiptWithQuerier
abbrev pub scan_found : LeaseLibrary → Option ReceiptRow → Result LeaseError (Option ActionReceipt)
scan_found lib none = ok none
scan_found lib (some row) = do receipt ← scan_receipt lib row; ok (some receipt)

abbrev pub lookup_with_querier :
    LeaseLibrary → Database → String → String → Result LeaseError (Option ActionReceipt)
lookup_with_querier lib db run_id action_id =
    scan_found lib (find_receipt db.receipts run_id action_id)

-- LookupReceipt
unfoldable pub lookup_receipt :
    LeaseLibrary → Database → String → String → Result LeaseError ActionReceipt
lookup_receipt lib db run_id action_id = do
  found ← lookup_with_querier lib db run_id action_id
  require_row LeaseError.receipt_not_found found

-- The event is a result of the action.
abbrev pub is_result : String → Event → Bool
is_result action_id e =
    (e.kind == EventType.action_completed || e.kind == EventType.action_failed)
    && e.payload.action_id == action_id

-- The event plans the action of the receipt.
abbrev pub plans : ActionReceipt → Event → Bool
plans receipt e =
    e.kind == EventType.action_planned
    && e.payload.action_id == receipt.action_id
    && e.payload.action_type == receipt.action_type
    && e.payload.idempotency_scope == receipt.idempotency_scope

-- The attempt of the last plan.
unfoldable pub last_plan : ActionReceipt → List Event → Option String
last_plan receipt [] = none
last_plan receipt (e ∷ rest) = elim (last_plan receipt rest) [
  | some attempt ↦ some attempt
  | none ↦ if plans receipt e then some e.payload.attempt_id else none
]

-- The attempt that the log plans for the receipt, if the action has no result.
unfoldable pub planned_attempt : ActionReceipt → List Event → Option String
unfolding last_plan
planned_attempt receipt es =
    if any (is_result receipt.action_id) es then none else last_plan receipt es

-- The constraints of the table action_receipts: its primary key, one receipt for each artifact of a run,
-- and the reference to the artifact.
unfoldable pub row_allowed : Database → ActionReceipt → Bool
row_allowed db receipt =
    not (any (λ (x : ReceiptRow). x.id == receipt.id) db.receipts)
    && (receipt.artifact_id == ""
        || (db.artifacts receipt.artifact_id
            && not (
                any
                  (λ (x : ReceiptRow).
                    x.run_id == receipt.run_id && x.artifact_id == receipt.artifact_id)
                  db.receipts)))

-- The identity of a receipt that comes without one.
abbrev pub with_id : ActionReceipt → ActionReceipt
with_id receipt =
    if receipt.id == ""
    then record receipt { id = concat (receipt.run_id ∷ ":" ∷ receipt.action_id ∷ []) }
    else receipt

-- The tests of RecordReceipt on its arguments.
unfoldable pub receipt_guard :
    (EventData → Bool) → Lease → ActionReceipt → Result LeaseError (Unit {0})
unfolding validate_presented_lease
receipt_guard sensitive presented receipt = do
  validate_presented_lease presented
  reject
      (receipt.run_id == ""
        || receipt.run_id != presented.run_id
        || receipt.action_id == ""
        || receipt.action_type == CommandType.unset
        || not (scope_valid receipt.idempotency_scope)
        || is_negative receipt.cost_units)
      LeaseError.invalid_lease
  reject (sensitive receipt.output) LeaseError.sensitive_payload

-- ValidateManagedReceiptEvidence of the receipt for a planned attempt
abbrev pub from_evidence : Result ReceiptError (Unit {0}) → Result LeaseError (Unit {0})
from_evidence (ok u) = ok u
from_evidence (err e) = err LeaseError.evidence

-- The values of a new row.
abbrev pub new_row : ActionReceipt → Lease → ℕ → String → ReceiptRow
new_row receipt presented later stored = record {
  id = receipt.id;
  run_id = receipt.run_id;
  action_id = receipt.action_id;
  action_type = receipt.action_type;
  idempotency_scope = receipt.idempotency_scope;
  output = stored;
  output_digest = receipt.output_digest;
  artifact_id = receipt.artifact_id;
  artifact_digest = receipt.artifact_digest;
  cost_units = receipt.cost_units;
  worker_id = presented.worker_id;
  fencing_token = presented.fencing_token;
  created_at = later;
}

-- The receipt that the recording returns.
abbrev pub stamped_receipt : ActionReceipt → Lease → ℕ → ActionReceipt
stamped_receipt receipt presented later = record receipt {
  worker_id = presented.worker_id;
  fencing_token = presented.fencing_token;
  created_at = later;
}

module _ (sha : Sha256) (lib : LeaseLibrary) (is_digest : String → Bool) where
  unfoldable pub receipt_evidence_of : ActionReceipt → String → Result ReceiptError (Unit {0})
  receipt_evidence_of receipt attempt =
      validate_managed_receipt_evidence sha lib.marshal is_digest receipt.action_type
        receipt.action_id attempt receipt.output receipt.output_digest receipt.artifact_id
        receipt.artifact_digest

  -- The insertion of a receipt that is new.
  unfoldable pub insert_receipt :
      Database → ℕ → Lease → ActionReceipt → Result LeaseError (Database × ReceiptResult)
  insert_receipt db later presented receipt = do
    attempt ←
        require_row LeaseError.receipt_without_plan
          (planned_attempt receipt (db.log receipt.run_id))
    from_evidence (receipt_evidence_of receipt attempt)
    output ← require_row LeaseError.malformed_output (lib.marshal receipt.output)
    stored ← require_row LeaseError.constraint (lib.jsonb output)
    reject (not (row_allowed db receipt)) LeaseError.constraint
    ok (
      record db { receipts = db.receipts ++ new_row receipt presented later stored ∷ [] },
      record { receipt = stamped_receipt receipt presented later; recorded = true },
    )

  -- What RecordReceipt does with the row that is there.
  abbrev pub record_or_replay :
      Database
      → ℕ
      → Lease
      → ActionReceipt
      → Option ActionReceipt
      → Result LeaseError (Database × ReceiptResult)
  record_or_replay db later presented receipt none = insert_receipt db later presented receipt
  record_or_replay db later presented receipt (some existing) = do
    reject (not (same_receipt existing receipt)) LeaseError.receipt_conflict
    ok (db, record { receipt = existing; recorded = false })

  -- RecordReceipt
  unfoldable pub record_receipt :
      (EventData → Bool)
      → Database
      → ℕ
      → ℕ
      → Lease
      → ActionReceipt
      → Result LeaseError (Database × ReceiptResult)
  unfolding validate_lease_in_tx
  record_receipt sensitive db now later presented receipt = do
    receipt_guard sensitive presented receipt
    let named = with_id receipt
    current ← validate_lease_in_tx db now presented
    existing ← lookup_with_querier lib db named.run_id named.action_id
    record_or_replay db later presented named existing
