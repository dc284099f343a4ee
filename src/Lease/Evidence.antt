-- ===== src/Lease/Evidence.antt =====
-- What a recorded receipt stands on, and that it stays (internal/lease/postgres.go, RecordReceipt).
use agent_dock_coedx5_6sol.Prelude.{
  ℕ, String, string_eq, Bool, true, false, not, ◌≡◌, refl, ◌∙◌, ap, subst, Option, none, some,
  Result, ok, err, ◌⊎◌, inl, inr, [], ◌∷◌, ◌++◌, >>=-eq-ok, through, ok-injective, holds_of_not,
  int_eq,
}
use agent_dock_coedx5_6sol.Domain.Types.{EventData, command_type_eq, scope_eq}
use agent_dock_coedx5_6sol.Store.Equality.{data_eq}
use agent_dock_coedx5_6sol.Domain.Decide.{Sha256}
use agent_dock_coedx5_6sol.Domain.Receipt.{ReceiptError}
use agent_dock_coedx5_6sol.Lease.Types.{
  Lease, ActionReceipt, ReceiptRow, ReceiptResult, LeaseError, LeaseLibrary, Database, same_receipt,
}
use agent_dock_coedx5_6sol.Lease.Manager.{require_row, validate_lease_in_tx}
use agent_dock_coedx5_6sol.Lease.Receipts.{
  find_receipt, receipt_guard, with_id, planned_attempt, receipt_evidence_of, from_evidence,
  row_allowed, insert_receipt, record_or_replay, record_receipt, scan_receipt, scan_found,
  lookup_with_querier, new_row, stamped_receipt,
}
use agent_dock_coedx5_6sol.Lease.Authority.{Holds, validate_lease_in_tx-Holds, require_row-ok}
use agent_dock_coedx5_6sol.Lease.Later.{Later, Later-same, find-append, Succeeds-refl}

from_evidence-ok :
    (r : Result ReceiptError (Unit {0})) {u : Unit {0}} → from_evidence r ≡ ok u → r ≡ ok tt
from_evidence-ok (ok u) h = refl
from_evidence-ok (err e) h = cc h

module _ (lib : LeaseLibrary) where
  scan_found-none : (o : Option ReceiptRow) → scan_found lib o ≡ ok none → o ≡ none
  scan_found-none none p = refl
  scan_found-none (some row) p =
      let (x, scanned, p₁) = >>=-eq-ok (scan_receipt lib row) _ p in absurd (cc p₁)

  -- What a row that is found reads as.
  pub scan_found-row :
      (o : Option ReceiptRow) {x : ActionReceipt}
      → scan_found lib o ≡ ok (some x)
      → (row : ReceiptRow) × (o ≡ some row) × (scan_receipt lib row ≡ ok x)
  scan_found-row none p = absurd (cc p)
  scan_found-row (some row) p =
      let (y, scanned, p₁) = >>=-eq-ok (scan_receipt lib row) _ p in
      (row, refl, scanned ∙ ap ok (cc p₁))

module _ (sha : Sha256) (lib : LeaseLibrary) (is_digest : String → Bool) (db : Database) (later : ℕ)
    (presented : Lease) (receipt : ActionReceipt) where
  -- The log plans the receipt and has no result of its action, and the receipt is valid evidence for
  -- the attempt of the plan.
  pub Evidenced : Type 0
  Evidenced =
      (attempt : String) × (planned_attempt receipt (db.log receipt.run_id) ≡ some attempt)
      × (receipt_evidence_of sha lib is_digest receipt attempt ≡ ok tt)

  abbrev pub appended : String → Database
  appended stored = record db {
    receipts = db.receipts ++ new_row receipt presented later stored ∷ [];
  }

  -- The tables have one more row, with the text that the column keeps for the receipt's output.
  unfoldable pub Inserted : Database → ReceiptResult → Type 0
  Inserted b result =
      (text : String) × (stored : String) × (lib.marshal receipt.output ≡ some text)
      × (lib.jsonb text ≡ some stored)
      × (appended stored ≡ b)
      × (record { receipt = stamped_receipt receipt presented later; recorded = true } ≡ result)

  pub insert-Evidenced :
      (b : Database) (result : ReceiptResult)
      → insert_receipt sha lib is_digest db later presented receipt ≡ ok (b, result)
      → Evidenced × Inserted b result
  unfolding insert_receipt Evidenced Inserted
  insert-Evidenced b result p =
      let (attempt, plan, p₁) =
        >>=-eq-ok
          (require_row LeaseError.receipt_without_plan
            (planned_attempt receipt (db.log receipt.run_id)))
          _ p in
      let (u, proof, p₂) =
        >>=-eq-ok (from_evidence (receipt_evidence_of sha lib is_digest receipt attempt)) _ p₁ in
      let (text, written, p₃) =
        >>=-eq-ok (require_row LeaseError.malformed_output (lib.marshal receipt.output)) _ p₂ in
      let (stored, kept, p₄) =
        >>=-eq-ok (require_row LeaseError.constraint (lib.jsonb text)) _ p₃ in
      let (allowed, p₅) = through (not (row_allowed db receipt)) LeaseError.constraint _ p₄ in
      let q = ok-injective p₅ in
      (
        (attempt, require_row-ok _ _ plan, from_evidence-ok _ proof),
        (
          text,
          stored,
          require_row-ok _ _ written,
          require_row-ok _ _ kept,
          ap (λ z. z.0) q,
          ap (λ z. z.1) q,
        ),
      )

  -- A record is new, with its evidence, or what the row that is there reads as.
  unfoldable pub Outcome : Database → ReceiptResult → Type 0
  Outcome b result =
      ((find_receipt db.receipts receipt.run_id receipt.action_id ≡ none)
        × (Evidenced × Inserted b result))
      ⊎ ((row : ReceiptRow) × (existing : ActionReceipt) × (find_receipt db.receipts receipt.run_id
              receipt.action_id
            ≡ some row)
          × (scan_receipt lib row ≡ ok existing)
          × (same_receipt existing receipt ≡ true)
          × (db ≡ b)
          × (record { receipt = existing; recorded = false } ≡ result))

  record_or_replay-Outcome :
      (found : Option ActionReceipt) (b : Database) (result : ReceiptResult)
      → lookup_with_querier lib db receipt.run_id receipt.action_id ≡ ok found
      → record_or_replay sha lib is_digest db later presented receipt found ≡ ok (b, result)
      → Outcome b result
  unfolding Outcome
  record_or_replay-Outcome none b result scanned p =
      inl (scan_found-none lib _ scanned, insert-Evidenced b result p)
  record_or_replay-Outcome (some existing) b result scanned p =
      let (row, at, reads) = scan_found-row lib _ scanned in
      let (same, p₁) =
        through (not (same_receipt existing receipt)) LeaseError.receipt_conflict _ p in
      let q = ok-injective p₁ in
      inr (row, existing, at, reads, holds_of_not _ same, ap (λ z. z.0) q, ap (λ z. z.1) q)

module _ (sha : Sha256) (lib : LeaseLibrary) (is_digest : String → Bool)
    (sensitive : EventData → Bool) (db : Database) (now later : ℕ) (presented : Lease)
    (receipt : ActionReceipt) where
  -- A receipt is recorded only under a lease that holds.
  pub record_receipt-Outcome :
      (b : Database) (result : ReceiptResult)
      → record_receipt sha lib is_digest sensitive db now later presented receipt ≡ ok (b, result)
      → ((current : Lease) × Holds db now presented current)
        × Outcome sha lib is_digest db later presented (with_id receipt) b result
  unfolding record_receipt
  record_receipt-Outcome b result p =
      let (u, guard, p₁) = >>=-eq-ok (receipt_guard sensitive presented receipt) _ p in
      let (current, held, p₂) = >>=-eq-ok (validate_lease_in_tx db now presented) _ p₁ in
      let (found, scanned, p₃) =
        >>=-eq-ok (lookup_with_querier lib db (with_id receipt).run_id (with_id receipt).action_id)
          _ p₂ in
      (
        (current, validate_lease_in_tx-Holds db now presented held),
        record_or_replay-Outcome sha lib is_digest db later presented (with_id receipt) found b
            result scanned p₃,
      )

  -- Recording keeps every lease and every receipt.
  pub record_receipt-Later :
      (b : Database) (result : ReceiptResult)
      → record_receipt sha lib is_digest sensitive db now later presented receipt ≡ ok (b, result)
      → Later db b
  unfolding Outcome Inserted
  record_receipt-Later b result p = elim ((record_receipt-Outcome b result p).1) [
    | inl (absent, (evidence, (text, stored, written, kept, at, is))) ↦
        subst (Later db) at (record {
          leases = λ r c h. (c, h, Succeeds-refl c);
          receipts = λ r action x h. find-append db.receipts _ r action h;
        })
    | inr (row, existing, found, reads, same, at, is) ↦
        subst (Later db) at (Later-same db db refl refl)
  ]
