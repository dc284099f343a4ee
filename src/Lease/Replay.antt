-- ===== src/Lease/Replay.antt =====
-- A recorded receipt is read back, and recording it again returns it (internal/lease/postgres.go).
use agent_dock_coedx5_6sol.Prelude.{
  ℕ, String, string_eq, Bool, true, false, ◌≡◌, refl, sym, ◌∙◌, ap, subst, ◌==◌, none, some, ok,
  inl, inr, List, [], ◌∷◌, ◌++◌, ◌&&◌, >>=-eq-ok, Bool-cases, if_true, if_false, if◌then◌else◌,
  ==_self, int_eq,
}
use agent_dock_coedx5_6sol.Domain.Types.{EventData, command_type_eq, scope_eq}
use agent_dock_coedx5_6sol.Store.Equality.{field_eq_self, data_eq}
use agent_dock_coedx5_6sol.Domain.Decide.{Sha256}
use agent_dock_coedx5_6sol.Lease.Types.{
  Lease, ActionReceipt, ReceiptRow, ReceiptResult, LeaseLibrary, Database, same_receipt,
}
use agent_dock_coedx5_6sol.Lease.Manager.{validate_lease_in_tx}
use agent_dock_coedx5_6sol.Lease.Receipts.{
  find_receipt, receipt_guard, with_id, record_receipt, scan_receipt, lookup_receipt, new_row,
  stamped_receipt,
}
use agent_dock_coedx5_6sol.Lease.Later.{Later}
use agent_dock_coedx5_6sol.Lease.Evidence.{Inserted, Outcome, record_receipt-Outcome}

find-last :
    (xs : List ReceiptRow) (x : ReceiptRow)
    → find_receipt xs x.run_id x.action_id ≡ none
    → find_receipt (xs ++ x ∷ []) x.run_id x.action_id ≡ some x
unfolding find_receipt
find-last [] x h = rw (==_self x.run_id, ==_self x.action_id) refl
find-last (z ∷ xs) x h = elim (Bool-cases (z.run_id == x.run_id && z.action_id == x.action_id)) [
  | inl here ↦ cc (sym (if_true _ _ _ here) ∙ h)
  | inr there ↦ if_false _ _ _ there ∙ find-last xs x (sym (if_false _ _ _ there) ∙ h)
]

module _ (lib : LeaseLibrary) where
  -- A new row reads as the receipt that the recording returns, if its text reads as its output.
  scan-new_row :
      (receipt : ActionReceipt) (presented : Lease) (later : ℕ) (stored : String)
      → lib.unmarshal stored ≡ some receipt.output
      → scan_receipt lib (new_row receipt presented later stored)
        ≡ ok (stamped_receipt receipt presented later)
  unfolding scan_receipt
  scan-new_row receipt presented later stored h = rw h refl

same_receipt-stamped :
    (receipt : ActionReceipt) (presented : Lease) (later : ℕ)
    → same_receipt (stamped_receipt receipt presented later) receipt ≡ true
unfolding same_receipt
same_receipt-stamped r presented later = field_eq_self r.id (
    field_eq_self r.run_id (
      field_eq_self r.action_id (
        field_eq_self r.action_type (
          field_eq_self r.idempotency_scope (
            field_eq_self r.output (
              field_eq_self r.output_digest (
                field_eq_self r.artifact_id
                  (field_eq_self r.artifact_digest (field_eq_self r.cost_units refl)))))))))

-- The default identity of a receipt changes nothing else.
with_id-key :
    (receipt : ActionReceipt)
    → ((with_id receipt).run_id ≡ receipt.run_id)
      × ((with_id receipt).action_id ≡ receipt.action_id)
      × ((with_id receipt).output ≡ receipt.output)
with_id-key receipt = either (receipt.id == "") _
  where
    either :
        (b : Bool) (id : String)
        → let named : ActionReceipt = if b then record receipt { id = id } else receipt in
          (named.run_id ≡ receipt.run_id)
          × (named.action_id ≡ receipt.action_id)
          × (named.output ≡ receipt.output)
    either true id = (refl, refl, refl)
    either false id = (refl, refl, refl)

module _ (sha : Sha256) (lib : LeaseLibrary) (is_digest : String → Bool)
    (sensitive : EventData → Bool) (db : Database) (now later : ℕ) (presented : Lease)
    (receipt : ActionReceipt) where
  -- The receipt that a record leaves is that of the request but for the worker, the token and the time.
  Outcome-same :
      (b : Database) (result : ReceiptResult)
      → Outcome sha lib is_digest db later presented (with_id receipt) b result
      → same_receipt result.receipt (with_id receipt) ≡ true
  unfolding Outcome Inserted
  Outcome-same b result (inl (absent, (evidence, (text, stored, written, kept, at, is)))) =
      sym (ap (λ (r : ReceiptResult). same_receipt r.receipt (with_id receipt)) is)
      ∙ same_receipt-stamped (with_id receipt) presented later
  Outcome-same b result (inr (row, existing, found, reads, same, at, is)) =
      sym (ap (λ (r : ReceiptResult). same_receipt r.receipt (with_id receipt)) is) ∙ same

  -- The row that a record leaves, and what it reads as.
  Outcome-found :
      (b : Database) (result : ReceiptResult)
      → ((text stored : String)
          → lib.marshal (with_id receipt).output ≡ some text
          → lib.jsonb text ≡ some stored
          → lib.unmarshal stored ≡ some (with_id receipt).output)
      → Outcome sha lib is_digest db later presented (with_id receipt) b result
      → (row : ReceiptRow) × (find_receipt b.receipts
            (with_id receipt).run_id
            (with_id receipt).action_id
          ≡ some row)
        × (scan_receipt lib row ≡ ok result.receipt)
  unfolding Outcome Inserted
  Outcome-found b result survives
        (inl (absent, (evidence, (text, stored, written, kept, at, is)))) =
      let row = new_row (with_id receipt) presented later stored in
      (
        row,
        ap
              (λ (d : Database).
                find_receipt d.receipts (with_id receipt).run_id (with_id receipt).action_id)
              (sym at)
            ∙ find-last db.receipts row absent,
        scan-new_row lib (with_id receipt) presented later stored
              (survives text stored written kept)
            ∙ ap (λ (r : ReceiptResult). ok r.receipt) is,
      )
  Outcome-found b result survives (inr (row, existing, found, reads, same, at, is)) = (
    row,
    ap
          (λ (d : Database).
            find_receipt d.receipts (with_id receipt).run_id (with_id receipt).action_id)
          (sym at)
        ∙ found,
    reads ∙ ap (λ (r : ReceiptResult). ok r.receipt) is,
  )

  -- If the receipt's output survives the way through json.Marshal, its jsonb column and json.Unmarshal,
  -- then on all later tables for which the lease is valid a recorded receipt is what a lookup of its run
  -- and action reads, and recording it again changes nothing and returns the same receipt.
  pub record_receipt-again :
      (b : Database) (result : ReceiptResult)
      → ((text stored : String)
          → lib.marshal receipt.output ≡ some text
          → lib.jsonb text ≡ some stored
          → lib.unmarshal stored ≡ some receipt.output)
      → record_receipt sha lib is_digest sensitive db now later presented receipt ≡ ok (b, result)
      → (c : Database) (now' later' : ℕ) (current : Lease) → Later b c
      → validate_lease_in_tx c now' presented ≡ ok current
      → (lookup_receipt lib c receipt.run_id receipt.action_id ≡ ok result.receipt)
        × (record_receipt sha lib is_digest sensitive c now' later' presented receipt
            ≡ ok (c, record { receipt = result.receipt; recorded = false }))
  unfolding record_receipt lookup_receipt
  record_receipt-again b result survives p c now' later' current kept held =
      let (u, guard, p₁) = >>=-eq-ok (receipt_guard sensitive presented receipt) _ p in
      let (run, action, output) = with_id-key receipt in
      let out =
        (record_receipt-Outcome sha lib is_digest sensitive db now later presented receipt b result
          p).1 in
      let (row, left, reads) = Outcome-found b result (rw output survives) out in
      let found = kept.receipts _ _ _ left in
      let same = Outcome-same b result out in
      let named : lookup_receipt lib c (with_id receipt).run_id (with_id receipt).action_id
          ≡ ok result.receipt =
        rw (found, reads) refl in
      (
        subst (λ r. lookup_receipt lib c r receipt.action_id ≡ ok result.receipt) run
            (subst (λ a. lookup_receipt lib c (with_id receipt).run_id a ≡ ok result.receipt) action
              named),
        rw (guard, held, found, reads, same) refl,
      )
