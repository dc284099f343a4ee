-- ===== src/Controller/Managed/Evidence.antt =====
-- internal/controller/managed.go: validateReceiptEvidence.
use agent_dock_coedx5_6sol.Prelude.{
  String, string_eq, Bool, ◌||◌, ◌==◌, ◌!=◌, Option, none, some, Result, ok, err, ◌>>◌, reject,
  if◌then◌else◌,
}
use agent_dock_coedx5_6sol.Domain.Types.{EventData, State}
use agent_dock_coedx5_6sol.Domain.Transition.{DomainError}
use agent_dock_coedx5_6sol.Domain.Decide.{Sha256}
use agent_dock_coedx5_6sol.Domain.Managed.{validate_action_completion}
use agent_dock_coedx5_6sol.Domain.Receipt.{ReceiptError, validate_managed_receipt_evidence}
use agent_dock_coedx5_6sol.Lease.Types.{ActionReceipt}
use agent_dock_coedx5_6sol.Controller.Managed.Types.{ArtifactRecord, action_completed_event}

-- The error of a receipt's evidence, of its completion, or of its artifact.
pub data EvidenceError : Type 0 where
  receipt : ReceiptError → EvidenceError
  not_reducible : DomainError → EvidenceError
  verifier_missing artifact_mismatch : EvidenceError
  artifact : String → EvidenceError

abbrev pub as_evidence :
    {E : Type 0} → (E → EvidenceError) → Result E (Unit {0}) → Result EvidenceError (Unit {0})
as_evidence wrap (ok u) = ok u
as_evidence wrap (err e) = err (wrap e)

-- The comparison of the artifact's metadata with the receipt.
abbrev pub compare_artifact :
    State → ActionReceipt → Result String ArtifactRecord → Result EvidenceError (Unit {0})
compare_artifact s r (err text) = err (EvidenceError.artifact text)
compare_artifact s r (ok found) =
    reject
      (found.run_id != r.run_id
        || found.attempt_id != s.pending_attempt_id
        || found.id != r.artifact_id
        || found.kind != "phase-3-action-receipt"
        || found.digest != r.artifact_digest)
      EvidenceError.artifact_mismatch

module _ {S : Type 0} (sha : Sha256) (marshal : EventData → Option String)
    (is_digest : String → Bool)
    (artifacts : Option (String → S → Result String ArtifactRecord)) where
  abbrev pub verify_artifact :
      Option (String → S → Result String ArtifactRecord)
      → State
      → ActionReceipt
      → S
      → Result EvidenceError (Unit {0})
  verify_artifact none s r m = err EvidenceError.verifier_missing
  verify_artifact (some verify) s r m = compare_artifact s r (verify r.artifact_id m)

  -- validateReceiptEvidence
  unfoldable pub validate_receipt_evidence :
      State → ActionReceipt → S → Result EvidenceError (Unit {0})
  validate_receipt_evidence s r m = do
    as_evidence EvidenceError.receipt (
        validate_managed_receipt_evidence sha marshal is_digest r.action_type r.action_id
          s.pending_attempt_id r.output r.output_digest r.artifact_id r.artifact_digest)
    as_evidence EvidenceError.not_reducible
        (validate_action_completion s (action_completed_event r).payload)
    if r.artifact_id == "" then ok tt else verify_artifact artifacts s r m
