-- ===== src/Domain/Receipt.antt =====
-- internal/domain/receipt.go, and ValidateManagedActionOutput of internal/domain/reducer.go: the
-- evidence that a completed action carries. `marshal` is json.Marshal of a payload, and
-- `is_digest` the match of sha256DigestPattern by package regexp.
use agent_dock_coedx5_6sol.Prelude.{
  String, ◌==◌, ◌!=◌, ◌||◌, string_eq, not, Bool, Option, none, some, if◌then◌else◌, Result, ok,
  err, ◌>>=◌, ◌>>◌, reject, concat, hex, [], ◌∷◌,
}
use agent_dock_coedx5_6sol.Domain.Types.{CommandType, EventData, command_type_eq}
use agent_dock_coedx5_6sol.Domain.Decide.{Sha256}

-- The errors of a receipt: ErrInvalidEvent, or json.Marshal's.
pub data ReceiptError : Type 0 where
  invalid_event marshal_error : ReceiptError

-- ValidateManagedActionOutput
unfoldable pub validate_managed_action_output :
    CommandType → String → EventData → Result ReceiptError (Unit {0})
validate_managed_action_output CommandType.start_attempt planned output =
    reject (output.attempt_id == "" || output.attempt_id != planned) ReceiptError.invalid_event
validate_managed_action_output CommandType.run_reasoner planned output =
    reject (output.tool_name == "") ReceiptError.invalid_event
validate_managed_action_output CommandType.fail_run planned output =
    reject (output.reason == "") ReceiptError.invalid_event
validate_managed_action_output _ planned output = ok tt

-- ExpectedActionArtifactID
abbrev pub expected_action_artifact_id : String → String
expected_action_artifact_id action_id = concat ("action-" ∷ action_id ∷ [])

digest_of : Sha256 → Option String → Result ReceiptError String
digest_of sha none = err ReceiptError.marshal_error
digest_of sha (some text) = ok (concat ("sha256:" ∷ hex (sha.sum256 text) ∷ []))

module _ (sha : Sha256) (marshal : EventData → Option String) where
  -- DigestEventData
  unfoldable pub digest_event_data : EventData → Result ReceiptError String
  unfolding digest_of
  digest_event_data output = digest_of sha (marshal output)

  -- ValidateManagedReceiptEvidence: the arguments after the action are its planned attempt, the
  -- output and its digest, and the artifact and its digest.
  unfoldable pub validate_managed_receipt_evidence :
      (String → Bool)
      → CommandType
      → String
      → String
      → EventData
      → String
      → String
      → String
      → Result ReceiptError (Unit {0})
  validate_managed_receipt_evidence is_digest kind action_id planned output output_digest
        artifact_id artifact_digest =
      do
        validate_managed_action_output kind planned output
        expected ← digest_event_data output
        reject (output_digest == "" || output_digest != expected) ReceiptError.invalid_event
        if kind == CommandType.apply_patch
            then (do
              reject (artifact_id == "" || artifact_id != expected_action_artifact_id action_id)
                  ReceiptError.invalid_event
              reject (not (is_digest artifact_digest)) ReceiptError.invalid_event)
            else reject (artifact_id != "" || artifact_digest != "") ReceiptError.invalid_event
