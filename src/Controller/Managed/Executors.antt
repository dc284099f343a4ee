-- ===== src/Controller/Managed/Executors.antt =====
-- internal/controller/managed.go: the executors of actions. `write` is Write of the artifact store, and
-- `reason` is what the configured Reasoner, Collect and ValidatePhase1Result make of a task.
use agent_dock_coedx5_6sol.Prelude.{
  ℤ, String, string_eq, ◌!=◌, [], ◌∷◌, Option, none, some, Result, ok, err, concat, if◌then◌else◌,
}
use agent_dock_coedx5_6sol.Domain.Types.{CommandType, EventData, empty_data, command_type_eq}
use agent_dock_coedx5_6sol.Domain.Decide.{Sha256}
use agent_dock_coedx5_6sol.Domain.Receipt.{
  ReceiptError, digest_event_data, expected_action_artifact_id,
}
use agent_dock_coedx5_6sol.Lease.Types.{ActionReceipt}
use agent_dock_coedx5_6sol.Controller.Reconcile.{Reasoned}
use agent_dock_coedx5_6sol.Controller.Managed.Types.{
  ActionRequest, ArtifactRecord, ExecutionError, Executor,
}

module _ (sha : Sha256) (marshal : EventData → Option String) where
  abbrev pub receipt_with_digest :
      ActionRequest
      → EventData
      → ℤ
      → String
      → Result ReceiptError String
      → Result ExecutionError ActionReceipt
  receipt_with_digest request output cost artifact_id (err e) = err ExecutionError.panics
  receipt_with_digest request output cost artifact_id (ok digest) = ok (record {
    id = "";
    run_id = request.state.run.id;
    action_id = request.command.action_id;
    action_type = request.command.kind;
    idempotency_scope = request.scope;
    output = output;
    output_digest = digest;
    artifact_id = artifact_id;
    artifact_digest = "";
    cost_units = cost;
    worker_id = "";
    fencing_token = 0;
    created_at = 0;
  })

  -- receiptForOutput
  unfoldable pub receipt_for_output :
      ActionRequest → EventData → ℤ → String → Result ExecutionError ActionReceipt
  receipt_for_output request output cost artifact_id =
      receipt_with_digest request output cost artifact_id (digest_event_data sha marshal output)

  -- The output and the cost of a deterministic action.
  unfoldable pub deterministic_output : ActionRequest → CommandType → Option (EventData × ℤ)
  deterministic_output request CommandType.start_attempt =
      some
        (record empty_data { attempt_id = request.command.attempt_id; reason = "initial" }, ℤ.pos 0)
  deterministic_output request CommandType.provision_workspace = some (empty_data, ℤ.pos 0)
  deterministic_output request CommandType.run_reasoner = some (
    record empty_data {
      output = "phase-3 deterministic reasoning";
      tool_name = "phase1.patch";
      tool_arguments = "{\"patch\":\"phase-3\"}";
    },
    ℤ.pos 1,
  )
  deterministic_output request CommandType.apply_patch = some (empty_data, ℤ.pos 0)
  deterministic_output request CommandType.verify = some (empty_data, ℤ.pos 0)
  deterministic_output request CommandType.succeed_run = some (empty_data, ℤ.pos 0)
  deterministic_output request CommandType.fail_run =
      some (record empty_data { reason = request.state.failure_reason }, ℤ.pos 0)
  deterministic_output request CommandType.cancel_run = some (empty_data, ℤ.pos 0)
  deterministic_output request _ = none

  abbrev pub deterministic_receipt :
      ActionRequest → Option (EventData × ℤ) → Result ExecutionError ActionReceipt
  deterministic_receipt request none = err (ExecutionError.failed "unsupported managed action")
  deterministic_receipt request (some (output, cost)) = receipt_for_output request output cost ""

  -- ExecuteDeterministicAction
  unfoldable pub execute_deterministic_action : ActionRequest → Result ExecutionError ActionReceipt
  execute_deterministic_action request =
      deterministic_receipt request (deterministic_output request request.command.kind)

  abbrev pub reasoned_receipt :
      ActionRequest → Result String Reasoned → Result ExecutionError ActionReceipt
  reasoned_receipt request (err text) = err (ExecutionError.failed text)
  reasoned_receipt request (ok result) =
      receipt_for_output request
        (record empty_data {
          output = result.output;
          tool_name = result.tool_name;
          tool_arguments = result.tool_arguments;
        })
        (ℤ.pos 1) ""

  -- Execute of reasonerActionExecutor
  unfoldable pub reasoner_executor : {S : Type 0} → (String → Result String Reasoned) → Executor S
  reasoner_executor reason request m =
      if request.command.kind != CommandType.run_reasoner
      then (m, execute_deterministic_action request)
      else (m, reasoned_receipt request (reason request.state.run.scenario_id))

-- ArtifactInput, with its content as a text
pub record ArtifactInput : Type 0 where
  pub id : String
  pub run_id : String
  pub attempt_id : String
  pub kind : String
  pub content : String

abbrev pub artifact_input : ActionRequest → ArtifactInput
artifact_input request = record {
  id = expected_action_artifact_id request.command.action_id;
  run_id = request.state.run.id;
  attempt_id = request.state.attempt_id;
  kind = "phase-3-action-receipt";
  content = concat (
      "phase-3 receipt artifact\nrun_id=" ∷ request.state.run.id ∷ "\naction_id="
      ∷ request.command.action_id ∷ "\n" ∷ []);
}

module _ {S : Type 0} where
  abbrev pub with_artifact :
      ActionReceipt → S × Result String ArtifactRecord → S × Result ExecutionError ActionReceipt
  with_artifact receipt (m, err text) = (m, err (ExecutionError.failed text))
  with_artifact receipt (m, ok written) =
      (m, ok (record receipt { artifact_id = written.id; artifact_digest = written.digest }))

  abbrev pub write_artifact :
      Option (ArtifactInput → S → S × Result String ArtifactRecord)
      → ActionRequest
      → S × Result ExecutionError ActionReceipt
      → S × Result ExecutionError ActionReceipt
  write_artifact write request (m, err e) = (m, err e)
  write_artifact none request (m, ok receipt) =
      (m, err (ExecutionError.failed "PostgreSQL Artifact store is required"))
  write_artifact (some write) request (m, ok receipt) =
      with_artifact receipt (write (artifact_input request) m)

  -- Execute of artifactActionExecutor
  unfoldable pub artifact_executor :
      Executor S → Option (ArtifactInput → S → S × Result String ArtifactRecord) → Executor S
  artifact_executor base write request m =
      if request.command.kind != CommandType.apply_patch
      then base request m
      else write_artifact write request (base request m)
