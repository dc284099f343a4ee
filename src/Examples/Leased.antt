-- ===== src/Examples/Leased.antt =====
-- The theorems on the leased path at one run whose workspace is being provisioned
-- (internal/controller/managed.go).
use agent_dock_coedx5_6sol.Prelude.{
  ℕ, ℤ, ◌≡◌, ◌≤◌, ◌+◌, refl, String, true, Result, ok, err, Option, none, some, List, [], ◌∷◌, ◌++◌,
  concat, hex, string_eq, String_discrete, ap, subst,
}
use agent_dock_coedx5_6sol.Domain.Types.{
  DesiredState, Status, CommandType, IdempotencyScope, Event, State, initial_state, empty_run,
  empty_data, EventType-discrete,
}
use agent_dock_coedx5_6sol.Domain.Managed.{
  validate_action_completion, apply_action_completed, apply_completed_action_result,
}
use agent_dock_coedx5_6sol.Domain.Receipt.{
  validate_managed_action_output, digest_event_data, validate_managed_receipt_evidence,
}
use agent_dock_coedx5_6sol.Lease.Types.{ActionReceipt, Database}
use agent_dock_coedx5_6sol.Lease.Manager.{validate, validate_presented_lease, validate_lease_in_tx}
use agent_dock_coedx5_6sol.Lease.Steps.{start}
use agent_dock_coedx5_6sol.Controller.Exec.{ControllerError, EventStore}
use agent_dock_coedx5_6sol.Controller.Requests.{get_run, append_once}
use agent_dock_coedx5_6sol.Controller.Reconcile.{ReconcileResult, count_append}
use agent_dock_coedx5_6sol.Controller.Managed.Types.{
  ActionRequest, ExecutionError, LeaseManager, ManagedOptions, action_completed_event, stamped,
}
use agent_dock_coedx5_6sol.Controller.Managed.Evidence.{EvidenceError, validate_receipt_evidence}
use agent_dock_coedx5_6sol.Controller.Managed.Run.{
  inject, retry_managed, managed_append, finish, conclude_action, after_lookup,
  recover_pending_action, reconcile_state, reconcile_leased,
}
use agent_dock_coedx5_6sol.Controller.Managed.Once.{reconcile_leased_once}
use agent_dock_coedx5_6sol.Controller.Managed.Stale.{
  HasTables, postgres_manager, reconcile_leased_stale,
}
use agent_dock_coedx5_6sol.Controller.Managed.Reported.{reconcile_leased_reports}
use agent_dock_coedx5_6sol.Controller.Managed.Unreported.{reconcile_leased_unreported}
use agent_dock_coedx5_6sol.Examples.Fixtures.{zero_sha, insensitive}
use agent_dock_coedx5_6sol.Examples.Leases.{
  first, second, tables, taken_over, lib, any_digest, take_over,
}

-- A run with a pending action, and the receipt of the action.
abbrev pub pending : State
pending = record initial_state {
  exists = true;
  run = record empty_run {
    id = "run-1";
    desired_state = DesiredState.running;
    observed_state = Status.provisioning;
  };
  pending_action_id = "a";
  pending_action_type = CommandType.provision_workspace;
  pending_attempt_id = "attempt-1";
  pending_action_scope = IdempotencyScope.scoped;
}

abbrev pub provisioned : ActionReceipt
provisioned = record {
  id = "run-1:a";
  run_id = "run-1";
  action_id = "a";
  action_type = CommandType.provision_workspace;
  idempotency_scope = IdempotencyScope.scoped;
  output = empty_data;
  output_digest = concat ("sha256:" ∷ hex (zero_sha.sum256 "{}") ∷ []);
  artifact_id = "";
  artifact_digest = "";
  cost_units = ℤ.pos 0;
  worker_id = "w1";
  fencing_token = 1;
  created_at = 5;
}

-- The events that were appended, and the number of executions.
abbrev World : Type 0
World = List Event × ℕ

abbrev world_store : EventStore World
world_store = record {
  load_events = λ id m. ok m.0;
  rebuild_run = λ id m. ok pending;
  append_event = λ n e m. ((m.0 ++ e ∷ [], m.1), ok (record { event = e; appended = true }));
  is_managed_run = none;
}

abbrev world_manager : LeaseManager World
world_manager = record {
  validate_lease = λ presented m. ok tt;
  lookup = λ id action m. ok provisioned;
  record_of = λ presented receipt m. (m, ok (record { receipt = receipt; recorded = true }));
}

abbrev counted : ActionRequest → World → World × Result ExecutionError ActionReceipt
counted request m = ((m.0, m.1 + 1), ok provisioned)

abbrev world_options : ManagedOptions World
world_options = record {
  executor = some counted;
  artifacts = none;
  fault = none;
  safety = λ c. IdempotencyScope.scoped;
}

abbrev pub describe : EvidenceError → String
describe e = "error"

abbrev recovered : World × Result ControllerError ReconcileResult
recovered =
    reconcile_leased zero_sha lib.marshal any_digest describe world_store world_manager
      world_options "run-1" first ([], 0)

-- The result of the recovery.
abbrev outcome : ReconcileResult
outcome = record {
  command = record {
    kind = CommandType.provision_workspace;
    run_id = "run-1";
    action_id = "a";
    attempt_id = "attempt-1";
  };
  events = [];
  state = pending;
}

abbrev completion : Event
completion = stamped "run-1" first (action_completed_event provisioned)

-- The recovery appends the completion.
recovered_appends : recovered.0.0 ≡ completion ∷ []
unfolding reconcile_leased reconcile_state recover_pending_action after_lookup conclude_action
    managed_append retry_managed count_append inject finish get_run append_once
    validate_receipt_evidence validate_managed_receipt_evidence validate_managed_action_output
    digest_event_data validate_action_completion apply_action_completed
    apply_completed_action_result action_completed_event stamped concat hex EventType-discrete
    String_discrete
recovered_appends = refl

reconcile_leased_reports_example : outcome.events ≡ []
unfolding reconcile_leased reconcile_state recover_pending_action after_lookup conclude_action
    managed_append retry_managed count_append inject finish get_run append_once
    validate_receipt_evidence validate_managed_receipt_evidence validate_managed_action_output
    digest_event_data validate_action_completion apply_action_completed
    apply_completed_action_result action_completed_event concat hex EventType-discrete
    String_discrete
reconcile_leased_reports_example =
    reconcile_leased_reports zero_sha lib.marshal any_digest describe world_store world_manager
      world_options "run-1" first ([], 0) pending outcome refl refl refl

abbrev chosen :
    Option (ActionRequest → World → World × Result ExecutionError ActionReceipt)
    → ActionRequest
    → World
    → World × Result ExecutionError ActionReceipt
chosen none = counted
chosen (some execute) = execute

reconcile_leased_unreported_example : recovered ≡ ((completion ∷ [], 0), ok outcome)
unfolding validate_receipt_evidence validate_managed_receipt_evidence validate_managed_action_output
    digest_event_data concat hex EventType-discrete String_discrete validate_action_completion
    apply_action_completed action_completed_event apply_completed_action_result
reconcile_leased_unreported_example =
    reconcile_leased_unreported zero_sha lib.marshal any_digest describe world_store world_manager
      world_options "run-1" first ([], 0) pending pending provisioned (completion ∷ [], 0)
      (record { event = completion; appended = true }) refl refl refl refl counted refl refl refl
      refl refl refl refl refl

reconcile_leased_once_example : recovered.0.1 ≤ 0 + 1
reconcile_leased_once_example =
    reconcile_leased_once zero_sha lib.marshal any_digest describe world_store world_manager
      world_options "run-1" first (λ m. m.1) (λ n e m. refl) (λ receipt m. refl) (λ fault at. cc at)
      (λ execute at request m.
        subst
          (λ (x : ActionRequest → World → World × Result ExecutionError ActionReceipt).
            (x request m).0.1 ≡ m.1 + 1)
          (ap chosen at) refl)
      ([], 0)

-- The tables as the state of a controller, at the time 22.
abbrev pub at_22 : HasTables Database
at_22 = record { tables = λ m. m; clock = λ m. 22; with_tables = λ m db. db }

abbrev pub table_store : EventStore Database
table_store = record {
  load_events = λ id m. ok (m.log id);
  rebuild_run = λ id m. ok pending;
  append_event = λ n e m. (m, ok (record { event = e; appended = true }));
  is_managed_run = none;
}

abbrev pub table_options : ManagedOptions Database
table_options = record {
  executor = some (λ request m. (m, ok provisioned));
  artifacts = none;
  fault = none;
  safety = λ c. IdempotencyScope.scoped;
}

reconcile_leased_stale_example :
    (e : ControllerError) × (reconcile_leased zero_sha lib.marshal any_digest describe table_store
        (postgres_manager zero_sha lib any_digest insensitive at_22)
        table_options
        "run-1"
        first
        taken_over
      ≡ (taken_over, err e))
unfolding validate validate_presented_lease validate_lease_in_tx
reconcile_leased_stale_example =
    reconcile_leased_stale zero_sha lib any_digest insensitive at_22 describe table_store
      table_options "run-1" tables taken_over 3 21 first second taken_over take_over start refl refl
      refl (λ e. cc e)
