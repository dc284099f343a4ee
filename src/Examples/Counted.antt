-- ===== src/Examples/Counted.antt =====
-- The stages of the leased path at one run whose executions and records are counted
-- (internal/controller/managed.go).
use agent_dock_coedx5_6sol.Prelude.{
  ℕ, ◌≡◌, ◌≤◌, ◌+◌, refl, true, ok, err, Option, none, some, [], concat, hex, string_eq,
  String_discrete, ap, subst, arith,
}
use agent_dock_coedx5_6sol.Domain.Types.{IdempotencyScope, EventType-discrete}
use agent_dock_coedx5_6sol.Domain.Managed.{
  validate_action_completion, apply_action_completed, apply_completed_action_result,
}
use agent_dock_coedx5_6sol.Domain.Receipt.{
  validate_managed_action_output, digest_event_data, validate_managed_receipt_evidence,
}
use agent_dock_coedx5_6sol.Lease.Types.{LeaseError}
use agent_dock_coedx5_6sol.Controller.Exec.{EventStore}
use agent_dock_coedx5_6sol.Controller.Requests.{get_run, append_once}
use agent_dock_coedx5_6sol.Controller.Reconcile.{count_append}
use agent_dock_coedx5_6sol.Controller.Managed.Types.{
  Executor, LeaseManager, ManagedOptions, action_completed_event, stamped,
}
use agent_dock_coedx5_6sol.Controller.Managed.Evidence.{validate_receipt_evidence}
use agent_dock_coedx5_6sol.Controller.Managed.Run.{
  inject, execute_managed_action, after_execution, record_managed, retry_managed, managed_append,
  finish, conclude_action, after_lookup, recover_pending_action, reconcile_state, reconcile_leased,
}
use agent_dock_coedx5_6sol.Controller.Managed.Once.{Stages, reconcile_leased_stages}
use agent_dock_coedx5_6sol.Examples.Fixtures.{zero_sha}
use agent_dock_coedx5_6sol.Examples.Leases.{first, lib, any_digest}
use agent_dock_coedx5_6sol.Examples.Leased.{pending, provisioned, describe}

-- The numbers of the executions and of the records of a run without a receipt.
abbrev Counts : Type 0
Counts = ℕ × ℕ

abbrev count_store : EventStore Counts
count_store = record {
  load_events = λ id m. ok [];
  rebuild_run = λ id m. ok pending;
  append_event = λ n e m. (m, ok (record { event = e; appended = true }));
  is_managed_run = none;
}

abbrev count_manager : LeaseManager Counts
count_manager = record {
  validate_lease = λ presented m. ok tt;
  lookup = λ id action m. err LeaseError.receipt_not_found;
  record_of =
      λ presented receipt m. ((m.0, m.1 + 1), ok (record { receipt = receipt; recorded = true }));
}

abbrev count_execution : Executor Counts
count_execution request m = ((m.0 + 1, m.1), ok provisioned)

abbrev count_options : ManagedOptions Counts
count_options = record {
  executor = some count_execution;
  artifacts = none;
  fault = none;
  safety = λ c. IdempotencyScope.scoped;
}

abbrev executor_of : Option (Executor Counts) → Executor Counts
executor_of none = count_execution
executor_of (some execute) = execute

-- The one execution comes before the one record.
stages :
    Stages zero_sha lib.marshal any_digest describe count_store count_manager count_options "run-1"
      first
      (λ m. (m.0 ≡ 0) × (m.1 ≡ 0))
      (λ request r m. (m.0 ≡ 1) × (m.1 ≡ 0))
      (λ m. (m.1 ≤ m.0) × (m.0 ≤ 1))
stages = record {
  weaken_before = λ m h. (omega (arith, h.0, h.1), omega (arith, h.0));
  weaken_between = λ request r m h. (omega (arith, h.0, h.1), omega (arith, h.0));
  append_before = λ n e m may h. h;
  append_after = λ n e m may h. h;
  fault_before = λ fault at. cc at;
  fault_between = λ fault at. cc at;
  fault_after = λ fault at. cc at;
  executes = λ execute at request m h.
      subst (λ (x : Executor Counts). ((x request m).0.0 ≡ 1) × ((x request m).0.1 ≡ 0))
        (ap executor_of at) (omega (arith, h.0), h.1);
  records = λ request receipt m h. (omega (arith, h.0, h.1), omega (arith, h.0));
}

abbrev counts : Counts
counts =
    (reconcile_leased zero_sha lib.marshal any_digest describe count_store count_manager
      count_options "run-1" first (0, 0)).0

-- The run executes and records.
counts_once : counts ≡ (1, 1)
unfolding reconcile_leased reconcile_state recover_pending_action after_lookup
    execute_managed_action after_execution record_managed conclude_action managed_append
    retry_managed count_append inject finish get_run append_once validate_receipt_evidence
    validate_managed_receipt_evidence validate_managed_action_output digest_event_data concat hex
    EventType-discrete String_discrete action_completed_event stamped validate_action_completion
    apply_action_completed apply_completed_action_result
counts_once = refl

reconcile_leased_stages_example : (counts.1 ≤ counts.0) × (counts.0 ≤ 1)
reconcile_leased_stages_example =
    reconcile_leased_stages zero_sha lib.marshal any_digest describe count_store count_manager
      count_options "run-1" first (λ m. (m.0 ≡ 0) × (m.1 ≡ 0))
      (λ request r m. (m.0 ≡ 1) × (m.1 ≡ 0)) (λ m. (m.1 ≤ m.0) × (m.0 ≤ 1)) stages (0, 0)
      (refl, refl)
