-- ===== src/Controller/Managed/Unreported.antt =====
-- A recovery that appends a completion (internal/controller/managed.go).
use agent_dock_coedx5_6sol.Prelude.{
  String, string_eq, Bool, true, false, ◌≡◌, refl, ◌∙◌, ap, ◌==◌, ◌!=◌, ◌||◌, [], Option, some,
  Result, ok,
}
use agent_dock_coedx5_6sol.Domain.Types.{
  DesiredState, Status, State, EventData, desired_eq, status_eq, command_type_eq, event_type_eq,
  scope_eq,
}
use agent_dock_coedx5_6sol.Domain.Decide.{Sha256}
use agent_dock_coedx5_6sol.Store.Errors.{AppendResult}
use agent_dock_coedx5_6sol.Lease.Types.{Lease, ActionReceipt}
use agent_dock_coedx5_6sol.Controller.Exec.{ControllerError, EventStore}
use agent_dock_coedx5_6sol.Controller.Requests.{get_run}
use agent_dock_coedx5_6sol.Controller.Reconcile.{ReconcileResult, count_append}
use agent_dock_coedx5_6sol.Controller.Managed.Types.{
  LeaseManager, Executor, ManagedOptions, action_completed_event, stamped,
}
use agent_dock_coedx5_6sol.Controller.Managed.Evidence.{EvidenceError, validate_receipt_evidence}
use agent_dock_coedx5_6sol.Controller.Managed.Run.{
  retry_managed, managed_append, finish, conclude_action, after_lookup, recover_pending_action,
  pending_command, reconcile_state, reconcile_with, reconcile_leased,
}

module _ {S : Type 0} (sha : Sha256) (marshal : EventData → Option String)
    (is_digest : String → Bool) (describe : EvidenceError → String) (store : EventStore S)
    (manager : LeaseManager S) (options : ManagedOptions S) (run_id : String) (presented : Lease)
    (m : S) (s final : State) (receipt : ActionReceipt) (n : S) (written : AppendResult)
    (rebuilt : store.rebuild_run run_id m ≡ ok s)
    (appends : store.append_event s.run.version
        (stamped run_id presented (action_completed_event receipt))
        m
      ≡ (n, ok written))
    (new : written.appended ≡ true) (after : store.rebuild_run s.run.id n ≡ ok final) where
  abbrev unreported : S × Result ControllerError ReconcileResult
  unreported = (
    n,
    ok (record {
      command =
          pending_command sha marshal is_digest describe store manager options run_id presented s;
      events = [];
      state = final;
    }),
  )

  concluded :
      conclude_action sha marshal is_digest describe store manager options run_id presented false s
        (pending_command sha marshal is_digest describe store manager options run_id presented s)
        receipt
        []
        (record { expected_version = s.run.version; written = [] })
        (ok tt)
        m
      ≡ unreported
  unfolding conclude_action managed_append retry_managed count_append finish get_run
  concluded = rw appends (rw new (rw after refl))

  module _ (execute : Executor S) (at : options.executor ≡ some execute)
      (own : (presented.run_id != run_id) ≡ false)
      (valid : manager.validate_lease presented m ≡ ok tt)
      (pending : (s.pending_action_id != "") ≡ true)
      (active : (s.run.desired_state == DesiredState.paused
          || s.run.observed_state == Status.paused)
        ≡ false)
      (wanted : (s.run.desired_state == DesiredState.cancelled) ≡ false)
      (found : manager.lookup s.run.id s.pending_action_id m ≡ ok receipt)
      (evidence : validate_receipt_evidence sha marshal is_digest options.artifacts s receipt m
        ≡ ok tt) where
    recovered :
        recover_pending_action sha marshal is_digest describe store manager options run_id presented
          execute s []
          (record { expected_version = s.run.version; written = [] })
          m
        ≡ unreported
    unfolding recover_pending_action after_lookup
    recovered = rw active (rw wanted (rw found (rw evidence concluded)))

    with_recovered :
        reconcile_with sha marshal is_digest describe store manager options run_id presented
          (some execute)
          m
        ≡ unreported
    unfolding reconcile_state get_run
    with_recovered = rw own (rw valid (rw rebuilt (rw pending recovered)))

    -- A recovery does not report the completion that it appends: if the lease is valid, the run has a
    -- pending action and is neither paused nor to be cancelled, the action's receipt is found and its
    -- evidence valid, and the store appends the completion at the version of the projection,
    -- ReconcileLeased executes nothing and succeeds in the state after that append, with the pending
    -- command and the projection after the append, and with no event in its result.
    pub reconcile_leased_unreported :
        reconcile_leased sha marshal is_digest describe store manager options run_id presented m ≡ (
          n,
          ok (record {
            command =
                pending_command sha marshal is_digest describe store manager options run_id
                  presented s;
            events = [];
            state = final;
          }),
        )
    unfolding reconcile_leased
    reconcile_leased_unreported =
        ap
          (λ o.
            reconcile_with sha marshal is_digest describe store manager options run_id presented o
              m)
          at
        ∙ with_recovered
