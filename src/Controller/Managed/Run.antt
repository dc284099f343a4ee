-- ===== src/Controller/Managed/Run.antt =====
-- internal/controller/managed.go: ReconcileLeased, managedAppender, recoverPendingAction and
-- executeManagedAction. Their `result` goes by value, while appendEvent writes to the one of
-- ReconcileLeased: `events` is what the copy holds, and the Progress what the original does. `describe`
-- is the text of an error of the evidence.
use agent_dock_coedx5_6sol.Prelude.{
  String, string_eq, Bool, true, false, not, ◌==◌, ◌!=◌, ◌||◌, List, [], ◌∷◌, Option, none, some,
  Result, ok, err, concat, if◌then◌else◌,
}
use agent_dock_coedx5_6sol.Domain.Types.{
  DesiredState, Status, CommandType, EventType, IdempotencyScope, ActionOutcome, State, Event,
  EventData, Command, noop_command, desired_eq, status_eq, command_type_eq, event_type_eq, scope_eq,
  scope_valid,
}
use agent_dock_coedx5_6sol.Domain.Decide.{Sha256, decide}
use agent_dock_coedx5_6sol.Store.Errors.{StoreError, AppendResult}
use agent_dock_coedx5_6sol.Lease.Types.{Lease, ActionReceipt, ReceiptResult, LeaseError}
use agent_dock_coedx5_6sol.Controller.Exec.{
  ControllerError, EventStore, Exec, return, fail, ◌>>=◌, ◌>>◌, refuse,
}
use agent_dock_coedx5_6sol.Controller.Requests.{is_version_conflict, get_run, append_once}
use agent_dock_coedx5_6sol.Controller.Reconcile.{ReconcileResult, Progress, count_append}
use agent_dock_coedx5_6sol.Controller.Managed.Types.{
  FaultPoint, ExecutionError, LeaseManager, Executor, ManagedOptions, action_completed_event,
  action_failed_event, action_planned_event, stamped,
}
use agent_dock_coedx5_6sol.Controller.Managed.Evidence.{EvidenceError, validate_receipt_evidence}

-- An error of the lease manager.
abbrev pub lift_lease : {S A : Type 0} → Result LeaseError A → Exec S A
lift_lease (ok a) m = (m, ok a)
lift_lease (err e) m = (m, err (ControllerError.lease e))

-- What a fault hook returned.
abbrev pub lift_fault : {S : Type 0} → S × Option String → S × Result ControllerError (Unit {0})
lift_fault (m, none) = (m, ok tt)
lift_fault (m, some text) = (m, err (ControllerError.fault text))

module _ {S : Type 0} (sha : Sha256) (marshal : EventData → Option String)
    (is_digest : String → Bool) (describe : EvidenceError → String) (store : EventStore S)
    (manager : LeaseManager S) (options : ManagedOptions S) (run_id : String)
    (presented : Lease) where
  -- inject
  abbrev pub hook :
      Option (FaultPoint → Command → S → S × Option String)
      → FaultPoint
      → Command
      → Exec S (Unit {0})
  hook none point c m = (m, ok tt)
  hook (some fault) point c m = lift_fault (fault point c m)

  unfoldable pub inject : FaultPoint → Command → Exec S (Unit {0})
  inject point c = hook options.fault point c

  -- The rest of managedAppender after its first append.
  unfoldable pub retry_managed : Event → Progress → Result StoreError AppendResult → Exec S Progress
  retry_managed e w (ok result) = count_append store run_id w result
  retry_managed e w (err x) =
      if is_version_conflict x
      then (if e.kind == EventType.action_planned then fail (ControllerError.store x) else (do
        current ← get_run store run_id
        result ← append_once store current.run.version e
        count_append store run_id (record w { expected_version = current.run.version }) result))
      else fail (ControllerError.store x)

  -- managedAppender
  unfoldable pub managed_append : Event → Progress → Exec S Progress
  managed_append e w m =
      let call = store.append_event w.expected_version (stamped run_id presented e) m in
      retry_managed (stamped run_id presented e) w call.1 call.0

  -- The end of each branch: the projection after the last append.
  unfoldable pub finish : State → Command → List Event → Exec S ReconcileResult
  finish s c events = do
    final ← get_run store s.run.id
    return (record { command = c; events = events; state = final })

  unfoldable pub fail_action :
      State → Command → String → ActionOutcome → List Event → Progress → Exec S ReconcileResult
  fail_action s c reason outcome events w = do
    after ← managed_append (action_failed_event c reason outcome) w
    finish s c events

  -- What follows the check of a receipt's evidence; a fault can come between the completion and the end
  -- where the action was executed.
  unfoldable pub conclude_action :
      Bool
      → State
      → Command
      → ActionReceipt
      → List Event
      → Progress
      → Result EvidenceError (Unit {0})
      → Exec S ReconcileResult
  conclude_action executed s c receipt events w (err e) =
      fail_action s c
        (concat ("durable action receipt evidence cannot be verified: " ∷ describe e ∷ []))
        ActionOutcome.ambiguous events w
  conclude_action executed s c receipt events w (ok u) = do
    after ← managed_append (action_completed_event receipt) w
    if executed then inject FaultPoint.after_action_completed c else return tt
    finish s c events

  abbrev pub check_receipt :
      Bool → State → Command → ActionReceipt → List Event → Progress → Exec S ReconcileResult
  check_receipt executed s c receipt events w m =
      conclude_action executed s c receipt events w
        (validate_receipt_evidence sha marshal is_digest options.artifacts s receipt m) m

  -- The receipt that executeManagedAction records.
  abbrev pub receipt_of_action : State → Command → ActionReceipt → ActionReceipt
  receipt_of_action s c receipt = record receipt {
    run_id = s.run.id;
    action_id = c.action_id;
    action_type = c.kind;
    idempotency_scope = s.pending_action_scope;
  }

  unfoldable pub record_managed : ActionReceipt → Exec S ReceiptResult
  record_managed receipt m =
      let call = manager.record_of presented receipt m in lift_lease call.1 call.0

  -- The rest of executeManagedAction after Execute.
  unfoldable pub after_execution :
      State
      → Command
      → List Event
      → Progress
      → Result ExecutionError ActionReceipt
      → Exec S ReconcileResult
  after_execution s c events w (err ExecutionError.panics) = fail ControllerError.panicked
  after_execution s c events w (err (ExecutionError.failed text)) =
      fail_action s c text ActionOutcome.failed events w
  after_execution s c events w (ok receipt) = do
    inject FaultPoint.after_action_execution c
    recorded ← record_managed (receipt_of_action s c receipt)
    inject FaultPoint.after_receipt_persisted c
    check_receipt true s c recorded.receipt events w

  -- executeManagedAction
  unfoldable pub execute_managed_action :
      Executor S → State → Command → List Event → Progress → Exec S ReconcileResult
  execute_managed_action execute s c events w m =
      let call = execute (record { state = s; command = c; scope = s.pending_action_scope }) m in
      after_execution s c events w call.1 call.0

  abbrev pub pending_command : State → Command
  pending_command s = record {
    kind = s.pending_action_type;
    run_id = s.run.id;
    action_id = s.pending_action_id;
    attempt_id = s.pending_attempt_id;
  }

  -- The rest of recoverPendingAction after LookupReceipt.
  unfoldable pub after_lookup :
      Executor S
      → State
      → List Event
      → Progress
      → Result LeaseError ActionReceipt
      → Exec S ReconcileResult
  after_lookup execute s events w (ok receipt) =
      check_receipt false s (pending_command s) receipt events w
  after_lookup execute s events w (err LeaseError.receipt_not_found) =
      if s.pending_action_scope != IdempotencyScope.scoped
      then fail_action s (pending_command s)
          "action outcome is ambiguous and no durable receipt proves completion"
          ActionOutcome.ambiguous events w
      else execute_managed_action execute s (pending_command s) events w
  after_lookup execute s events w (err e) = fail (ControllerError.lease e)

  -- recoverPendingAction
  unfoldable pub recover_pending_action :
      Executor S → State → List Event → Progress → Exec S ReconcileResult
  recover_pending_action execute s events w =
      if s.run.desired_state == DesiredState.paused || s.run.observed_state == Status.paused
      then return (record { command = noop_command; events = events; state = s })
      else (if s.run.desired_state == DesiredState.cancelled
          then fail_action s (pending_command s) "cancel intent superseded the pending action"
              ActionOutcome.failed events w
          else λ m.
              after_lookup execute s events w (manager.lookup s.run.id s.pending_action_id m) m)

  -- The rest of ReconcileLeased after the append of the plan.
  unfoldable pub after_plan :
      Executor S → Command → Result ControllerError Progress → Exec S ReconcileResult
  after_plan execute c (ok w) = do
    inject FaultPoint.after_action_planned c
    planned ← get_run store run_id
    execute_managed_action execute planned c w.written w
  after_plan execute c (err (ControllerError.store x)) =
      if is_version_conflict x
      then (do
        current ← get_run store run_id
        return (record { command = noop_command; events = []; state = current }))
      else fail (ControllerError.store x)
  after_plan execute c (err e) = fail e

  -- The branch of ReconcileLeased for a run with no action pending.
  unfoldable pub plan_and_execute : Executor S → State → Command → Progress → Exec S ReconcileResult
  plan_and_execute execute s c w = do
    inject FaultPoint.before_action_planned c
    refuse (not (scope_valid (options.safety c))) ControllerError.invalid_request
    λ m.
        let call = managed_append (action_planned_event c (options.safety c)) w m in
        after_plan execute c call.1 call.0

  unfoldable pub reconcile_state : Executor S → State → Progress → Exec S ReconcileResult
  reconcile_state execute s w =
      if s.pending_action_id != ""
      then recover_pending_action execute s [] w
      else (if (decide sha s).kind == CommandType.noop
          then return (record { command = decide sha s; events = []; state = s })
          else plan_and_execute execute s (decide sha s) w)

  -- ReconcileLeased of a controller that has a lease manager
  abbrev pub reconcile_with : Option (Executor S) → Exec S ReconcileResult
  reconcile_with none = fail ControllerError.invalid_request
  reconcile_with (some execute) = do
    refuse (presented.run_id != run_id) ControllerError.invalid_request
    λ m. lift_lease (manager.validate_lease presented m) m
    s ← get_run store run_id
    reconcile_state execute s (record { expected_version = s.run.version; written = [] })

  unfoldable pub reconcile_leased : Exec S ReconcileResult
  reconcile_leased = reconcile_with options.executor
