-- ===== src/Controller/Managed/Reported.antt =====
-- The events that the leased path reports (internal/controller/managed.go).
use agent_dock_coedx5_6sol.Prelude.{
  String, string_eq, Bool, true, false, ◌≡◌, refl, sym, subst, ok-injective, if_true, ◌==◌, ◌!=◌,
  ◌||◌, List, [], Option, none, some, Result, ok, err, if◌then◌else◌,
}
use agent_dock_coedx5_6sol.Domain.Types.{
  DesiredState, Status, IdempotencyScope, ActionOutcome, State, Event, EventData, Command,
  desired_eq, status_eq, command_type_eq, event_type_eq, scope_eq,
}
use agent_dock_coedx5_6sol.Domain.Decide.{Sha256}
use agent_dock_coedx5_6sol.Store.Errors.{StoreError}
use agent_dock_coedx5_6sol.Lease.Types.{Lease, ActionReceipt, LeaseError}
use agent_dock_coedx5_6sol.Controller.Exec.{
  ControllerError, EventStore, Exec, return, lift, proceed, ◌>>=◌, ◌>>◌, refuse,
}
use agent_dock_coedx5_6sol.Controller.Requests.{get_run}
use agent_dock_coedx5_6sol.Controller.Reconcile.{ReconcileResult, Progress}
use agent_dock_coedx5_6sol.Controller.Managed.Types.{
  FaultPoint, ExecutionError, LeaseManager, Executor, ManagedOptions, action_completed_event,
  action_failed_event,
}
use agent_dock_coedx5_6sol.Controller.Managed.Evidence.{EvidenceError, validate_receipt_evidence}
use agent_dock_coedx5_6sol.Controller.Managed.Run.{
  lift_lease, inject, managed_append, finish, fail_action, conclude_action, check_receipt,
  record_managed, after_execution, execute_managed_action, receipt_of_action, pending_command,
  after_lookup, recover_pending_action, reconcile_state, reconcile_with, reconcile_leased,
}

-- A result, if there is one, reports these events.
abbrev pub Reports : List Event → Result ControllerError ReconcileResult → Type 0
Reports events (ok result) = result.events ≡ events
Reports events (err e) = Unit {0}

module _ {S : Type 0} (events : List Event) where
  abbrev pub Gives : Exec S ReconcileResult → Type 0
  Gives x = (m : S) → Reports events (x m).1

  proceed-Gives :
      {B : Type 0} (m : S) (r : Result ControllerError B) (f : B → Exec S ReconcileResult)
      → ((b : B) → Gives (f b))
      → Reports events (proceed m r f).1
  proceed-Gives m (ok b) f h = h b m
  proceed-Gives m (err e) f h = tt

  bind-Gives :
      {B : Type 0} (x : Exec S B) (f : B → Exec S ReconcileResult)
      → ((b : B) → Gives (f b))
      → Gives (x >>= f)
  bind-Gives x f h m = proceed-Gives (x m).0 (x m).1 f h

  if-Gives :
      (b : Bool) (x y : Exec S ReconcileResult) → Gives x → Gives y → Gives (if b then x else y)
  if-Gives true x y hx hy = hx
  if-Gives false x y hx hy = hy

  -- A test, a call of the lease manager and a projection that lead to such a result.
  refuse-Reports :
      (b : Bool) (x : ControllerError) (rest : Exec S ReconcileResult) (m : S)
      → Reports events (rest m).1
      → Reports events ((refuse b x >> rest) m).1
  refuse-Reports true x rest m h = tt
  refuse-Reports false x rest m h = h

  lease-Reports :
      (r : Result LeaseError (Unit {0})) (rest : Exec S ReconcileResult) (m : S)
      → Reports events (rest m).1
      → Reports events ((lift_lease r >> rest) m).1
  lease-Reports (ok u) rest m h = h
  lease-Reports (err e) rest m h = tt

  lift-Reports :
      (r : Result StoreError State) (f : State → Exec S ReconcileResult) (m : S) (s : State)
      → r ≡ ok s
      → Reports events (f s m).1
      → Reports events (proceed (lift r m).0 (lift r m).1 f).1
  lift-Reports (ok t) f m s at h = subst (λ x. Reports events (f x m).1) (sym (ok-injective at)) h
  lift-Reports (err e) f m s at h = cc

module _ {S : Type 0} (sha : Sha256) (marshal : EventData → Option String)
    (is_digest : String → Bool) (describe : EvidenceError → String) (store : EventStore S)
    (manager : LeaseManager S) (options : ManagedOptions S) (run_id : String)
    (presented : Lease) where
  finish-Gives :
      (s : State) (c : Command) (events : List Event)
      → Gives events
          (finish sha marshal is_digest describe store manager options run_id presented s c events)
  unfolding finish
  finish-Gives s c events = bind-Gives events (get_run store s.run.id) _ (λ final m. refl)

  fail-Gives :
      (s : State) (c : Command) (reason : String) (outcome : ActionOutcome) (events : List Event)
      (w : Progress)
      → Gives events (
          fail_action sha marshal is_digest describe store manager options run_id presented s c
            reason outcome events w)
  unfolding fail_action
  fail-Gives s c reason outcome events w =
      bind-Gives events
        (managed_append sha marshal is_digest describe store manager options run_id presented
          (action_failed_event c reason outcome) w)
        _ (λ v. finish-Gives s c events)

  conclude-Gives :
      (executed : Bool) (s : State) (c : Command) (receipt : ActionReceipt) (events : List Event)
      (w : Progress) (r : Result EvidenceError (Unit {0}))
      → Gives events (
          conclude_action sha marshal is_digest describe store manager options run_id presented
            executed s c receipt events w r)
  unfolding conclude_action
  conclude-Gives executed s c receipt events w (err e) = fail-Gives s c _ _ events w
  conclude-Gives executed s c receipt events w (ok u) =
      bind-Gives events
        (managed_append sha marshal is_digest describe store manager options run_id presented
          (action_completed_event receipt) w)
        _
        (λ v.
          bind-Gives events
            (if executed
              then inject sha marshal is_digest describe store manager options run_id presented
                  FaultPoint.after_action_completed c
              else return tt)
            _ (λ x. finish-Gives s c events))

  check-Gives :
      (executed : Bool) (s : State) (c : Command) (receipt : ActionReceipt) (events : List Event)
      (w : Progress)
      → Gives events (
          check_receipt sha marshal is_digest describe store manager options run_id presented
            executed s c receipt events w)
  check-Gives executed s c receipt events w m =
      conclude-Gives executed s c receipt events w
        (validate_receipt_evidence sha marshal is_digest options.artifacts s receipt m) m

  execution-Gives :
      (s : State) (c : Command) (events : List Event) (w : Progress)
      (r : Result ExecutionError ActionReceipt)
      → Gives events (
          after_execution sha marshal is_digest describe store manager options run_id presented s c
            events w r)
  unfolding after_execution
  execution-Gives s c events w (err ExecutionError.panics) = λ m. tt
  execution-Gives s c events w (err (ExecutionError.failed text)) =
      fail-Gives s c text ActionOutcome.failed events w
  execution-Gives s c events w (ok receipt) =
      bind-Gives events
        (inject sha marshal is_digest describe store manager options run_id presented
          FaultPoint.after_action_execution c)
        _
        (λ u.
          bind-Gives events
            (record_managed sha marshal is_digest describe store manager options run_id presented (
              receipt_of_action sha marshal is_digest describe store manager options run_id
                presented s c receipt))
            _
            (λ recorded.
              bind-Gives events
                (inject sha marshal is_digest describe store manager options run_id presented
                  FaultPoint.after_receipt_persisted c)
                _ (λ v. check-Gives true s c recorded.receipt events w)))

  execute-Gives :
      (execute : Executor S) (s : State) (c : Command) (events : List Event) (w : Progress)
      → Gives events (
          execute_managed_action sha marshal is_digest describe store manager options run_id
            presented execute s c events w)
  unfolding execute_managed_action
  execute-Gives execute s c events w m =
      let call = execute (record { state = s; command = c; scope = s.pending_action_scope }) m in
      execution-Gives s c events w call.1 call.0

  lookup-Gives :
      (execute : Executor S) (s : State) (events : List Event) (w : Progress)
      (r : Result LeaseError ActionReceipt)
      → Gives events (
          after_lookup sha marshal is_digest describe store manager options run_id presented execute
            s events w r)
  unfolding after_lookup
  lookup-Gives execute s events w (ok receipt) =
      check-Gives false s
        (pending_command sha marshal is_digest describe store manager options run_id presented s)
        receipt events w
  lookup-Gives execute s events w (err LeaseError.receipt_not_found) =
      if-Gives events (s.pending_action_scope != IdempotencyScope.scoped) _ _
        (fail-Gives s
          (pending_command sha marshal is_digest describe store manager options run_id presented s)
          "action outcome is ambiguous and no durable receipt proves completion"
          ActionOutcome.ambiguous events w)
        (execute-Gives execute s
          (pending_command sha marshal is_digest describe store manager options run_id presented s)
          events w)
  lookup-Gives execute s events w (err _) = λ m. tt

  recover-Gives :
      (execute : Executor S) (s : State) (events : List Event) (w : Progress)
      → Gives events (
          recover_pending_action sha marshal is_digest describe store manager options run_id
            presented execute s events w)
  unfolding recover_pending_action
  recover-Gives execute s events w =
      if-Gives events
        (s.run.desired_state == DesiredState.paused || s.run.observed_state == Status.paused) _ _
        (λ m. refl)
        (if-Gives events (s.run.desired_state == DesiredState.cancelled) _ _
          (fail-Gives s
            (pending_command sha marshal is_digest describe store manager options run_id presented
              s)
            "cancel intent superseded the pending action" ActionOutcome.failed events w)
          (λ m. lookup-Gives execute s events w (manager.lookup s.run.id s.pending_action_id m) m))

  with-Reports :
      (o : Option (Executor S)) (m : S) (s : State)
      → store.rebuild_run run_id m ≡ ok s
      → (s.pending_action_id != "") ≡ true
      → Reports []
          (reconcile_with sha marshal is_digest describe store manager options run_id presented o
            m).1
  unfolding reconcile_state get_run
  with-Reports none m s at pending = tt
  with-Reports (some execute) m s at pending =
      refuse-Reports [] (presented.run_id != run_id) ControllerError.invalid_request _ m (
        lease-Reports [] (manager.validate_lease presented m) _ m (
          lift-Reports [] (store.rebuild_run run_id m) _ m s at (
            subst (λ (x : Exec S ReconcileResult). Reports [] (x m).1)
              (sym (if_true (s.pending_action_id != "") _ _ pending))
              (recover-Gives execute s []
                (record { expected_version = s.run.version; written = [] }) m))))

  -- A recovery reports no event: for a run with a pending action the events of every result of
  -- ReconcileLeased are empty, whatever the executor, the manager and the store do.
  pub reconcile_leased_reports :
      (m : S) (s : State) (result : ReconcileResult)
      → store.rebuild_run run_id m ≡ ok s
      → (s.pending_action_id != "") ≡ true
      → (reconcile_leased sha marshal is_digest describe store manager options run_id presented m).1
        ≡ ok result
      → result.events ≡ []
  unfolding reconcile_leased
  reconcile_leased_reports m s result at pending p =
      subst (Reports []) p (with-Reports options.executor m s at pending)
