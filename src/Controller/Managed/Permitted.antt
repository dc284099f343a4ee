-- ===== src/Controller/Managed/Permitted.antt =====
-- What the leased path may append, and what every such append keeps (internal/controller/managed.go).
use agent_dock_coedx5_6sol.Prelude.{
  ℕ, String, string_eq, Bool, ◌≡◌, refl, ◌⊎◌, inl, inr, ◌==◌, List, Option, none, some, Result, ok,
  err, if◌then◌else◌,
}
use agent_dock_coedx5_6sol.Domain.Types.{
  EventType, IdempotencyScope, ActionOutcome, State, Event, EventData, Command, desired_eq,
  status_eq, command_type_eq, event_type_eq, scope_eq,
}
use agent_dock_coedx5_6sol.Domain.Decide.{Sha256}
use agent_dock_coedx5_6sol.Store.Errors.{StoreError, AppendResult}
use agent_dock_coedx5_6sol.Lease.Types.{Lease, ActionReceipt}
use agent_dock_coedx5_6sol.Controller.Exec.{EventStore, return}
use agent_dock_coedx5_6sol.Controller.Requests.{is_version_conflict, get_run, append_once}
use agent_dock_coedx5_6sol.Controller.Reconcile.{Progress, count_append}
use agent_dock_coedx5_6sol.Controller.Keeps.{Keeps, kept_lift, lift-Keeps, if-Keeps, bind-Keeps}
use agent_dock_coedx5_6sol.Controller.Managed.Types.{
  FaultPoint, LeaseManager, ManagedOptions, action_completed_event, action_failed_event,
  action_planned_event, stamped,
}
use agent_dock_coedx5_6sol.Controller.Managed.Evidence.{EvidenceError, validate_receipt_evidence}
use agent_dock_coedx5_6sol.Controller.Managed.Run.{
  lift_fault, hook, inject, retry_managed, managed_append, finish, fail_action, conclude_action,
  check_receipt,
}

module _ {S : Type 0} (sha : Sha256) (marshal : EventData → Option String)
    (is_digest : String → Bool) (describe : EvidenceError → String) (store : EventStore S)
    (manager : LeaseManager S) (options : ManagedOptions S) (run_id : String)
    (presented : Lease) where
  -- The events that the leased path may append: with the run, the worker and the token of the lease; a
  -- plan, a failure, or the completion of a receipt whose evidence was found valid.
  pub Permitted : Event → Type 0
  Permitted e =
      (f : Event) × (e ≡ stamped run_id presented f)
      × ((f.kind ≡ EventType.action_planned)
          ⊎ ((f.kind ≡ EventType.action_failed)
              ⊎ ((s : State) × (receipt : ActionReceipt) × (m : S) × (validate_receipt_evidence sha
                      marshal is_digest options.artifacts s receipt m
                    ≡ ok tt)
                  × (f ≡ action_completed_event receipt))))

  failed-Permitted :
      (c : Command) (reason : String) (outcome : ActionOutcome)
      → Permitted (stamped run_id presented (action_failed_event c reason outcome))
  unfolding Permitted action_failed_event
  failed-Permitted c reason outcome = (_, refl, inr (inl refl))

  pub planned-Permitted :
      (c : Command) (safety : IdempotencyScope)
      → Permitted (stamped run_id presented (action_planned_event c safety))
  unfolding Permitted action_planned_event
  planned-Permitted c safety = (_, refl, inl refl)

  completed-Permitted :
      (s : State) (receipt : ActionReceipt) (m : S)
      → validate_receipt_evidence sha marshal is_digest options.artifacts s receipt m ≡ ok tt
      → Permitted (stamped run_id presented (action_completed_event receipt))
  unfolding Permitted
  completed-Permitted s receipt m h = (_, refl, inr (inr (s, receipt, m, h, refl)))

  -- What the fault hook keeps.
  module _ (R : S → Type 0)
      (fault_keeps : (fault : FaultPoint → Command → S → S × Option String)
        → options.fault ≡ some fault
        → (point : FaultPoint) (c : Command) (m : S) → R m
        → R (fault point c m).0) where
    fault-Keeps : (r : S × Option String) → R r.0 → R (lift_fault r).0
    fault-Keeps (m, none) h = h
    fault-Keeps (m, some text) h = h

    hook-Keeps :
        (o : Option (FaultPoint → Command → S → S × Option String))
        → options.fault ≡ o
        → (point : FaultPoint) (c : Command)
        → Keeps R
            (hook sha marshal is_digest describe store manager options run_id presented o point c)
    hook-Keeps none p point c m h = h
    hook-Keeps (some fault) p point c m h =
        fault-Keeps (fault point c m) (fault_keeps fault p point c m h)

    pub inject-Keeps :
        (point : FaultPoint) (c : Command)
        → Keeps R
            (inject sha marshal is_digest describe store manager options run_id presented point c)
    unfolding inject
    inject-Keeps point c = hook-Keeps options.fault refl point c

  -- What permitted appends and the fault hook keep.
  module _ (R : S → Type 0)
      (keep : (n : ℕ) (e : Event) (m : S) → Permitted e → R m → R (store.append_event n e m).0)
      (fault_keeps : (fault : FaultPoint → Command → S → S × Option String)
        → options.fault ≡ some fault
        → (point : FaultPoint) (c : Command) (m : S) → R m
        → R (fault point c m).0) where
    pub run-Keeps : (id : String) → Keeps R (get_run store id)
    unfolding get_run
    run-Keeps id = lift-Keeps R (store.rebuild_run id)

    counted-Keeps : (w : Progress) (r : AppendResult) → Keeps R (count_append store run_id w r)
    unfolding count_append
    counted-Keeps w r =
        if-Keeps R r.appended _ _ (λ m h. h)
          (bind-Keeps R (get_run store run_id) _ (run-Keeps run_id) (λ s m h. h))

    again-Keeps : (n : ℕ) (e : Event) → Permitted e → Keeps R (append_once store n e)
    unfolding append_once
    again-Keeps n e may m h = kept_lift R _ (store.append_event n e m).1 (keep n e m may h)

    retry-Keeps :
        (e : Event) (w : Progress) (r : Result StoreError AppendResult)
        → Permitted e
        → Keeps R (
            retry_managed sha marshal is_digest describe store manager options run_id presented e w
              r)
    unfolding retry_managed
    retry-Keeps e w (ok r) may = counted-Keeps w r
    retry-Keeps e w (err x) may =
        if-Keeps R (is_version_conflict x) _ _
          (if-Keeps R (e.kind == EventType.action_planned) _ _ (λ m h. h)
            (bind-Keeps R (get_run store run_id) _ (run-Keeps run_id) (λ s.
              bind-Keeps R (append_once store s.run.version e) _ (again-Keeps s.run.version e may)
                (λ r. counted-Keeps (record w { expected_version = s.run.version }) r))))
          (λ m h. h)

    pub append-Keeps :
        (e : Event) (w : Progress)
        → Permitted (stamped run_id presented e)
        → Keeps R (
            managed_append sha marshal is_digest describe store manager options run_id presented e
              w)
    unfolding managed_append
    append-Keeps e w may m h =
        let call = store.append_event w.expected_version (stamped run_id presented e) m in
        retry-Keeps (stamped run_id presented e) w call.1 may call.0
          (keep w.expected_version (stamped run_id presented e) m may h)

    finish-Keeps :
        (s : State) (c : Command) (events : List Event)
        → Keeps R (
            finish sha marshal is_digest describe store manager options run_id presented s c events)
    unfolding finish
    finish-Keeps s c events =
        bind-Keeps R (get_run store s.run.id) _ (run-Keeps s.run.id) (λ t m h. h)

    pub fail-Keeps :
        (s : State) (c : Command) (reason : String) (outcome : ActionOutcome) (events : List Event)
        (w : Progress)
        → Keeps R (
            fail_action sha marshal is_digest describe store manager options run_id presented s c
              reason outcome events w)
    unfolding fail_action
    fail-Keeps s c reason outcome events w =
        bind-Keeps R
          (managed_append sha marshal is_digest describe store manager options run_id presented
            (action_failed_event c reason outcome) w)
          _
          (append-Keeps (action_failed_event c reason outcome) w
            (failed-Permitted c reason outcome))
          (λ v. finish-Keeps s c events)

    conclude-Keeps :
        (executed : Bool) (s : State) (c : Command) (receipt : ActionReceipt) (events : List Event)
        (w : Progress) (r : Result EvidenceError (Unit {0}))
        → (r ≡ ok tt → Permitted (stamped run_id presented (action_completed_event receipt)))
        → Keeps R (
            conclude_action sha marshal is_digest describe store manager options run_id presented
              executed s c receipt events w r)
    unfolding conclude_action
    conclude-Keeps executed s c receipt events w (err e) may = fail-Keeps s c _ _ events w
    conclude-Keeps executed s c receipt events w (ok u) may =
        bind-Keeps R
          (managed_append sha marshal is_digest describe store manager options run_id presented
            (action_completed_event receipt) w)
          _ (append-Keeps (action_completed_event receipt) w (may refl))
          (λ v.
            bind-Keeps R
              (if executed
                then inject sha marshal is_digest describe store manager options run_id presented
                    FaultPoint.after_action_completed c
                else return tt)
              _
              (if-Keeps R executed _ (return tt)
                (inject-Keeps R fault_keeps FaultPoint.after_action_completed c) (λ m h. h))
              (λ u. finish-Keeps s c events))

    pub check-Keeps :
        (executed : Bool) (s : State) (c : Command) (receipt : ActionReceipt) (events : List Event)
        (w : Progress)
        → Keeps R (
            check_receipt sha marshal is_digest describe store manager options run_id presented
              executed s c receipt events w)
    check-Keeps executed s c receipt events w m h =
        conclude-Keeps executed s c receipt events w
          (validate_receipt_evidence sha marshal is_digest options.artifacts s receipt m)
          (completed-Permitted s receipt m) m h
