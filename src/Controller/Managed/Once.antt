-- ===== src/Controller/Managed/Once.antt =====
-- The leased path as a whole: before its one execution and after it (internal/controller/managed.go).
use agent_dock_coedx5_6sol.Prelude.{
  ℕ, String, string_eq, Bool, true, false, not, ◌≡◌, refl, sym, subst, ◌∙◌, ◌+◌, ◌≤◌, arith, ◌==◌,
  ◌!=◌, ◌||◌, List, [], Option, none, some, Result, ok, err, if◌then◌else◌,
}
use agent_dock_coedx5_6sol.Domain.Types.{
  DesiredState, Status, CommandType, IdempotencyScope, ActionOutcome, State, Event, EventData,
  Command, noop_command, desired_eq, status_eq, command_type_eq, event_type_eq, scope_eq,
  scope_valid,
}
use agent_dock_coedx5_6sol.Domain.Decide.{Sha256, decide}
use agent_dock_coedx5_6sol.Lease.Types.{Lease, ActionReceipt, LeaseError}
use agent_dock_coedx5_6sol.Controller.Exec.{
  ControllerError, EventStore, Exec, return, fail, proceed, ◌>>=◌, refuse,
}
use agent_dock_coedx5_6sol.Controller.Requests.{is_version_conflict, get_run}
use agent_dock_coedx5_6sol.Controller.Reconcile.{Progress}
use agent_dock_coedx5_6sol.Controller.Keeps.{Keeps, refuse-Keeps, bind-Keeps, proceed-Keeps}
use agent_dock_coedx5_6sol.Controller.Managed.Types.{
  FaultPoint, ActionRequest, ExecutionError, LeaseManager, Executor, ManagedOptions,
  action_planned_event,
}
use agent_dock_coedx5_6sol.Controller.Managed.Permitted.{
  Permitted, planned-Permitted, run-Keeps, inject-Keeps, append-Keeps, fail-Keeps, check-Keeps,
}
use agent_dock_coedx5_6sol.Controller.Managed.Evidence.{EvidenceError}
use agent_dock_coedx5_6sol.Controller.Managed.Run.{
  lift_lease, inject, managed_append, fail_action, check_receipt, record_managed, after_execution,
  execute_managed_action, receipt_of_action, pending_command, after_lookup, recover_pending_action,
  after_plan, plan_and_execute, reconcile_state, reconcile_with, reconcile_leased,
}

module _ {S : Type 0} (sha : Sha256) (marshal : EventData → Option String)
    (is_digest : String → Bool) (describe : EvidenceError → String) (store : EventStore S)
    (manager : LeaseManager S) (options : ManagedOptions S) (run_id : String) (presented : Lease)
    (Before : S → Type 0)
    (Between : ActionRequest → Result ExecutionError ActionReceipt → S → Type 0)
    (After : S → Type 0) where
  -- The conditions on three properties of the state: before the execution, between it and the record of
  -- its receipt, and after that. Permitted appends keep the first and the last, and the fault hook keeps
  -- all. An execution leads from the first to the second, for its request and what it returned, and a
  -- record of the returned receipt, as that of the request's action, from the second to the last.
  pub record Stages : Type 0 where
    pub weaken_before : (m : S) → Before m → After m
    pub weaken_between :
        (request : ActionRequest) (r : Result ExecutionError ActionReceipt) (m : S)
        → Between request r m
        → After m
    pub append_before :
        (n : ℕ) (e : Event) (m : S)
        → Permitted sha marshal is_digest describe store manager options run_id presented e
        → Before m
        → Before (store.append_event n e m).0
    pub append_after :
        (n : ℕ) (e : Event) (m : S)
        → Permitted sha marshal is_digest describe store manager options run_id presented e
        → After m
        → After (store.append_event n e m).0
    pub fault_before :
        (fault : FaultPoint → Command → S → S × Option String)
        → options.fault ≡ some fault
        → (point : FaultPoint) (c : Command) (m : S) → Before m
        → Before (fault point c m).0
    pub fault_between :
        (fault : FaultPoint → Command → S → S × Option String)
        → options.fault ≡ some fault
        → (request : ActionRequest) (r : Result ExecutionError ActionReceipt) (point : FaultPoint)
          (c : Command) (m : S)
        → Between request r m
        → Between request r (fault point c m).0
    pub fault_after :
        (fault : FaultPoint → Command → S → S × Option String)
        → options.fault ≡ some fault
        → (point : FaultPoint) (c : Command) (m : S) → After m
        → After (fault point c m).0
    pub executes :
        (execute : Executor S)
        → options.executor ≡ some execute
        → (request : ActionRequest) (m : S) → Before m
        → Between request (execute request m).1 (execute request m).0
    pub records :
        (request : ActionRequest) (receipt : ActionReceipt) (m : S)
        → Between request (ok receipt) m
        → After
            (manager.record_of presented
              (receipt_of_action sha marshal is_digest describe store manager options run_id
                presented request.state request.command receipt)
              m).0

  abbrev pub Leads : {B : Type 0} → Exec S B → Type 0
  Leads x = (m : S) → Before m → After (x m).0

  lift_lease-eq : {B : Type 0} (r : Result LeaseError B) (m : S) → (lift_lease r m).0 ≡ m
  lift_lease-eq (ok a) m = refl
  lift_lease-eq (err e) m = refl

  module _ (stages : Stages) where
    kept-Leads : {B : Type 0} (x : Exec S B) → Keeps Before x → Leads x
    kept-Leads x h m k = stages.weaken_before (x m).0 (h m k)

    proceed-Leads :
        {B C : Type 0} (m : S) (r : Result ControllerError B) (f : B → Exec S C)
        → Before m
        → ((b : B) → Leads (f b))
        → After (proceed m r f).0
    proceed-Leads m (ok b) f h k = k b m h
    proceed-Leads m (err e) f h k = stages.weaken_before m h

    bind-Leads :
        {B C : Type 0} (x : Exec S B) (f : B → Exec S C)
        → Keeps Before x
        → ((b : B) → Leads (f b))
        → Leads (x >>= f)
    bind-Leads x f hx hf m h = proceed-Leads (x m).0 (x m).1 f (hx m h) hf

    if-Leads :
        {B : Type 0} (b : Bool) (x y : Exec S B) → Leads x → Leads y → Leads (if b then x else y)
    if-Leads true x y hx hy = hx
    if-Leads false x y hx hy = hy

    -- The record leads from the state between to the one after.
    record-Leads :
        (request : ActionRequest) (receipt : ActionReceipt) (m : S)
        → Between request (ok receipt) m
        → After
            (record_managed sha marshal is_digest describe store manager options run_id presented
              (receipt_of_action sha marshal is_digest describe store manager options run_id
                presented request.state request.command receipt)
              m).0
    unfolding record_managed
    record-Leads request receipt m h =
        let call =
          manager.record_of presented
            (receipt_of_action sha marshal is_digest describe store manager options run_id presented
              request.state request.command receipt)
            m in
        subst After (sym (lift_lease-eq call.1 call.0)) (stages.records request receipt m h)

    abbrev request_of : State → Command → ActionRequest
    request_of s c = record { state = s; command = c; scope = s.pending_action_scope }

    after-Leads :
        {B C : Type 0} (request : ActionRequest) (r : Result ExecutionError ActionReceipt) (m : S)
        (q : Result ControllerError B) (f : B → Exec S C)
        → Between request r m
        → ((b : B) (x : S) → Between request r x → After (f b x).0)
        → After (proceed m q f).0
    after-Leads request r m (ok b) f h k = k b m h
    after-Leads request r m (err e) f h k = stages.weaken_between request r m h

    executed-Leads :
        (s : State) (c : Command) (events : List Event) (w : Progress)
        (r : Result ExecutionError ActionReceipt) (m : S)
        → Between (request_of s c) r m
        → After
            (after_execution sha marshal is_digest describe store manager options run_id presented s
              c events w r m).0
    unfolding after_execution
    executed-Leads s c events w (err ExecutionError.panics) m h =
        stages.weaken_between (request_of s c) (err ExecutionError.panics) m h
    executed-Leads s c events w (err (ExecutionError.failed text)) m h =
        fail-Keeps sha marshal is_digest describe store manager options run_id presented After
          stages.append_after stages.fault_after s c text ActionOutcome.failed events w m
          (stages.weaken_between (request_of s c) (err (ExecutionError.failed text)) m h)
    executed-Leads s c events w (ok receipt) m h =
        let request = request_of s c in
        let faulted =
          inject sha marshal is_digest describe store manager options run_id presented
            FaultPoint.after_action_execution c m in
        after-Leads request (ok receipt) faulted.0 faulted.1 _
          (inject-Keeps sha marshal is_digest describe store manager options run_id presented
            (Between request (ok receipt))
            (λ fault at point d x k. stages.fault_between fault at request (ok receipt) point d x k)
            FaultPoint.after_action_execution c m h)
          (λ u x k.
            let recording =
              record_managed sha marshal is_digest describe store manager options run_id presented
                (receipt_of_action sha marshal is_digest describe store manager options run_id
                  presented s c receipt)
                x in
            proceed-Keeps After recording.0 recording.1 _ (record-Leads request receipt x k)
              (λ recorded.
                bind-Keeps After
                  (inject sha marshal is_digest describe store manager options run_id presented
                    FaultPoint.after_receipt_persisted c)
                  _
                  (inject-Keeps sha marshal is_digest describe store manager options run_id
                    presented After stages.fault_after FaultPoint.after_receipt_persisted c)
                  (λ v.
                    check-Keeps sha marshal is_digest describe store manager options run_id
                      presented After stages.append_after stages.fault_after true s c
                      recorded.receipt events w)))

    module _ (execute : Executor S) (at : options.executor ≡ some execute) where
      execute-Leads :
          (s : State) (c : Command) (events : List Event) (w : Progress)
          → Leads (
              execute_managed_action sha marshal is_digest describe store manager options run_id
                presented execute s c events w)
      unfolding execute_managed_action
      execute-Leads s c events w m h =
          let call = execute (request_of s c) m in
          executed-Leads s c events w call.1 call.0
            (stages.executes execute at (request_of s c) m h)

      fail-Leads :
          (s : State) (c : Command) (reason : String) (outcome : ActionOutcome)
          (events : List Event) (w : Progress)
          → Leads (
              fail_action sha marshal is_digest describe store manager options run_id presented s c
                reason outcome events w)
      fail-Leads s c reason outcome events w =
          kept-Leads
            (fail_action sha marshal is_digest describe store manager options run_id presented s c
              reason outcome events w)
            (fail-Keeps sha marshal is_digest describe store manager options run_id presented Before
              stages.append_before stages.fault_before s c reason outcome events w)

      lookup-Leads :
          (s : State) (events : List Event) (w : Progress) (r : Result LeaseError ActionReceipt)
          → Leads (
              after_lookup sha marshal is_digest describe store manager options run_id presented
                execute s events w r)
      unfolding after_lookup
      lookup-Leads s events w (ok receipt) =
          kept-Leads
            (check_receipt sha marshal is_digest describe store manager options run_id presented
              false s
              (pending_command sha marshal is_digest describe store manager options run_id presented
                s)
              receipt events w)
            (check-Keeps sha marshal is_digest describe store manager options run_id presented
              Before stages.append_before stages.fault_before false s
              (pending_command sha marshal is_digest describe store manager options run_id presented
                s)
              receipt events w)
      lookup-Leads s events w (err LeaseError.receipt_not_found) =
          if-Leads (s.pending_action_scope != IdempotencyScope.scoped) _ _
            (fail-Leads s
              (pending_command sha marshal is_digest describe store manager options run_id presented
                s)
              "action outcome is ambiguous and no durable receipt proves completion"
              ActionOutcome.ambiguous events w)
            (execute-Leads s
              (pending_command sha marshal is_digest describe store manager options run_id presented
                s)
              events w)
      lookup-Leads s events w (err _) = λ m h. stages.weaken_before m h

      recover-Leads :
          (s : State) (events : List Event) (w : Progress)
          → Leads (
              recover_pending_action sha marshal is_digest describe store manager options run_id
                presented execute s events w)
      unfolding recover_pending_action
      recover-Leads s events w =
          if-Leads
            (s.run.desired_state == DesiredState.paused || s.run.observed_state == Status.paused)
            (return (record { command = noop_command; events = events; state = s })) _
            (λ m h. stages.weaken_before m h)
            (if-Leads (s.run.desired_state == DesiredState.cancelled) _ _
              (fail-Leads s
                (pending_command sha marshal is_digest describe store manager options run_id
                  presented s)
                "cancel intent superseded the pending action" ActionOutcome.failed events w)
              (λ m h. lookup-Leads s events w (manager.lookup s.run.id s.pending_action_id m) m h))

      plan-Leads :
          (c : Command) (r : Result ControllerError Progress)
          → Leads (
              after_plan sha marshal is_digest describe store manager options run_id presented
                execute c r)
      unfolding after_plan
      plan-Leads c (ok w) =
          bind-Leads
            (inject sha marshal is_digest describe store manager options run_id presented
              FaultPoint.after_action_planned c)
            _
            (inject-Keeps sha marshal is_digest describe store manager options run_id presented
              Before stages.fault_before FaultPoint.after_action_planned c)
            (λ u.
              bind-Leads (get_run store run_id) _
                (run-Keeps sha marshal is_digest describe store manager options run_id presented
                  Before stages.append_before stages.fault_before run_id)
                (λ planned. execute-Leads planned c w.written w))
      plan-Leads c (err (ControllerError.store x)) =
          if-Leads (is_version_conflict x) _ (fail (ControllerError.store x))
            (bind-Leads (get_run store run_id) _
              (run-Keeps sha marshal is_digest describe store manager options run_id presented
                Before stages.append_before stages.fault_before run_id)
              (λ current m h. stages.weaken_before m h))
            (λ m h. stages.weaken_before m h)
      plan-Leads c (err _) = λ m h. stages.weaken_before m h

      plan_and_execute-Leads :
          (s : State) (c : Command) (w : Progress)
          → Leads (
              plan_and_execute sha marshal is_digest describe store manager options run_id presented
                execute s c w)
      unfolding plan_and_execute
      plan_and_execute-Leads s c w =
          bind-Leads
            (inject sha marshal is_digest describe store manager options run_id presented
              FaultPoint.before_action_planned c)
            _
            (inject-Keeps sha marshal is_digest describe store manager options run_id presented
              Before stages.fault_before FaultPoint.before_action_planned c)
            (λ u.
              bind-Leads
                (refuse (not (scope_valid (options.safety c))) ControllerError.invalid_request) _
                (refuse-Keeps Before (not (scope_valid (options.safety c)))
                  ControllerError.invalid_request)
                (λ v m h.
                  let e = action_planned_event c (options.safety c) in
                  let call =
                    managed_append sha marshal is_digest describe store manager options run_id
                      presented e w m in
                  plan-Leads c call.1 call.0 (
                    append-Keeps sha marshal is_digest describe store manager options run_id
                      presented Before stages.append_before stages.fault_before e w
                      (planned-Permitted sha marshal is_digest describe store manager options run_id
                        presented c (options.safety c))
                      m h)))

      state-Leads :
          (s : State) (w : Progress)
          → Leads (
              reconcile_state sha marshal is_digest describe store manager options run_id presented
                execute s w)
      unfolding reconcile_state
      state-Leads s w = if-Leads (s.pending_action_id != "") _ _ (recover-Leads s [] w) (
          if-Leads ((decide sha s).kind == CommandType.noop) (return _) _
            (λ m h. stages.weaken_before m h) (plan_and_execute-Leads s (decide sha s) w))

    with-Leads :
        (o : Option (Executor S))
        → options.executor ≡ o
        → Leads
            (reconcile_with sha marshal is_digest describe store manager options run_id presented o)
    with-Leads none at = λ m h. stages.weaken_before m h
    with-Leads (some execute) at =
        bind-Leads (refuse (presented.run_id != run_id) ControllerError.invalid_request) _
          (refuse-Keeps Before (presented.run_id != run_id) ControllerError.invalid_request)
          (λ u.
            bind-Leads (λ m. lift_lease (manager.validate_lease presented m) m) _
              (λ m h. subst Before (sym (lift_lease-eq (manager.validate_lease presented m) m)) h)
              (λ v.
                bind-Leads (get_run store run_id) _
                  (run-Keeps sha marshal is_digest describe store manager options run_id presented
                    Before stages.append_before stages.fault_before run_id)
                  (λ s.
                    state-Leads execute at s
                      (record { expected_version = s.run.version; written = [] }))))

    leased-Leads :
        Leads
          (reconcile_leased sha marshal is_digest describe store manager options run_id presented)
    unfolding reconcile_leased
    leased-Leads = with-Leads options.executor refl

    -- ReconcileLeased leads from any state with the first of three properties to one with the last, also
    -- when it fails, where these meet the conditions: permitted appends keep the first and the last, the
    -- fault hook keeps all, an execution leads from the first to the second, and a record of the receipt
    -- that the execution returned, with the run, the action and the scope of its request, from the second
    -- to the last. So it executes at most once, records nothing before, and after it at most that receipt,
    -- once, with nothing but the fault hook between the two.
    pub reconcile_leased_stages :
        (m : S)
        → Before m
        → After
            (reconcile_leased sha marshal is_digest describe store manager options run_id presented
              m).0
    reconcile_leased_stages m h = leased-Leads m h

module _ {S : Type 0} (sha : Sha256) (marshal : EventData → Option String)
    (is_digest : String → Bool) (describe : EvidenceError → String) (store : EventStore S)
    (manager : LeaseManager S) (options : ManagedOptions S) (run_id : String)
    (presented : Lease) where
  -- ReconcileLeased executes at most one action, whatever it returns: a count that an execution raises by
  -- one, and that appends, records and faults leave as it is, goes up by at most one.
  pub reconcile_leased_once :
      (count : S → ℕ)
      → ((n : ℕ) (e : Event) (m : S) → count (store.append_event n e m).0 ≡ count m)
      → ((receipt : ActionReceipt) (m : S)
          → count (manager.record_of presented receipt m).0 ≡ count m)
      → ((fault : FaultPoint → Command → S → S × Option String)
          → options.fault ≡ some fault
          → (point : FaultPoint) (c : Command) (m : S) → count (fault point c m).0 ≡ count m)
      → ((execute : Executor S)
          → options.executor ≡ some execute
          → (request : ActionRequest) (m : S) → count (execute request m).0 ≡ count m + 1)
      → (m : S)
      → count
          (reconcile_leased sha marshal is_digest describe store manager options run_id presented
            m).0
        ≤ count m + 1
  reconcile_leased_once count appends records faults executions m =
      reconcile_leased_stages sha marshal is_digest describe store manager options run_id presented
        (λ x. count x ≡ count m) (λ request r x. count x ≤ count m + 1) (λ x. count x ≤ count m + 1)
        (record {
          weaken_before = λ x h. omega (arith, h);
          weaken_between = λ request r x h. h;
          append_before = λ n e x may h. appends n e x ∙ h;
          append_after = λ n e x may h. omega (arith, h, appends n e x);
          fault_before = λ fault at point c x h. faults fault at point c x ∙ h;
          fault_between =
              λ fault at request r point c x h. omega (arith, h, faults fault at point c x);
          fault_after = λ fault at point c x h. omega (arith, h, faults fault at point c x);
          executes = λ execute at request x h. omega (arith, h, executions execute at request x);
          records = λ request receipt x h. omega (arith, h, records _ x);
        })
        m refl
