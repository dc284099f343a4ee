-- ===== src/Controller/Writes.antt =====
-- What Reconcile without a lease writes, over any event store (internal/controller/controller.go).
use agent_dock_coedx5_6sol.Prelude.{
  ℕ, String, string_eq, Bool, true, false, ◌≡◌, refl, subst, ◌==◌, ◌!=◌, ◌||◌, [], Option, none,
  some, Result, ok, err, if◌then◌else◌, none_of,
}
use agent_dock_coedx5_6sol.Domain.Types.{
  CommandType, EventType, Event, State, command_type_eq, empty_data,
}
use agent_dock_coedx5_6sol.Domain.Decide.{Sha256, decide}
use agent_dock_coedx5_6sol.Store.Errors.{StoreError, AppendResult}
use agent_dock_coedx5_6sol.Controller.Exec.{
  refuse, ◌>>◌, ControllerError, EventStore, Exec, return, fail, lift, proceed, ◌>>=◌,
}
use agent_dock_coedx5_6sol.Controller.Keeps.{
  if-Keeps, guarded, read, bind-Keeps, lift-Keeps, proceed-Keeps,
}
use agent_dock_coedx5_6sol.Controller.Requests.{is_version_conflict, get_run, append_once}
use agent_dock_coedx5_6sol.Controller.Reconcile.{
  Progress, Reasoned, command_event, count_append, retry_append, append_noted, append_reasoned,
  plan_first, run_reasoner, carry_out, refuse_managed, reconcile,
}

-- The events that carry out a command.
pub data Carries : CommandType → EventType → Type 0 where
  started : Carries CommandType.start_attempt EventType.attempt_started
  provisioned : Carries CommandType.provision_workspace EventType.workspace_provisioned
  reasoning : Carries CommandType.run_reasoner EventType.reasoning_planned
  reasoned : Carries CommandType.run_reasoner EventType.reasoning_completed
  call_failed : Carries CommandType.run_reasoner EventType.tool_call_failed
  patched : Carries CommandType.apply_patch EventType.patch_produced
  verifying : Carries CommandType.verify EventType.verification_planned
  verified : Carries CommandType.verify EventType.verification_passed
  succeeded : Carries CommandType.succeed_run EventType.run_succeeded
  failed : Carries CommandType.fail_run EventType.run_failed
  cancelled : Carries CommandType.cancel_run EventType.run_cancelled

module _ {S : Type 0} (store : EventStore S) (run_id : String)
    (reason : String → Result String Reasoned) (sha : Sha256) (leased : Bool) (m₀ : S) where
  -- The versions that a program learns from the store: that of a projection of the run, and the sequence
  -- number of an event that an append returned.
  pub data Known : ℕ → Type 0 where
    projected : (m : S) (s : State) → store.rebuild_run run_id m ≡ ok s → Known s.run.version
    returned :
        (n : ℕ) (e : Event) (m : S) (result : AppendResult)
        → (store.append_event n e m).1 ≡ ok result
        → Known result.event.seq

  -- A store that can tell says that the run is not managed.
  abbrev pub Unmanaged : Option (String → S → Result StoreError Bool) → Type 0
  Unmanaged none = Unit {0}
  Unmanaged (some inspect) = inspect run_id m₀ ≡ ok false

  -- An append of Reconcile: an event that carries out the command that Decide gives for the projection at
  -- the start, under the command's action, at a version that the store gave, by a controller without a
  -- lease manager, and for a run that is not managed, if the store can tell, and has no managed action
  -- pending.
  pub record Carried (n : ℕ) (e : Event) : Type 0 where
    pub projection : State
    pub rebuilt : store.rebuild_run run_id m₀ ≡ ok projection
    pub unleased : leased ≡ false
    pub legacy : (projection.pending_action_type != CommandType.unset) ≡ false
    pub unmanaged : Unmanaged store.is_managed_run
    pub version : Known n
    pub run : e.run_id ≡ run_id
    pub action : e.payload.action_id ≡ (decide sha projection).action_id
    pub carries : Carries (decide sha projection).kind e.kind

  module _ (P : S → Type 0)
      (keep : (n : ℕ) (e : Event) (m : S)
        → Carried n e
        → P m
        → P (store.append_event n e m).0) where
    abbrev Post : Result ControllerError Progress → Type 0
    Post (ok w) = Known w.expected_version
    Post (err x) = Unit {0}

    -- A program that keeps the property and ends with a version that the store gave.
    abbrev Ends : Exec S Progress → Type 0
    Ends x = (m : S) → P m → P (x m).0 × Post (x m).1

    proceed-Ends :
        (m : S) (r : Result ControllerError Progress) (f : Progress → Exec S Progress)
        → P m
        → Post r
        → ((w : Progress) → Known w.expected_version → Ends (f w))
        → P (proceed m r f).0 × Post (proceed m r f).1
    proceed-Ends m (ok w) f h known k = k w known m h
    proceed-Ends m (err x) f h known k = (h, tt)

    bind-Ends :
        (x : Exec S Progress) (f : Progress → Exec S Progress)
        → Ends x
        → ((w : Progress) → Known w.expected_version → Ends (f w))
        → Ends (x >>= f)
    bind-Ends x f hx hf m h = let both = hx m h in proceed-Ends (x m).0 (x m).1 f both.0 both.1 hf

    if-Ends : (b : Bool) (x y : Exec S Progress) → Ends x → Ends y → Ends (if b then x else y)
    if-Ends true x y hx hy = hx
    if-Ends false x y hx hy = hy

    reading :
        (r : Result StoreError State) (f : State → Exec S Progress) (m : S)
        → P m
        → ((s : State) → r ≡ ok s → P (f s m).0 × Post (f s m).1)
        → P (proceed (lift r m).0 (lift r m).1 f).0 × Post (proceed (lift r m).0 (lift r m).1 f).1
    reading (ok s) f m h k = k s refl
    reading (err x) f m h k = (h, tt)

    count-Ends :
        (w : Progress) (result : AppendResult)
        → Known result.event.seq
        → Ends (count_append store run_id w result)
    unfolding count_append get_run
    count-Ends w result known =
        if-Ends result.appended _ _ (λ m h. (h, known))
          (λ m h. reading (store.rebuild_run run_id m) _ m h (λ s at. (h, Known.projected m s at)))

    sending :
        (q : Result StoreError AppendResult) (w : Progress) (m : S)
        → P m
        → ((result : AppendResult) → q ≡ ok result → Known result.event.seq)
        → P (proceed (lift q m).0 (lift q m).1 (count_append store run_id w)).0
          × Post (proceed (lift q m).0 (lift q m).1 (count_append store run_id w)).1
    sending (ok result) w m h k = count-Ends w result (k result refl) m h
    sending (err x) w m h k = (h, tt)

    module _ (s : State)
        (may : (n : ℕ) (e : Event)
          → Known n
          → e.run_id ≡ run_id
          → e.payload.action_id ≡ (decide sha s).action_id
          → Carries (decide sha s).kind e.kind
          → Carried n e) where
      retry-Ends :
          (n : ℕ) (e : Event) (w : Progress) (m : S) (q : Result StoreError AppendResult)
          → (store.append_event n e m).1 ≡ q
          → ((k : ℕ) → Known k → Carried k e)
          → P (store.append_event n e m).0
          → P (retry_append store run_id e w q (store.append_event n e m).0).0
            × Post (retry_append store run_id e w q (store.append_event n e m).0).1
      unfolding retry_append get_run append_once
      retry-Ends n e w m (ok result) at allowed h =
          count-Ends w result (Known.returned n e m result at) (store.append_event n e m).0 h
      retry-Ends n e w m (err x) at allowed h =
          if-Ends (is_version_conflict x) _ (fail (ControllerError.store x))
            (λ m' h'. reading (store.rebuild_run run_id m') _ m' h' (λ t at'.
              let call = store.append_event t.run.version e m' in
              sending call.1 (record w { expected_version = t.run.version }) call.0
                (keep t.run.version e m' (allowed t.run.version (Known.projected m' t at')) h')
                (λ result got. Known.returned t.run.version e m' result got)))
            (λ m' h'. (h', tt)) (store.append_event n e m).0 h

      noted-Ends :
          (e : Event) (w : Progress)
          → Known w.expected_version
          → e.payload.action_id ≡ (decide sha s).action_id
          → Carries (decide sha s).kind e.kind
          → Ends (append_noted store run_id e w)
      unfolding append_noted
      noted-Ends e w known action carries m h =
          let sent : Event = record e { run_id = run_id; correlation_id = run_id } in
          let allowed : (k : ℕ) → Known k → Carried k sent =
            λ k at. may k sent at refl action carries in
          retry-Ends w.expected_version sent w m (store.append_event w.expected_version sent m).1
            refl allowed (keep w.expected_version sent m (allowed w.expected_version known) h)

      plan-Ends :
          (kind : EventType) (name : String) (w : Progress)
          → Known w.expected_version
          → Carries (decide sha s).kind kind
          → Ends (plan_first store run_id s (decide sha s) kind name w)
      unfolding plan_first
      plan-Ends kind name w known carries =
          if-Ends (s.pending_action_id == "") _ (return w)
            (noted-Ends (command_event kind (decide sha s) empty_data name) w known refl carries)
            (λ m h. (h, known))

      reasoned-Ends :
          CommandType.run_reasoner ≡ (decide sha s).kind
          → (r : Result String Reasoned) (w : Progress) → Known w.expected_version
          → Ends (append_reasoned store run_id (decide sha s) r w)
      unfolding append_reasoned
      reasoned-Ends is (ok r) w known =
          noted-Ends _ w known refl
            (subst (λ c. Carries c EventType.reasoning_completed) is Carries.reasoned)
      reasoned-Ends is (err x) w known =
          noted-Ends _ w known refl
            (subst (λ c. Carries c EventType.tool_call_failed) is Carries.call_failed)

      carry-Ends :
          (kind : CommandType)
          → kind ≡ (decide sha s).kind
          → (w : Progress) → Known w.expected_version
          → Ends (carry_out store run_id reason kind s (decide sha s) w)
      unfolding carry_out run_reasoner
      carry-Ends CommandType.start_attempt is w known =
          noted-Ends _ w known refl
            (subst (λ c. Carries c EventType.attempt_started) is Carries.started)
      carry-Ends CommandType.provision_workspace is w known =
          noted-Ends _ w known refl
            (subst (λ c. Carries c EventType.workspace_provisioned) is Carries.provisioned)
      carry-Ends CommandType.run_reasoner is w known =
          bind-Ends _ _
            (plan-Ends EventType.reasoning_planned "reasoning-planned" w known
              (subst (λ c. Carries c EventType.reasoning_planned) is Carries.reasoning))
            (λ v known'. reasoned-Ends is (reason s.run.scenario_id) v known')
      carry-Ends CommandType.apply_patch is w known =
          noted-Ends _ w known refl
            (subst (λ c. Carries c EventType.patch_produced) is Carries.patched)
      carry-Ends CommandType.verify is w known =
          bind-Ends _ _
            (plan-Ends EventType.verification_planned "verification-planned" w known
              (subst (λ c. Carries c EventType.verification_planned) is Carries.verifying))
            (λ v known'.
              noted-Ends _ v known' refl
                (subst (λ c. Carries c EventType.verification_passed) is Carries.verified))
      carry-Ends CommandType.succeed_run is w known =
          noted-Ends _ w known refl
            (subst (λ c. Carries c EventType.run_succeeded) is Carries.succeeded)
      carry-Ends CommandType.fail_run is w known =
          noted-Ends _ w known refl (subst (λ c. Carries c EventType.run_failed) is Carries.failed)
      carry-Ends CommandType.cancel_run is w known =
          noted-Ends _ w known refl
            (subst (λ c. Carries c EventType.run_cancelled) is Carries.cancelled)
      carry-Ends _ is w known = λ m h. (h, tt)

    told :
        {A : Type 0} (r : Result StoreError Bool) (rest : Exec S A)
        → P m₀
        → (r ≡ ok false → P (rest m₀).0)
        → P
            (proceed
              (proceed
                (lift r m₀).0
                (lift r m₀).1
                (λ managed. refuse managed ControllerError.managed_run_requires_lease)).0
              (proceed
                (lift r m₀).0
                (lift r m₀).1
                (λ managed. refuse managed ControllerError.managed_run_requires_lease)).1
              (λ u. rest)).0
    told (ok true) rest h k = h
    told (ok false) rest h k = k refl
    told (err x) rest h k = h

    inspected :
        {A : Type 0} (i : Option (String → S → Result StoreError Bool)) (rest : Exec S A)
        → P m₀
        → (Unmanaged i → P (rest m₀).0)
        → P ((refuse_managed store run_id reason i >> rest) m₀).0
    unfolding refuse_managed
    inspected none rest h k = k tt
    inspected (some inspect) rest h k = told (inspect run_id m₀) rest h k

    -- Reconcile without a lease changes a store only by appends, also when it fails: each is of an event
    -- that carries out the command that Decide gives for the projection at the start, under its action, at
    -- a version that the store gave, by a controller without a lease manager, and for a run that is not
    -- managed, if the store can tell, and has no managed action pending. So it keeps what these appends
    -- keep.
    pub reconcile-Carried : P m₀ → P (reconcile store run_id reason sha leased m₀).0
    unfolding reconcile get_run
    reconcile-Carried p = read P (store.rebuild_run run_id m₀) _ m₀ p (λ s at.
        guarded P (leased || s.pending_action_type != CommandType.unset) _ _ m₀ p (λ free.
          let (unleased, legacy) = none_of leased _ free in
          inspected store.is_managed_run _ p (λ unmanaged.
            if-Keeps P ((decide sha s).kind == CommandType.noop) _ _ (λ m h. h)
              (λ m h.
                let w : Progress = record { expected_version = s.run.version; written = [] } in
                let run = carry_out store run_id reason (decide sha s).kind s (decide sha s) w m in
                proceed-Keeps P run.0 run.1 _
                  (carry-Ends s
                    (λ n e known own action carries. record {
                      projection = s;
                      rebuilt = at;
                      unleased = unleased;
                      legacy = legacy;
                      unmanaged = unmanaged;
                      version = known;
                      run = own;
                      action = action;
                      carries = carries;
                    })
                    (decide sha s).kind refl w (Known.projected m₀ s at) m h).0
                  (λ v.
                    bind-Keeps P (λ x. lift (store.rebuild_run run_id x) x) _
                      (lift-Keeps P (store.rebuild_run run_id)) (λ t x k. k)))
              m₀ p)))
