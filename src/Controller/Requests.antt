-- ===== src/Controller/Requests.antt =====
-- internal/controller/controller.go: CreateRun, GetRun and SetDesiredState.
use agent_dock_coedx5_6sol.Prelude.{
  ℕ, zero, suc, String, string_eq, Bool, true, false, ◌==◌, ◌||◌, not, [], ◌∷◌, List, Result, ok,
  err, concat, itoa, if◌then◌else◌,
}
use agent_dock_coedx5_6sol.Domain.Types.{
  DesiredState, EventType, State, Event, empty_data, empty_event, desired_valid, terminal,
  desired_eq,
}
use agent_dock_coedx5_6sol.Store.Validation.{desired_name}
use agent_dock_coedx5_6sol.Store.Errors.{StoreError, AppendResult}
use agent_dock_coedx5_6sol.Controller.Exec.{
  ControllerError, EventStore, Exec, return, fail, lift, proceed, ◌>>=◌, ◌>>◌, refuse,
}

pub record CreateRunRequest : Type 0 where
  pub run_id : String
  pub scenario_id : String
  pub spec_hash : String
  pub created_at : String

-- The RunCreated event of a request.
abbrev pub created_event : CreateRunRequest → Event
created_event request = record empty_event {
  run_id = request.run_id;
  kind = EventType.run_created;
  payload = record empty_data { scenario_id = request.scenario_id; spec_hash = request.spec_hash };
  idempotency_key = "run-created";
  correlation_id = request.run_id;
  created_at = request.created_at;
}

-- The DesiredStateChanged event for a projection.
abbrev pub desired_event : String → DesiredState → State → Event
desired_event run_id desired s = record empty_event {
  run_id = run_id;
  kind = EventType.desired_state_changed;
  payload = record empty_data { desired_state = desired };
  idempotency_key = concat ("desired:" ∷ desired_name desired ∷ ":v" ∷ itoa s.run.version ∷ []);
  correlation_id = run_id;
}

-- Load must find no run.
abbrev pub must_be_new : {S : Type 0} → Result StoreError (List Event) → Exec S (Unit {0})
must_be_new (ok es) = fail ControllerError.run_exists
must_be_new (err StoreError.run_not_found) = return tt
must_be_new (err e) = fail (ControllerError.store e)

-- `errors.Is(err, ErrVersionConflict)`
abbrev pub is_version_conflict : StoreError → Bool
is_version_conflict (StoreError.version_conflict r n k) = true
is_version_conflict _ = false

module _ {S : Type 0} (store : EventStore S) where
  -- GetRun
  unfoldable pub get_run : String → Exec S State
  get_run run_id m = lift (store.rebuild_run run_id m) m

  -- An append whose error is the caller's.
  unfoldable pub append_once : ℕ → Event → Exec S AppendResult
  append_once n e m = proceed (store.append_event n e m).0 (ok (store.append_event n e m).1) lift

  -- CreateRun
  unfoldable pub create_run : CreateRunRequest → Exec S State
  create_run request = do
    refuse (request.run_id == "" || request.scenario_id == "" || request.spec_hash == "")
        ControllerError.invalid_request
    λ m. must_be_new (store.load_events request.run_id m) m
    written ← append_once 0 (created_event request)
    get_run request.run_id

  -- What SetDesiredState does with the result of its append: try again on a conflict.
  unfoldable pub after_append :
      String → Exec S State → Result StoreError AppendResult → Exec S State
  after_append run_id again (ok r) = get_run run_id
  after_append run_id again (err e) =
      if is_version_conflict e then again else fail (ControllerError.store e)

  -- One round of the loop of SetDesiredState, with the rounds that may follow it.
  unfoldable pub desired_round : String → DesiredState → Exec S State → Exec S State
  desired_round run_id desired again = do
    s ← get_run run_id
    refuse (terminal s.run.observed_state) ControllerError.terminal_state
    if s.run.desired_state == desired then return s else λ m.
        let call = store.append_event s.run.version (desired_event run_id desired s) m in
        after_append run_id again call.1 call.0

  unfoldable pub desired_rounds : ℕ → String → DesiredState → Exec S State
  desired_rounds zero run_id desired = fail ControllerError.retries_exhausted
  desired_rounds (suc rounds) run_id desired =
      desired_round run_id desired (desired_rounds rounds run_id desired)

  -- SetDesiredState, with maxDesiredStateRetries rounds
  unfoldable pub set_desired_state : String → DesiredState → Exec S State
  set_desired_state run_id desired = do
    refuse (not (desired_valid desired)) ControllerError.invalid_request
    desired_rounds 64 run_id desired
