-- ===== src/Controller/Desired.antt =====
-- What SetDesiredState writes, over any event store (internal/controller/controller.go).
use agent_dock_coedx5_6sol.Prelude.{
  ℕ, zero, suc, String, true, false, not, ◌≡◌, refl, ◌==◌, Result, ok, err, holds_of_not,
}
use agent_dock_coedx5_6sol.Domain.Types.{
  DesiredState, EventType, Event, State, empty_data, terminal, desired_valid, desired_eq,
}
use agent_dock_coedx5_6sol.Store.Errors.{StoreError, AppendResult}
use agent_dock_coedx5_6sol.Controller.Exec.{ControllerError, EventStore, Exec, return}
use agent_dock_coedx5_6sol.Controller.Keeps.{guarded, chosen, read, Keeps, lift-Keeps, if-Keeps}
use agent_dock_coedx5_6sol.Controller.Requests.{
  desired_event, is_version_conflict, get_run, after_append, desired_round, desired_rounds,
  set_desired_state,
}

module _ {S : Type 0} (store : EventStore S) (run_id : String) (desired : DesiredState) where
  -- The append that SetDesiredState may make: the change to the desired state, which is a valid one, at
  -- the version of the projection, which has another desired state and has not ended.
  pub record Change (n : ℕ) (e : Event) (m : S) : Type 0 where
    pub projection : State
    pub rebuilt : store.rebuild_run run_id m ≡ ok projection
    pub version : n ≡ projection.run.version
    pub valid : desired_valid desired ≡ true
    pub active : terminal projection.run.observed_state ≡ false
    pub other : (projection.run.desired_state == desired) ≡ false
    pub run : e.run_id ≡ run_id
    pub kind : e.kind ≡ EventType.desired_state_changed
    pub payload : e.payload ≡ record empty_data { desired_state = desired }

  module _ (P : S → Type 0)
      (keep : (n : ℕ) (e : Event) (m : S)
        → Change n e m
        → P m
        → P (store.append_event n e m).0) where
    after_append-Keeps :
        (again : Exec S State) (r : Result StoreError AppendResult)
        → Keeps P again
        → Keeps P (after_append store run_id again r)
    unfolding after_append get_run
    after_append-Keeps again (ok r) h = lift-Keeps P (store.rebuild_run run_id)
    after_append-Keeps again (err e) h = if-Keeps P (is_version_conflict e) again _ h (λ m k. k)

    round-Keeps :
        desired_valid desired ≡ true
        → (again : Exec S State) → Keeps P again
        → Keeps P (desired_round store run_id desired again)
    unfolding desired_round get_run
    round-Keeps valid again h m p = read P (store.rebuild_run run_id m) _ m p (λ s at.
        guarded P (terminal s.run.observed_state) ControllerError.terminal_state _ m p (λ active.
          chosen P (s.run.desired_state == desired) (return s) _ m p (λ other.
            let e = desired_event run_id desired s in
            let call = store.append_event s.run.version e m in
            after_append-Keeps again call.1 h call.0 (
              keep s.run.version e m
                (record {
                  projection = s;
                  rebuilt = at;
                  version = refl;
                  valid = valid;
                  active = active;
                  other = other;
                  run = refl;
                  kind = refl;
                  payload = refl;
                })
                p))))

    rounds-Keeps :
        desired_valid desired ≡ true → (n : ℕ) → Keeps P (desired_rounds store n run_id desired)
    unfolding desired_rounds
    rounds-Keeps valid zero = λ m p. p
    rounds-Keeps valid (suc n) = round-Keeps valid _ (rounds-Keeps valid n)

    -- SetDesiredState changes a store only by appends, also when it fails: each is of the change to the
    -- desired state, which is a valid one, at the version of the run's projection at that time, which has
    -- another desired state and has not ended. So it keeps what these appends keep.
    pub set_desired_state-Change : (m : S) → P m → P (set_desired_state store run_id desired m).0
    unfolding set_desired_state
    set_desired_state-Change m p =
        guarded P (not (desired_valid desired)) ControllerError.invalid_request _ m p
          (λ valid. rounds-Keeps (holds_of_not _ valid) 64 m p)
