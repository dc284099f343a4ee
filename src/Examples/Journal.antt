-- ===== src/Examples/Journal.antt =====
-- The requests of a controller at a store that keeps what it is given (internal/controller/controller.go).
use agent_dock_coedx5_6sol.Prelude.{
  ◌≡◌, refl, String, string_eq, Bool, true, false, not, ◌==◌, any, List, [], ◌∷◌, none, Result, ok,
}
use agent_dock_coedx5_6sol.Domain.Types.{
  DesiredState, Status, EventType, State, Event, initial_state, empty_run, event_type_eq,
  EventType-discrete,
}
use agent_dock_coedx5_6sol.Controller.Exec.{EventStore}
use agent_dock_coedx5_6sol.Controller.Requests.{set_desired_state}
use agent_dock_coedx5_6sol.Controller.Reconcile.{Reasoned, reconcile}
use agent_dock_coedx5_6sol.Controller.Desired.{set_desired_state-Change}
use agent_dock_coedx5_6sol.Controller.Writes.{reconcile-Carried}
use agent_dock_coedx5_6sol.Examples.Fixtures.{zero_sha}

-- A run that waits for its first attempt.
abbrev waiting : State
waiting = record initial_state {
  exists = true;
  run = record empty_run {
    id = "run-1";
    desired_state = DesiredState.running;
    observed_state = Status.queued;
    version = 1;
  };
}

-- The events that were appended, the last one first.
abbrev journal : EventStore (List Event)
journal = record {
  load_events = λ id m. ok m;
  rebuild_run = λ id m. ok waiting;
  append_event = λ n e m. (e ∷ m, ok (record { event = e; appended = true }));
  is_managed_run = none;
}

abbrev is_other : Event → Bool
is_other e = not (e.kind == EventType.desired_state_changed)

abbrev paused : List Event
paused = (set_desired_state journal "run-1" DesiredState.paused []).0

-- Nothing but a change of the desired state is appended.
set_desired_state-Change_example : any is_other paused ≡ false
unfolding EventType-discrete
set_desired_state-Change_example =
    set_desired_state-Change journal "run-1" DesiredState.paused (λ m. any is_other m ≡ false)
      (λ n e m change h. rw (change.kind, h) refl) [] refl

abbrev run_tests : String → Result String Reasoned
run_tests task = ok (record { output = "done"; tool_name = "run_tests"; tool_arguments = "{}" })

abbrev is_foreign : Event → Bool
is_foreign e = not (e.run_id == "run-1")

abbrev reconciled : List Event
reconciled = (reconcile journal "run-1" run_tests zero_sha false []).0

-- Nothing is appended for another run.
reconcile-Carried_example : any is_foreign reconciled ≡ false
reconcile-Carried_example =
    reconcile-Carried journal "run-1" run_tests zero_sha false [] (λ m. any is_foreign m ≡ false)
      (λ n e m carried h. rw (carried.run, h) refl) refl
