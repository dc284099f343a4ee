-- ===== src/Domain/Desired.antt =====
-- internal/domain/reducer.go: applyDesiredState, the operator's pause, resume and cancel.
pub mod Resume
use agent_dock_coedx5_6sol.Prelude.{not, ◌||◌, ◌==◌, ◌!=◌, Result, ok, err, ◌>>=◌, ◌>>◌, reject}
use agent_dock_coedx5_6sol.Domain.Types.{
  DesiredState, Status, State, desired_valid, terminal, status_eq, desired_eq,
}
use agent_dock_coedx5_6sol.Domain.Transition.{DomainError, transition}

-- DesiredPaused
unfoldable pub pause : State → Result DomainError State
unfolding transition
pause s = do
  reject (s.run.desired_state == DesiredState.paused || s.run.observed_state == Status.paused)
      DomainError.invalid_transition
  reject (s.run.desired_state == DesiredState.cancelled) DomainError.invalid_transition
  t ← transition (record s { resume_state = s.run.observed_state }) Status.paused
  ok (record t { run = record t.run { desired_state = DesiredState.paused } })

-- DesiredRunning
unfoldable pub resume : State → Result DomainError State
unfolding transition
resume s = do
  reject
      (s.run.desired_state != DesiredState.paused
        || s.run.observed_state != Status.paused
        || s.resume_state == Status.unset)
      DomainError.invalid_transition
  t ← transition s s.resume_state
  ok (record t {
    resume_state = Status.unset;
    run = record t.run { desired_state = DesiredState.running };
  })

-- DesiredCancelled
unfoldable pub request_cancel : State → Result DomainError State
request_cancel s = do
  reject (s.run.desired_state == DesiredState.cancelled) DomainError.invalid_transition
  ok (record s { run = record s.run { desired_state = DesiredState.cancelled } })

unfoldable pub set_desired : DesiredState → State → Result DomainError State
unfolding pause resume request_cancel
set_desired DesiredState.paused s = pause s
set_desired DesiredState.running s = resume s
set_desired DesiredState.cancelled s = request_cancel s
set_desired _ s = err DomainError.invalid_event

-- applyDesiredState
unfoldable pub apply_desired_state : State → DesiredState → Result DomainError State
unfolding set_desired transition
apply_desired_state s desired = do
  reject (not (desired_valid desired)) DomainError.invalid_event
  reject (terminal s.run.observed_state) DomainError.terminal_state
  set_desired desired s
