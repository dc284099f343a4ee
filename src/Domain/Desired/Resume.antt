-- ===== src/Domain/Desired/Resume.antt =====
-- Pause and resume of a run (applyDesiredState of internal/domain/reducer.go).
use agent_dock_coedx5_6sol.Prelude.{◌≡◌, ok, refl, arith, >>=-eq-ok, reject}
use agent_dock_coedx5_6sol.Domain.Types.{
  DesiredState, Status, State, terminal, status_eq, desired_eq,
}
use agent_dock_coedx5_6sol.Domain.Transition.{DomainError, validate_transition}
use agent_dock_coedx5_6sol.Domain.Desired.{pause, resume, apply_desired_state}

abbrev paused : State → State
paused s = record s {
  resume_state = s.run.observed_state;
  run = record s.run { observed_state = Status.paused; desired_state = DesiredState.paused };
}

pause_as :
    (s : State) {t : State}
    → pause s ≡ ok t
    → (t ≡ paused s) × (validate_transition s.run.observed_state Status.paused ≡ ok tt)
unfolding pause validate_transition
pause_as s p = ground arith

resume_at :
    (o : Status) (s : State)
    → s.run.observed_state ≡ o
    → validate_transition o Status.paused ≡ ok tt
    → s.run.desired_state ≡ DesiredState.running
    → s.resume_state ≡ Status.unset
    → resume (paused s) ≡ ok s
unfolding resume validate_transition
resume_at Status.queued s e x d r = rw (e, d, r) refl
resume_at Status.provisioning s e x d r = rw (e, d, r) refl
resume_at Status.reasoning s e x d r = rw (e, d, r) refl
resume_at Status.acting s e x d r = rw (e, d, r) refl
resume_at Status.verifying s e x d r = rw (e, d, r) refl
resume_at Status.repairing s e x d r = rw (e, d, r) refl
resume_at Status.waiting_approval s e x d r = rw (e, d, r) refl
resume_at _ s e x d r = cc

-- A run whose desired state is Running, with no state to resume, that is paused and then resumed is
-- what it was, in every field.
pub resume-pause :
    (s : State) {t : State}
    → s.run.desired_state ≡ DesiredState.running
    → s.resume_state ≡ Status.unset
    → apply_desired_state s DesiredState.paused ≡ ok t
    → apply_desired_state t DesiredState.running ≡ ok s
unfolding apply_desired_state
resume-pause s d r p =
    let (u, live, p₁) =
      >>=-eq-ok (reject (terminal s.run.observed_state) DomainError.terminal_state) _ p in
    let (q, edge) = pause_as s p₁ in
    rw q (resume_at s.run.observed_state s (λ i. s.run.observed_state) edge d r)
