-- ===== src/Domain/Lifecycle.antt =====
-- The lifecycle of a run as an abstract machine: what the states and events of
-- internal/domain/reducer.go mean, with identities, receipts and outputs left out.
pub mod Effects
pub mod Refinement
pub mod Coherence
pub mod Logs
pub mod Outcomes
use agent_dock_coedx5_6sol.Prelude.{
  ℕ, ◌+◌, ◌≤◌, ◌≡◌, ◌≢◌, String, Bool, true, false, ◌==◌, ◌!=◌, string_eq, if◌then◌else◌, ok,
}
use agent_dock_coedx5_6sol.Domain.Types.{
  DesiredState, Status, State, terminal, status_eq, desired_eq,
}
use agent_dock_coedx5_6sol.Domain.Transition.{validate_transition}

pub record Core : Type 0 where
  pub id : String
  pub exists : Bool
  pub desired : DesiredState
  pub observed : Status
  pub resume : Status
  pub attempts : ℕ
  pub named : Bool  -- an attempt has an identity
  pub patched : Bool
  pub passed : Bool
  pub explained : Bool  -- a failure has a reason

abbrev pub core : State → Core
core s = record {
  id = s.run.id;
  exists = s.exists;
  desired = s.run.desired_state;
  observed = s.run.observed_state;
  resume = s.resume_state;
  attempts = s.run.current_attempt;
  named = s.attempt_id != "";
  patched = s.patch_produced;
  passed = s.verification_passed;
  explained = s.failure_reason != "";
}

-- A run that was just created.
abbrev pub fresh : String → Core
fresh id = record {
  id = id;
  exists = true;
  desired = DesiredState.running;
  observed = Status.queued;
  resume = Status.unset;
  attempts = 0;
  named = false;
  patched = false;
  passed = false;
  explained = false;
}

-- The state that a paused run comes back to, or the state of any other run.
abbrev pub logical : Core → Status
logical c = if c.observed == Status.paused then c.resume else c.observed

abbrev pub move : Core → Status → Core
move c next =
    if c.observed == Status.paused then record c { resume = next } else record c { observed = next }

-- The transition guard lets a run go from one state to the other.
abbrev pub Edge : Status → Status → Type 0
Edge from to = validate_transition from to ≡ ok tt

-- One accepted event after the first, which makes the run `fresh`.
pub data Step (c : Core) : Core → Type 0 where
  note : Step c c
  pause :
      (c.desired == DesiredState.paused) ≡ false
      → (c.desired == DesiredState.cancelled) ≡ false
      → Edge c.observed Status.paused
      → Step c (record c {
        desired = DesiredState.paused;
        observed = Status.paused;
        resume = c.observed;
      })
  resume :
      c.desired ≡ DesiredState.paused
      → c.observed ≡ Status.paused
      → Edge Status.paused c.resume
      → Step c
          (record c { desired = DesiredState.running; observed = c.resume; resume = Status.unset })
  request_cancel :
      terminal c.observed ≡ false → Step c (record c { desired = DesiredState.cancelled })
  start_attempt :
      logical c ≡ Status.queued
      → Step c (record (move c Status.provisioning) { attempts = c.attempts + 1; named = true })
  provision : logical c ≡ Status.provisioning → Step c (move c Status.reasoning)
  reason : logical c ≡ Status.reasoning → Step c (move c Status.acting)
  patch : logical c ≡ Status.acting → Step c (record (move c Status.verifying) { patched = true })
  verify : logical c ≡ Status.verifying → Step c (record c { passed = true })
  succeed : logical c ≡ Status.verifying → c.passed ≡ true → Step c (move c Status.succeeded)
  explain : Step c (record c { explained = true })
  hold :
      Edge (logical c) Status.waiting_approval
      → Step c (move (record c { explained = true }) Status.waiting_approval)
  fail :
      Edge (logical c) Status.failed → Step c (move (record c { explained = true }) Status.failed)
  fail_now :
      c.desired ≡ DesiredState.running
      → Edge c.observed Status.failed
      → Step c (record c { observed = Status.failed; explained = true })
  cancel :
      c.desired ≡ DesiredState.cancelled
      → Edge (logical c) Status.cancelled
      → Step c (move c Status.cancelled)
  cancel_now :
      c.desired ≡ DesiredState.cancelled
      → Edge c.observed Status.cancelled
      → Step c (record c { observed = Status.cancelled })
