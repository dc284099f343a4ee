-- ===== src/Domain/Lifecycle/Refinement/Legacy.antt =====
-- Each accepted unmanaged event is one step of the abstract lifecycle.
use agent_dock_coedx5_6sol.Prelude.{
  ◌+◌, ◌≡◌, err, ◌==◌, true, string_eq, ok, subst, sym, refl, ap, >>=-eq-ok, ok-injective, reject,
  ◌∙◌, through, not, ◌||◌, ◌!=◌, nat_eq, none_of, holds_of_not, eq_of_!=, if◌then◌else◌,
}
use agent_dock_coedx5_6sol.Domain.Types.{DesiredState, Status, State, Event, status_eq, desired_eq}
use agent_dock_coedx5_6sol.Domain.Transition.{
  DomainError, require_planned_result_state, require_pending_action, require_active_state,
  transition, advance_planned_result,
}
use agent_dock_coedx5_6sol.Domain.Apply.{
  apply_run_created, apply_lease_event, apply_attempt_started, apply_workspace_provisioned,
  apply_reasoning_planned, apply_reasoning_completed, apply_tool_call_failed, apply_patch_produced,
  apply_verification_planned, apply_verification_passed, apply_run_succeeded, apply_run_failed,
  apply_run_cancelled,
}
use agent_dock_coedx5_6sol.Domain.Lifecycle.Effects.{
  planned-effect, active-effect, live_at, transition-effect, planned_branch, core-moved,
}
use agent_dock_coedx5_6sol.Domain.Lifecycle.{Core, core, logical, move, Edge, Step}

pub step_to : {c d d' : Core} → d' ≡ d → Step c d → Step c d'
step_to {c} e s = subst (Step c) (sym e) s

pub run_created_again :
    (s : State) (e : Event)
    → s.exists ≡ true
    → apply_run_created s e ≡ err DomainError.invalid_transition
unfolding apply_run_created
run_created_again s e there = rw there refl

module _ (s : State) (e : Event) {t : State} where
  lease_effect : apply_lease_event s e ≡ ok t → t ≡ s
  unfolding apply_lease_event
  lease_effect p =
      let (there, p₁) = through (not s.exists) DomainError.invalid_transition _ p in
      let (worker, p₂) =
        through (e.worker_id == "" || e.fencing_token == 0) DomainError.invalid_event _ p₁ in
      sym (ok-injective p₂)

  attempt_started_effect :
      apply_attempt_started s e ≡ ok t
      → (logical (core s) ≡ Status.queued)
        × (core t ≡ record (move (core s) Status.provisioning) {
          attempts = s.run.current_attempt + 1;
          named = true;
        })
  unfolding apply_attempt_started
  attempt_started_effect p =
      let (u, active, p₁) = >>=-eq-ok (require_active_state s Status.queued) _ p in
      let (named, p₂) = through (e.payload.attempt_id == "") DomainError.invalid_event _ p₁ in
      let (t', went, q) = >>=-eq-ok (transition s Status.provisioning) _ p₂ in
      let (at, idle) = live_at s Status.queued (active-effect s _ active) refl in
      let r = (transition-effect s Status.provisioning went).1 in
      (at, ap core (sym (ok-injective q)) ∙ rw (r, idle, named) refl)

  workspace_effect :
      apply_workspace_provisioned s e ≡ ok t
      → (logical (core s) ≡ Status.provisioning) × (core t ≡ move (core s) Status.reasoning)
  unfolding apply_workspace_provisioned
  workspace_effect p =
      let (u, active, p₁) = >>=-eq-ok (require_active_state s Status.provisioning) _ p in
      let (at, idle) = live_at s Status.provisioning (active-effect s _ active) refl in
      let r = (transition-effect s Status.reasoning p₁).1 in (at, rw (r, idle) refl)

  reasoning_planned_effect : apply_reasoning_planned s e ≡ ok t → core t ≡ core s
  unfolding apply_reasoning_planned
  reasoning_planned_effect p =
      let (u, active, p₁) = >>=-eq-ok (require_active_state s Status.reasoning) _ p in
      let (named, p₂) = through (e.payload.action_id == "") DomainError.invalid_event _ p₁ in
      let (free, p₃) = through (s.pending_action_id != "") DomainError.invalid_transition _ p₂ in
      ap core (sym (ok-injective p₃))

  reasoning_completed_effect :
      apply_reasoning_completed s e ≡ ok t
      → (logical (core s) ≡ Status.reasoning) × (core t ≡ move (core s) Status.acting)
  unfolding apply_reasoning_completed
  reasoning_completed_effect p =
      let (was_paused, planned, p₁) =
        >>=-eq-ok (require_planned_result_state s Status.reasoning) _ p in
      let (u, pending, p₂) = >>=-eq-ok (require_pending_action s e.payload.action_id) _ p₁ in
      let (u', named, p₃) = >>=-eq-ok (reject (e.payload.tool_name == "") _) _ p₂ in
      let (t', advanced, p₄) = >>=-eq-ok (advance_planned_result s was_paused Status.acting) _ p₃ in
      let (at_reasoning, e') = planned-effect s Status.reasoning was_paused refl planned in
      (
        at_reasoning,
        ap core (sym (ok-injective p₄))
            ∙ ap core (planned_branch s Status.acting was_paused e' advanced)
            ∙ core-moved s Status.acting,
      )

  tool_call_failed_effect :
      apply_tool_call_failed s e ≡ ok t → core t ≡ record (core s) { explained = true }
  unfolding apply_tool_call_failed
  tool_call_failed_effect p =
      let (w, planned, p₁) = >>=-eq-ok (require_planned_result_state s Status.reasoning) _ p in
      let (u, pending, p₂) = >>=-eq-ok (require_pending_action s e.payload.action_id) _ p₁ in
      let (why, p₃) = through (e.payload.reason == "") DomainError.invalid_event _ p₂ in
      ap core (sym (ok-injective p₃)) ∙ rw why refl

  patch_produced_effect :
      apply_patch_produced s e ≡ ok t
      → (logical (core s) ≡ Status.acting)
        × (core t ≡ record (move (core s) Status.verifying) { patched = true })
  unfolding apply_patch_produced
  patch_produced_effect p =
      let (u, active, p₁) = >>=-eq-ok (require_active_state s Status.acting) _ p in
      let (named, p₂) = through (e.payload.action_id == "") DomainError.invalid_event _ p₁ in
      let (t', went, q) = >>=-eq-ok (transition s Status.verifying) _ p₂ in
      let (at, idle) = live_at s Status.acting (active-effect s _ active) refl in
      let r = (transition-effect s Status.verifying went).1 in
      (at, ap core (sym (ok-injective q)) ∙ rw (r, idle) refl)

  verification_planned_effect : apply_verification_planned s e ≡ ok t → core t ≡ core s
  unfolding apply_verification_planned
  verification_planned_effect p =
      let (u, active, p₁) = >>=-eq-ok (require_active_state s Status.verifying) _ p in
      let (open_still, p₂) = through s.verification_passed DomainError.invalid_transition _ p₁ in
      let (named, p₃) = through (e.payload.action_id == "") DomainError.invalid_event _ p₂ in
      let (free, p₄) = through (s.pending_action_id != "") DomainError.invalid_transition _ p₃ in
      ap core (sym (ok-injective p₄))

  verification_passed_effect :
      apply_verification_passed s e ≡ ok t
      → (logical (core s) ≡ Status.verifying) × (core t ≡ record (core s) { passed = true })
  unfolding apply_verification_passed
  verification_passed_effect p =
      let (w, planned, p₁) = >>=-eq-ok (require_planned_result_state s Status.verifying) _ p in
      let (u, pending, p₂) = >>=-eq-ok (require_pending_action s e.payload.action_id) _ p₁ in
      ((planned-effect s Status.verifying w refl planned).0, ap core (sym (ok-injective p₂)))

  run_succeeded_effect :
      apply_run_succeeded s e ≡ ok t
      → (logical (core s) ≡ Status.verifying)
        × (s.verification_passed ≡ true)
        × (core t ≡ move (core s) Status.succeeded)
  unfolding apply_run_succeeded
  run_succeeded_effect p =
      let (u, active, p₁) = >>=-eq-ok (require_active_state s Status.verifying) _ p in
      let (evidence, p₂) =
        through (not s.verification_passed || s.pending_action_id != "")
          DomainError.invalid_transition _ p₁ in
      let (at, idle) = live_at s Status.verifying (active-effect s _ active) refl in
      let r = (transition-effect s Status.succeeded p₂).1 in
      (at, holds_of_not _ (none_of (not s.verification_passed) _ evidence).0, rw (r, idle) refl)

  run_failed_effect :
      apply_run_failed s e ≡ ok t
      → (s.run.desired_state ≡ DesiredState.running)
        × Edge s.run.observed_state Status.failed
        × (core t ≡ record (core s) { observed = Status.failed; explained = true })
  unfolding apply_run_failed
  run_failed_effect p =
      let why = if e.payload.reason != "" then e.payload.reason else s.failure_reason in
      let (there, p₁) = through (not s.exists) DomainError.invalid_transition _ p in
      let (intent, p₂) =
        through (s.run.desired_state != DesiredState.running) DomainError.invalid_transition _ p₁ in
      let (explained, p₃) = through (why == "") DomainError.invalid_event _ p₂ in
      let (edge, r) =
        transition-effect (record s { failure_reason = why; pending_action_id = "" }) Status.failed
          p₃ in
      (eq_of_!= _ _ intent, edge, rw (r, explained) refl)

  run_cancelled_effect :
      apply_run_cancelled s e ≡ ok t
      → (s.run.desired_state ≡ DesiredState.cancelled)
        × Edge s.run.observed_state Status.cancelled
        × (core t ≡ record (core s) { observed = Status.cancelled })
  unfolding apply_run_cancelled
  run_cancelled_effect p =
      let (wanted, p₁) =
        through (not s.exists || s.run.desired_state != DesiredState.cancelled)
          DomainError.invalid_transition _ p in
      let (edge, r) = transition-effect (record s { pending_action_id = "" }) Status.cancelled p₁ in
      (eq_of_!= _ _ (none_of (not s.exists) _ wanted).1, edge, rw r refl)

  pub lease-Step : apply_lease_event s e ≡ ok t → Step (core s) (core t)
  lease-Step p = step_to (ap core (lease_effect p)) Step.note

  pub attempt_started-Step : apply_attempt_started s e ≡ ok t → Step (core s) (core t)
  attempt_started-Step p =
      let (at, q) = attempt_started_effect p in step_to q (Step.start_attempt at)

  pub workspace-Step : apply_workspace_provisioned s e ≡ ok t → Step (core s) (core t)
  workspace-Step p = let (at, q) = workspace_effect p in step_to q (Step.provision at)

  pub reasoning_planned-Step : apply_reasoning_planned s e ≡ ok t → Step (core s) (core t)
  reasoning_planned-Step p = step_to (reasoning_planned_effect p) Step.note

  pub reasoning_completed-Step : apply_reasoning_completed s e ≡ ok t → Step (core s) (core t)
  reasoning_completed-Step p =
      let (at, q) = reasoning_completed_effect p in step_to q (Step.reason at)

  pub tool_call_failed-Step : apply_tool_call_failed s e ≡ ok t → Step (core s) (core t)
  tool_call_failed-Step p = step_to (tool_call_failed_effect p) Step.explain

  pub patch_produced-Step : apply_patch_produced s e ≡ ok t → Step (core s) (core t)
  patch_produced-Step p = let (at, q) = patch_produced_effect p in step_to q (Step.patch at)

  pub verification_planned-Step : apply_verification_planned s e ≡ ok t → Step (core s) (core t)
  verification_planned-Step p = step_to (verification_planned_effect p) Step.note

  pub verification_passed-Step : apply_verification_passed s e ≡ ok t → Step (core s) (core t)
  verification_passed-Step p =
      let (at, q) = verification_passed_effect p in step_to q (Step.verify at)

  pub run_succeeded-Step : apply_run_succeeded s e ≡ ok t → Step (core s) (core t)
  run_succeeded-Step p =
      let (at, passed, q) = run_succeeded_effect p in step_to q (Step.succeed at passed)

  pub run_failed-Step : apply_run_failed s e ≡ ok t → Step (core s) (core t)
  run_failed-Step p =
      let (at, passed, q) = run_failed_effect p in step_to q (Step.fail_now at passed)

  pub run_cancelled-Step : apply_run_cancelled s e ≡ ok t → Step (core s) (core t)
  run_cancelled-Step p =
      let (at, passed, q) = run_cancelled_effect p in step_to q (Step.cancel_now at passed)
