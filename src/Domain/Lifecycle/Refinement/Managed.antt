-- ===== src/Domain/Lifecycle/Refinement/Managed.antt =====
-- Each accepted intent and each accepted managed event is one step of the abstract lifecycle.
use agent_dock_coedx5_6sol.Prelude.{
  String, ◌+◌, ◌≡◌, ◌==◌, ◌!=◌, holds_of_not, ◌&&◌, Bool, true, false, not, string_eq,
  if◌then◌else◌, ok, arith, subst, sym, ap, ◌∙◌, >>=-eq-ok, ok-injective, reject, reject-eq-ok,
  eq_of_!=, through, none_of, ◌||◌, refl,
}
use agent_dock_coedx5_6sol.Domain.Types.{
  DesiredState, Status, CommandType, ActionOutcome, State, outcome_eq, Event, EventData, status_eq,
  desired_eq,
}
use agent_dock_coedx5_6sol.Domain.Transition.{
  DomainError, transition, advance_managed_state, require_managed_logical_state,
  require_managed_pending_action,
}
use agent_dock_coedx5_6sol.Domain.Desired.{pause, resume, request_cancel}
use agent_dock_coedx5_6sol.Domain.Decide.{Sha256}
use agent_dock_coedx5_6sol.Domain.Managed.{
  plan_guard, with_reason, apply_action_planned, completed_start_attempt, completed_run_reasoner,
  completed_fail_run, completed_result, clear_pending, apply_completed_action_result, cancel_wins,
  apply_action_completed, apply_action_failed,
}
use agent_dock_coedx5_6sol.Domain.Lifecycle.{Core, core, logical, move, Edge, Step}
use agent_dock_coedx5_6sol.Domain.Lifecycle.Effects.{
  transition-effect, advance-effect, logical-effect, core-moved,
}
use agent_dock_coedx5_6sol.Domain.Lifecycle.Refinement.Legacy.{step_to}

module _ (s : State) {t : State} where
  -- A plan touches only what is pending.
  pub planned_effect :
      (sha : Sha256) (e : Event) → apply_action_planned sha s e ≡ ok t → core t ≡ core s
  unfolding apply_action_planned
  planned_effect sha e p =
      let (u, guard, q) = >>=-eq-ok (plan_guard sha s e.payload) _ p in
      ap core (sym (ok-injective q))

  pub pause_effect :
      pause s ≡ ok t
      → ((s.run.desired_state == DesiredState.paused) ≡ false)
        × ((s.run.desired_state == DesiredState.cancelled) ≡ false)
        × Edge s.run.observed_state Status.paused
        × (core t ≡ record (core s) {
          desired = DesiredState.paused;
          observed = Status.paused;
          resume = s.run.observed_state;
        })
  unfolding pause
  pause_effect p =
      let (h, p₁) =
        through
          (s.run.desired_state == DesiredState.paused || s.run.observed_state == Status.paused)
          DomainError.invalid_transition _ p in
      let (k, p₂) =
        through (s.run.desired_state == DesiredState.cancelled) DomainError.invalid_transition _
          p₁ in
      let from = record s { resume_state = s.run.observed_state } in
      let (u, went, q) = >>=-eq-ok (transition from Status.paused) _ p₂ in
      let (edge, at) = transition-effect from Status.paused went in
      ((none_of _ _ h).0, k, edge, ap core (sym (ok-injective q)) ∙ rw at refl)

  pub resume_effect :
      resume s ≡ ok t
      → (s.run.desired_state ≡ DesiredState.paused)
        × (s.run.observed_state ≡ Status.paused)
        × Edge Status.paused s.resume_state
        × (core t ≡ record (core s) {
          desired = DesiredState.running;
          observed = s.resume_state;
          resume = Status.unset;
        })
  unfolding resume
  resume_effect p =
      let (h, p₁) =
        through
          (s.run.desired_state != DesiredState.paused
            || s.run.observed_state != Status.paused
            || s.resume_state == Status.unset)
          DomainError.invalid_transition _ p in
      let (u, went, q) = >>=-eq-ok (transition s s.resume_state) _ p₁ in
      let (edge, at) = transition-effect s s.resume_state went in
      let (wanted, paused) =
        none_of (s.run.desired_state != DesiredState.paused) _
          (none_of
            (s.run.desired_state != DesiredState.paused || s.run.observed_state != Status.paused) _
            h).0 in
      let here = eq_of_!= s.run.observed_state Status.paused paused in
      (
        eq_of_!= _ _ wanted,
        here,
        subst (λ o. Edge o s.resume_state) here edge,
        ap core (sym (ok-injective q)) ∙ rw at refl,
      )

  pub cancel_effect :
      request_cancel s ≡ ok t → (core t ≡ record (core s) { desired = DesiredState.cancelled })
  unfolding request_cancel
  cancel_effect p = ground arith

module _ (s : State) where
  -- A move of the projection is a move of its core.
  advanced :
      {t : State} (next : Status)
      → advance_managed_state s next ≡ ok t
      → core t ≡ move (core s) next
  advanced next p = ap core (advance-effect s next p).1 ∙ core-moved s next

abbrev provisioned : Bool → State → State
provisioned b s =
    if b
    then record s { resume_state = Status.provisioning }
    else record s { run = record s.run { observed_state = Status.provisioning } }

-- Starting an attempt, on a paused projection or on one that is not.
start_branch :
    (b : Bool) (s : State) (attempt_id : String)
    → (attempt_id == "") ≡ false
    → core (record (provisioned b s) {
      run = record (provisioned b s).run {
        current_attempt = (provisioned b s).run.current_attempt + 1;
      };
      attempt_id = attempt_id;
    })
      ≡ record (if b
          then record (core s) { resume = Status.provisioning }
          else record (core s) { observed = Status.provisioning }) {
            attempts = s.run.current_attempt + 1;
            named = true;
          }
start_branch true s a named = rw named refl
start_branch false s a named = rw named refl

has_reason :
    (s : State) (d : EventData)
    → (s.failure_reason == "" && d.reason == "") ≡ false
    → core (with_reason s d) ≡ record (core s) { explained = true }
unfolding with_reason
has_reason s d p = ground arith

module _ (s : State) (d : EventData) {t : State} where
  start_attempt_effect :
      completed_start_attempt s d ≡ ok t
      → (logical (core s) ≡ Status.queued)
        × (core t ≡ record (move (core s) Status.provisioning) {
          attempts = s.run.current_attempt + 1;
          named = true;
        })
  unfolding completed_start_attempt
  start_attempt_effect p =
      let (named, p₁) = through (d.attempt_id == "") DomainError.invalid_event _ p in
      let (u, at, p₂) = >>=-eq-ok (require_managed_logical_state s Status.queued) _ p₁ in
      let (t', adv, q) = >>=-eq-ok (advance_managed_state s Status.provisioning) _ p₂ in
      let (edge, r) = advance-effect s Status.provisioning adv in
      (
        logical-effect s _ at,
        ap core (sym (ok-injective q))
            ∙ rw r (start_branch (s.run.observed_state == Status.paused) s d.attempt_id named),
      )

  reasoner_effect :
      completed_run_reasoner s d ≡ ok t
      → (logical (core s) ≡ Status.reasoning) × (core t ≡ move (core s) Status.acting)
  unfolding completed_run_reasoner
  reasoner_effect p =
      let (u, at, p₁) = >>=-eq-ok (require_managed_logical_state s Status.reasoning) _ p in
      let (named, p₂) = through (d.tool_name == "") DomainError.invalid_event _ p₁ in
      let (t', adv, q) = >>=-eq-ok (advance_managed_state s Status.acting) _ p₂ in
      (logical-effect s _ at, ap core (sym (ok-injective q)) ∙ advanced s Status.acting adv)

  fail_run-Step : completed_fail_run s d ≡ ok t → Step (core s) (core t)
  unfolding completed_fail_run with_reason
  fail_run-Step p =
      let (u, reason, q) =
        >>=-eq-ok (reject (s.failure_reason == "" && d.reason == "") DomainError.invalid_event) _
          p in
      let same = has_reason s d (reject-eq-ok _ _ reason) in
      let (edge, at) = advance-effect (with_reason s d) Status.failed q in
      step_to (advanced (with_reason s d) Status.failed q ∙ ap (λ c. move c Status.failed) same)
        (Step.fail edge)

  provision_workspace-Step :
      completed_result CommandType.provision_workspace s d ≡ ok t → Step (core s) (core t)
  unfolding completed_result
  provision_workspace-Step p =
      let (u, at, q) = >>=-eq-ok (require_managed_logical_state s Status.provisioning) _ p in
      step_to (advanced s Status.reasoning q) (Step.provision (logical-effect s _ at))

  apply_patch-Step : completed_result CommandType.apply_patch s d ≡ ok t → Step (core s) (core t)
  unfolding completed_result
  apply_patch-Step p =
      let (u, at, q) = >>=-eq-ok (require_managed_logical_state s Status.acting) _ p in
      let (t', adv, r) = >>=-eq-ok (advance_managed_state s Status.verifying) _ q in
      step_to
        (ap core (sym (ok-injective r))
          ∙ ap (λ (c : Core). record c { patched = true }) (advanced s Status.verifying adv))
        (Step.patch (logical-effect s _ at))

  verify-Step : completed_result CommandType.verify s d ≡ ok t → Step (core s) (core t)
  unfolding completed_result
  verify-Step p =
      let (u, at, q) = >>=-eq-ok (require_managed_logical_state s Status.verifying) _ p in
      step_to (ap core (sym (ok-injective q))) (Step.verify (logical-effect s _ at))

  succeed_run-Step : completed_result CommandType.succeed_run s d ≡ ok t → Step (core s) (core t)
  unfolding completed_result
  succeed_run-Step p =
      let (u, at, q) = >>=-eq-ok (require_managed_logical_state s Status.verifying) _ p in
      let (u', passed, r) =
        >>=-eq-ok (reject (not s.verification_passed) DomainError.invalid_transition) _ q in
      step_to (advanced s Status.succeeded r)
        (Step.succeed (logical-effect s _ at) (holds_of_not _ (reject-eq-ok _ _ passed)))

  cancel_run-Step : completed_result CommandType.cancel_run s d ≡ ok t → Step (core s) (core t)
  unfolding completed_result
  cancel_run-Step p =
      let (u, at, q) =
        >>=-eq-ok
          (reject (s.run.desired_state != DesiredState.cancelled) DomainError.invalid_transition) _
          p in
      step_to (advanced s Status.cancelled q) (
        Step.cancel (eq_of_!= _ DesiredState.cancelled (reject-eq-ok _ _ at))
          (advance-effect s _ q).0)

  completed-Step : (kind : CommandType) → completed_result kind s d ≡ ok t → Step (core s) (core t)
  unfolding completed_result
  completed-Step CommandType.start_attempt p =
      let (at, q) = start_attempt_effect p in step_to q (Step.start_attempt at)
  completed-Step CommandType.provision_workspace p = provision_workspace-Step p
  completed-Step CommandType.run_reasoner p =
      let (at, q) = reasoner_effect p in step_to q (Step.reason at)
  completed-Step CommandType.apply_patch p = apply_patch-Step p
  completed-Step CommandType.verify p = verify-Step p
  completed-Step CommandType.succeed_run p = succeed_run-Step p
  completed-Step CommandType.fail_run p = fail_run-Step p
  completed-Step CommandType.cancel_run p = cancel_run-Step p
  completed-Step _ p = cc

explained_by :
    (s : State) (reason : String)
    → (reason == "") ≡ false
    → core (record (clear_pending s) { failure_reason = reason })
      ≡ record (core s) { explained = true }
unfolding clear_pending
explained_by s reason h = ground arith

-- Intent to cancel drops the result; else the result is a step.
result_step :
    (s : State) (d : EventData) {t : State} (dropped : Bool)
    → (if dropped then ok s else apply_completed_action_result s d) ≡ ok t
    → Step (core s) (core t)
unfolding apply_completed_action_result
result_step s d true p = step_to (ap core (sym (ok-injective p))) Step.note
result_step s d false p = completed-Step s d d.action_type p

-- Clearing what is pending leaves the core alone.
module _ (s : State) (e : Event) {t : State} where
  pub action_completed-Step : apply_action_completed s e ≡ ok t → Step (core s) (core t)
  unfolding apply_action_completed apply_completed_action_result
  action_completed-Step p =
      let (u, receipt, p₁) =
        >>=-eq-ok (reject (e.payload.receipt_id == "") DomainError.invalid_event) _ p in
      let (u', pending, p₂) =
        >>=-eq-ok (require_managed_pending_action s e.payload.action_id e.payload.action_type) _
          p₁ in
      let (t', result, q) =
        >>=-eq-ok
          (if cancel_wins s e.payload then ok s else apply_completed_action_result s e.payload) _
          p₂ in
      step_to (ap core (sym (ok-injective q)))
        (result_step s e.payload (cancel_wins s e.payload) result)

  failed_branch :
      (ambiguous : Bool) (r : State)
      → core r ≡ record (core s) { explained = true }
      → (if ambiguous then advance_managed_state r Status.waiting_approval else ok r) ≡ ok t
      → Step (core s) (core t)
  failed_branch true r same p =
      let (edge, at) = advance-effect r Status.waiting_approval p in
      step_to (advanced r Status.waiting_approval p ∙ ap (λ c. move c Status.waiting_approval) same)
        (Step.hold (subst (λ (c : Core). Edge (logical c) Status.waiting_approval) same edge))
  failed_branch false r same p = step_to (ap core (sym (ok-injective p)) ∙ same) Step.explain

  pub action_failed-Step : apply_action_failed s e ≡ ok t → Step (core s) (core t)
  unfolding apply_action_failed
  action_failed-Step p =
      let d = e.payload in
      let (u, pending, p₁) =
        >>=-eq-ok (require_managed_pending_action s d.action_id d.action_type) _ p in
      let (u', reason, p₂) = >>=-eq-ok (reject (d.reason == "") DomainError.invalid_event) _ p₁ in
      let (u'', outcome, p₃) =
        >>=-eq-ok
          (reject (d.outcome != ActionOutcome.failed && d.outcome != ActionOutcome.ambiguous)
            DomainError.invalid_event)
          _ p₂ in
      failed_branch
        (d.outcome == ActionOutcome.ambiguous && s.run.desired_state != DesiredState.cancelled)
        (record (clear_pending s) { failure_reason = d.reason })
        (explained_by s d.reason (reject-eq-ok _ _ reason)) p₃
