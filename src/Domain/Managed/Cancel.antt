-- ===== src/Domain/Managed/Cancel.antt =====
-- CancelRun of a paused run under the managed protocol (internal/domain/reducer.go).
use agent_dock_coedx5_6sol.Prelude.{
  ◌≡◌, ◌==◌, ◌!=◌, true, false, String, string_eq, ok, Bool, ◌&&◌, refl, sym, ap, ◌∙◌, >>=-eq-ok,
  ok-injective, reject, reject-eq-ok, none_of, eq_of_!=, if◌then◌else◌, if_true,
}
use agent_dock_coedx5_6sol.Domain.Types.{
  DesiredState, Status, CommandType, State, Event, EventData, status_eq, desired_eq,
  command_type_eq,
}
use agent_dock_coedx5_6sol.Domain.Transition.{
  DomainError, require_managed_pending_action, advance_managed_state,
}
use agent_dock_coedx5_6sol.Domain.Decide.{Sha256, command_for, decide}
use agent_dock_coedx5_6sol.Domain.Decide.Progress.{decide_cancel}
use agent_dock_coedx5_6sol.Domain.Lifecycle.Effects.{advance-effect}
use agent_dock_coedx5_6sol.Domain.Managed.{
  cancel_wins, clear_pending, completed_result, apply_action_completed,
  apply_completed_action_result,
}

-- A managed result is for the pending action, and of its type.
pub pending_match :
    (s : State) (id : String) (kind : CommandType) {u : Unit {0}}
    → require_managed_pending_action s id kind ≡ ok u
    → (id ≡ s.pending_action_id) × (kind ≡ s.pending_action_type)
unfolding require_managed_pending_action
pending_match s id kind p =
    let (p₁, same_kind) = none_of _ _ (reject-eq-ok _ _ p) in
    let (p₂, typed) = none_of _ _ p₁ in
    let (named, same_id) = none_of _ _ p₂ in (eq_of_!= id _ same_id, eq_of_!= kind _ same_kind)

-- The result of CancelRun is never dropped.
cancel_result :
    (b : Bool) (s : State) (d : EventData) {t : State} (kind : CommandType)
    → kind ≡ CommandType.cancel_run
    → (if b && kind != CommandType.cancel_run then ok s else completed_result kind s d) ≡ ok t
    → completed_result CommandType.cancel_run s d ≡ ok t
cancel_result b s d kind e p = at_cancel b (rw e at p)
  where
    at_cancel :
        (b : Bool) {t : State}
        → (if b && false then ok s else completed_result CommandType.cancel_run s d) ≡ ok t
        → completed_result CommandType.cancel_run s d ≡ ok t
    at_cancel true p = p
    at_cancel false p = p

-- What the completion of CancelRun does to a paused run.
cancelled_paused :
    (s : State) (d : EventData) {t : State}
    → s.run.observed_state ≡ Status.paused
    → completed_result CommandType.cancel_run s d ≡ ok t
    → (s.run.desired_state ≡ DesiredState.cancelled)
      × (t ≡ record s { resume_state = Status.cancelled })
unfolding completed_result advance_managed_state
cancelled_paused s d at p =
    let (u, intent, p₁) =
      >>=-eq-ok
        (reject (s.run.desired_state != DesiredState.cancelled) DomainError.invalid_transition) _
        p in
    (
      eq_of_!= _ DesiredState.cancelled (reject-eq-ok _ _ intent),
      (advance-effect s Status.cancelled p₁).1
          ∙ if_true (s.run.observed_state == Status.paused) _ _ (rw at refl),
    )

-- A completion of the pending CancelRun that is accepted for a paused run leaves the run in Paused,
-- with nothing pending and Cancelled as the state to resume; the decision for it is the same command
-- again, under the same action id.
pub cancel_of_paused_repeats :
    (sha : Sha256) (s : State) (e : Event) {t : State}
    → s.exists ≡ true
    → s.run.observed_state ≡ Status.paused
    → s.pending_action_type ≡ CommandType.cancel_run
    → apply_action_completed s e ≡ ok t
    → (t.run.observed_state ≡ Status.paused)
      × (t.resume_state ≡ Status.cancelled)
      × (t.pending_action_id ≡ "")
      × (decide sha t ≡ decide sha s)
unfolding apply_action_completed apply_completed_action_result clear_pending command_for
cancel_of_paused_repeats sha s e {t} there at kind p =
    let (u, receipt, p₁) =
      >>=-eq-ok (reject (e.payload.receipt_id == "") DomainError.invalid_event) _ p in
    let (u', pending, p₂) =
      >>=-eq-ok (require_managed_pending_action s e.payload.action_id e.payload.action_type) _ p₁ in
    let is_cancel = (pending_match s _ e.payload.action_type pending).1 ∙ kind in
    let (t', result, q) =
      >>=-eq-ok
        (if cancel_wins s e.payload then ok s else apply_completed_action_result s e.payload) _
        p₂ in
    let (intent, r) = cancelled_paused s e.payload at (
      cancel_result (s.run.desired_state == DesiredState.cancelled) s e.payload
        e.payload.action_type is_cancel result) in
    let done =
      sym (ok-injective q)
      ∙ ap
          (λ (v : State). record (clear_pending v) {
            last_completed_action_id = e.payload.action_id;
            last_receipt_id = e.payload.receipt_id;
          })
          r in
    let next = record (clear_pending s) {
      resume_state = Status.cancelled;
      last_completed_action_id = e.payload.action_id;
      last_receipt_id = e.payload.receipt_id;
    } in
    let decided : decide sha t ≡ decide sha s =
      ap (decide sha) done
      ∙ decide_cancel sha next there (rw at refl) intent
      ∙ sym (decide_cancel sha s there (rw at refl) intent) in
    (
      ap (λ (v : State). v.run.observed_state) done ∙ at,
      ap (λ (v : State). v.resume_state) done,
      ap (λ (v : State). v.pending_action_id) done,
      decided,
    )
