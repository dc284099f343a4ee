-- ===== src/Domain/Lifecycle/Effects.antt =====
-- The helpers of internal/domain/reducer.go that guard or move a projection, as facts about its core.
use agent_dock_coedx5_6sol.Prelude.{
  ◌≡◌, ◌>>◌, Bool, true, false, refl, ◌==◌, if◌then◌else◌, ok, string_eq, eq_of_!=, >>=-eq-ok,
  reject-eq-ok, through, not, ◌&&◌, ◌!=◌, none_of, both, eq_of_==, ◌∙◌, sym, if_true, if_false, ◌⊎◌,
  inl, inr, err, ok-injective,
}
use agent_dock_coedx5_6sol.Domain.Types.{
  DesiredState, Status, State, status_eq, desired_eq, desired_eq, command_type_eq,
}
use agent_dock_coedx5_6sol.Domain.Transition.{
  DomainError, validate_transition, require_active_state, transition, advance_managed_state,
  require_managed_logical_state, require_planned_result_state, advance_planned_result,
}
use agent_dock_coedx5_6sol.Domain.Lifecycle.{core, move, logical, Edge}

-- `s` moved to `next`, or its resume state if it is paused.
abbrev pub moved : State → Status → State
moved s next =
    if s.run.observed_state == Status.paused
    then record s { resume_state = next }
    else record s { run = record s.run { observed_state = next } }

module _ (s : State) (next : Status) where
  core_branch :
      (b : Bool)
      → core (
          if b
          then record s { resume_state = next }
          else record s { run = record s.run { observed_state = next } })
        ≡ (if b then record (core s) { resume = next } else record (core s) { observed = next })
  core_branch true = refl
  core_branch false = refl

  pub core-moved : core (moved s next) ≡ move (core s) next
  core-moved = core_branch (s.run.observed_state == Status.paused)

  pub transition-effect :
      {t : State}
      → transition s next ≡ ok t
      → Edge s.run.observed_state next
        × (t ≡ record s { run = record s.run { observed_state = next } })
  unfolding transition
  transition-effect p =
      let (u, edge, q) = >>=-eq-ok (validate_transition s.run.observed_state next) _ p in (edge, cc)

  advance_branch :
      (is_paused : Bool) {t : State}
      → (if is_paused
          then (do validate_transition s.resume_state next; ok (record s { resume_state = next }))
          else transition s next)
        ≡ ok t
      → Edge (if is_paused then s.resume_state else s.run.observed_state) next
        × (t ≡ (
            if is_paused
            then record s { resume_state = next }
            else record s { run = record s.run { observed_state = next } }))
  advance_branch true p =
      let (u, edge, q) = >>=-eq-ok (validate_transition s.resume_state next) _ p in (edge, cc)
  advance_branch false p = transition-effect p

  pub advance-effect :
      {t : State}
      → advance_managed_state s next ≡ ok t
      → Edge (logical (core s)) next × (t ≡ moved s next)
  unfolding advance_managed_state
  advance-effect p = advance_branch (s.run.observed_state == Status.paused) p

  pub logical-effect :
      {u : Unit {0}} → require_managed_logical_state s next ≡ ok u → logical (core s) ≡ next
  unfolding require_managed_logical_state
  logical-effect p = eq_of_!= _ next (reject-eq-ok _ _ p)

  pub planned_branch :
      (was_paused : Bool) {t : State}
      → (s.run.observed_state == Status.paused) ≡ was_paused
      → advance_planned_result s was_paused next ≡ ok t
      → t ≡ moved s next
  unfolding advance_planned_result
  planned_branch true e p =
      let (u, edge, q) = >>=-eq-ok (validate_transition s.resume_state next) _ p in rw e (cc)
  planned_branch false e p = let (edge, q) = transition-effect p in rw e q

-- The one way through the tests of requirePlannedResultState.
planned_cases :
    (active held : Bool) (e : DomainError) {w : Bool}
    → (if active then ok false else if held then ok true else err e) ≡ ok w
    → ((active ≡ true) × (w ≡ false)) ⊎ ((held ≡ true) × (w ≡ true))
planned_cases true held e p = inl (refl, sym (ok-injective p))
planned_cases false true e p = inr (refl, sym (ok-injective p))
planned_cases false false e p = cc

-- A planned result lands on a run that is in the state of the action, or on a paused one that will
-- come back to it.
pub planned-effect :
    (s : State) (expected : Status) (was_paused : Bool)
    → (expected == Status.paused) ≡ false
    → require_planned_result_state s expected ≡ ok was_paused
    → (logical (core s) ≡ expected) × ((s.run.observed_state == Status.paused) ≡ was_paused)
unfolding require_planned_result_state
planned-effect s expected was_paused other p =
    let (there, p₁) = through (not s.exists) DomainError.invalid_transition _ p in
    elim (planned_cases
      (s.run.desired_state == DesiredState.running && s.run.observed_state == expected)
      (s.run.desired_state == DesiredState.paused
        && s.run.observed_state == Status.paused
        && s.resume_state == expected)
      DomainError.invalid_transition p₁) [
        | inl (active, w) ↦
            let at = eq_of_== s.run.observed_state expected (both _ _ active).1 in
            let idle : (s.run.observed_state == Status.paused) ≡ false = rw at other in
            (if_false _ _ _ idle ∙ at, idle ∙ sym w)
        | inr (held, w) ↦
            let (paused, resume) =
              both
                (s.run.desired_state == DesiredState.paused
                  && s.run.observed_state == Status.paused)
                _ held in
            let at = (both (s.run.desired_state == DesiredState.paused) _ paused).1 in
            (if_true _ _ _ at ∙ eq_of_== s.resume_state expected resume, at ∙ sym w)
      ]

-- An active result lands on a running run in the state of the action.
pub active-effect :
    (s : State) (expected : Status) {u : Unit {0}}
    → require_active_state s expected ≡ ok u
    → s.run.observed_state ≡ expected
unfolding require_active_state
active-effect s expected p =
    let (there, p₁) = through (not s.exists) DomainError.invalid_transition _ p in
    eq_of_!= s.run.observed_state expected
      (none_of (s.run.desired_state != DesiredState.running) _ (reject-eq-ok _ _ p₁)).1

-- A run in a state that is not Paused.
pub live_at :
    (s : State) (expected : Status)
    → s.run.observed_state ≡ expected
    → (expected == Status.paused) ≡ false
    → (logical (core s) ≡ expected) × ((s.run.observed_state == Status.paused) ≡ false)
live_at s expected at other =
    let idle : (s.run.observed_state == Status.paused) ≡ false = rw at other in
    (if_false _ _ _ idle ∙ at, idle)
