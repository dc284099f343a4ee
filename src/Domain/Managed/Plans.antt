-- ===== src/Domain/Managed/Plans.antt =====
-- A plan for what Decide chose is accepted (applyActionPlanned of internal/domain/reducer.go).
use agent_dock_coedx5_6sol.Prelude.{
  ◌≡◌, ◌==◌, ◌!=◌, ◌||◌, ◌&&◌, String, string_eq, Bool, true, false, not, ok, refl, skip, ap, ◌∙◌,
  !=_self, reject,
}
use agent_dock_coedx5_6sol.Domain.Types.{
  CommandType, IdempotencyScope, State, Event, EventData, empty_data, scope_valid, command_type_eq,
  status_eq, desired_eq,
}
use agent_dock_coedx5_6sol.Domain.Transition.{DomainError}
use agent_dock_coedx5_6sol.Domain.Decide.{Sha256, decide}
use agent_dock_coedx5_6sol.Domain.Decide.Progress.{decide-IsNamed}
use agent_dock_coedx5_6sol.Domain.Managed.{plan_guard, apply_action_planned}

-- The payload of the ActionPlanned event for the decision.
abbrev pub decided_plan : Sha256 → State → IdempotencyScope → EventData
decided_plan sha s scope = record empty_data {
  action_id = (decide sha s).action_id;
  action_type = (decide sha s).kind;
  attempt_id = (decide sha s).attempt_id;
  idempotency_scope = scope;
}

-- The last test of applyActionPlanned does not fail for the attempt of the decision.
last_test : (b : Bool) (a : String) → (b && a != a) ≡ false
last_test true a = !=_self a
last_test false a = refl

module _ (sha : Sha256) (s : State) (scope : IdempotencyScope) (there : s.exists ≡ true)
    (free : (s.pending_action_id == "") ≡ true) (valid : scope_valid scope ≡ true)
    (acts : ((decide sha s).kind == CommandType.noop) ≡ false) where
  plan_allowed : plan_guard sha s (decided_plan sha s scope) ≡ ok tt
  unfolding plan_guard
  plan_allowed =
      let c = decide sha s in
      let (named, typed) = decide-IsNamed sha s free acts in
      skip (not s.exists) _ _ (rw there refl)
      ∙ skip (c.action_id == "" || c.kind == CommandType.unset || not (scope_valid scope)) _ _
          (rw (named, typed, valid) refl)
      ∙ skip (s.pending_action_id != "") _ _ (rw free refl)
      ∙ skip (c.kind == CommandType.noop || c.kind != c.kind || c.action_id != c.action_id) _ _
          (rw (acts, !=_self c.kind, !=_self c.action_id) refl)
      ∙ ap (λ b. reject b DomainError.invalid_transition)
          (last_test (c.kind == CommandType.start_attempt) c.attempt_id)

  -- For an existing run with nothing pending, and a valid scope, the plan of the decision is accepted
  -- if that is not Noop, and becomes what is pending; nothing else changes.
  pub apply_action_planned-decide :
      (e : Event)
      → e.payload ≡ decided_plan sha s scope
      → apply_action_planned sha s e
        ≡ ok (record s {
          pending_action_id = (decide sha s).action_id;
          pending_action_type = (decide sha s).kind;
          pending_attempt_id = (decide sha s).attempt_id;
          pending_action_scope = scope;
        })
  unfolding apply_action_planned
  apply_action_planned-decide e q = rw (q, plan_allowed) refl
