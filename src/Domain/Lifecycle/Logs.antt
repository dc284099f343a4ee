-- ===== src/Domain/Lifecycle/Logs.antt =====
-- What holds of the projection of every log that Reduce accepts (internal/domain/reducer.go).
use agent_dock_coedx5_6sol.Prelude.{
  ℕ, ◌+◌, ◌≡◌, ◌==◌, String, string_eq, nat_eq, true, false, List, [], ◌∷◌, ok, refl, arith, ap,
  sym, ◌∙◌, subst, >>=-eq-ok, ok-injective,
}
use agent_dock_coedx5_6sol.Domain.Types.{EventType, State, Event, initial_state}
use agent_dock_coedx5_6sol.Domain.Transition.{validate_transition}
use agent_dock_coedx5_6sol.Domain.Decide.{Sha256}
use agent_dock_coedx5_6sol.Domain.Managed.{
  apply_action_planned, plan_guard, apply_action_completed, apply_action_failed,
}
use agent_dock_coedx5_6sol.Domain.Apply.{apply_event, dispatch}
use agent_dock_coedx5_6sol.Domain.Reduce.{stamp, reduce_step, reduce_from, reduce}
use agent_dock_coedx5_6sol.Domain.Reduce.Append.{round, guard_run_id}
use agent_dock_coedx5_6sol.Domain.Lifecycle.{Core, core, fresh, Step}
use agent_dock_coedx5_6sol.Domain.Lifecycle.Coherence.{
  IsCoherent, fresh-IsCoherent, Step-IsCoherent, Step-id,
}
use agent_dock_coedx5_6sol.Domain.Lifecycle.Refinement.{apply_event-Step}

pub core-stamp : (s : State) (e : Event) → core (stamp s e) ≡ core s
unfolding stamp
core-stamp s e = refl

-- Only RunCreated is accepted first.
first_dispatch :
    (sha : Sha256) (kind : EventType) (e : Event) {t : State}
    → dispatch sha kind initial_state e ≡ ok t
    → core t ≡ fresh e.run_id
unfolding dispatch validate_transition apply_action_planned plan_guard apply_action_completed
    apply_action_failed
first_dispatch sha EventType.run_created e p = ap core (sym (ok-injective p))
first_dispatch sha EventType.action_planned e p = ground arith
first_dispatch sha EventType.action_completed e p = ground arith
first_dispatch sha EventType.action_failed e p = ground arith
first_dispatch sha _ e p = cc

first_event :
    (sha : Sha256) (e : Event) {t : State}
    → apply_event sha initial_state e ≡ ok t
    → core t ≡ fresh e.run_id
unfolding apply_event
first_event sha e p = first_dispatch sha e.kind e p

-- The run of a log has the identity that its first event names.
first_round :
    (sha : Sha256) (e : Event) {t : State}
    → reduce_step sha 0 [] initial_state e ≡ ok t
    → core t ≡ fresh e.run_id
first_round sha e p =
    let (u, guard, applied, q) = round sha 0 [] initial_state e p in
    ap core q ∙ core-stamp u e ∙ first_event sha e applied

module _ (sha : Sha256) where
  -- A later round is one step of the abstract lifecycle.
  pub round-Step :
      (index : ℕ) (keys : List String) (s : State) (e : Event) {t : State}
      → s.exists ≡ true
      → reduce_step sha index keys s e ≡ ok t
      → Step (core s) (core t)
  round-Step index keys s e there p =
      let (u, guard, applied, q) = round sha index keys s e p in
      subst (Step (core s)) (sym (ap core q ∙ core-stamp u e))
        (apply_event-Step sha s e there applied)

  -- What holds of a fresh run and is kept by each step holds of every log that starts that run.
  module _ (P : Core → Type 0) (keep : (c d : Core) → Step c d → IsCoherent c → P c → P d) where
    rest_induction :
        (index : ℕ) (keys : List String) (s : State) (es : List Event) {t : State}
        → IsCoherent (core s)
        → P (core s)
        → reduce_from sha index keys s es ≡ ok t
        → IsCoherent (core t) × P (core t)
    unfolding reduce_from
    rest_induction index keys s [] h k p =
        subst (λ u. IsCoherent (core u) × P (core u)) (ok-injective p) (h, k)
    rest_induction index keys s (e ∷ es) h k p =
        let (u, stepped, p₁) = >>=-eq-ok (reduce_step sha index keys s e) _ p in
        let st = round-Step index keys s e h.existing stepped in
        rest_induction (index + 1) (e.idempotency_key ∷ keys) u es (Step-IsCoherent st h)
          (keep _ _ st h k) p₁

    pub log_induction :
        (e : Event) (es : List Event) {t : State}
        → ((e.run_id == "") ≡ false → P (fresh e.run_id))
        → reduce sha (e ∷ es) ≡ ok t
        → IsCoherent (core t) × P (core t)
    unfolding reduce reduce_from
    log_induction e es start p =
        let (u, stepped, p₁) = >>=-eq-ok (reduce_step sha 0 [] initial_state e) _ p in
        let (v, guard, applied, q) = round sha 0 [] initial_state e stepped in
        let made = sym (first_round sha e stepped) in
        rest_induction 1 (e.idempotency_key ∷ []) u es
          (subst IsCoherent made (fresh-IsCoherent e.run_id))
          (subst P made (start (guard_run_id 0 [] initial_state e guard))) p₁

  -- The run of a log that Reduce accepts has the identity that the first event names, which is not
  -- empty.
  pub reduce-id :
      (e : Event) (es : List Event) {t : State}
      → reduce sha (e ∷ es) ≡ ok t
      → (t.run.id ≡ e.run_id) × ((t.run.id == "") ≡ false)
  reduce-id e es p =
      (log_induction (λ c. (c.id ≡ e.run_id) × ((c.id == "") ≡ false))
        (λ c d st h k. let same = (Step-id st).0 in (same ∙ k.0, rw same k.1)) e es
        (λ named. (refl, named)) p).1

  -- Every projection that Reduce returns for a log with an event is coherent.
  pub reduce-IsCoherent :
      (e : Event) (es : List Event) {t : State} → reduce sha (e ∷ es) ≡ ok t → IsCoherent (core t)
  reduce-IsCoherent e es p =
      (log_induction (λ c. Unit {0}) (λ c d st h k. tt) e es (λ named. tt) p).0
