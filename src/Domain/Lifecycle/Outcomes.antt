-- ===== src/Domain/Lifecycle/Outcomes.antt =====
-- How the run of a log may end (internal/domain/reducer.go).
use agent_dock_coedx5_6sol.Prelude.{
  ℕ, ◌+◌, ◌≡◌, ◌≢◌, ◌==◌, ◌>>=◌, String, string_eq, true, false, List, ◌∷◌, ◌++◌, ok, refl, arith,
  length, sym, ◌∙◌, >>=-eq-ok, reject-eq-ok, ap, ◌!=◌, nat_eq, int_eq, ◌&&◌, through, length, [],
}
use agent_dock_coedx5_6sol.Domain.Types.{
  Status, State, Event, initial_state, current_payload_version, terminal, status_eq,
}
use agent_dock_coedx5_6sol.Domain.Decide.{Sha256}
use agent_dock_coedx5_6sol.Domain.Transition.{DomainError}
use agent_dock_coedx5_6sol.Domain.Reduce.{key_used, reduce_guard, reduce_step, reduce_from, reduce}
use agent_dock_coedx5_6sol.Domain.Reduce.Append.{round, reduce_from-append, keys_after}
use agent_dock_coedx5_6sol.Domain.Lifecycle.{Core, core}
use agent_dock_coedx5_6sol.Domain.Lifecycle.Coherence.{IsCoherent}
use agent_dock_coedx5_6sol.Domain.Lifecycle.Logs.{reduce-IsCoherent}

-- The tests of Reduce let no event follow the end of a run.
guard_live :
    (index : ℕ) (keys : List String) (s : State) (e : Event)
    → reduce_guard index keys s e ≡ ok tt
    → (s.exists && terminal s.run.observed_state) ≡ false
unfolding reduce_guard
guard_live index keys s e p =
    let (h₁, p₁) = through (e.seq != index + 1) DomainError.invalid_sequence _ p in
    let (h₂, p₂) = through (e.run_id == "") DomainError.invalid_event _ p₁ in
    let (h₃, p₃) = through (e.idempotency_key == "") DomainError.invalid_event _ p₂ in
    let (h₄, p₄) =
      through (e.payload_version != current_payload_version) DomainError.invalid_event _ p₃ in
    let (h₅, p₅) =
      through (key_used keys e.idempotency_key) DomainError.duplicate_idempotency_key _ p₄ in
    let (h₆, p₆) = through (s.exists && e.run_id != s.run.id) DomainError.invalid_event _ p₅ in
    reject-eq-ok _ DomainError.terminal_state p₆

reduce_from-ended :
    (sha : Sha256) (index : ℕ) (keys : List String) (s : State) (e : Event) (es : List Event)
    (t : State)
    → (s.exists && terminal s.run.observed_state) ≡ true
    → reduce_from sha index keys s (e ∷ es) ≢ ok t
unfolding reduce_from
reduce_from-ended sha index keys s e es t ended p =
    let (u, stepped, rest) = >>=-eq-ok (reduce_step sha index keys s e) _ p in
    let (v, guard, applied, q) = round sha index keys s e stepped in
    cc (ended, guard_live index keys s e guard)

succeeded_phase :
    (c : Core)
    → IsCoherent c
    → c.observed ≡ Status.succeeded
    → (c.attempts ≡ 1) × (c.named ≡ true) × (c.patched ≡ true) × (c.passed ≡ true)
succeeded_phase c h q = ground (arith, h.phase, q)

module _ (sha : Sha256) (e : Event) (es : List Event) {t : State}
    (p : reduce sha (e ∷ es) ≡ ok t) where
  -- A run that has succeeded has made one attempt, which has an identity, has produced its patch and
  -- has passed verification.
  pub reduce-succeeded :
      t.run.observed_state ≡ Status.succeeded
      → (t.run.current_attempt ≡ 1)
        × ((t.attempt_id == "") ≡ false)
        × (t.patch_produced ≡ true)
        × (t.verification_passed ≡ true)
  reduce-succeeded q =
      let (n, named, patched, passed) = succeeded_phase (core t) (reduce-IsCoherent sha e es p) q in
      (n, ground (arith, named), patched, passed)

  -- A log that has ended a run is accepted with no further event.
  pub reduce-ended :
      terminal t.run.observed_state ≡ true
      → (x : Event) (more : List Event) (u : State) → reduce sha (e ∷ es ++ x ∷ more) ≢ ok u
  unfolding reduce
  reduce-ended ended x more u q =
      reduce_from-ended sha _ _ t x more u
        (rw ((reduce-IsCoherent sha e es p).existing, ended) refl)
        (after (sym (reduce_from-append sha 0 [] initial_state (e ∷ es) (x ∷ more)) ∙ q))
    where
      after :
          (reduce_from sha 0 [] initial_state (e ∷ es) >>= λ s.
          reduce_from sha (0 + length (e ∷ es)) (keys_after [] (e ∷ es)) s (x ∷ more))
            ≡ ok u
          → reduce_from sha (0 + length (e ∷ es)) (keys_after [] (e ∷ es)) t (x ∷ more) ≡ ok u
      after r =
          sym (
            ap
              (λ m. m >>= λ s.
                reduce_from sha (0 + length (e ∷ es)) (keys_after [] (e ∷ es)) s (x ∷ more))
              p)
          ∙ r
