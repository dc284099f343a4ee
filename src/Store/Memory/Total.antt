-- ===== src/Store/Memory/Total.antt =====
-- Which errors the store in memory does not give (internal/store/memory.go).
use agent_dock_coedx5_6sol.Prelude.{
  ℕ, string_eq, nat_eq, ◌||◌, int_eq, Bool, not, ◌≡◌, refl, [], ◌∷◌, ◌++◌, ◌==◌, ◌!=◌, Option, none,
  some, Result, ok, err, ◌≢◌, reject, >>=-≢-err, reject-≢-err, length, get_elem?,
}
use agent_dock_coedx5_6sol.Domain.Types.{EventData, Event}
use agent_dock_coedx5_6sol.Domain.Transition.{DomainError}
use agent_dock_coedx5_6sol.Domain.Decide.{Sha256}
use agent_dock_coedx5_6sol.Domain.Reduce.{reduce}
use agent_dock_coedx5_6sol.Store.Errors.{StoreError}
use agent_dock_coedx5_6sol.Store.Equality.{event_eq}
use agent_dock_coedx5_6sol.Store.Memory.{
  MemoryEventStore, from_domain, event_at, replay, write, append_locked, append,
  validate_append_input, with_version, same_idempotent_event,
}
use agent_dock_coedx5_6sol.Store.Memory.Appends.{sequenced}
use agent_dock_coedx5_6sol.Store.Memory.Sound.{log, IsSound}

from_domain-in_range :
    {A : Type 0} (r : Result DomainError A) → from_domain r ≢ err StoreError.index_out_of_range
from_domain-in_range (ok a) = λ p. cc
from_domain-in_range (err e) = λ p. cc

module _ (sha : Sha256) (m : MemoryEventStore) (n : ℕ) (e : Event) where
  replay-in_range :
      (i : ℕ) {x : Event}
      → get_elem? (log m e.run_id) i ≡ some x
      → replay m e i ≢ err StoreError.index_out_of_range
  unfolding replay
  replay-in_range i at =
      >>=-≢-err (event_at (get_elem? (log m e.run_id) i)) _ _ (rw at (λ p. cc)) (λ x found.
        >>=-≢-err (reject (not (same_idempotent_event x e)) _) _ _ (reject-≢-err _ _ _ (λ p. cc))
          (λ u passed p. cc))

  write-in_range : write sha m n e ≢ err StoreError.index_out_of_range
  unfolding write
  write-in_range =
      >>=-≢-err (reject (length (log m e.run_id) != n) _) _ _ (reject-≢-err _ _ _ (λ p. cc))
        (λ u passed.
          >>=-≢-err (from_domain (reduce sha (log m e.run_id ++ sequenced m e ∷ []))) _ _
            (from_domain-in_range _) (λ s accepted p. cc))

  locked-in_range :
      IsSound sha m
      → (key : Option ℕ) → m.idempotency_keys e.run_id e.idempotency_key ≡ key
      → append_locked sha m n e key ≢ err StoreError.index_out_of_range
  locked-in_range sound none k = write-in_range
  locked-in_range sound (some i) k =
      let (x, at, named) = sound.found e.run_id e.idempotency_key i k in replay-in_range i at

validate-in_range :
    (sensitive : EventData → Bool) (e : Event)
    → validate_append_input sensitive e ≢ err StoreError.index_out_of_range
unfolding validate_append_input
validate-in_range sensitive e =
    >>=-≢-err
      (reject (e.run_id == "" || e.idempotency_key == "" || e.seq != 0) StoreError.invalid_append) _
      _ (reject-≢-err _ _ _ (λ p. cc)) (λ v whole. reject-≢-err _ _ _ (λ p. cc))

module _ (sensitive : EventData → Bool) (sha : Sha256) (m : MemoryEventStore) where
  -- In a sound store no append indexes a log out of its range.
  pub append-in_range :
      IsSound sha m
      → (done : Bool) (n : ℕ) (e : Event)
      → append sensitive sha done m n e ≢ err StoreError.index_out_of_range
  unfolding append validate_append_input
  append-in_range sound done n e =
      >>=-≢-err (reject done StoreError.context_done) _ _ (reject-≢-err _ _ _ (λ p. cc)) (λ u live.
        >>=-≢-err (validate_append_input sensitive e) _ _ (validate-in_range sensitive e)
          (λ v valid. locked-in_range sha m n (with_version e) sound _ refl))
