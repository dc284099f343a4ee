-- ===== src/Domain/Reduce.antt =====
-- internal/domain/reducer.go: Reduce and ReduceFromCheckpoint, the loops over the event log.
-- An index of a slice is an `int`, so `uint64(index + 1)` does not wrap; the sum with a stored
-- version does.
pub mod Append
pub mod Checkpoint
use agent_dock_coedx5_6sol.Prelude.{
  ℕ, ◌+◌, ◌%◌, ◌^◌, String, Bool, not, ◌&&◌, ◌||◌, List, [], ◌∷◌, ◌==◌, ◌!=◌, string_eq, nat_eq,
  int_eq, any, if◌then◌else◌, Result, ok, ◌>>=◌, ◌>>◌, reject,
}
use agent_dock_coedx5_6sol.Domain.Types.{
  State, Event, initial_state, current_payload_version, terminal,
}
use agent_dock_coedx5_6sol.Domain.Transition.{DomainError}
use agent_dock_coedx5_6sol.Domain.Decide.{Sha256}
use agent_dock_coedx5_6sol.Domain.Apply.{apply_event}

abbrev pub u64 : ℕ → ℕ
u64 n = n % 2 ^ 64

-- What a loop writes after a call of applyEvent.
unfoldable pub stamp : State → Event → State
stamp s e = record s {
  run = record s.run {
    version = e.seq;
    updated_at = if e.created_at != "" then e.created_at else s.run.updated_at;
  };
  last_event_type = e.kind;
}

-- The test for a key that an earlier event of the loop used.
abbrev pub key_used : List String → String → Bool
key_used keys key = any (λ k. k == key) keys

-- The tests that Reduce makes before it applies the event at `index`, in their order.
unfoldable pub reduce_guard : ℕ → List String → State → Event → Result DomainError (Unit {0})
reduce_guard index keys s e = do
  reject (e.seq != index + 1) DomainError.invalid_sequence
  reject (e.run_id == "") DomainError.invalid_event
  reject (e.idempotency_key == "") DomainError.invalid_event
  reject (e.payload_version != current_payload_version) DomainError.invalid_event
  reject (key_used keys e.idempotency_key) DomainError.duplicate_idempotency_key
  reject (s.exists && e.run_id != s.run.id) DomainError.invalid_event
  reject (s.exists && terminal s.run.observed_state) DomainError.terminal_state

-- The tests that ReduceFromCheckpoint makes before it applies an event.
unfoldable pub suffix_guard : ℕ → ℕ → List String → State → Event → Result DomainError (Unit {0})
suffix_guard version index keys s e = do
  reject (e.seq != u64 (version + index + 1)) DomainError.invalid_sequence
  reject (e.run_id != s.run.id) DomainError.invalid_event
  reject (e.idempotency_key == "") DomainError.invalid_event
  reject (e.payload_version != current_payload_version) DomainError.invalid_event
  reject (key_used keys e.idempotency_key) DomainError.duplicate_idempotency_key
  reject (terminal s.run.observed_state) DomainError.terminal_state

module _ (sha : Sha256) where
  -- One round of the loop of Reduce, at the index `index`.
  unfoldable pub reduce_step : ℕ → List String → State → Event → Result DomainError State
  reduce_step index keys s e = do
    reduce_guard index keys s e
    t ← apply_event sha s e
    ok (stamp t e)

  unfoldable pub reduce_from : ℕ → List String → State → List Event → Result DomainError State
  reduce_from index keys s [] = ok s
  reduce_from index keys s (e ∷ es) = do
    t ← reduce_step index keys s e
    reduce_from (index + 1) (e.idempotency_key ∷ keys) t es

  -- Reduce
  unfoldable pub reduce : List Event → Result DomainError State
  reduce es = reduce_from 0 [] initial_state es

  -- One round of the loop of ReduceFromCheckpoint, after a checkpoint at `version`.
  unfoldable pub suffix_step : ℕ → ℕ → List String → State → Event → Result DomainError State
  suffix_step version index keys s e = do
    suffix_guard version index keys s e
    t ← apply_event sha s e
    ok (stamp t e)

  unfoldable pub suffix_from : ℕ → ℕ → List String → State → List Event → Result DomainError State
  suffix_from version index keys s [] = ok s
  suffix_from version index keys s (e ∷ es) = do
    t ← suffix_step version index keys s e
    suffix_from version (index + 1) (e.idempotency_key ∷ keys) t es

  -- ReduceFromCheckpoint
  unfoldable pub reduce_from_checkpoint : State → List Event → Result DomainError State
  reduce_from_checkpoint checkpoint es = do
    reject (not checkpoint.exists || checkpoint.run.id == "" || checkpoint.run.version == 0)
        DomainError.invalid_event
    suffix_from checkpoint.run.version 0 [] checkpoint es
