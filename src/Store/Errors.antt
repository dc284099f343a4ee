-- ===== src/Store/Errors.antt =====
-- internal/store/store.go: what an append returns.
use agent_dock_coedx5_6sol.Prelude.{ℕ, String, Bool}
use agent_dock_coedx5_6sol.Domain.Types.{Event}
use agent_dock_coedx5_6sol.Domain.Transition.{DomainError}

-- The errors of the store in memory. `context_done` is what `ctx.Err()` gives, `rejected` an error
-- of Reduce, and `index_out_of_range` the panic of a slice index.
pub data StoreError : Type 0 where
  context_done run_not_found invalid_append sensitive_payload idempotency_conflict : StoreError
  version_conflict : String → ℕ → ℕ → StoreError
  rejected : DomainError → StoreError
  index_out_of_range : StoreError

pub record AppendResult : Type 0 where
  pub event : Event
  pub appended : Bool
