-- ===== src/Controller/Exec.antt =====
-- The event store that a controller is made with (EventStore of internal/store/store.go), and
-- programs that use it: a store before, and a store after with a value or an error.
use agent_dock_coedx5_6sol.Prelude.{ℕ, String, Bool, true, false, Option, List, Result, ok, err}
use agent_dock_coedx5_6sol.Domain.Types.{State, Event, EventData}
use agent_dock_coedx5_6sol.Domain.Decide.{Sha256}
use agent_dock_coedx5_6sol.Store.Errors.{StoreError, AppendResult}
use agent_dock_coedx5_6sol.Lease.Types.{LeaseError}
use agent_dock_coedx5_6sol.Store.Memory.{MemoryEventStore, load, rebuild, append}

-- `terminal_state` is ErrTerminalState, `retries_exhausted` the ErrVersionConflict that ends the loop of
-- SetDesiredState, `store` an error of the store, `lease` one of the lease manager, and `fault` one of
-- the fault hook; `panicked` is a panic of an executor.
pub data ControllerError : Type 0 where
  invalid_request run_exists managed_run_requires_lease terminal_state : ControllerError
  retries_exhausted panicked : ControllerError
  lease : LeaseError → ControllerError
  fault : String → ControllerError
  store : StoreError → ControllerError

-- The operations of a store whose contents are an `S`. `is_managed_run` is there for a store that is
-- a ManagedRunInspector.
pub record EventStore (S : Type 0) : Type 0 where
  pub load_events : String → S → Result StoreError (List Event)
  pub rebuild_run : String → S → Result StoreError State
  pub append_event : ℕ → Event → S → S × Result StoreError AppendResult
  pub is_managed_run : Option (String → S → Result StoreError Bool)

abbrev pub Exec : Type 0 → Type 0 → Type 0
Exec S A = S → S × Result ControllerError A

module _ {S A : Type 0} where
  abbrev pub return : A → Exec S A
  return a m = (m, ok a)

  abbrev pub fail : ControllerError → Exec S A
  fail e m = (m, err e)

  abbrev pub lift : Result StoreError A → Exec S A
  lift (ok a) m = (m, ok a)
  lift (err e) m = (m, err (ControllerError.store e))

module _ {S A B : Type 0} where
  -- What follows a call: the rest, if it gave a value.
  abbrev pub proceed : S → Result ControllerError A → (A → Exec S B) → S × Result ControllerError B
  proceed m (ok a) f = f a m
  proceed m (err e) f = (m, err e)

  infixl 5 ◌>>=◌
  abbrev pub ◌>>=◌ : Exec S A → (A → Exec S B) → Exec S B
  (x >>= f) m = proceed (x m).0 (x m).1 f

module _ {S B : Type 0} where
  infixl 5 ◌>>◌
  abbrev pub ◌>>◌ : Exec S (Unit {0}) → Exec S B → Exec S B
  x >> y = x >>= λ u. y

abbrev pub refuse : {S : Type 0} → Bool → ControllerError → Exec S (Unit {0})
refuse true e = fail e
refuse false e = return tt

-- A call that leaves the store as it was when it fails.
abbrev pub settle : {S A : Type 0} → S → Result StoreError (S × A) → S × Result StoreError A
settle m (ok (after, a)) = (after, ok a)
settle m (err e) = (m, err e)

-- The store in memory as the event store of a controller.
unfoldable pub memory_event_store : (EventData → Bool) → Sha256 → Bool → EventStore MemoryEventStore
memory_event_store sensitive sha done = record {
  load_events = λ r m. load done m r;
  rebuild_run = λ r m. rebuild sha done m r;
  append_event = λ n e m. settle m (append sensitive sha done m n e);
  is_managed_run = Option.none;
}
