-- ===== src/Store/Memory.antt =====
-- internal/store/memory.go: MemoryEventStore, whose operations run one at a time under its lock.
-- `sensitive` is containsCredentialMaterial of internal/store/validation.go.
pub mod Sound
pub mod Appends
pub mod Total
use agent_dock_coedx5_6sol.Prelude.{
  ℕ, ◌+◌, String, ◌≡◌, Bool, true, false, not, ◌||◌, List, [], ◌∷◌, ◌++◌, ◌==◌, ◌!=◌, string_eq,
  nat_eq, int_eq, if◌then◌else◌, Option, none, some, Result, ok, err, ◌>>=◌, ◌>>◌, reject, ℤ,
  length, get_elem?, Table, put,
}
use agent_dock_coedx5_6sol.Domain.Types.{State, EventData, Event, current_payload_version}
use agent_dock_coedx5_6sol.Domain.Transition.{DomainError}
use agent_dock_coedx5_6sol.Domain.Decide.{Sha256}
use agent_dock_coedx5_6sol.Domain.Reduce.{reduce}
use agent_dock_coedx5_6sol.Store.Errors.{StoreError, AppendResult}
use agent_dock_coedx5_6sol.Store.Equality.{event_eq}

-- `idempotency_keys` reads a missing inner map as an empty one, as Go does for a nil map.
pub record MemoryEventStore : Type 0 where
  pub events : Table (List Event)
  pub idempotency_keys : String → Table ℕ

-- NewMemoryEventStore
abbrev pub new_memory_event_store : MemoryEventStore
new_memory_event_store = record { events = λ r. none; idempotency_keys = λ r k. none }

-- `store.events[runID]`, where a missing log is the nil slice
abbrev pub log_of : Option (List Event) → List Event
log_of none = []
log_of (some es) = es

-- Load
unfoldable pub load : Bool → MemoryEventStore → String → Result StoreError (List Event)
load done m run_id =
    if done
    then err StoreError.context_done
    else elim (m.events run_id) [ none ↦ err StoreError.run_not_found | some es ↦ ok es ]

-- An error of Reduce as an error of the store.
abbrev pub from_domain : {A : Type 0} → Result DomainError A → Result StoreError A
from_domain (ok a) = ok a
from_domain (err e) = err (StoreError.rejected e)

-- `if event.PayloadVersion == 0 { … }`
unfoldable pub with_version : Event → Event
with_version e =
    if e.payload_version == ℤ.pos 0
    then record e { payload_version = current_payload_version }
    else e

-- sameIdempotentEvent
unfoldable pub same_idempotent_event : Event → Event → Bool
same_idempotent_event existing replay =
    record existing { seq = 0; created_at = "" }
    == with_version (record replay { seq = 0; created_at = "" })

-- The lookup of an event by the index that a key has.
abbrev pub event_at : Option Event → Result StoreError Event
event_at none = err StoreError.index_out_of_range
event_at (some e) = ok e

-- Rebuild
unfoldable pub rebuild : Sha256 → Bool → MemoryEventStore → String → Result StoreError State
unfolding load
rebuild sha done m run_id = do es ← load done m run_id; from_domain (reduce sha es)

-- The branch of Append for a key that is in use at an index.
unfoldable pub replay :
    MemoryEventStore → Event → ℕ → Result StoreError (MemoryEventStore × AppendResult)
replay m e index = do
  existing ← event_at (get_elem? (log_of (m.events e.run_id)) index)
  reject (not (same_idempotent_event existing e)) StoreError.idempotency_conflict
  ok (m, record { event = existing; appended = false })

-- The store with an event at the end of its run's log.
unfoldable pub extend : MemoryEventStore → Event → MemoryEventStore
extend m e =
    let current = log_of (m.events e.run_id) in
    record {
      events = put m.events e.run_id (current ++ e ∷ []);
      idempotency_keys = λ r.
          if r == e.run_id
          then put (m.idempotency_keys e.run_id) e.idempotency_key (length current)
          else m.idempotency_keys r;
    }

-- The branch of Append for a new key.
unfoldable pub write :
    Sha256 → MemoryEventStore → ℕ → Event → Result StoreError (MemoryEventStore × AppendResult)
write sha m expected e = do
  let current = log_of (m.events e.run_id)
  reject (length current != expected)
      (StoreError.version_conflict e.run_id expected (length current))
  let sequenced = record e { seq = length current + 1 }
  s ← from_domain (reduce sha (current ++ sequenced ∷ []))
  ok (extend m sequenced, record { event = sequenced; appended = true })

-- What Append does under the lock.
abbrev pub append_locked :
    Sha256
    → MemoryEventStore
    → ℕ
    → Event
    → Option ℕ
    → Result StoreError (MemoryEventStore × AppendResult)
append_locked sha m expected e (some index) = replay m e index
append_locked sha m expected e none = write sha m expected e

module _ (sensitive : EventData → Bool) where
  -- validateAppendInput
  unfoldable pub validate_append_input : Event → Result StoreError (Unit {0})
  validate_append_input e = do
    reject (e.run_id == "" || e.idempotency_key == "" || e.seq != 0) StoreError.invalid_append
    reject (sensitive e.payload) StoreError.sensitive_payload

  -- Append: an error leaves the store as it was.
  unfoldable pub append :
      Sha256
      → Bool
      → MemoryEventStore
      → ℕ
      → Event
      → Result StoreError (MemoryEventStore × AppendResult)
  append sha done m expected e = do
    reject done StoreError.context_done
    validate_append_input e
    let f = with_version e
    append_locked sha m expected f (m.idempotency_keys f.run_id f.idempotency_key)
