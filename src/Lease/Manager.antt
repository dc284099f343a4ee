-- ===== src/Lease/Manager.antt =====
-- internal/lease/postgres.go: PostgresManager. A transaction locks the row of its run before it reads
-- the clock, so each operation is one function of the tables; `now` is the clock where it reads the
-- lease, and `later` where it writes. An error rolls back. Failing connections are not modelled.
use agent_dock_coedx5_6sol.Prelude.{
  ℕ, ◌+◌, ℤ, String, Bool, true, false, not, ◌&&◌, ◌||◌, ◌==◌, ◌!=◌, string_eq, nat_eq, ltb, leb,
  if◌then◌else◌, List, [], ◌∷◌, any, Option, none, some, Result, ok, err, ◌>>=◌, ◌>>◌, reject, put,
}
use agent_dock_coedx5_6sol.Domain.Types.{EventType, Event, event_type_eq}
use agent_dock_coedx5_6sol.Lease.Types.{
  Worker, Lease, AcquireResult, LeaseError, Database, LeaseLibrary, max_fencing_token, is_positive,
  after,
}

-- A row, or the error for its absence.
abbrev pub require_row : {A : Type 0} → LeaseError → Option A → Result LeaseError A
require_row e none = err e
require_row e (some a) = ok a

abbrev pub is_some : {A : Type 0} → Option A → Bool
is_some none = false
is_some (some a) = true

-- Register: the primary key refuses a worker that is there.
unfoldable pub register : Database → ℕ → String → Result LeaseError (Database × Worker)
register db now worker_id = do
  reject (worker_id == "") LeaseError.invalid_lease
  let worker : Worker = record { id = worker_id; registered_at = now; heartbeat_at = now }
  reject (is_some (db.workers worker_id)) LeaseError.worker_registered
  ok (record db { workers = put db.workers worker_id worker }, worker)

-- LookupWorker
unfoldable pub lookup_worker : Database → String → Result LeaseError Worker
lookup_worker db worker_id = do
  reject (worker_id == "") LeaseError.invalid_lease
  require_row LeaseError.worker_not_found (db.workers worker_id)

-- Heartbeat
unfoldable pub heartbeat : Database → ℕ → String → Result LeaseError (Database × Worker)
heartbeat db now worker_id = do
  reject (worker_id == "") LeaseError.invalid_lease
  found ← require_row LeaseError.worker_not_found (db.workers worker_id)
  let worker = record found { heartbeat_at = now }
  ok (record db { workers = put db.workers worker_id worker }, worker)

-- An event that ends a legacy action whose plan was `planned`.
unfoldable pub resolves : Event → Event → Bool
resolves planned result =
    result.kind == EventType.run_failed
    || result.kind == EventType.run_cancelled
    || (result.payload.action_id == planned.payload.action_id
        && ((planned.kind == EventType.reasoning_planned
              && (result.kind == EventType.reasoning_completed
                  || result.kind == EventType.tool_call_failed))
            || (planned.kind == EventType.verification_planned
                && (result.kind == EventType.verification_passed
                    || result.kind == EventType.verification_failed))))

abbrev pub is_legacy_plan : Event → Bool
is_legacy_plan e = e.kind == EventType.reasoning_planned || e.kind == EventType.verification_planned

-- unresolvedLegacyAction: the action of the last plan that no later event ends.
unfoldable pub unresolved_legacy_action : List Event → Option String
unfolding resolves
unresolved_legacy_action [] = none
unresolved_legacy_action (e ∷ rest) = elim (unresolved_legacy_action rest) [
  | some action ↦ some action
  | none ↦
      if is_legacy_plan e && not (any (resolves e) rest) then some e.payload.action_id else none
]

-- insertLease and updateExpiredLease: the row of a lease that a worker gets.
abbrev pub granted : LeaseLibrary → String → String → ℕ → ℕ → ℤ → Lease
granted lib run_id worker_id token now ttl = record {
  run_id = run_id;
  worker_id = worker_id;
  fencing_token = token;
  expires_at = after lib now ttl;
  heartbeat_at = now;
}

abbrev pub write_lease : Database → Lease → Database
write_lease db lease = record db { leases = put db.leases lease.run_id lease }

-- `current.ExpiresAt.After(databaseNow)`
abbrev pub live : Lease → ℕ → Bool
live lease now = ltb now lease.expires_at

-- The branch of Acquire for a run without a lease.
abbrev pub first_lease :
    LeaseLibrary
    → Database
    → ℕ
    → String
    → String
    → ℤ
    → Option String
    → Result LeaseError (Database × AcquireResult)
first_lease lib db later run_id worker_id ttl (some action) =
    err LeaseError.legacy_execution_in_progress
first_lease lib db later run_id worker_id ttl none =
    let lease = granted lib run_id worker_id 1 later ttl in
    ok (write_lease db lease, record { lease = lease; acquired = true; took_over = false })

-- The branch of Acquire for a run with a lease.
unfoldable pub next_lease :
    LeaseLibrary
    → Database
    → ℕ
    → ℕ
    → String
    → String
    → ℤ
    → Lease
    → Result LeaseError (Database × AcquireResult)
next_lease lib db now later run_id worker_id ttl current =
    if live current now
    then (if current.worker_id == worker_id
        then ok (db, record { lease = current; acquired = false; took_over = false })
        else err LeaseError.lease_held)
    else (do
      reject (leb max_fencing_token current.fencing_token) LeaseError.invalid_lease
      let lease = granted lib run_id worker_id (current.fencing_token + 1) later ttl
      ok (write_lease db lease, record { lease = lease; acquired = true; took_over = true }))

abbrev pub acquire_locked :
    LeaseLibrary
    → Database
    → ℕ
    → ℕ
    → String
    → String
    → ℤ
    → Option Lease
    → Result LeaseError (Database × AcquireResult)
acquire_locked lib db now later run_id worker_id ttl none =
    first_lease lib db later run_id worker_id ttl (unresolved_legacy_action (db.log run_id))
acquire_locked lib db now later run_id worker_id ttl (some current) =
    next_lease lib db now later run_id worker_id ttl current

-- Acquire
unfoldable pub acquire :
    LeaseLibrary
    → Database
    → ℕ
    → ℕ
    → String
    → String
    → ℤ
    → Result LeaseError (Database × AcquireResult)
acquire lib db now later run_id worker_id ttl = do
  reject (run_id == "" || worker_id == "" || not (is_positive ttl)) LeaseError.invalid_lease
  worker ← require_row LeaseError.worker_not_found (db.workers worker_id)
  reject (not (db.runs run_id)) LeaseError.run_not_found
  acquire_locked lib db now later run_id worker_id ttl (db.leases run_id)

-- validatePresentedLease
unfoldable pub validate_presented_lease : Lease → Result LeaseError (Unit {0})
validate_presented_lease presented =
    reject
      (presented.run_id == ""
        || presented.worker_id == ""
        || presented.fencing_token == 0
        || ltb max_fencing_token presented.fencing_token)
      LeaseError.invalid_lease

-- leaseAuthorityError
abbrev pub lease_authority_error : Lease → Lease → Bool → LeaseError
lease_authority_error presented current expired =
    if current.worker_id == presented.worker_id
      && current.fencing_token == presented.fencing_token
      && expired
    then LeaseError.lease_expired
    else LeaseError.stale_lease

-- validateLeaseInTx: the lease of the run is the presented one and has not expired.
unfoldable pub validate_lease_in_tx : Database → ℕ → Lease → Result LeaseError Lease
validate_lease_in_tx db now presented = do
  current ← require_row LeaseError.lease_not_found (db.leases presented.run_id)
  let expired = not (live current now)
  reject
      (current.worker_id != presented.worker_id
        || current.fencing_token != presented.fencing_token
        || expired)
      (lease_authority_error presented current expired)
  ok current

-- Renew
unfoldable pub renew :
    LeaseLibrary → Database → ℕ → Lease → ℤ → Result LeaseError (Database × Lease)
unfolding validate_presented_lease validate_lease_in_tx
renew lib db now presented ttl = do
  validate_presented_lease presented
  reject (not (is_positive ttl)) LeaseError.invalid_lease
  current ← validate_lease_in_tx db now presented
  let renewed = record current { expires_at = after lib now ttl; heartbeat_at = now }
  ok (record db { leases = put db.leases presented.run_id renewed }, renewed)

-- Current
unfoldable pub current_lease : Database → String → Result LeaseError Lease
current_lease db run_id = do
  reject (run_id == "") LeaseError.invalid_lease
  require_row LeaseError.lease_not_found (db.leases run_id)

-- Validate
unfoldable pub validate : Database → ℕ → Lease → Result LeaseError (Unit {0})
unfolding validate_presented_lease validate_lease_in_tx
validate db now presented = do
  validate_presented_lease presented
  current ← validate_lease_in_tx db now presented
  ok tt
