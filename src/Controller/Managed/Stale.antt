-- ===== src/Controller/Managed/Stale.antt =====
-- The leased path over the lease manager of internal/lease/postgres.go (internal/controller/managed.go):
-- what a worker does that has lost its lease.
use agent_dock_coedx5_6sol.Prelude.{
  ℕ, String, string_eq, Bool, true, false, ◌≡◌, refl, ◌≢◌, ◌!=◌, Option, none, some, eq_of_!=,
  Result, ok, err,
}
use agent_dock_coedx5_6sol.Domain.Types.{
  EventData, desired_eq, status_eq, command_type_eq, event_type_eq, scope_eq,
}
use agent_dock_coedx5_6sol.Domain.Decide.{Sha256}
use agent_dock_coedx5_6sol.Lease.Types.{Lease, LeaseError}
use agent_dock_coedx5_6sol.Controller.Exec.{ControllerError, EventStore, Exec, ◌>>◌, refuse}
use agent_dock_coedx5_6sol.Controller.Managed.Types.{LeaseManager, Executor, ManagedOptions}
use agent_dock_coedx5_6sol.Controller.Managed.Evidence.{EvidenceError}
use agent_dock_coedx5_6sol.Controller.Managed.Run.{lift_lease, reconcile_with, reconcile_leased}
use agent_dock_coedx5_6sol.Lease.Types.{Database, LeaseLibrary}
use agent_dock_coedx5_6sol.Lease.Manager.{validate}
use agent_dock_coedx5_6sol.Lease.Receipts.{lookup_receipt, record_receipt}
use agent_dock_coedx5_6sol.Lease.Steps.{Reach, validate_fenced}

-- A state that holds the tables of the lease manager, and the database's clock.
pub record HasTables (S : Type 0) : Type 0 where
  pub tables : S → Database
  pub clock : S → ℕ
  pub with_tables : S → Database → S

-- A failed transaction leaves the tables as they were.
abbrev pub committed :
    {S A : Type 0} → HasTables S → S → Result LeaseError (Database × A) → S × Result LeaseError A
committed has m (ok (db, a)) = (has.with_tables m db, ok a)
committed has m (err e) = (m, err e)

module _ {S : Type 0} (sha : Sha256) (lib : LeaseLibrary) (is_digest : String → Bool)
    (sensitive : EventData → Bool) (has : HasTables S) where
  -- PostgresManager as the lease manager of a controller
  unfoldable pub postgres_manager : LeaseManager S
  postgres_manager = record {
    validate_lease = λ presented m. validate (has.tables m) (has.clock m) presented;
    lookup = λ id action m. lookup_receipt lib (has.tables m) id action;
    record_of = λ presented receipt m. committed has m (
        record_receipt sha lib is_digest sensitive (has.tables m) (has.clock m) (has.clock m)
          presented receipt);
  }

  module _ (describe : EvidenceError → String) (store : EventStore S) (options : ManagedOptions S)
      (run_id : String) where
    refused :
        {B : Type 0} (presented : Lease) (m : S) (rest : Exec S B)
        (r : Result LeaseError (Unit {0}))
        → r ≢ ok tt
        → (e : ControllerError) × ((lift_lease r >> rest) m ≡ (m, err e))
    refused presented m rest (ok u) h = absurd (h refl)
    refused presented m rest (err e) h = (ControllerError.lease e, refl)

    guarded :
        {B : Type 0} (b : Bool) (x : ControllerError) (m : S) (rest : Exec S B)
        → (b ≡ false → (e : ControllerError) × (rest m ≡ (m, err e)))
        → (e : ControllerError) × ((refuse b x >> rest) m ≡ (m, err e))
    guarded true x m rest h = (x, refl)
    guarded false x m rest h = h refl

    with_executor :
        (presented : Lease) (m : S) (o : Option (Executor S))
        → (presented.run_id ≡ run_id → validate (has.tables m) (has.clock m) presented ≢ ok tt)
        → (e : ControllerError) × (reconcile_with sha lib.marshal is_digest describe store
              postgres_manager options run_id presented o m
            ≡ (m, err e))
    unfolding postgres_manager
    with_executor presented m none h = (ControllerError.invalid_request, refl)
    with_executor presented m (some execute) h =
        guarded (presented.run_id != run_id) ControllerError.invalid_request m _ (λ same.
          refused presented m _ (validate (has.tables m) (has.clock m) presented)
            (h (eq_of_!= presented.run_id run_id same)))

    -- A lease that is not valid, or not of the run, changes nothing.
    pub unauthorized :
        (presented : Lease) (m : S)
        → (presented.run_id ≡ run_id → validate (has.tables m) (has.clock m) presented ≢ ok tt)
        → (e : ControllerError) × (reconcile_leased sha lib.marshal is_digest describe store
              postgres_manager options run_id presented m
            ≡ (m, err e))
    unfolding reconcile_leased
    unauthorized presented m h = with_executor presented m options.executor h

    -- A worker whose lease another has taken over changes nothing and gets an error: once a lease with
    -- another token was valid for the run, ReconcileLeased with the old one appends no event, executes no
    -- action and records no receipt, however much happened to the tables in between.
    pub reconcile_leased_stale :
        (a b : Database) (now now' : ℕ) (old new : Lease) (m : S)
        → Reach sha lib is_digest sensitive a b
        → Reach sha lib is_digest sensitive b (has.tables m)
        → old.run_id ≡ new.run_id
        → validate a now old ≡ ok tt
        → validate b now' new ≡ ok tt
        → old.fencing_token ≢ new.fencing_token
        → (e : ControllerError) × (reconcile_leased sha lib.marshal is_digest describe store
              postgres_manager options run_id old m
            ≡ (m, err e))
    reconcile_leased_stale a b now now' old new m r s run p q other = unauthorized old m (λ own.
        validate_fenced sha lib is_digest sensitive a b (has.tables m) now now' (has.clock m) old
          new r s run p q other)
