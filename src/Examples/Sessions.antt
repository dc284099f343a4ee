-- ===== src/Examples/Sessions.antt =====
-- The theorems on the sessions of workers at one takeover (internal/worker/worker.go).
use agent_dock_coedx5_6sol.Prelude.{◌≡◌, refl, ℤ, Result, err, put}
use agent_dock_coedx5_6sol.Lease.Types.{Lease, Database}
use agent_dock_coedx5_6sol.Lease.Manager.{
  renew, validate, validate_presented_lease, validate_lease_in_tx,
}
use agent_dock_coedx5_6sol.Lease.Steps.{start}
use agent_dock_coedx5_6sol.Controller.Exec.{ControllerError}
use agent_dock_coedx5_6sol.Controller.Reconcile.{ReconcileResult}
use agent_dock_coedx5_6sol.Controller.Managed.Stale.{HasTables}
use agent_dock_coedx5_6sol.Worker.Session.{Phase, Session, new_session, SessionStep, here, further}
use agent_dock_coedx5_6sol.Worker.Takeover.{leased, session_stale, renewed_identity}
use agent_dock_coedx5_6sol.Examples.Fixtures.{zero_sha, insensitive}
use agent_dock_coedx5_6sol.Examples.Leases.{
  first, second, tables, taken_over, lib, any_digest, take_over,
}
use agent_dock_coedx5_6sol.Examples.Leased.{at_22, table_store, table_options, describe}

-- The tables as the state of a program at the time 5, and rounds that do nothing.
abbrev at_5 : HasTables Database
at_5 = record { tables = λ m. m; clock = λ m. 5; with_tables = λ m db. db }

abbrev no_round : Lease → Database → Database × Result ControllerError ReconcileResult
no_round presented m = (m, err ControllerError.invalid_request)

-- The first lease after a renewal, and the session that has loaded it.
abbrev renewed_first : Lease
renewed_first = record first { expires_at = 15; heartbeat_at = 5 }

abbrev renewed_session : Session Database
renewed_session = record (new_session tables first) {
  world = record tables { leases = put tables.leases "run-1" renewed_first };
  current = renewed_first;
  phase = Phase.holding renewed_first;
}

renewed_identity_example :
    (renewed_first.worker_id ≡ first.worker_id)
    × (renewed_first.fencing_token ≡ first.fencing_token)
unfolding renew validate_presented_lease validate_lease_in_tx
renewed_identity_example =
    renewed_identity zero_sha lib any_digest insensitive at_5 (ℤ.pos 10000) no_round first tables
      renewed_session renewed_first
      (further (further here (SessionStep.tick refl)) (SessionStep.check refl)) refl

-- The session of the first worker, which has loaded its lease, after the takeover.
abbrev overtaken : Session Database
overtaken = record (new_session tables first) { world = taken_over; phase = Phase.holding first }

session_stale_example :
    (e : ControllerError) × (leased zero_sha lib any_digest insensitive at_22
        (ℤ.pos 10000)
        describe
        table_store
        table_options
        "run-1"
        first
        taken_over
      ≡ (taken_over, err e))
unfolding validate validate_presented_lease validate_lease_in_tx
session_stale_example =
    session_stale zero_sha lib any_digest insensitive at_22 (ℤ.pos 10000) describe table_store
      table_options "run-1" tables taken_over 3 21 first second tables overtaken first
      (further (further here (SessionStep.check refl)) (SessionStep.elsewhere taken_over)) refl
      take_over start refl refl refl refl (λ e. cc e)
