-- ===== src/Worker/Takeover.antt =====
-- A session whose lease another worker has taken over (internal/worker/worker.go, over
-- internal/controller/managed.go and internal/lease/postgres.go).
use agent_dock_coedx5_6sol.Prelude.{
  ℕ, ℤ, String, Bool, ◌≡◌, ◌≢◌, refl, sym, ◌∙◌, ap, Result, ok, err, ok-injective,
}
use agent_dock_coedx5_6sol.Domain.Types.{EventData}
use agent_dock_coedx5_6sol.Domain.Decide.{Sha256}
use agent_dock_coedx5_6sol.Lease.Types.{Lease, LeaseError, LeaseLibrary, Database}
use agent_dock_coedx5_6sol.Lease.Manager.{
  validate, renew, validate_presented_lease, validate_lease_in_tx,
}
use agent_dock_coedx5_6sol.Lease.Steps.{Reach, validate_fenced}
use agent_dock_coedx5_6sol.Controller.Exec.{ControllerError, EventStore}
use agent_dock_coedx5_6sol.Controller.Reconcile.{ReconcileResult}
use agent_dock_coedx5_6sol.Controller.Managed.Types.{ManagedOptions}
use agent_dock_coedx5_6sol.Controller.Managed.Evidence.{EvidenceError}
use agent_dock_coedx5_6sol.Controller.Managed.Run.{reconcile_leased}
use agent_dock_coedx5_6sol.Controller.Managed.Stale.{
  HasTables, committed, postgres_manager, unauthorized,
}
use agent_dock_coedx5_6sol.Worker.Session.{Phase, Session, new_session, SessionReach}
use agent_dock_coedx5_6sol.Worker.Identity.{Same, renew-Same, session_identity}

-- Validate reads the run, the worker and the token of a lease alone.
validate-Same :
    (db : Database) (now : ℕ) (a b : Lease)
    → a.run_id ≡ b.run_id
    → Same a b
    → validate db now a ≡ validate db now b
unfolding validate validate_presented_lease validate_lease_in_tx
validate-Same db now a b run same = rw (run, same.worker, same.token) refl

module _ {S : Type 0} (sha : Sha256) (lib : LeaseLibrary) (is_digest : String → Bool)
    (sensitive : EventData → Bool) (has : HasTables S) (ttl : ℤ) where
  -- Renew of the manager, on the state of a program
  abbrev pub renew_lease : Lease → S → S × Result LeaseError Lease
  renew_lease presented m = committed has m (renew lib (has.tables m) (has.clock m) presented ttl)

  committed-Same :
      (presented : Lease) (m : S) (r : Result LeaseError (Database × Lease)) (renewed : Lease)
      → renew lib (has.tables m) (has.clock m) presented ttl ≡ r
      → (committed has m r).1 ≡ ok renewed
      → Same renewed presented
  committed-Same presented m (ok (db, l)) renewed at p =
      renew-Same lib (has.tables m) (has.clock m) presented ttl
        (at ∙ ap (λ x. ok (db, x)) (ok-injective p))
  committed-Same presented m (err e) renewed at p = cc p

  -- However the renewals and the rounds of a session interleave, and whatever happens to the state
  -- besides, with PostgresManager's Renew it reconciles only under its own lease: what the loop has
  -- loaded has the worker and the fencing token that the session began with.
  pub renewed_identity :
      (reconcile : Lease → S → S × Result ControllerError ReconcileResult) (initial : Lease) (m : S)
      (s : Session S) (presented : Lease)
      → SessionReach renew_lease reconcile (new_session m initial) s
      → s.phase ≡ Phase.holding presented
      → (presented.worker_id ≡ initial.worker_id)
        × (presented.fencing_token ≡ initial.fencing_token)
  renewed_identity reconcile initial m s presented reach at =
      let same =
        session_identity renew_lease reconcile
          (λ l x renewed h. committed-Same l x _ renewed refl h) initial m s presented reach at in
      (same.worker, same.token)

  module _ (describe : EvidenceError → String) (store : EventStore S) (options : ManagedOptions S)
      (run_id : String) where
    abbrev pub leased : Lease → S → S × Result ControllerError ReconcileResult
    leased presented m =
        reconcile_leased sha lib.marshal is_digest describe store
          (postgres_manager sha lib is_digest sensitive has) options run_id presented m

    -- A session whose run another worker took over: once a lease with another token was valid for the run,
    -- each further round of the session, with whatever lease its loop has loaded and however its renewals
    -- went, changes nothing and ends in an error.
    pub session_stale :
        (a b : Database) (now now' : ℕ) (initial new : Lease) (m : S) (s : Session S)
        (presented : Lease)
        → SessionReach renew_lease leased (new_session m initial) s
        → s.phase ≡ Phase.holding presented
        → Reach sha lib is_digest sensitive a b
        → Reach sha lib is_digest sensitive b (has.tables s.world)
        → initial.run_id ≡ run_id
        → new.run_id ≡ run_id
        → validate a now initial ≡ ok tt
        → validate b now' new ≡ ok tt
        → initial.fencing_token ≢ new.fencing_token
        → (e : ControllerError) × (leased presented s.world ≡ (s.world, err e))
    session_stale a b now now' initial new m s presented reach at r t own run p q other =
        let same =
          session_identity renew_lease leased (λ l x renewed h. committed-Same l x _ renewed refl h)
            initial m s presented reach at in
        unauthorized sha lib is_digest sensitive has describe store options run_id presented s.world
          (λ mine valid.
            validate_fenced sha lib is_digest sensitive a b (has.tables s.world) now now'
              (has.clock s.world) initial new r t (own ∙ sym run) p q other
              (sym (
                  validate-Same (has.tables s.world) (has.clock s.world) presented initial
                    (mine ∙ sym own) same)
                ∙ valid))
