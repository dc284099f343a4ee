-- ===== src/Worker/Identity.antt =====
-- The lease of a session stays the lease that it began with (internal/worker/worker.go).
use agent_dock_coedx5_6sol.Prelude.{
  ℕ, ℤ, Bool, true, false, ◌≡◌, refl, sym, ◌∙◌, ap, subst, Option, none, some, Result, ok, err,
  >>=-eq-ok, through, ok-injective, not, is_positive, if◌then◌else◌, ◌||◌, ◌==◌, string_eq,
}
use agent_dock_coedx5_6sol.Domain.Types.{Status, terminal, CommandType, command_type_eq, status_eq}
use agent_dock_coedx5_6sol.Lease.Types.{Lease, LeaseError, LeaseLibrary, Database}
use agent_dock_coedx5_6sol.Lease.Manager.{renew, validate_presented_lease, validate_lease_in_tx}
use agent_dock_coedx5_6sol.Lease.Authority.{validate_lease_in_tx-Holds}
use agent_dock_coedx5_6sol.Controller.Exec.{ControllerError}
use agent_dock_coedx5_6sol.Controller.Reconcile.{ReconcileResult}
use agent_dock_coedx5_6sol.Worker.Session.{
  SessionEnd, Phase, Session, new_session, after_renewal, end_by, check_channel, after_reconcile,
  SessionStep, SessionReach,
}

-- Two leases of one run, worker and token.
pub record Same (a b : Lease) : Type 0 where
  pub worker : a.worker_id ≡ b.worker_id
  pub token : a.fencing_token ≡ b.fencing_token

-- Renew returns the lease that was presented, but for its times.
pub renew-Same :
    (lib : LeaseLibrary) (db : Database) (now : ℕ) (presented : Lease) (ttl : ℤ) {after : Database}
    {lease : Lease}
    → renew lib db now presented ttl ≡ ok (after, lease)
    → Same lease presented
unfolding renew
renew-Same lib db now presented ttl p =
    let (u, shape, p₁) = >>=-eq-ok (validate_presented_lease presented) _ p in
    let (positive, p₂) = through (not (is_positive ttl)) LeaseError.invalid_lease _ p₁ in
    let (current, held, p₃) = >>=-eq-ok (validate_lease_in_tx db now presented) _ p₂ in
    let h = validate_lease_in_tx-Holds db now presented held in
    let is = ap (λ (z : Database × Lease). z.1) (ok-injective p₃) in
    record {
      worker = sym (ap (λ (l : Lease). l.worker_id) is) ∙ h.worker;
      token = sym (ap (λ (l : Lease). l.fencing_token) is) ∙ h.token;
    }

module _ {S : Type 0} (renew_lease : Lease → S → S × Result LeaseError Lease)
    (reconcile : Lease → S → S × Result ControllerError ReconcileResult)
    (keeps : (presented : Lease) (m : S) (renewed : Lease)
      → (renew_lease presented m).1 ≡ ok renewed
      → Same renewed presented)
    (initial : Lease) where
  -- A lease that the loop has loaded is of the worker and the token of the first.
  abbrev pub Held : Phase → Type 0
  Held (Phase.holding presented) = Same presented initial
  Held _ = Unit {0}

  pub Owned : Session S → Type 0
  Owned s = Same s.current initial × Held s.phase

  Same-trans : (a b c : Lease) → Same a b → Same b c → Same a c
  Same-trans a b c p q = record { worker = p.worker ∙ q.worker; token = p.token ∙ q.token }

  renewed-Owned :
      (s : Session S) (m : S) (r : Result LeaseError Lease)
      → (renew_lease s.current s.world).1 ≡ r
      → Owned s
      → Owned (after_renewal s (m, r))
  unfolding Owned
  renewed-Owned s m (ok renewed) at (own, held) =
      (Same-trans renewed s.current initial (keeps s.current s.world renewed at) own, held)
  renewed-Owned s m (err e) at (own, held) = (own, held)

  checked-Held :
      (failure : Option LeaseError) (l : Lease) → Same l initial → Held (check_channel failure l)
  checked-Held none l own = own
  checked-Held (some e) l own = tt

  if-Held : (b : Bool) (p q : Phase) → Held p → Held q → Held (if b then p else q)
  if-Held true p q hp hq = hp
  if-Held false p q hp hq = hq

  concluded-Held :
      (done : Bool) (failure : Option LeaseError) (r : Result ControllerError ReconcileResult)
      → Held (after_reconcile done failure r)
  unfolding after_reconcile
  concluded-Held done failure (err e) =
      if-Held done (Phase.over (end_by failure SessionEnd.canceled))
        (Phase.over (SessionEnd.reconciliation e)) tt tt
  concluded-Held done failure (ok result) =
      if-Held
        (terminal result.state.run.observed_state
          || result.state.run.observed_state == Status.waiting_approval)
        (Phase.over SessionEnd.converged) _ tt
        (if-Held (result.command.kind == CommandType.noop) Phase.waiting Phase.checking tt tt)

  Step-Owned : {s t : Session S} → SessionStep renew_lease reconcile s t → Owned s → Owned t
  unfolding Owned
  Step-Owned {s} (SessionStep.tick on) own =
      renewed-Owned s (renew_lease s.current s.world).0 (renew_lease s.current s.world).1 refl own
  Step-Owned {s} (SessionStep.check at) (own, held) = (own, checked-Held s.failure s.current own)
  Step-Owned {s} (SessionStep.run presented at) (own, held) = (own, tt)
  Step-Owned {s} (SessionStep.conclude result at) (own, held) =
      (own, concluded-Held s.done s.failure result)
  Step-Owned {s} (SessionStep.poll at) (own, held) = (own, tt)
  Step-Owned {s} (SessionStep.stop at done) (own, held) = (own, tt)
  Step-Owned {s} SessionStep.cancel own = own
  Step-Owned {s} (SessionStep.elsewhere m) own = own

  -- What the loop has loaded, for a Renew that keeps the worker and the token.
  pub session_identity :
      (m : S) (s : Session S) (presented : Lease)
      → SessionReach renew_lease reconcile (new_session m initial) s
      → s.phase ≡ Phase.holding presented
      → Same presented initial
  unfolding Owned
  session_identity m s presented r at = subst Held at (all r).1
    where
      all : {t : Session S} → SessionReach renew_lease reconcile (new_session m initial) t → Owned t
      all SessionReach.here = (record { worker = refl; token = refl }, tt)
      all (SessionReach.further q step) = Step-Owned step (all q)
