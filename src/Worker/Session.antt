-- ===== src/Worker/Session.antt =====
-- internal/worker/worker.go: the guards of Run, and runLeaseSession beside leaseRenewalLoop. The two
-- goroutines share the lease of the session, one channel with room for one error, and the cancellation
-- of their context; each step is what one of them does at once.
use agent_dock_coedx5_6sol.Prelude.{
  ℤ, String, string_eq, Bool, true, false, not, ◌||◌, ◌==◌, Option, none, some, Result, ok, err,
  if◌then◌else◌, reject, ◌>>◌, is_positive, int_ltb, ◌≡◌,
}
use agent_dock_coedx5_6sol.Domain.Types.{Status, CommandType, terminal, status_eq, command_type_eq}
use agent_dock_coedx5_6sol.Lease.Types.{Lease, LeaseError}
use agent_dock_coedx5_6sol.Controller.Exec.{ControllerError}
use agent_dock_coedx5_6sol.Controller.Reconcile.{ReconcileResult}

-- Config, less its output; the durations are in nanoseconds.
pub record WorkerConfig : Type 0 where
  pub worker_id : String
  pub run_id : String
  pub lease_ttl : ℤ
  pub heartbeat_interval : ℤ
  pub poll_interval : ℤ

-- The test of Run on its configuration, and the default of the poll interval.
unfoldable pub checked_config : WorkerConfig → Result (Unit {0}) WorkerConfig
checked_config config = do
  reject
      (config.worker_id == ""
        || config.run_id == ""
        || not (is_positive config.lease_ttl)
        || not (is_positive config.heartbeat_interval)
        || not (int_ltb config.heartbeat_interval config.lease_ttl))
      tt
  ok (record config {
    poll_interval =
        if is_positive config.poll_interval then config.poll_interval else ℤ.pos 10000000;
  })

-- How a session ends: the run converged, a renewal failed, the context was canceled, or a reconciliation
-- failed.
pub data SessionEnd : Type 0 where
  converged canceled : SessionEnd
  renewal : LeaseError → SessionEnd
  reconciliation : ControllerError → SessionEnd

-- Where the loop of runLeaseSession stands: before it looks at the channel, with a lease that it has
-- loaded, after ReconcileLeased, waiting, or at its end.
pub data Phase : Type 0 where
  checking waiting : Phase
  holding : Lease → Phase
  reconciled : Result ControllerError ReconcileResult → Phase
  over : SessionEnd → Phase

-- A session beside the state of the rest of the program; `renewing` says that leaseRenewalLoop runs.
pub record Session (S : Type 0) : Type 0 where
  pub world : S
  pub current : Lease
  pub failure : Option LeaseError
  pub done : Bool
  pub renewing : Bool
  pub phase : Phase

-- runLeaseSession before its loop
abbrev pub new_session : {S : Type 0} → S → Lease → Session S
new_session m initial = record {
  world = m;
  current = initial;
  failure = none;
  done = false;
  renewing = true;
  phase = Phase.checking;
}

-- sendHeartbeatError: an error that finds the channel full is dropped.
abbrev pub send : Option LeaseError → LeaseError → Option LeaseError
send none e = some e
send (some first) e = some first

-- What leaseRenewalLoop does with the result of Renew.
abbrev pub after_renewal : {S : Type 0} → Session S → S × Result LeaseError Lease → Session S
after_renewal s (m, ok renewed) = record s { world = m; current = renewed }
after_renewal s (m, err e) = record s {
  world = m;
  failure = send s.failure e;
  done = true;
  renewing = false;
}

-- The end by the error in the channel, or else by another.
abbrev pub end_by : Option LeaseError → SessionEnd → SessionEnd
end_by none other = other
end_by (some e) other = SessionEnd.renewal e

-- The top of the loop: an error in the channel ends it, and else the lease is loaded.
abbrev pub check_channel : Option LeaseError → Lease → Phase
check_channel (some e) current = Phase.over (SessionEnd.renewal e)
check_channel none current = Phase.holding current

-- The rest of the loop after ReconcileLeased.
unfoldable pub after_reconcile :
    Bool → Option LeaseError → Result ControllerError ReconcileResult → Phase
after_reconcile done failure (err e) =
    if done
    then Phase.over (end_by failure SessionEnd.canceled)
    else Phase.over (SessionEnd.reconciliation e)
after_reconcile done failure (ok result) =
    if terminal result.state.run.observed_state
      || result.state.run.observed_state == Status.waiting_approval
    then Phase.over SessionEnd.converged
    else if result.command.kind == CommandType.noop
    then Phase.waiting
    else Phase.checking

module _ {S : Type 0} (renew_lease : Lease → S → S × Result LeaseError Lease)
    (reconcile : Lease → S → S × Result ControllerError ReconcileResult) where
  -- What happens next to a session: a tick of the renewal loop, a part of the session's loop, a
  -- cancellation from outside, or what other parts of the program do to the rest of the state.
  pub data SessionStep : Session S → Session S → Type 0 where
    tick :
        {s : Session S}
        → s.renewing ≡ true
        → SessionStep s (after_renewal s (renew_lease s.current s.world))
    check :
        {s : Session S}
        → s.phase ≡ Phase.checking
        → SessionStep s (record s { phase = check_channel s.failure s.current })
    run :
        {s : Session S} (presented : Lease)
        → s.phase ≡ Phase.holding presented
        → SessionStep s (record s {
          world = (reconcile presented s.world).0;
          phase = Phase.reconciled (reconcile presented s.world).1;
        })
    conclude :
        {s : Session S} (result : Result ControllerError ReconcileResult)
        → s.phase ≡ Phase.reconciled result
        → SessionStep s (record s { phase = after_reconcile s.done s.failure result })
    poll :
        {s : Session S}
        → s.phase ≡ Phase.waiting
        → SessionStep s (record s { phase = Phase.checking })
    stop :
        {s : Session S}
        → s.phase ≡ Phase.waiting
        → s.done ≡ true
        → SessionStep s (record s { phase = Phase.over SessionEnd.canceled })
    cancel : {s : Session S} → SessionStep s (record s { done = true })
    elsewhere : {s : Session S} (m : S) → SessionStep s (record s { world = m })

  -- What a session can become.
  pub data SessionReach (s : Session S) : Session S → Type 0 where
    here : SessionReach s s
    further : {t u : Session S} → SessionReach s t → SessionStep t u → SessionReach s u
