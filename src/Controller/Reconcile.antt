-- ===== src/Controller/Reconcile.antt =====
-- internal/controller/controller.go: Reconcile, the path of a run that no lease manages.
-- `reason` is what the configured Reasoner, Collect and ValidatePhase1Result of internal/reasoner make
-- of a task: the result, or the text of the error.
use agent_dock_coedx5_6sol.Prelude.{
  ℕ, String, string_eq, Bool, ◌==◌, ◌!=◌, ◌||◌, List, [], ◌∷◌, ◌++◌, Option, none, some, Result, ok,
  err, concat, if◌then◌else◌,
}
use agent_dock_coedx5_6sol.Domain.Types.{
  CommandType, EventType, State, Event, EventData, Command, empty_data, empty_event,
  command_type_eq,
}
use agent_dock_coedx5_6sol.Domain.Decide.{Sha256, decide}
use agent_dock_coedx5_6sol.Store.Errors.{StoreError, AppendResult}
use agent_dock_coedx5_6sol.Controller.Exec.{
  ControllerError, EventStore, Exec, return, fail, lift, ◌>>=◌, ◌>>◌, refuse,
}
use agent_dock_coedx5_6sol.Controller.Requests.{is_version_conflict, get_run, append_once}

-- Result of internal/reasoner, as far as the controller reads it
pub record Reasoned : Type 0 where
  pub output : String
  pub tool_name : String
  pub tool_arguments : String

pub record ReconcileResult : Type 0 where
  pub command : Command
  pub events : List Event
  pub state : State

-- What appendEvent changes: the version it expects, and the events it has written.
pub record Progress : Type 0 where
  pub expected_version : ℕ
  pub written : List Event

-- An event of the command, with its key.
abbrev pub command_event : EventType → Command → EventData → String → Event
command_event kind c payload name = record empty_event {
  kind = kind;
  payload = record payload { action_id = c.action_id };
  idempotency_key = concat (c.action_id ∷ ":" ∷ name ∷ []);
}

module _ {S : Type 0} (store : EventStore S) (run_id : String) where
  -- The rest of appendEvent after an append that succeeded.
  unfoldable pub count_append : Progress → AppendResult → Exec S Progress
  count_append w result =
      if result.appended
      then return
          (record { expected_version = result.event.seq; written = w.written ++ result.event ∷ [] })
      else (do
        current ← get_run store run_id
        return (record w { expected_version = current.run.version }))

  -- The rest of appendEvent after its first append.
  unfoldable pub retry_append : Event → Progress → Result StoreError AppendResult → Exec S Progress
  retry_append e w (ok result) = count_append w result
  retry_append e w (err x) =
      if is_version_conflict x
      then (do
        current ← get_run store run_id
        result ← append_once store current.run.version e
        count_append (record w { expected_version = current.run.version }) result)
      else fail (ControllerError.store x)

  -- appendEvent
  unfoldable pub append_noted : Event → Progress → Exec S Progress
  append_noted e w m =
      let sent = record e { run_id = run_id; correlation_id = run_id } in
      let call = store.append_event w.expected_version sent m in retry_append sent w call.1 call.0

  -- runReasoner, after the plan, with appendControlledReasonerFailure
  unfoldable pub append_reasoned : Command → Result String Reasoned → Progress → Exec S Progress
  append_reasoned c (err text) = append_noted (
      command_event EventType.tool_call_failed c (record empty_data { reason = text })
        "tool-call-failed")
  append_reasoned c (ok result) = append_noted (
      command_event EventType.reasoning_completed c
        (record empty_data {
          output = result.output;
          tool_name = result.tool_name;
          tool_arguments = result.tool_arguments;
        })
        "reasoning-completed")

  -- The plan that a command writes when no action is pending.
  unfoldable pub plan_first : State → Command → EventType → String → Progress → Exec S Progress
  plan_first s c kind name w =
      if s.pending_action_id == ""
      then append_noted (command_event kind c empty_data name) w
      else return w

  module _ (reason : String → Result String Reasoned) where
    -- runReasoner
    unfoldable pub run_reasoner : State → Command → Progress → Exec S Progress
    run_reasoner s c w = do
      planned ← plan_first s c EventType.reasoning_planned "reasoning-planned" w
      append_reasoned c (reason s.run.scenario_id) planned

    -- The switch of Reconcile.
    unfoldable pub carry_out : CommandType → State → Command → Progress → Exec S Progress
    carry_out CommandType.start_attempt s c = append_noted (
        command_event EventType.attempt_started c
          (record empty_data { attempt_id = c.attempt_id; reason = "initial" }) "attempt-started")
    carry_out CommandType.provision_workspace s c =
        append_noted
          (command_event EventType.workspace_provisioned c empty_data "workspace-provisioned")
    carry_out CommandType.run_reasoner s c = run_reasoner s c
    carry_out CommandType.apply_patch s c =
        append_noted (command_event EventType.patch_produced c empty_data "patch-produced")
    carry_out CommandType.verify s c = λ w. do
      planned ← plan_first s c EventType.verification_planned "verification-planned" w
      append_noted (command_event EventType.verification_passed c empty_data "verification-passed")
          planned
    carry_out CommandType.succeed_run s c =
        append_noted (command_event EventType.run_succeeded c empty_data "run-succeeded")
    carry_out CommandType.fail_run s c = append_noted (
        command_event EventType.run_failed c (record empty_data { reason = s.failure_reason })
          "run-failed")
    carry_out CommandType.cancel_run s c =
        append_noted (command_event EventType.run_cancelled c empty_data "run-cancelled")
    carry_out _ s c = λ w. fail ControllerError.invalid_request

    -- The test for a managed run, where the store can tell.
    unfoldable pub refuse_managed : Option (String → S → Result StoreError Bool) → Exec S (Unit {0})
    refuse_managed none = return tt
    refuse_managed (some inspect) = do
      managed ← λ m. lift (inspect run_id m) m
      refuse managed ControllerError.managed_run_requires_lease

    -- Reconcile; `leased` says that the controller has a lease manager.
    unfoldable pub reconcile : Sha256 → Bool → Exec S ReconcileResult
    reconcile sha leased = do
      s ← get_run store run_id
      refuse (leased || s.pending_action_type != CommandType.unset)
          ControllerError.managed_run_requires_lease
      refuse_managed store.is_managed_run
      let c = decide sha s
      if c.kind == CommandType.noop
          then return (record { command = c; events = []; state = s })
          else (do
            w ← carry_out c.kind s c (record { expected_version = s.run.version; written = [] })
            final ← get_run store run_id
            return (record { command = c; events = w.written; state = final }))
