-- ===== src/Domain/Decide.antt =====
-- internal/domain/decide.go: the one command that a projection calls for.
-- SHA-256 is the parameter `sha`: a digest of 32 bytes for every text.
pub mod Identity
pub mod Progress
use agent_dock_coedx5_6sol.Prelude.{
  ℕ, zero, suc, ◌+◌, String, ◌≡◌, not, ◌||◌, List, [], ◌∷◌, ◌==◌, ◌!=◌, string_eq, if◌then◌else◌,
  length, concat, itoa, hex,
}
use agent_dock_coedx5_6sol.Domain.Types.{
  DesiredState, Status, CommandType, Run, State, Command, terminal, noop_command, desired_eq,
  status_eq,
}

-- crypto/sha256: Sum256 of the bytes of a text.
pub record Sha256 : Type 0 where
  pub sum256 : String → List ℕ
  pub length-sum256 : (s : String) → length (sum256 s) ≡ 32

-- The constants of CommandType.
unfoldable pub command_name : CommandType → String
command_name CommandType.unset = ""
command_name CommandType.noop = "Noop"
command_name CommandType.start_attempt = "StartAttempt"
command_name CommandType.provision_workspace = "ProvisionWorkspace"
command_name CommandType.run_reasoner = "RunReasoner"
command_name CommandType.apply_patch = "ApplyPatch"
command_name CommandType.verify = "Verify"
command_name CommandType.succeed_run = "SucceedRun"
command_name CommandType.fail_run = "FailRun"
command_name CommandType.cancel_run = "CancelRun"
command_name (CommandType.other s) = s

-- `digest[:16]`
unfoldable pub first_bytes : ℕ → List ℕ → List ℕ
first_bytes n [] = []
first_bytes zero (b ∷ bs) = []
first_bytes (suc n) (b ∷ bs) = b ∷ first_bytes n bs

module _ (sha : Sha256) where
  -- The identity of an action: run, command, attempt number and attempt.
  unfoldable pub action_id_of : Run → CommandType → String → String
  unfolding command_name first_bytes
  action_id_of run kind attempt_id = hex (
      first_bytes 16 (
        sha.sum256 (
          concat (
            run.id
            ∷ "|"
            ∷ command_name kind
            ∷ "|"
            ∷ itoa run.current_attempt
            ∷ "|"
            ∷ attempt_id
            ∷ []))))

  -- commandFor
  unfoldable pub command_for : State → CommandType → Command
  command_for s kind = record {
    kind = kind;
    run_id = s.run.id;
    action_id = action_id_of s.run kind s.attempt_id;
    attempt_id = s.attempt_id;
  }

  pending_or : State → Command → Command
  pending_or s c =
      if s.pending_action_id != "" then record c { action_id = s.pending_action_id } else c

  -- The switch on the observed state at the end of Decide.
  decide_active : Status → State → Command
  unfolding command_for pending_or
  decide_active Status.queued s = record (command_for s CommandType.start_attempt) {
    attempt_id = concat (s.run.id ∷ ":attempt:" ∷ itoa (s.run.current_attempt + 1) ∷ []);
  }
  decide_active Status.provisioning s = command_for s CommandType.provision_workspace
  decide_active Status.reasoning s = pending_or s (command_for s CommandType.run_reasoner)
  decide_active Status.acting s = command_for s CommandType.apply_patch
  decide_active Status.verifying s =
      if s.verification_passed
      then command_for s CommandType.succeed_run
      else pending_or s (command_for s CommandType.verify)
  decide_active _ s = noop_command

  -- Decide
  unfoldable pub decide : State → Command
  unfolding command_for decide_active
  decide s =
      if not s.exists || terminal s.run.observed_state
      then noop_command
      else if s.run.desired_state == DesiredState.cancelled
      then command_for s CommandType.cancel_run
      else if s.run.desired_state == DesiredState.paused || s.run.observed_state == Status.paused
      then noop_command
      else if s.run.observed_state == Status.waiting_approval
      then noop_command
      else if s.failure_reason != ""
      then command_for s CommandType.fail_run
      else decide_active s.run.observed_state s
