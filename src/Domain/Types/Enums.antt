-- ===== src/Domain/Types/Enums.antt =====
-- internal/domain/types.go: the constants of the event log and the projection, as data types.
-- A named string type is a data type of its constants; `unset` is the empty string, Go's zero
-- value, and `other s` any further string `s` that a stored record may hold.
use agent_dock_coedx5_6sol.Prelude.{
  ℕ, String, ◌≡◌, refl, ◌↔◌, Bool, true, false, [], ◌∷◌, get_or, Eq, coded_beq, coded_beq_iff,
  derived_eq, String_discrete,
}

pub data DesiredState : Type 0 where
  unset running paused cancelled : DesiredState
  other : String → DesiredState

abbrev pub desired_code : DesiredState → ℕ
desired_code DesiredState.unset = 0
desired_code DesiredState.running = 1
desired_code DesiredState.paused = 2
desired_code DesiredState.cancelled = 3
desired_code (DesiredState.other s) = 4

abbrev pub desired_text : DesiredState → String
desired_text (DesiredState.other s) = s
desired_text _ = ""

desired_decode : ℕ → String → DesiredState
desired_decode n s =
    get_or
      (DesiredState.unset ∷ DesiredState.running ∷ DesiredState.paused ∷ DesiredState.cancelled
        ∷ [])
      n (DesiredState.other s)

desired_decode-code : (x : DesiredState) → desired_decode (desired_code x) (desired_text x) ≡ x
unfolding desired_decode
desired_decode-code (DesiredState.other s) = refl
desired_decode-code _ = refl

pub desired_beq_iff :
    (x y : DesiredState) → (coded_beq desired_code desired_text x y ≡ true) ↔ (x ≡ y)
desired_beq_iff = coded_beq_iff desired_code desired_text desired_decode desired_decode-code

instance abbrev pub desired_eq : Eq DesiredState
desired_eq = record { equal = coded_beq desired_code desired_text; equal_iff = desired_beq_iff }

-- DesiredState.Valid
abbrev pub desired_valid : DesiredState → Bool
desired_valid DesiredState.running = true
desired_valid DesiredState.paused = true
desired_valid DesiredState.cancelled = true
desired_valid _ = false

pub data Status : Type 0 where
  unset queued provisioning reasoning acting verifying repairing : Status
  waiting_approval paused succeeded failed cancelled : Status
  other : String → Status

abbrev pub status_code : Status → ℕ
status_code Status.unset = 0
status_code Status.queued = 1
status_code Status.provisioning = 2
status_code Status.reasoning = 3
status_code Status.acting = 4
status_code Status.verifying = 5
status_code Status.repairing = 6
status_code Status.waiting_approval = 7
status_code Status.paused = 8
status_code Status.succeeded = 9
status_code Status.failed = 10
status_code Status.cancelled = 11
status_code (Status.other s) = 12

abbrev pub status_text : Status → String
status_text (Status.other s) = s
status_text _ = ""

status_decode : ℕ → String → Status
status_decode n s =
    get_or
      (Status.unset ∷ Status.queued ∷ Status.provisioning ∷ Status.reasoning ∷ Status.acting
        ∷ Status.verifying ∷ Status.repairing ∷ Status.waiting_approval ∷ Status.paused
        ∷ Status.succeeded ∷ Status.failed ∷ Status.cancelled ∷ [])
      n (Status.other s)

status_decode-code : (x : Status) → status_decode (status_code x) (status_text x) ≡ x
unfolding status_decode
status_decode-code (Status.other s) = refl
status_decode-code _ = refl

pub status_beq_iff : (x y : Status) → (coded_beq status_code status_text x y ≡ true) ↔ (x ≡ y)
status_beq_iff = coded_beq_iff status_code status_text status_decode status_decode-code

instance abbrev pub status_eq : Eq Status
status_eq = record { equal = coded_beq status_code status_text; equal_iff = status_beq_iff }

-- Status.Terminal
abbrev pub terminal : Status → Bool
terminal Status.succeeded = true
terminal Status.failed = true
terminal Status.cancelled = true
terminal _ = false

pub data CommandType : Type 0 where
  unset noop start_attempt provision_workspace run_reasoner apply_patch : CommandType
  verify succeed_run fail_run cancel_run : CommandType
  other : String → CommandType

abbrev pub command_type_code : CommandType → ℕ
command_type_code CommandType.unset = 0
command_type_code CommandType.noop = 1
command_type_code CommandType.start_attempt = 2
command_type_code CommandType.provision_workspace = 3
command_type_code CommandType.run_reasoner = 4
command_type_code CommandType.apply_patch = 5
command_type_code CommandType.verify = 6
command_type_code CommandType.succeed_run = 7
command_type_code CommandType.fail_run = 8
command_type_code CommandType.cancel_run = 9
command_type_code (CommandType.other s) = 10

abbrev pub command_type_text : CommandType → String
command_type_text (CommandType.other s) = s
command_type_text _ = ""

command_type_decode : ℕ → String → CommandType
command_type_decode n s =
    get_or
      (CommandType.unset ∷ CommandType.noop ∷ CommandType.start_attempt
        ∷ CommandType.provision_workspace ∷ CommandType.run_reasoner ∷ CommandType.apply_patch
        ∷ CommandType.verify ∷ CommandType.succeed_run ∷ CommandType.fail_run
        ∷ CommandType.cancel_run ∷ [])
      n (CommandType.other s)

command_type_decode-code :
    (x : CommandType) → command_type_decode (command_type_code x) (command_type_text x) ≡ x
unfolding command_type_decode
command_type_decode-code (CommandType.other s) = refl
command_type_decode-code _ = refl

pub command_type_beq_iff :
    (x y : CommandType) → (coded_beq command_type_code command_type_text x y ≡ true) ↔ (x ≡ y)
command_type_beq_iff =
    coded_beq_iff command_type_code command_type_text command_type_decode command_type_decode-code

instance abbrev pub command_type_eq : Eq CommandType
command_type_eq = record {
  equal = coded_beq command_type_code command_type_text;
  equal_iff = command_type_beq_iff;
}

pub data IdempotencyScope : Type 0 where
  unset scoped unsafe : IdempotencyScope
  other : String → IdempotencyScope

abbrev pub scope_code : IdempotencyScope → ℕ
scope_code IdempotencyScope.unset = 0
scope_code IdempotencyScope.scoped = 1
scope_code IdempotencyScope.unsafe = 2
scope_code (IdempotencyScope.other s) = 3

abbrev pub scope_text : IdempotencyScope → String
scope_text (IdempotencyScope.other s) = s
scope_text _ = ""

scope_decode : ℕ → String → IdempotencyScope
scope_decode n s =
    get_or (IdempotencyScope.unset ∷ IdempotencyScope.scoped ∷ IdempotencyScope.unsafe ∷ []) n
      (IdempotencyScope.other s)

scope_decode-code : (x : IdempotencyScope) → scope_decode (scope_code x) (scope_text x) ≡ x
unfolding scope_decode
scope_decode-code (IdempotencyScope.other s) = refl
scope_decode-code _ = refl

pub scope_beq_iff :
    (x y : IdempotencyScope) → (coded_beq scope_code scope_text x y ≡ true) ↔ (x ≡ y)
scope_beq_iff = coded_beq_iff scope_code scope_text scope_decode scope_decode-code

instance abbrev pub scope_eq : Eq IdempotencyScope
scope_eq = record { equal = coded_beq scope_code scope_text; equal_iff = scope_beq_iff }

-- IdempotencyScope.Valid
abbrev pub scope_valid : IdempotencyScope → Bool
scope_valid IdempotencyScope.scoped = true
scope_valid IdempotencyScope.unsafe = true
scope_valid _ = false

pub data ActionOutcome : Type 0 where
  unset failed ambiguous : ActionOutcome
  other : String → ActionOutcome

abbrev pub outcome_code : ActionOutcome → ℕ
outcome_code ActionOutcome.unset = 0
outcome_code ActionOutcome.failed = 1
outcome_code ActionOutcome.ambiguous = 2
outcome_code (ActionOutcome.other s) = 3

abbrev pub outcome_text : ActionOutcome → String
outcome_text (ActionOutcome.other s) = s
outcome_text _ = ""

outcome_decode : ℕ → String → ActionOutcome
outcome_decode n s =
    get_or (ActionOutcome.unset ∷ ActionOutcome.failed ∷ ActionOutcome.ambiguous ∷ []) n
      (ActionOutcome.other s)

outcome_decode-code : (x : ActionOutcome) → outcome_decode (outcome_code x) (outcome_text x) ≡ x
unfolding outcome_decode
outcome_decode-code (ActionOutcome.other s) = refl
outcome_decode-code _ = refl

pub outcome_beq_iff :
    (x y : ActionOutcome) → (coded_beq outcome_code outcome_text x y ≡ true) ↔ (x ≡ y)
outcome_beq_iff = coded_beq_iff outcome_code outcome_text outcome_decode outcome_decode-code

instance abbrev pub outcome_eq : Eq ActionOutcome
outcome_eq = record { equal = coded_beq outcome_code outcome_text; equal_iff = outcome_beq_iff }

pub data EventType : Type 0 where
  unset run_created desired_state_changed : EventType
  lease_acquired lease_renewed lease_expired : EventType
  attempt_started workspace_provision_planned workspace_provisioned : EventType
  reasoning_planned reasoning_completed : EventType
  tool_call_planned tool_call_completed tool_call_failed : EventType
  patch_produced verification_planned verification_passed verification_failed : EventType
  repair_scheduled approval_requested approval_resolved checkpoint_saved : EventType
  action_planned action_completed action_failed : EventType
  run_succeeded run_failed run_cancelled : EventType
  other : String → EventType

unfoldable pub EventType-discrete : Discrete EventType
unfolding String_discrete
EventType-discrete = hlevel String_discrete

instance abbrev pub event_type_eq : Eq EventType
unfolding EventType-discrete
event_type_eq = derived_eq EventType-discrete
