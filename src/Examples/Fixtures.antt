-- ===== src/Examples/Fixtures.antt =====
-- Events, logs and projections of a run from its creation to its success (internal/domain/types.go).
use agent_dock_coedx5_6sol.Prelude.{ℕ, String, refl, List, [], ◌∷◌, ℤ, Bool, false, Result, ok, err}
use agent_dock_coedx5_6sol.Domain.Types.{
  EventType, State, EventData, Event, initial_state, empty_data, empty_event,
}
use agent_dock_coedx5_6sol.Domain.Transition.{DomainError}
use agent_dock_coedx5_6sol.Domain.Decide.{Sha256}
use agent_dock_coedx5_6sol.Domain.Reduce.{reduce}

abbrev zeros_8 : List ℕ → List ℕ
zeros_8 bs = 0 ∷ 0 ∷ 0 ∷ 0 ∷ 0 ∷ 0 ∷ 0 ∷ 0 ∷ bs

-- A digest that is the same for every text.
abbrev pub zero_sha : Sha256
zero_sha = record {
  sum256 = λ s. zeros_8 (zeros_8 (zeros_8 (zeros_8 [])));
  length-sum256 = λ s. refl;
}

-- No text counts as sensitive.
abbrev pub insensitive : EventData → Bool
insensitive d = false

-- The event of a type with a sequence number, a key and a payload.
abbrev pub event : EventType → ℕ → String → EventData → Event
event kind seq key payload = record empty_event {
  run_id = "run-1";
  seq = seq;
  kind = kind;
  payload_version = ℤ.pos 1;
  payload = payload;
  idempotency_key = key;
}

abbrev pub created : Event
created = event EventType.run_created 1 "run-created" empty_data

abbrev pub started : Event
started = event EventType.attempt_started 2 "k2" (record empty_data { attempt_id = "attempt-1" })

abbrev pub with_action : EventData
with_action = record empty_data { action_id = "a"; tool_name = "write_file" }

-- What follows the creation, up to success.
abbrev pub working : List Event
working =
    started
    ∷ event EventType.workspace_provisioned 3 "k3" empty_data
    ∷ event EventType.reasoning_planned 4 "k4" with_action
    ∷ event EventType.reasoning_completed 5 "k5" with_action
    ∷ event EventType.patch_produced 6 "k6" with_action
    ∷ event EventType.verification_planned 7 "k7" with_action
    ∷ event EventType.verification_passed 8 "k8" with_action
    ∷ event EventType.run_succeeded 9 "k9" empty_data
    ∷ []

-- The projection that a call returned.
abbrev pub projection : Result DomainError State → State
projection (ok s) = s
projection (err e) = initial_state

abbrev pub queued : State
queued = projection (reduce zero_sha (created ∷ []))

abbrev pub succeeded : State
succeeded = projection (reduce zero_sha (created ∷ working))
