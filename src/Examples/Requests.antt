-- ===== src/Examples/Requests.antt =====
-- The theorems on the store and the controller at a new store and one run (internal/store/memory.go
-- and internal/controller/controller.go).
use agent_dock_coedx5_6sol.Prelude.{
  ◌≡◌, ◌==◌, string_eq, none, some, if◌then◌else◌, ◌≢◌, String, true, false, refl, ok, err, [], ◌∷◌,
}
use agent_dock_coedx5_6sol.Domain.Types.{State, EventType, Event, empty_data}
use agent_dock_coedx5_6sol.Domain.Apply.{apply_event}
use agent_dock_coedx5_6sol.Domain.Reduce.{stamp, reduce_guard, reduce_step, reduce_from, reduce}
use agent_dock_coedx5_6sol.Store.Errors.{StoreError}
use agent_dock_coedx5_6sol.Store.Memory.{
  MemoryEventStore, new_memory_event_store, append, write, extend, validate_append_input,
  with_version,
}
use agent_dock_coedx5_6sol.Store.Memory.Sound.{IsSound, new_memory_event_store-IsSound}
use agent_dock_coedx5_6sol.Store.Memory.Appends.{append-IsSound, append-again}
use agent_dock_coedx5_6sol.Store.Memory.Total.{append-in_range}
use agent_dock_coedx5_6sol.Store.Validation.{
  Json, GoPackages, has_sensitive_value, has_sensitive_marker, has_credential_url,
  contains_credential_material, string_fields,
}
use agent_dock_coedx5_6sol.Store.Validation.Hidden.{Among, Hides, append-hidden}
use agent_dock_coedx5_6sol.Controller.Created.{create_run_new}
use agent_dock_coedx5_6sol.Controller.Requests.{CreateRunRequest, create_run}
use agent_dock_coedx5_6sol.Controller.Exec.{ControllerError, memory_event_store}
use agent_dock_coedx5_6sol.Examples.Fixtures.{zero_sha, insensitive, event, created}

-- RunCreated as a caller gives it, without a sequence number.
abbrev request : Event
request = event EventType.run_created 0 "run-created" empty_data

abbrev with_run : MemoryEventStore
with_run = extend new_memory_event_store created

written :
    append insensitive zero_sha false new_memory_event_store 0 request
    ≡ ok (with_run, record { event = created; appended = true })
unfolding append validate_append_input with_version write reduce reduce_from reduce_step
    reduce_guard apply_event stamp
written = refl

append-IsSound_example : IsSound zero_sha with_run
append-IsSound_example =
    append-IsSound insensitive zero_sha false new_memory_event_store 0 request
      (new_memory_event_store-IsSound zero_sha) written

append-again_example :
    append insensitive zero_sha false with_run 7 request
    ≡ ok (with_run, record { event = created; appended = false })
append-again_example =
    append-again insensitive zero_sha false new_memory_event_store 0 7 request written

append-in_range_example :
    append insensitive zero_sha false with_run 7 request ≢ err StoreError.index_out_of_range
append-in_range_example =
    append-in_range insensitive zero_sha with_run append-IsSound_example false 7 request

-- A request for a run beside the one of the store.
abbrev create_request : CreateRunRequest
create_request = record { run_id = "run-2"; scenario_id = "demo"; spec_hash = "h"; created_at = "" }

create_run_new_example :
    (after : MemoryEventStore) × (s : State) × (create_run
        (memory_event_store insensitive zero_sha false)
        create_request
        with_run
      ≡ (after, ok s))
    × (create_run (memory_event_store insensitive zero_sha false) create_request after
        ≡ (after, err ControllerError.run_exists))
unfolding extend
create_run_new_example =
    create_run_new insensitive zero_sha with_run create_request append-IsSound_example refl refl
      refl

abbrev access_key : String
access_key = "AKIA0123456789ABCDEF"

-- Packages that know one access key and one text of JSON.
abbrev packages : GoPackages
packages = record {
  to_lower = λ s. s;
  contains = λ s marker. s == marker;
  has_suffix = λ s ending. s == ending;
  fields = λ s. s ∷ [];
  trim_quotes = λ s. s;
  has_password = λ s. false;
  patterns = (λ s. s == access_key) ∷ [];
  unmarshal = λ s. if s == "quoted" then some (Json.text access_key) else none;
  runes = λ s. [];
  of_runes = λ cs. "";
}

abbrev leaking : Event
leaking = event EventType.run_created 0 "run-created" (record empty_data { scenario_id = "quoted" })

append-hidden_example :
    append (contains_credential_material packages) zero_sha false new_memory_event_store 0 leaking
    ≡ err StoreError.sensitive_payload
unfolding has_sensitive_value string_fields has_sensitive_marker has_credential_url
append-hidden_example =
    append-hidden packages zero_sha new_memory_event_store 0 leaking refl Among.first
      (Hides.in_decoded refl (Hides.in_text {s = access_key} refl))
