-- ===== src/Examples/Turns.antt =====
-- The theorems on model turns at one turn of a tool call, a usage and a finish (internal/reasoner).
use agent_dock_coedx5_6sol.Prelude.{
  ℤ, ◌≡◌, refl, String, string_eq, Bool, true, false, Result, none, some, List, [], ◌∷◌, arith,
  Memᴰ,
}
use agent_dock_coedx5_6sol.Reasoner.Types.{
  Contract, Request, Message, Role, EventKind, StreamEvent, ReasonerResult,
}
use agent_dock_coedx5_6sol.Reasoner.Stream.{
  SliceStream, slice_stream, NormalizedStream, normalized_stream, new_normalized_stream,
}
use agent_dock_coedx5_6sol.Reasoner.Requests.{
  system_contract, validate_phase5_request, validate_messages, validate_tools, plain_message,
  messages_for_model,
}
use agent_dock_coedx5_6sol.Reasoner.Requested.{
  AllDistinct, NotSystem, validate_phase5_request-authority,
}
use agent_dock_coedx5_6sol.Reasoner.Collect.{CollectError, collect}
use agent_dock_coedx5_6sol.Reasoner.Turns.{Outcome}
use agent_dock_coedx5_6sol.Reasoner.Finished.{slice_rank, slice_falls, collect_ends}

abbrev pub json : String → Bool
json s = true

abbrev pub read_file : Contract
read_file = record { name = "read_file"; is_valid = true; accepts = λ arguments. true }

abbrev pub turn_request : Request
turn_request = record {
  messages = [];
  tools = read_file ∷ [];
  task_summary = "task";
  failure_evidence = "";
  token_limit = ℤ.pos 100;
}

abbrev no_event : StreamEvent
no_event = record {
  kind = EventKind.text_delta;
  text = "";
  tool_call = none;
  usage = none;
  finish = none;
  error = none;
}

abbrev turn : SliceStream
turn = record {
  events =
      record no_event {
        kind = EventKind.tool_call;
        tool_call = some (record { id = "1"; name = "read_file"; arguments = "{}" });
      }
      ∷ record no_event {
        kind = EventKind.usage;
        usage =
            some
              (record { input_tokens = ℤ.pos 3; output_tokens = ℤ.pos 4; total_tokens = ℤ.pos 7 });
      }
      ∷ record no_event { kind = EventKind.finish; finish = some "stop" }
      ∷ [];
  failure = none;
  closed = false;
}

collect_ends_example :
    (n : NormalizedStream json turn_request slice_stream) × (r : Result CollectError ReasonerResult)
    × (collect
          (normalized_stream json turn_request slice_stream)
          4
          (new_normalized_stream json turn_request slice_stream turn)
        ≡ some (n, r))
    × Outcome json turn_request slice_stream r
unfolding slice_rank
collect_ends_example =
    collect_ends json turn_request slice_stream slice_rank slice_falls 4 turn (omega arith)

-- A request with one message of the user.
abbrev pub conversation : Request
conversation = record turn_request { messages = plain_message Role.user "hello" ∷ [] }

abbrev no_data : String → String → ℤ → String
no_data summary evidence limit = "{}"

validate_phase5_request-authority_example :
    AllDistinct conversation.tools
    × (rest : List Message) × (messages_for_model no_data conversation
        ≡ plain_message Role.system system_contract ∷ rest)
    × ((m : Message) → Memᴰ m rest → NotSystem m)
unfolding validate_phase5_request validate_tools validate_messages
validate_phase5_request-authority_example =
    validate_phase5_request-authority json no_data conversation refl
