-- ===== src/Examples/Agents.antt =====
-- The theorem on coding agents at a run of two turns, the first with one call (internal/reasoner).
use agent_dock_coedx5_6sol.Prelude.{
  ℕ, zero, suc, refl, concat, String, string_eq, true, false, Result, ok, [], ◌∷◌, ◌++◌,
}
use agent_dock_coedx5_6sol.Reasoner.Types.{ToolCall, Request, ReasonerResult, wrap_add}
use agent_dock_coedx5_6sol.Reasoner.Collect.{CollectError, empty_result}
use agent_dock_coedx5_6sol.Reasoner.Requests.{
  validate_phase5_request, validate_messages, validate_tools,
}
use agent_dock_coedx5_6sol.Reasoner.Agent.{
  CodingAgentRequest, CodingAgentResult, assistant_message, tool_message, invoke_calls, finish_turn,
  after_turn, agent_turns, run_agent,
}
use agent_dock_coedx5_6sol.Reasoner.Transcript.{Finished, run_agent-Finished}
use agent_dock_coedx5_6sol.Examples.Turns.{json, conversation}

abbrev request : CodingAgentRequest
request = record { run_id = "run-1"; attempt_id = "attempt-1"; reasoner = conversation }

abbrev call : ToolCall
call = record { id = "1"; name = "read_file"; arguments = "{}" }

abbrev calling : ReasonerResult
calling = record empty_result { tool_calls = call ∷ []; finish_reason = "tool_calls" }

abbrev answering : ReasonerResult
answering = record empty_result { finish_reason = "stop" }

-- The first turn calls the tool, and the others answer.
abbrev turns_of : Request → ℕ → ℕ × Result CollectError ReasonerResult
turns_of asked zero = (1, ok calling)
turns_of asked (suc n) = (suc n, ok answering)

abbrev respond : String → String → ToolCall → ℕ → ℕ × Result String String
respond run_id attempt_id c n = (n, ok "contents")

abbrev final : CodingAgentResult
final = record {
  text = "";
  messages =
      conversation.messages
      ++ assistant_message calling
        ∷ tool_message call "contents"
        ∷ assistant_message answering
        ∷ [];
  usage = empty_result.usage;
  turns = 2;
  tool_call_count = 1;
}

run_agent-Finished_example : Finished conversation.messages 3 final
unfolding run_agent agent_turns after_turn finish_turn invoke_calls validate_phase5_request
    validate_messages validate_tools wrap_add concat
run_agent-Finished_example =
    run_agent-Finished json (λ contracts. true) (λ n. false) turns_of respond request 3 0 1 final
      refl
