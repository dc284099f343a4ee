-- ===== src/Reasoner/Agent.antt =====
-- internal/reasoner/coding_agent.go: Run of CodingAgent over a state S. `reason` is Collect of a turn of
-- the reasoner, `invoke` is Invoke of the tool service with the text of its response, `contracts_match`
-- is ContractSetsEqual with the contracts of the service, and `context_done` is ctx.Err().
use agent_dock_coedx5_6sol.Prelude.{
  ℕ, zero, suc, ◌+◌, ◌-◌, ◌%◌, ◌^◌, ℤ, String, string_eq, Bool, not, ◌||◌, ◌==◌, List, [], ◌∷◌,
  ◌++◌, Result, ok, err, if◌then◌else◌, is_negative, concat,
}
use agent_dock_coedx5_6sol.Reasoner.Types.{
  Role, ToolCall, Message, Contract, Request, Usage, ReasonerResult, to_word, of_word, wrap_add,
}
use agent_dock_coedx5_6sol.Reasoner.Collect.{CollectError}
use agent_dock_coedx5_6sol.Reasoner.Requests.{RequestError, validate_phase5_request}

pub record CodingAgentResult : Type 0 where
  pub text : String
  pub messages : List Message
  pub usage : Usage
  pub turns : ℕ
  pub tool_call_count : ℕ

pub record CodingAgentRequest : Type 0 where
  pub run_id : String
  pub attempt_id : String
  pub reasoner : Request

pub data AgentError : Type 0 where
  missing_identity contracts_differ context_error token_budget missing_calls turn_budget :
      AgentError
  bad_request : RequestError → AgentError
  collected : CollectError → AgentError
  invocation : String → AgentError

-- `a - b` on Go's 64-bit `int`
abbrev pub wrap_sub : ℤ → ℤ → ℤ
wrap_sub a b = of_word ((to_word a + (2 ^ 64 - to_word b)) % 2 ^ 64)

-- The message of a turn of the model, and that of the response to a call.
abbrev pub assistant_message : ReasonerResult → Message
assistant_message t = record {
  role = Role.assistant;
  content = t.output;
  tool_calls = t.tool_calls;
  tool_call_id = "";
  tool_name = "";
}

abbrev pub tool_message : ToolCall → String → Message
tool_message call payload = record {
  role = Role.tool;
  content = payload;
  tool_calls = [];
  tool_call_id = call.id;
  tool_name = call.name;
}

-- The result with a turn of the model: its text, its usage, and its message.
abbrev pub with_turn : ℕ → CodingAgentResult → ReasonerResult → CodingAgentResult
with_turn turn r t = record r {
  turns = turn;
  text = concat (r.text ∷ t.output ∷ []);
  usage = record {
    input_tokens = wrap_add r.usage.input_tokens t.usage.input_tokens;
    output_tokens = wrap_add r.usage.output_tokens t.usage.output_tokens;
    total_tokens = wrap_add r.usage.total_tokens t.usage.total_tokens;
  };
  messages = r.messages ++ assistant_message t ∷ [];
}

-- The result with the response to a call.
abbrev pub with_response : CodingAgentResult → ToolCall → String → CodingAgentResult
with_response r call payload = record r {
  messages = r.messages ++ tool_message call payload ∷ [];
  tool_call_count = r.tool_call_count + 1;
}

module _ {S : Type 0} (json_valid : String → Bool) (contracts_match : List Contract → Bool)
    (context_done : S → Bool) (reason : Request → S → S × Result CollectError ReasonerResult)
    (invoke : String → String → ToolCall → S → S × Result String String)
    (request : CodingAgentRequest) where
  -- What follows a step: the rest, if the step gave a value.
  abbrev pub and_then :
      {A B : Type 0}
      → S × Result AgentError A
      → (A → S → S × Result AgentError B)
      → S × Result AgentError B
  and_then (m, ok a) rest = rest a m
  and_then (m, err e) rest = (m, err e)

  abbrev pub responded :
      CodingAgentResult
      → ToolCall
      → S × Result String String
      → S × Result AgentError CodingAgentResult
  responded r call (m, ok payload) = (m, ok (with_response r call payload))
  responded r call (m, err text) = (m, err (AgentError.invocation text))

  -- The loop over the calls of a turn.
  unfoldable pub invoke_calls :
      List ToolCall → CodingAgentResult → S → S × Result AgentError CodingAgentResult
  invoke_calls [] r m = (m, ok r)
  invoke_calls (call ∷ rest) r m =
      and_then (responded r call (invoke request.run_id request.attempt_id call m))
        (λ next. invoke_calls rest next)

  -- The end of a turn: a turn without calls ends the run.
  unfoldable pub finish_turn :
      (CodingAgentResult → S → S × Result AgentError CodingAgentResult)
      → List ToolCall
      → String
      → CodingAgentResult
      → S
      → S × Result AgentError CodingAgentResult
  finish_turn rest [] reason_text r m =
      if reason_text == "tool_calls" then (m, err AgentError.missing_calls) else (m, ok r)
  finish_turn rest (call ∷ calls) reason_text r m = and_then (invoke_calls (call ∷ calls) r m) rest

  -- What follows a turn of the model, with the tokens that are left after it.
  unfoldable pub after_turn :
      (CodingAgentResult → S → S × Result AgentError CodingAgentResult)
      → ℕ
      → ℤ
      → CodingAgentResult
      → S × Result CollectError ReasonerResult
      → S × Result AgentError CodingAgentResult
  after_turn rest turn left r (m, err e) = (m, err (AgentError.collected e))
  after_turn rest turn left r (m, ok t) =
      if is_negative left
      then (m, err AgentError.token_budget)
      else finish_turn rest t.tool_calls t.finish_reason (with_turn turn r t) m

  abbrev pub total_of : Result CollectError ReasonerResult → ℤ
  total_of (ok t) = t.usage.total_tokens
  total_of (err e) = ℤ.pos 0

  -- The loop over the turns, with the number that is left of maxTurns.
  unfoldable pub agent_turns :
      ℕ → ℕ → ℤ → CodingAgentResult → S → S × Result AgentError CodingAgentResult
  agent_turns zero turn remaining r m = (m, err AgentError.turn_budget)
  agent_turns (suc more) turn remaining r m =
      let asked : Request = record request.reasoner {
        messages = r.messages;
        token_limit = remaining;
      } in
      let left : ℤ = wrap_sub remaining (total_of (reason asked m).1) in
      if context_done m
      then (m, err AgentError.context_error)
      else after_turn (λ next. agent_turns more (suc turn) left next) turn left r (reason asked m)

  abbrev pub accepted :
      ℕ → Result RequestError (Unit {0}) → S → S × Result AgentError CodingAgentResult
  accepted max_turns (err e) m = (m, err (AgentError.bad_request e))
  accepted max_turns (ok u) m =
      if not (contracts_match request.reasoner.tools)
      then (m, err AgentError.contracts_differ)
      else agent_turns max_turns 1 request.reasoner.token_limit
          (record {
            text = "";
            messages = request.reasoner.messages;
            usage = record {
              input_tokens = ℤ.pos 0;
              output_tokens = ℤ.pos 0;
              total_tokens = ℤ.pos 0;
            };
            turns = 0;
            tool_call_count = 0;
          })
          m

  -- Run
  unfoldable pub run_agent : ℕ → S → S × Result AgentError CodingAgentResult
  run_agent max_turns m =
      if request.run_id == "" || request.attempt_id == ""
      then (m, err AgentError.missing_identity)
      else accepted max_turns (validate_phase5_request json_valid request.reasoner) m
