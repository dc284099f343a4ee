-- ===== src/Reasoner/Transcript.antt =====
-- The transcript of a coding agent's run (internal/reasoner/coding_agent.go).
use agent_dock_coedx5_6sol.Prelude.{
  ℕ, zero, suc, ◌+◌, ◌≤◌, ℤ, String, string_eq, Bool, true, false, not, ◌≡◌, refl, sym, ◌∙◌, ap,
  subst, arith, ◌||◌, ◌==◌, List, [], ◌∷◌, ◌++◌, append_assoc, append-nil, Result, ok, err,
  if◌then◌else◌, is_negative,
}
use agent_dock_coedx5_6sol.Reasoner.Types.{
  Role, ToolCall, Message, Contract, Request, ReasonerResult,
}
use agent_dock_coedx5_6sol.Reasoner.Collect.{CollectError}
use agent_dock_coedx5_6sol.Reasoner.Requests.{RequestError, validate_phase5_request}
use agent_dock_coedx5_6sol.Reasoner.Agent.{
  CodingAgentResult, CodingAgentRequest, AgentError, wrap_sub, with_turn, with_response,
  assistant_message, tool_message, and_then, responded, invoke_calls, finish_turn, after_turn,
  total_of, agent_turns, accepted, run_agent,
}

-- The number of the responses of tools among messages.
abbrev pub one_if_tool : Role → ℕ
one_if_tool Role.tool = 1
one_if_tool _ = 0

unfoldable pub tool_messages : List Message → ℕ
tool_messages [] = 0
tool_messages (m ∷ rest) = one_if_tool m.role + tool_messages rest

tool_messages-append :
    (xs ys : List Message) → tool_messages (xs ++ ys) ≡ tool_messages xs + tool_messages ys
unfolding tool_messages
tool_messages-append [] ys = omega arith
tool_messages-append (x ∷ xs) ys = omega (arith, tool_messages-append xs ys)

-- A result extends the messages of the request by the messages of the run, and counts the responses of
-- tools among them.
pub record Extends (base : List Message) (r : CodingAgentResult) : Type 0 where
  pub more : List Message
  pub messages : r.messages ≡ base ++ more
  pub counted : r.tool_call_count ≡ tool_messages more

-- The messages end with one of the assistant that calls no tool.
pub record EndsAnswered (all : List Message) : Type 0 where
  pub before : List Message
  pub last : Message
  pub split : all ≡ before ++ last ∷ []
  pub role : last.role ≡ Role.assistant
  pub calls : last.tool_calls ≡ []

-- One more message.
Extends-snoc :
    (base : List Message) (r next : CodingAgentResult) (m : Message)
    → Extends base r
    → next.messages ≡ r.messages ++ m ∷ []
    → next.tool_call_count ≡ r.tool_call_count + one_if_tool m.role
    → Extends base next
unfolding tool_messages
Extends-snoc base r next m h p q = record {
  more = h.more ++ m ∷ [];
  messages = p ∙ (ap (λ xs. xs ++ m ∷ []) h.messages ∙ append_assoc base h.more (m ∷ []));
  counted = omega (arith, q, h.counted, tool_messages-append h.more (m ∷ []));
}

-- A finished run of at most so many turns.
pub record Finished (base : List Message) (max_turns : ℕ) (r : CodingAgentResult) : Type 0 where
  pub extended : Extends base r
  pub answered : EndsAnswered r.messages
  pub started : 1 ≤ r.turns
  pub bounded : r.turns ≤ max_turns

-- The result of a call, if there is one, has the property.
abbrev pub Returns :
    {S : Type 0} → (CodingAgentResult → Type 0) → S × Result AgentError CodingAgentResult → Type 0
Returns P (m, ok r) = P r
Returns P (m, err e) = Unit {0}

module _ {S : Type 0} (json_valid : String → Bool) (contracts_match : List Contract → Bool)
    (context_done : S → Bool) (reason : Request → S → S × Result CollectError ReasonerResult)
    (invoke : String → String → ToolCall → S → S × Result String String)
    (request : CodingAgentRequest) where
  then-Returns :
      (P Q : CodingAgentResult → Type 0) (x : S × Result AgentError CodingAgentResult)
      (rest : CodingAgentResult → S → S × Result AgentError CodingAgentResult)
      → Returns P x
      → ((r : CodingAgentResult) → P r → (m : S) → Returns Q (rest r m))
      → Returns Q (and_then json_valid contracts_match context_done reason invoke request x rest)
  then-Returns P Q (m, ok r) rest h k = k r h m
  then-Returns P Q (m, err e) rest h k = tt

  responded-Returns :
      (base : List Message) (r : CodingAgentResult) (call : ToolCall) (x : S × Result String String)
      → Extends base r
      → Returns
          (Extends base)
          (responded json_valid contracts_match context_done reason invoke request r call x)
  responded-Returns base r call (m, ok payload) h =
      Extends-snoc base r (with_response r call payload) (tool_message call payload) h refl refl
  responded-Returns base r call (m, err text) h = tt

  calls-Returns :
      (base : List Message) (calls : List ToolCall) (r : CodingAgentResult) (m : S)
      → Extends base r
      → Returns
          (Extends base)
          (invoke_calls json_valid contracts_match context_done reason invoke request calls r m)
  unfolding invoke_calls
  calls-Returns base [] r m h = h
  calls-Returns base (call ∷ rest) r m h =
      then-Returns (Extends base) (Extends base) _ _
        (responded-Returns base r call (invoke request.run_id request.attempt_id call m) h)
        (λ next k n. calls-Returns base rest next n k)

  if-Returns :
      (P : CodingAgentResult → Type 0) (b : Bool) (x y : S × Result AgentError CodingAgentResult)
      → Returns P x
      → Returns P y
      → Returns P (if b then x else y)
  if-Returns P true x y h k = h
  if-Returns P false x y h k = k

  module _ (base : List Message) (max_turns : ℕ)
      (rest : CodingAgentResult → S → S × Result AgentError CodingAgentResult)
      (onward : (r : CodingAgentResult)
        → Extends base r
        → (m : S) → Returns (Finished base max_turns) (rest r m)) where
    finish-Returns :
        (calls : List ToolCall) (reason_text : String) (r : CodingAgentResult) (m : S)
        → Extends base r
        → (calls ≡ [] → EndsAnswered r.messages)
        → 1 ≤ r.turns
        → r.turns ≤ max_turns
        → Returns (Finished base max_turns) (
            finish_turn json_valid contracts_match context_done reason invoke request rest calls
              reason_text r m)
    unfolding finish_turn
    finish-Returns [] reason_text r m h ends low high =
        if-Returns (Finished base max_turns) (reason_text == "tool_calls")
          (m, err AgentError.missing_calls) (m, ok r) tt
          (record { extended = h; answered = ends refl; started = low; bounded = high })
    finish-Returns (call ∷ calls) reason_text r m h ends low high =
        then-Returns (Extends base) (Finished base max_turns) _ rest
          (calls-Returns base (call ∷ calls) r m h) onward

    turn-Returns :
        (turn : ℕ) (left : ℤ) (r : CodingAgentResult) (x : S × Result CollectError ReasonerResult)
        → Extends base r
        → 1 ≤ turn
        → turn ≤ max_turns
        → Returns (Finished base max_turns) (
            after_turn json_valid contracts_match context_done reason invoke request rest turn left
              r x)
    unfolding after_turn
    turn-Returns turn left r (m, err e) h low high = tt
    turn-Returns turn left r (m, ok t) h low high =
        if-Returns (Finished base max_turns) (is_negative left) (m, err AgentError.token_budget) _
          tt
          (finish-Returns t.tool_calls t.finish_reason (with_turn turn r t) m
            (Extends-snoc base r (with_turn turn r t) (assistant_message t) h refl (omega arith))
            (λ none. record {
              before = r.messages;
              last = assistant_message t;
              split = refl;
              role = refl;
              calls = none;
            })
            low high)

  turns-Returns :
      (base : List Message) (max_turns left turn : ℕ) (remaining : ℤ) (r : CodingAgentResult)
      (m : S)
      → Extends base r
      → 1 ≤ turn
      → turn + left ≤ max_turns + 1
      → Returns (Finished base max_turns) (
          agent_turns json_valid contracts_match context_done reason invoke request left turn
            remaining r m)
  unfolding agent_turns
  turns-Returns base max_turns zero turn remaining r m h low high = tt
  turns-Returns base max_turns (suc more) turn remaining r m h low high =
      let asked : Request = record request.reasoner {
        messages = r.messages;
        token_limit = remaining;
      } in
      let left : ℤ = wrap_sub remaining (
        total_of json_valid contracts_match context_done reason invoke request
          (reason asked m).1) in
      if-Returns (Finished base max_turns) (context_done m) (m, err AgentError.context_error) _ tt
        (turn-Returns base max_turns
          (λ next.
            agent_turns json_valid contracts_match context_done reason invoke request more
              (suc turn) left next)
          (λ next k n.
            turns-Returns base max_turns more (suc turn) left next n k (omega arith)
              (omega (arith, high)))
          turn left r (reason asked m) h low (omega (arith, high)))

  accepted-Returns :
      (max_turns : ℕ) (v : Result RequestError (Unit {0})) (m : S)
      → Returns
          (Finished request.reasoner.messages max_turns)
          (accepted json_valid contracts_match context_done reason invoke request max_turns v m)
  unfolding tool_messages
  accepted-Returns max_turns (err e) m = tt
  accepted-Returns max_turns (ok u) m =
      if-Returns (Finished request.reasoner.messages max_turns)
        (not (contracts_match request.reasoner.tools)) (m, err AgentError.contracts_differ) _ tt
        (turns-Returns request.reasoner.messages max_turns max_turns 1 request.reasoner.token_limit
          _ m
          (record {
            more = [];
            messages = sym (append-nil request.reasoner.messages);
            counted = refl;
          })
          (omega arith) (omega arith))

  -- A result of Run comes of between one and maxTurns turns; its transcript is that of the request with
  -- messages added at its end, it counts the responses of tools among them, and the last message is the
  -- assistant's and calls no tool.
  pub run_agent-Finished :
      (max_turns : ℕ) (m after : S) (r : CodingAgentResult)
      → run_agent json_valid contracts_match context_done reason invoke request max_turns m
        ≡ (after, ok r)
      → Finished request.reasoner.messages max_turns r
  unfolding run_agent
  run_agent-Finished max_turns m after r p =
      subst (Returns (Finished request.reasoner.messages max_turns)) p (
        if-Returns (Finished request.reasoner.messages max_turns)
          (request.run_id == "" || request.attempt_id == "") (m, err AgentError.missing_identity) _
          tt (accepted-Returns max_turns (validate_phase5_request json_valid request.reasoner) m))
