-- ===== src/Reasoner/Types.antt =====
-- internal/reasoner/reasoner.go: events, requests and results. An error class is its text.
use agent_dock_coedx5_6sol.Prelude.{
  ℕ, ◌+◌, ◌-◌, ◌%◌, ◌^◌, ℤ, String, Bool, List, Option, if◌then◌else◌, ltb,
}

pub data Role : Type 0 where
  system user assistant tool : Role
  other : String → Role

pub record ToolCall : Type 0 where
  pub id : String
  pub name : String
  pub arguments : String

pub record Message : Type 0 where
  pub role : Role
  pub content : String
  pub tool_calls : List ToolCall
  pub tool_call_id : String
  pub tool_name : String

-- Contract of internal/tools/contract.go, as far as a turn uses it: `is_valid` is the success of
-- Validate, and `accepts` that of ValidateInput.
pub record Contract : Type 0 where
  pub name : String
  pub is_valid : Bool
  pub accepts : String → Bool

-- Request, with the token limit of its Budget
pub record Request : Type 0 where
  pub messages : List Message
  pub tools : List Contract
  pub task_summary : String
  pub failure_evidence : String
  pub token_limit : ℤ

pub record Usage : Type 0 where
  pub input_tokens : ℤ
  pub output_tokens : ℤ
  pub total_tokens : ℤ

pub record StreamError : Type 0 where
  pub class : String
  pub message : String
  pub retryable : Bool

pub data EventKind : Type 0 where
  text_delta tool_call usage finish error : EventKind
  other : String → EventKind

-- Event: `kind` is the field `Type`, and `finish` the reason of a Finish.
pub record StreamEvent : Type 0 where
  pub kind : EventKind
  pub text : String
  pub tool_call : Option ToolCall
  pub usage : Option Usage
  pub finish : Option String
  pub error : Option StreamError

-- Result, with its ToolCalls
pub record ReasonerResult : Type 0 where
  pub output : String
  pub tool_call : Option ToolCall
  pub tool_calls : List ToolCall
  pub usage : Usage
  pub finish_reason : String

-- What Recv returns: an event, io.EOF, an error that wraps a StreamError, context.Canceled, or another
-- error.
pub data Received : Type 0 where
  event : StreamEvent → Received
  end_of_file : Received
  failure : StreamError → Received
  canceled broken : Received

-- Stream
pub record Stream (S : Type 0) : Type 0 where
  pub recv : S → S × Received
  pub close : S → S

-- `a + b` on Go's 64-bit `int`
abbrev pub to_word : ℤ → ℕ
to_word (ℤ.pos n) = n % 2 ^ 64
to_word (ℤ.negsuc n) = 2 ^ 64 - 1 - n % 2 ^ 64

abbrev pub of_word : ℕ → ℤ
of_word w = if ltb w (2 ^ 63) then ℤ.pos w else ℤ.negsuc (2 ^ 64 - 1 - w)

unfoldable pub wrap_add : ℤ → ℤ → ℤ
wrap_add a b = of_word ((to_word a + to_word b) % 2 ^ 64)
