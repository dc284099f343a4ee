-- ===== src/Reasoner/Collect.antt =====
-- internal/reasoner/reasoner.go: Collect and ValidatePhase1Result. The loop is on fuel; none is a loop
-- that the fuel did not end.
use agent_dock_coedx5_6sol.Prelude.{
  ℕ, zero, suc, ℤ, String, string_eq, Bool, not, ◌||◌, ◌==◌, ◌!=◌, List, [], ◌∷◌, ◌++◌, Option,
  none, some, Result, ok, err, ◌>>=◌, ◌>>◌, reject, concat,
}
use agent_dock_coedx5_6sol.Reasoner.Types.{
  ToolCall, StreamError, EventKind, StreamEvent, ReasonerResult, Received, Stream,
}

-- `leaked` and `unexpected` wrap ErrInvalidResult, `stream` is the error of an Error event, and
-- `nil_pointer` the panic on an event without its variant.
pub data CollectError : Type 0 where
  nil_stream leaked unexpected nil_pointer : CollectError
  stream : StreamError → CollectError

abbrev pub empty_result : ReasonerResult
empty_result = record {
  output = "";
  tool_call = none;
  tool_calls = [];
  usage = record { input_tokens = ℤ.pos 0; output_tokens = ℤ.pos 0; total_tokens = ℤ.pos 0 };
  finish_reason = "";
}

-- The result at the end of the stream.
abbrev pub first_call : List ToolCall → Option ToolCall
first_call [] = none
first_call (call ∷ rest) = some call

abbrev pub completed : ReasonerResult → ReasonerResult
completed r = record r { tool_call = first_call r.tool_calls }

-- A variant of an event, or the panic for its absence.
abbrev pub present : {A : Type 0} → Option A → Result CollectError A
present none = err CollectError.nil_pointer
present (some a) = ok a

-- The switch of Collect: the result with the event, or the end of the call.
unfoldable pub gather :
    EventKind → StreamEvent → ReasonerResult → Result CollectError ReasonerResult
gather EventKind.text_delta e r = ok (record r { output = concat (r.output ∷ e.text ∷ []) })
gather EventKind.tool_call e r = do
  call ← present e.tool_call
  ok (record r { tool_calls = r.tool_calls ++ call ∷ [] })
gather EventKind.usage e r = do u ← present e.usage; ok (record r { usage = u })
gather EventKind.finish e r = do reason ← present e.finish; ok (record r { finish_reason = reason })
gather EventKind.error e r = do failure ← present e.error; err (CollectError.stream failure)
gather (EventKind.other name) e r = err CollectError.unexpected

module _ {S : Type 0} (source : Stream S) where
  -- What follows an event: the rest of the loop, or the end with an error.
  abbrev pub go_on :
      (ReasonerResult → Option (S × Result CollectError ReasonerResult))
      → S
      → Result CollectError ReasonerResult
      → Option (S × Result CollectError ReasonerResult)
  go_on rest s (ok r) = rest r
  go_on rest s (err e) = some (s, err e)

  -- What follows a Recv.
  unfoldable pub collect_received :
      (ReasonerResult → Option (S × Result CollectError ReasonerResult))
      → S
      → ReasonerResult
      → Received
      → Option (S × Result CollectError ReasonerResult)
  collect_received rest s r Received.end_of_file = some (s, ok (completed r))
  collect_received rest s r (Received.event e) = go_on rest s (gather e.kind e r)
  collect_received rest s r _ = some (s, err CollectError.leaked)

  -- The loop of Collect.
  unfoldable pub collect_loop :
      ℕ → S → ReasonerResult → Option (S × Result CollectError ReasonerResult)
  collect_loop zero s r = none
  collect_loop (suc fuel) s r =
      collect_received (λ next. collect_loop fuel (source.recv s).0 next) (source.recv s).0 r
        (source.recv s).1

  -- The deferred Close
  abbrev pub closed :
      Option (S × Result CollectError ReasonerResult)
      → Option (S × Result CollectError ReasonerResult)
  closed none = none
  closed (some (s, r)) = some (source.close s, r)

  -- Collect of a stream that is there
  unfoldable pub collect : ℕ → S → Option (S × Result CollectError ReasonerResult)
  unfolding collect_loop
  collect fuel s = closed (collect_loop fuel s empty_result)

pub data ResultError : Type 0 where
  missing_tool_call illegal_tool_call invalid_arguments : ResultError

abbrev pub check_phase1_call : (String → Bool) → Option ToolCall → Result ResultError (Unit {0})
check_phase1_call json_valid none = err ResultError.missing_tool_call
check_phase1_call json_valid (some call) = do
  reject (call.name != "phase1.patch") ResultError.illegal_tool_call
  reject (call.arguments == "" || not (json_valid call.arguments)) ResultError.invalid_arguments

-- ValidatePhase1Result
unfoldable pub validate_phase1_result :
    (String → Bool) → ReasonerResult → Result ResultError (Unit {0})
validate_phase1_result json_valid result = check_phase1_call json_valid result.tool_call
