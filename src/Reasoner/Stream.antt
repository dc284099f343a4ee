-- ===== src/Reasoner/Stream.antt =====
-- internal/reasoner/stream.go: sliceStream and normalizedStream. `json_valid` is jsonValid.
use agent_dock_coedx5_6sol.Prelude.{
  ℕ, ◌+◌, String, string_eq, nat_eq, Bool, true, false, not, ◌&&◌, ◌||◌, ◌==◌, ◌!=◌, List, [], ◌∷◌,
  Option, none, some, Result, ok, err, ◌>>◌, reject, if◌then◌else◌, is_positive, is_negative,
  int_ltb, concat,
}
use agent_dock_coedx5_6sol.Reasoner.Types.{
  ToolCall, Contract, Request, Usage, StreamError, EventKind, StreamEvent, Received, Stream,
  wrap_add,
}

-- sliceStream: what is left of its events, its error, and whether it is closed.
pub record SliceStream : Type 0 where
  pub events : List StreamEvent
  pub failure : Option Received
  pub closed : Bool

abbrev pub slice_recv_open : List StreamEvent → Option Received → SliceStream × Received
slice_recv_open (e ∷ rest) failure =
    (record { events = rest; failure = failure; closed = false }, Received.event e)
slice_recv_open [] (some x) = (record { events = []; failure = none; closed = false }, x)
slice_recv_open [] none =
    (record { events = []; failure = none; closed = false }, Received.end_of_file)

abbrev pub slice_recv_unless : SliceStream → Bool → SliceStream × Received
slice_recv_unless s true = (s, Received.end_of_file)
slice_recv_unless s false = slice_recv_open s.events s.failure

unfoldable pub slice_recv : SliceStream → SliceStream × Received
slice_recv s = slice_recv_unless s s.closed

abbrev pub slice_stream : Stream SliceStream
slice_stream = record { recv = slice_recv; close = λ s. record s { closed = true } }

abbrev pub stream_error : String → String → Bool → StreamError
stream_error class message retryable = record {
  class = class;
  message = message;
  retryable = retryable;
}

-- An Error event
abbrev pub as_event : StreamError → StreamEvent
as_event failure = record {
  kind = EventKind.error;
  text = "";
  tool_call = none;
  usage = none;
  finish = none;
  error = some failure;
}

-- errorEvent
abbrev pub error_event : String → String → Bool → StreamEvent
error_event class message retryable = as_event (stream_error class message retryable)

abbrev pub one : {A : Type 0} → Option A → ℕ
one none = 0
one (some a) = 1

-- The number of variants of an event.
abbrev pub variant_count : StreamEvent → ℕ
variant_count e =
    (if e.text == "" then 0 else 1) + one e.tool_call + one e.usage + one e.finish + one e.error

abbrev pub invalid : String → StreamError
invalid message = stream_error "invalid_event" message false

abbrev pub bad_arguments : StreamError
bad_arguments =
    stream_error "invalid_tool_arguments" "Tool arguments do not match the registered JSON Schema"
      false

module _ (json_valid : String → Bool) where
  -- The parts of validateEventShape for a type of event.
  abbrev pub tool_call_shape : Option ToolCall → Result StreamError (Unit {0})
  tool_call_shape none = err (invalid "Tool Call requires id, name, and arguments")
  tool_call_shape (some call) = do
    reject (call.id == "" || call.name == "" || call.arguments == "")
        (invalid "Tool Call requires id, name, and arguments")
    reject (not (json_valid call.arguments)) bad_arguments

  abbrev pub usage_shape : Option Usage → Result StreamError (Unit {0})
  usage_shape none = err (invalid "Usage token counts must be non-negative")
  usage_shape (some u) = do
    reject (is_negative u.input_tokens || is_negative u.output_tokens || is_negative u.total_tokens)
        (invalid "Usage token counts must be non-negative")
    reject (int_ltb u.total_tokens (wrap_add u.input_tokens u.output_tokens))
        (invalid "Usage total is smaller than input plus output")

  abbrev pub finish_shape : Option String → Result StreamError (Unit {0})
  finish_shape none = err (invalid "Finish reason is required")
  finish_shape (some reason) = reject (reason == "") (invalid "Finish reason is required")

  abbrev pub error_shape : Option StreamError → Result StreamError (Unit {0})
  error_shape none = err (invalid "normalized Error requires class and message")
  error_shape (some failure) =
      reject (failure.class == "" || failure.message == "")
        (invalid "normalized Error requires class and message")

  unfoldable pub shape_of : EventKind → StreamEvent → Result StreamError (Unit {0})
  shape_of EventKind.text_delta e =
      reject (e.text == "" || one e.tool_call + one e.usage + one e.finish + one e.error != 0)
        (invalid "invalid Text Delta event")
  shape_of EventKind.tool_call e = tool_call_shape e.tool_call
  shape_of EventKind.usage e = usage_shape e.usage
  shape_of EventKind.finish e = finish_shape e.finish
  shape_of EventKind.error e = error_shape e.error
  shape_of (EventKind.other name) e =
      err (invalid (concat ("unsupported normalized event type " ∷ name ∷ [])))

  -- validateEventShape
  unfoldable pub validate_event_shape : StreamEvent → Result StreamError (Unit {0})
  validate_event_shape e = do
    reject (variant_count e != 1) (invalid "normalized event must contain exactly one variant")
    shape_of e.kind e

  module _ (request : Request) where
    -- contract
    unfoldable pub find_contract : List Contract → String → Option Contract
    find_contract [] name = none
    find_contract (c ∷ rest) name = if c.name == name then some c else find_contract rest name

    abbrev pub no_tools : List Contract → Bool
    no_tools [] = true
    no_tools (c ∷ rest) = false

    abbrev pub check_contract : ToolCall → Option Contract → Result StreamError (Unit {0})
    check_contract call none =
        reject (not (no_tools request.tools && call.name == "phase1.patch"))
          (stream_error "invalid_tool" "Tool name is not registered" false)
    check_contract call (some c) = reject (not (c.accepts call.arguments)) bad_arguments

    -- A missing call and a missing usage do not pass the shape.
    abbrev pub check_call : Option ToolCall → Result StreamError (Unit {0})
    check_call none = ok tt
    check_call (some call) = check_contract call (find_contract request.tools call.name)

    abbrev pub check_usage : Bool → Option Usage → Result StreamError (Unit {0})
    check_usage usage_seen none = ok tt
    check_usage usage_seen (some u) = do
      reject usage_seen (invalid "Reasoner turn must contain exactly one Usage event")
      reject (is_positive request.token_limit && int_ltb request.token_limit u.total_tokens)
          (stream_error "token_budget_exceeded" "Reasoner token budget exceeded" false)

    unfoldable pub check_event : Bool → EventKind → StreamEvent → Result StreamError (Unit {0})
    unfolding find_contract
    check_event usage_seen EventKind.tool_call e = check_call e.tool_call
    check_event usage_seen EventKind.usage e = check_usage usage_seen e.usage
    check_event usage_seen EventKind.finish e =
        reject (not (no_tools request.tools) && not usage_seen)
          (invalid "Reasoner turn requires one Usage event before Finish")
    check_event usage_seen _ e = ok tt

    -- validateEvent
    unfoldable pub validate_event : Bool → StreamEvent → Result StreamError (Unit {0})
    validate_event usage_seen e = do validate_event_shape e; check_event usage_seen e.kind e

    module _ {S : Type 0} (source : Stream S) where
      -- normalizedStream
      pub record NormalizedStream : Type 0 where
        pub inner : S
        pub terminal : Bool
        pub usage_seen : Bool

      -- A stream that has ended, with its source closed.
      abbrev pub ended : S → Bool → NormalizedStream
      ended s usage_seen = record {
        inner = source.close s;
        terminal = true;
        usage_seen = usage_seen;
      }

      abbrev pub is_usage : EventKind → Bool
      is_usage EventKind.usage = true
      is_usage _ = false

      abbrev pub is_last : EventKind → Bool
      is_last EventKind.finish = true
      is_last EventKind.error = true
      is_last _ = false

      -- The stream after an event of a kind.
      abbrev pub delivered : S → Bool → EventKind → NormalizedStream
      delivered s usage_seen kind =
          if is_last kind
          then ended s (usage_seen || is_usage kind)
          else record { inner = s; terminal = false; usage_seen = usage_seen || is_usage kind }

      -- The rest of Recv for an event of the source that passed, or did not pass, the validation.
      unfoldable pub deliver :
          S → Bool → StreamEvent → Result StreamError (Unit {0}) → NormalizedStream × Received
      deliver s usage_seen e (err failure) = (ended s usage_seen, Received.event (as_event failure))
      deliver s usage_seen e (ok u) = (delivered s usage_seen e.kind, Received.event e)

      -- The rest of Recv after that of the source.
      unfoldable pub after_recv : Bool → S → Received → NormalizedStream × Received
      after_recv usage_seen s Received.end_of_file = (
        ended s usage_seen,
        Received.event
            (error_event "streaming_interrupted" "model stream ended before Finish" true),
      )
      after_recv usage_seen s (Received.failure f) =
          (ended s usage_seen, Received.event (as_event f))
      after_recv usage_seen s Received.canceled = (
        ended s usage_seen,
        Received.event (error_event "canceled" "reasoner request was canceled" false),
      )
      after_recv usage_seen s Received.broken = (
        ended s usage_seen,
        Received.event (error_event "streaming_interrupted" "model stream was interrupted" true),
      )
      after_recv usage_seen s (Received.event e) =
          deliver s usage_seen e (validate_event usage_seen e)

      -- Recv
      abbrev pub recv_unless : NormalizedStream → Bool → NormalizedStream × Received
      recv_unless n true = (n, Received.end_of_file)
      recv_unless n false = after_recv n.usage_seen (source.recv n.inner).0 (source.recv n.inner).1

      unfoldable pub normalized_recv : NormalizedStream → NormalizedStream × Received
      normalized_recv n = recv_unless n n.terminal

      -- Close
      unfoldable pub normalized_close : NormalizedStream → NormalizedStream
      normalized_close n = record n { inner = source.close n.inner; terminal = true }

      -- NewNormalizedStream of a source that is there
      abbrev pub new_normalized_stream : S → NormalizedStream
      new_normalized_stream s = record { inner = s; terminal = false; usage_seen = false }

      abbrev pub normalized_stream : Stream NormalizedStream
      normalized_stream = record { recv = normalized_recv; close = normalized_close }
