-- ===== src/Reasoner/Turns.antt =====
-- What a turn of the normalized stream gathers, event by event (internal/reasoner/stream.go and
-- reasoner.go).
use agent_dock_coedx5_6sol.Prelude.{
  String, string_eq, nat_eq, Bool, true, false, ◌≡◌, ◌≢◌, ◌∙◌, ap, ◌&&◌, ◌==◌, List, [], ◌∷◌, ◌++◌,
  Memᴰ, head, tail, Option, none, some, Result, ok, err, ◌⊎◌, inl, inr, ◌>>=◌, reject-eq-ok,
  through, is_positive, int_ltb, ==_self, concat,
}
use agent_dock_coedx5_6sol.Reasoner.Types.{
  ToolCall, Request, Usage, StreamError, EventKind, StreamEvent, ReasonerResult, Stream,
}
use agent_dock_coedx5_6sol.Reasoner.Stream.{
  invalid, shape_of, tool_call_shape, usage_shape, finish_shape, error_shape, check_call,
  check_usage, check_event, NormalizedStream, normalized_stream, delivered,
}
use agent_dock_coedx5_6sol.Reasoner.Collect.{CollectError, completed, present, gather, go_on}

pub Memᴰ-snoc : {A : Type 0} (xs : List A) {x y : A} → Memᴰ x (xs ++ y ∷ []) → Memᴰ x xs ⊎ (x ≡ y)
Memᴰ-snoc [] (head e) = inr e
Memᴰ-snoc [] (tail m) = elim m [ ]
Memᴰ-snoc (z ∷ xs) (head e) = inl (head e)
Memᴰ-snoc (z ∷ xs) (tail m) = elim (Memᴰ-snoc xs m) [ inl k ↦ inl (tail k) | inr e ↦ inr e ]

module _ (json_valid : String → Bool) (request : Request) {S : Type 0} (source : Stream S) where
  -- What holds of the part of a result that has been gathered: the usage is within the budget, every call
  -- is of a tool of the request with arguments that it accepts (or the one of phase 1, for a request
  -- without tools), and a stream that has ended normally has a reason.
  pub record Gathered (n : NormalizedStream json_valid request source) (r : ReasonerResult)
      : Type 0 where
    pub budget :
        (is_positive request.token_limit && int_ltb request.token_limit r.usage.total_tokens)
        ≡ false
    pub calls :
        (call : ToolCall)
        → Memᴰ call r.tool_calls
        → check_call json_valid request (some call) ≡ ok tt
    pub finished : n.terminal ≡ true → r.finish_reason ≢ ""

  -- What a collected result is.
  pub record IsComplete (r : ReasonerResult) : Type 0 where
    pub budget :
        (is_positive request.token_limit && int_ltb request.token_limit r.usage.total_tokens)
        ≡ false
    pub calls :
        (call : ToolCall)
        → Memᴰ call r.tool_calls
        → check_call json_valid request (some call) ≡ ok tt
    pub finished : r.finish_reason ≢ ""

  -- The outcome of a call of Collect: such a result, or the error of an Error event.
  abbrev pub Outcome : Result CollectError ReasonerResult → Type 0
  Outcome (ok r) = IsComplete r
  Outcome (err (CollectError.stream failure)) = Unit {0}
  Outcome (err _) = ⊥

  -- A loop that has ended with such an outcome.
  abbrev pub Settled :
      Option (NormalizedStream json_valid request source × Result CollectError ReasonerResult)
      → Type 0
  Settled none = ⊥
  Settled (some (n, r)) = Outcome r

  pub completed-IsComplete :
      (n : NormalizedStream json_valid request source) (r : ReasonerResult)
      → Gathered n r
      → n.terminal ≡ true
      → IsComplete (completed r)
  completed-IsComplete n r g h = record {
    budget = g.budget;
    calls = g.calls;
    finished = g.finished h;
  }

  module _
      (rest : ReasonerResult
        → Option (NormalizedStream json_valid request source × Result CollectError ReasonerResult))
      (s : S) (usage_seen : Bool) (r : ReasonerResult)
      (g : Gathered (record { inner = s; terminal = false; usage_seen = usage_seen }) r) where
    -- The rest of the loop settles from any result with what an event of a kind leaves.
    abbrev pub Onward : EventKind → Type 0
    Onward kind =
        (next : ReasonerResult)
        → Gathered (delivered json_valid request source s usage_seen kind) next
        → Settled (rest next)

    -- The loop after a part that an event adds.
    abbrev pub Continued : EventKind → Result CollectError ReasonerResult → Type 0
    Continued kind part = Settled (
        go_on (normalized_stream json_valid request source) rest
          (delivered json_valid request source s usage_seen kind) part)

    text-Settled :
        (text : String)
        → Onward EventKind.text_delta
        → Continued EventKind.text_delta (ok (record r { output = concat (r.output ∷ text ∷ []) }))
    text-Settled text onward =
        onward _ (record { budget = g.budget; calls = g.calls; finished = λ h. cc h })

    call-Settled :
        (o : Option ToolCall)
        → tool_call_shape json_valid o ≡ ok tt
        → check_call json_valid request o ≡ ok tt
        → Onward EventKind.tool_call
        → Continued EventKind.tool_call
            (do call ← present o; ok (record r { tool_calls = r.tool_calls ++ call ∷ [] }))
    call-Settled none shape check onward = cc shape
    call-Settled (some call) shape check onward = onward _ (record {
      budget = g.budget;
      calls = λ c m. elim (Memᴰ-snoc r.tool_calls m) [
        | inl k ↦ g.calls c k
        | inr e ↦ ap (λ x. check_call json_valid request (some x)) e ∙ check
      ];
      finished = λ h. cc h;
    })

    usage-Settled :
        (o : Option Usage)
        → usage_shape json_valid o ≡ ok tt
        → check_usage json_valid request usage_seen o ≡ ok tt
        → Onward EventKind.usage
        → Continued EventKind.usage (do u ← present o; ok (record r { usage = u }))
    usage-Settled none shape check onward = cc shape
    usage-Settled (some u) shape check onward =
        let (fresh, last) =
          through usage_seen (invalid "Reasoner turn must contain exactly one Usage event") _
            check in
        onward _ (record { budget = reject-eq-ok _ _ last; calls = g.calls; finished = λ h. cc h })

    finish-Settled :
        (o : Option String)
        → finish_shape json_valid o ≡ ok tt
        → Onward EventKind.finish
        → Continued EventKind.finish
            (do reason ← present o; ok (record r { finish_reason = reason }))
    finish-Settled none shape onward = cc shape
    finish-Settled (some reason) shape onward = onward _ (record {
      budget = g.budget;
      calls = g.calls;
      finished = λ h e. named reason (reject-eq-ok _ _ shape) e;
    })
      where
        named : (text : String) → (text == "") ≡ false → text ≢ ""
        named text h e = let empty : String = "" in cc (h, ap (λ t. t == empty) e, ==_self empty)

    error-Settled :
        (o : Option StreamError)
        → error_shape json_valid o ≡ ok tt
        → Continued EventKind.error (do failure ← present o; err (CollectError.stream failure))
    error-Settled none shape = cc shape
    error-Settled (some failure) shape = tt

    -- An event that passes the validation.
    pub gather-Settled :
        (kind : EventKind) (e : StreamEvent)
        → shape_of json_valid kind e ≡ ok tt
        → check_event json_valid request usage_seen kind e ≡ ok tt
        → Onward kind
        → Continued kind (gather kind e r)
    unfolding shape_of check_event gather
    gather-Settled EventKind.text_delta e shape check onward = text-Settled e.text onward
    gather-Settled EventKind.tool_call e shape check onward =
        call-Settled e.tool_call shape check onward
    gather-Settled EventKind.usage e shape check onward = usage-Settled e.usage shape check onward
    gather-Settled EventKind.finish e shape check onward = finish-Settled e.finish shape onward
    gather-Settled EventKind.error e shape check onward = error-Settled e.error shape
    gather-Settled (EventKind.other name) e shape check onward = cc shape
