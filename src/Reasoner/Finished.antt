-- ===== src/Reasoner/Finished.antt =====
-- Collect of a normalized stream ends, and what it ends with (internal/reasoner/stream.go and
-- reasoner.go).
use agent_dock_coedx5_6sol.Prelude.{
  ℕ, zero, suc, ◌+◌, ◌≤◌, ◌<◌, ℤ, String, Bool, true, false, ◌≡◌, refl, arith, ◌&&◌, ◌!=◌, nat_eq,
  List, [], ◌∷◌, length, Option, none, some, Result, ok, err, >>=-eq-ok, through, is_positive,
  int_ltb,
}
use agent_dock_coedx5_6sol.Reasoner.Types.{
  Request, StreamError, EventKind, StreamEvent, ReasonerResult, Received, Stream,
}
use agent_dock_coedx5_6sol.Reasoner.Stream.{
  SliceStream, slice_recv, slice_recv_open, slice_recv_unless, one, invalid, validate_event_shape,
  variant_count, validate_event, NormalizedStream, delivered, deliver, after_recv, recv_unless,
  normalized_recv, normalized_stream, new_normalized_stream,
}
use agent_dock_coedx5_6sol.Reasoner.Collect.{
  CollectError, empty_result, gather, collect_received, collect_loop, closed, collect,
}
use agent_dock_coedx5_6sol.Reasoner.Turns.{
  Gathered, Outcome, Settled, completed-IsComplete, gather-Settled,
}

module _ (json_valid : String → Bool) (request : Request) {S : Type 0} (source : Stream S)
    (rank : S → ℕ)
    (falls : (s : S) (e : StreamEvent)
      → (source.recv s).1 ≡ Received.event e
      → rank (source.recv s).0 < rank s) where
  -- The fuel is enough for a stream: one Recv for an end, and one more than the rank of a source that is
  -- still read.
  Enough : ℕ → Bool → S → Type 0
  Enough fuel true s = 1 ≤ fuel
  Enough fuel false s = rank s + 1 ≤ fuel

  module _
      (rest : NormalizedStream json_valid request source
        → ReasonerResult
        → Option (NormalizedStream json_valid request source × Result CollectError ReasonerResult))
      (fuel : ℕ)
      (onward : (n : NormalizedStream json_valid request source) (r : ReasonerResult)
        → Gathered json_valid request source n r
        → Enough fuel n.terminal n.inner
        → Settled json_valid request source (rest n r)) where
    Enough-delivered :
        (s t : S) (usage_seen : Bool) (kind : EventKind)
        → rank t < rank s
        → rank s + 1 ≤ suc fuel
        → Enough fuel
            (delivered json_valid request source t usage_seen kind).terminal
            (delivered json_valid request source t usage_seen kind).inner
    unfolding Enough
    Enough-delivered s t usage_seen EventKind.finish less room = omega (arith, less, room)
    Enough-delivered s t usage_seen EventKind.error less room = omega (arith, less, room)
    Enough-delivered s t usage_seen EventKind.text_delta less room = omega (arith, less, room)
    Enough-delivered s t usage_seen EventKind.tool_call less room = omega (arith, less, room)
    Enough-delivered s t usage_seen EventKind.usage less room = omega (arith, less, room)
    Enough-delivered s t usage_seen (EventKind.other name) less room = omega (arith, less, room)

    -- What follows an event of the source, by the outcome of its validation.
    deliver-Settled :
        (s t : S) (usage_seen : Bool) (e : StreamEvent) (r : ReasonerResult)
        (v : Result StreamError (Unit {0}))
        → validate_event json_valid request usage_seen e ≡ v
        → Gathered json_valid request source
            (record { inner = s; terminal = false; usage_seen = usage_seen })
            r
        → rank t < rank s
        → rank s + 1 ≤ suc fuel
        → Settled json_valid request source (
            collect_received
              (normalized_stream json_valid request source)
              (λ next. rest (deliver json_valid request source t usage_seen e v).0 next)
              (deliver json_valid request source t usage_seen e v).0
              r
              (deliver json_valid request source t usage_seen e v).1)
    unfolding collect_received deliver gather validate_event validate_event_shape
    deliver-Settled s t usage_seen e r (err failure) at g less room = tt
    deliver-Settled s t usage_seen e r (ok u) at g less room =
        let (v, shape, check) = >>=-eq-ok (validate_event_shape json_valid e) _ at in
        let (single, kind) =
          through (variant_count e != 1)
            (invalid "normalized event must contain exactly one variant") _ shape in
        gather-Settled json_valid request source
          (λ next. rest (delivered json_valid request source t usage_seen e.kind) next) t usage_seen
          r (record { budget = g.budget; calls = g.calls; finished = λ h. cc h }) e.kind e kind
          check (λ next h. onward _ next h (Enough-delivered s t usage_seen e.kind less room))

    recv-Settled :
        (s : S) (usage_seen : Bool) (r : ReasonerResult) (x : Received)
        → (source.recv s).1 ≡ x
        → Gathered json_valid request source
            (record { inner = s; terminal = false; usage_seen = usage_seen })
            r
        → rank s + 1 ≤ suc fuel
        → Settled json_valid request source (
            collect_received
              (normalized_stream json_valid request source)
              (λ next.
                rest (after_recv json_valid request source usage_seen (source.recv s).0 x).0 next)
              (after_recv json_valid request source usage_seen (source.recv s).0 x).0
              r
              (after_recv json_valid request source usage_seen (source.recv s).0 x).1)
    unfolding collect_received after_recv gather
    recv-Settled s usage_seen r Received.end_of_file at g room = tt
    recv-Settled s usage_seen r (Received.failure f) at g room = tt
    recv-Settled s usage_seen r Received.canceled at g room = tt
    recv-Settled s usage_seen r Received.broken at g room = tt
    recv-Settled s usage_seen r (Received.event e) at g room =
        deliver-Settled s (source.recv s).0 usage_seen e r _ refl g (falls s e at) room

    unless-Settled :
        (n : NormalizedStream json_valid request source) (r : ReasonerResult) (terminal : Bool)
        → n.terminal ≡ terminal
        → Gathered json_valid request source n r
        → Enough (suc fuel) terminal n.inner
        → Settled json_valid request source (
            collect_received
              (normalized_stream json_valid request source)
              (λ next. rest (recv_unless json_valid request source n terminal).0 next)
              (recv_unless json_valid request source n terminal).0
              r
              (recv_unless json_valid request source n terminal).1)
    unfolding collect_received Enough
    unless-Settled n r true at g room = completed-IsComplete json_valid request source n r g at
    unless-Settled n r false at g room =
        recv-Settled n.inner n.usage_seen r (source.recv n.inner).1 refl
          (record { budget = g.budget; calls = g.calls; finished = λ h. cc h }) room

  no_fuel : (terminal : Bool) (s : S) → Enough 0 terminal s → ⊥
  unfolding Enough
  no_fuel true s h = omega (arith, h)
  no_fuel false s h = omega (arith, h)

  loop-Settled :
      (fuel : ℕ) (n : NormalizedStream json_valid request source) (r : ReasonerResult)
      → Gathered json_valid request source n r
      → Enough fuel n.terminal n.inner
      → Settled json_valid request source
          (collect_loop (normalized_stream json_valid request source) fuel n r)
  unfolding collect_loop normalized_recv
  loop-Settled zero n r g room = absurd (no_fuel n.terminal n.inner room)
  loop-Settled (suc fuel) n r g room =
      unless-Settled
        (λ m next. collect_loop (normalized_stream json_valid request source) fuel m next) fuel
        (λ m next h k. loop-Settled fuel m next h k) n r n.terminal refl g room

  closed-Settled :
      (o : Option (NormalizedStream json_valid request source × Result CollectError ReasonerResult))
      → Settled json_valid request source o
      → (n : NormalizedStream json_valid request source) × (r : Result CollectError ReasonerResult)
        × (closed (normalized_stream json_valid request source) o ≡ some (n, r))
        × Outcome json_valid request source r
  closed-Settled none h = absurd h
  closed-Settled (some (n, r)) h = (_, r, refl, h)

  nothing-Gathered :
      (s : S)
      → (is_positive request.token_limit && int_ltb request.token_limit (ℤ.pos 0)) ≡ false
      → Gathered json_valid request source
          (new_normalized_stream json_valid request source s)
          empty_result
  nothing-Gathered s within = record {
    budget = within;
    calls = λ call m. elim m [ ];
    finished = λ h. cc h;
  }

  within_budget : (limit : ℤ) → (is_positive limit && int_ltb limit (ℤ.pos 0)) ≡ false
  within_budget (ℤ.pos n) = ground arith
  within_budget (ℤ.negsuc n) = refl

  -- Collect of a normalized stream ends, for a source whose rank falls with each event, in at most one
  -- round more than the rank: it returns a result that is complete, or the error of an Error event, and
  -- never a leaked error, an unexpected event or a panic. A complete result has a reason to finish, a
  -- usage within the request's token limit, and only calls of the request's tools with arguments that
  -- they accept, or for a request without tools the call of phase 1.
  pub collect_ends :
      (fuel : ℕ) (s : S)
      → rank s + 1 ≤ fuel
      → (n : NormalizedStream json_valid request source) × (r : Result CollectError ReasonerResult)
        × (collect
              (normalized_stream json_valid request source)
              fuel
              (new_normalized_stream json_valid request source s)
            ≡ some (n, r))
        × Outcome json_valid request source r
  unfolding collect Enough
  collect_ends fuel s room =
      closed-Settled
        (collect_loop (normalized_stream json_valid request source) fuel
          (new_normalized_stream json_valid request source s) empty_result)
        (loop-Settled fuel (new_normalized_stream json_valid request source s) empty_result
          (nothing-Gathered s (within_budget request.token_limit)) room)

-- sliceStream is such a source: its rank is the number of its events, and one for its error.
unfoldable pub slice_rank : SliceStream → ℕ
slice_rank s = length s.events + one s.failure

open_falls :
    (events : List StreamEvent) (failure : Option Received) (e : StreamEvent) (closed : Bool)
    → (slice_recv_open events failure).1 ≡ Received.event e
    → slice_rank (slice_recv_open events failure).0
      < slice_rank (record { events = events; failure = failure; closed = closed })
unfolding slice_rank
open_falls (x ∷ rest) failure e closed h = omega arith
open_falls [] (some x) e closed h = omega arith
open_falls [] none e closed h = cc h

unless_falls :
    (s : SliceStream) (e : StreamEvent) (closed : Bool)
    → (slice_recv_unless s closed).1 ≡ Received.event e
    → slice_rank (slice_recv_unless s closed).0 < slice_rank s
unless_falls s e true h = cc h
unless_falls s e false h = open_falls s.events s.failure e s.closed h

pub slice_falls :
    (s : SliceStream) (e : StreamEvent)
    → (slice_recv s).1 ≡ Received.event e
    → slice_rank (slice_recv s).0 < slice_rank s
unfolding slice_recv
slice_falls s e h = unless_falls s e s.closed h
