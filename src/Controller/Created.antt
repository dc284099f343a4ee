-- ===== src/Controller/Created.antt =====
-- CreateRun over the store in memory (internal/controller/controller.go and internal/store/memory.go).
use agent_dock_coedx5_6sol.Prelude.{
  ℕ, String, string_eq, nat_eq, Bool, true, false, ◌≡◌, refl, sym, ◌∙◌, ap, ◌==◌, ◌||◌, ◌⊎◌, inl,
  inr, [], ◌∷◌, none, some, Result, ok, err, put_self, Option-cases, none_of, get_elem?,
}
use agent_dock_coedx5_6sol.Domain.Types.{
  DesiredState, Status, EventType, Event, EventData, State, initial_state, empty_run,
  current_payload_version,
}
use agent_dock_coedx5_6sol.Domain.Apply.{apply_event, apply_run_created}
use agent_dock_coedx5_6sol.Domain.Decide.{Sha256}
use agent_dock_coedx5_6sol.Domain.Reduce.{reduce, reduce_from, reduce_step, reduce_guard, stamp}
use agent_dock_coedx5_6sol.Store.Memory.{
  MemoryEventStore, load, rebuild, append, extend, with_version, log_of, validate_append_input,
  write,
}
use agent_dock_coedx5_6sol.Store.Memory.Sound.{log, IsSound}
use agent_dock_coedx5_6sol.Controller.Exec.{ControllerError, Exec, ◌>>=◌, memory_event_store}
use agent_dock_coedx5_6sol.Controller.Requests.{
  CreateRunRequest, created_event, get_run, append_once, create_run,
}

module _ (sensitive : EventData → Bool) (sha : Sha256) (m : MemoryEventStore)
    (request : CreateRunRequest) where
  -- The event as the store keeps it, and the projection of its log.
  abbrev pub first_event : Event
  first_event = record (created_event request) {
    payload_version = current_payload_version;
    seq = 1;
  }

  abbrev pub first_state : State
  first_state =
      stamp
        (record initial_state {
          exists = true;
          run = record empty_run {
            id = request.run_id;
            scenario_id = request.scenario_id;
            spec_hash = request.spec_hash;
            desired_state = DesiredState.running;
            observed_state = Status.queued;
            created_at = request.created_at;
          };
        })
        first_event

  reduce-first : (request.run_id == "") ≡ false → reduce sha (first_event ∷ []) ≡ ok first_state
  unfolding reduce reduce_from reduce_step reduce_guard apply_event apply_run_created
  reduce-first named = rw named refl

  -- What CreateRun owes: with a projection, that the run had no log, that its log is the one event of
  -- the request, whose projection it gives, and that no other log has changed; with an error, that the
  -- store is as it was.
  pub Creates : MemoryEventStore × Result ControllerError State → Type 0
  Creates (after, err x) = after ≡ m
  Creates (after, ok s) =
      (m.events request.run_id ≡ none)
      × ((e : Event) × (after.events request.run_id ≡ some (e ∷ []))
          × (e.run_id ≡ request.run_id)
          × (e.kind ≡ EventType.run_created)
          × (e.payload.scenario_id ≡ request.scenario_id)
          × (e.payload.spec_hash ≡ request.spec_hash)
          × (reduce sha (e ∷ []) ≡ ok s))
      × ((s.run.id ≡ request.run_id)
          × (s.run.version ≡ 1)
          × (s.run.desired_state ≡ DesiredState.running)
          × (s.run.observed_state ≡ Status.queued))
      × ((r : String) → (after.events r ≡ m.events r) ⊎ (r ≡ request.run_id))

  module _ (named : (request.run_id == "") ≡ false) (free : m.events request.run_id ≡ none) where
    row : (extend m first_event).events request.run_id ≡ some (first_event ∷ [])
    unfolding extend
    row = put_self m.events request.run_id _ ∙ rw free refl

    rebuilt : rebuild sha false (extend m first_event) request.run_id ≡ ok first_state
    unfolding rebuild load
    rebuilt = rw row (rw (reduce-first named) refl)

    read :
        get_run (memory_event_store sensitive sha false) request.run_id (extend m first_event)
        ≡ (extend m first_event, ok first_state)
    unfolding get_run memory_event_store
    read = rw rebuilt refl

    nothing : (i : ℕ) (x : Event) → get_elem? (log m request.run_id) i ≡ some x → ⊥
    nothing i x old = cc (sym (ap (λ o. get_elem? (log_of o) i) free) ∙ old)

    unused : IsSound sha m → (k : String) → m.idempotency_keys request.run_id k ≡ none
    unused sound k = elim (Option-cases (m.idempotency_keys request.run_id k)) [
      | inl none_there ↦ none_there
      | inr (i, used) ↦
          let (x, old, key) = sound.found request.run_id k i used in absurd (nothing i x old)
    ]

    append-first :
        IsSound sha m
        → sensitive (created_event request).payload ≡ false
        → append sensitive sha false m 0 (created_event request)
          ≡ ok (extend m first_event, record { event = first_event; appended = true })
    unfolding append validate_append_input with_version write
    append-first sound clean =
        rw (named, clean, unused sound "run-created", free, reduce-first named) refl

    created :
        IsSound sha m
        → sensitive (created_event request).payload ≡ false
        → (append_once (memory_event_store sensitive sha false) 0 (created_event request) >>= λ w.
              get_run (memory_event_store sensitive sha false) request.run_id)
            m
          ≡ (extend m first_event, ok first_state)
    unfolding append_once memory_event_store
    created sound clean = rw (append-first sound clean) read

  -- CreateRun succeeds for a new run: if the request is filled, the store is sound and has no log of the
  -- run, and the payload is not sensitive, it gives a projection of the run, and a second CreateRun for
  -- the same run then changes nothing and fails with run_exists.
  pub create_run_new :
      IsSound sha m
      → (request.run_id == "" || request.scenario_id == "" || request.spec_hash == "") ≡ false
      → m.events request.run_id ≡ none
      → sensitive (created_event request).payload ≡ false
      → (after : MemoryEventStore) × (s : State) × (create_run
            (memory_event_store sensitive sha false)
            request
            m
          ≡ (after, ok s))
        × (create_run (memory_event_store sensitive sha false) request after
            ≡ (after, err ControllerError.run_exists))
  unfolding create_run load memory_event_store
  create_run_new sound filled free clean =
      let named =
        (none_of (request.run_id == "") _
          (none_of (request.run_id == "" || request.scenario_id == "") _ filled).0).0 in
      (
        extend m first_event,
        first_state,
        rw (filled, free) (created named free sound clean),
        rw (filled, row named free) refl,
      )
