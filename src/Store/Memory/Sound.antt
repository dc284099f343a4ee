-- ===== src/Store/Memory/Sound.antt =====
-- The invariant of the store in memory (internal/store/memory.go): what its two maps owe each other.
use agent_dock_coedx5_6sol.Prelude.{
  put, ℕ, ◌+◌, String, string_eq, false, ◌≡◌, refl, sym, ◌∙◌, ap, inl, inr, List, [], ◌∷◌, ◌++◌,
  ◌==◌, Bool-cases, none, some, ok, length, get_elem?, get_elem?-snoc, get_elem?-append_last,
  get_elem?-append_left, ==_self, eq_of_==, if_false, subst,
}
use agent_dock_coedx5_6sol.Domain.Types.{State, Event}
use agent_dock_coedx5_6sol.Domain.Decide.{Sha256}
use agent_dock_coedx5_6sol.Domain.Reduce.{reduce}
use agent_dock_coedx5_6sol.Store.Memory.{MemoryEventStore, log_of, extend, new_memory_event_store}

abbrev pub log : MemoryEventStore → String → List Event
log m r = log_of (m.events r)

-- Each log reduces; the event at an index of a run's log is the run's, is numbered one more, and has
-- its key mapped to that index; and a mapped key is that of the event at its index.
pub record IsSound (sha : Sha256) (m : MemoryEventStore) : Type 0 where
  pub reduces : (r : String) → (s : State) × (reduce sha (log m r) ≡ ok s)
  pub indexed :
      (r : String) (i : ℕ) (e : Event)
      → get_elem? (log m r) i ≡ some e
      → (e.run_id ≡ r) × (e.seq ≡ i + 1) × (m.idempotency_keys r e.idempotency_key ≡ some i)
  pub found :
      (r k : String) (i : ℕ)
      → m.idempotency_keys r k ≡ some i
      → (e : Event) × (get_elem? (log m r) i ≡ some e) × (e.idempotency_key ≡ k)

pub new_memory_event_store-IsSound : (sha : Sha256) → IsSound sha new_memory_event_store
unfolding reduce agent_dock_coedx5_6sol.Domain.Reduce.reduce_from
new_memory_event_store-IsSound sha = record {
  reduces = λ r. (_, refl);
  indexed = λ r i e h. cc h;
  found = λ r k i h. cc h;
}

module _ (m : MemoryEventStore) (e : Event) where
  pub log-extend : log (extend m e) e.run_id ≡ log m e.run_id ++ e ∷ []
  unfolding extend
  log-extend = rw (==_self e.run_id) refl

  pub log-extend_other : (r : String) → (r == e.run_id) ≡ false → log (extend m e) r ≡ log m r
  unfolding extend
  log-extend_other r q = rw q refl

  keys-extend :
      (k : String)
      → (extend m e).idempotency_keys e.run_id k
        ≡ put (m.idempotency_keys e.run_id) e.idempotency_key (length (log m e.run_id)) k
  unfolding extend
  keys-extend k = rw (==_self e.run_id) refl

  keys-extend_other :
      (r k : String)
      → (r == e.run_id) ≡ false
      → (extend m e).idempotency_keys r k ≡ m.idempotency_keys r k
  unfolding extend
  keys-extend_other r k q = rw q refl

  pub keys-extend_self :
      (extend m e).idempotency_keys e.run_id e.idempotency_key ≡ some (length (log m e.run_id))
  keys-extend_self = keys-extend e.idempotency_key ∙ rw (==_self e.idempotency_key) refl

  module _ (sha : Sha256) (sound : IsSound sha m)
      (free : m.idempotency_keys e.run_id e.idempotency_key ≡ none)
      (next : e.seq ≡ length (log m e.run_id) + 1)
      (accepted : (s : State) × (reduce sha (log m e.run_id ++ e ∷ []) ≡ ok s)) where
    kept_key :
        (k : String) (i : ℕ)
        → m.idempotency_keys e.run_id k ≡ some i
        → (extend m e).idempotency_keys e.run_id k ≡ some i
    kept_key k i used = elim (Bool-cases (k == e.idempotency_key)) [
      | inl same ↦ cc (free, used, eq_of_== k e.idempotency_key same)
      | inr other ↦ keys-extend k ∙ if_false (k == e.idempotency_key) _ _ other ∙ used
    ]

    own_indexed :
        (i : ℕ) (x : Event)
        → get_elem? (log m e.run_id ++ e ∷ []) i ≡ some x
        → (x.run_id ≡ e.run_id)
          × (x.seq ≡ i + 1)
          × ((extend m e).idempotency_keys e.run_id x.idempotency_key ≡ some i)
    own_indexed i x at = elim (get_elem?-snoc (log m e.run_id) e i at) [
      | inl old ↦
          let (owner, number, key) = sound.indexed e.run_id i x old in
          (owner, number, kept_key x.idempotency_key i key)
      | inr (last, new) ↦ rw (new, last) (refl, next, keys-extend_self)
    ]

    own_found :
        (k : String) (i : ℕ)
        → put (m.idempotency_keys e.run_id) e.idempotency_key (length (log m e.run_id)) k ≡ some i
        → (x : Event) × (get_elem? (log m e.run_id ++ e ∷ []) i ≡ some x) × (x.idempotency_key ≡ k)
    own_found k i used = elim (Bool-cases (k == e.idempotency_key)) [
      | inl same ↦
          let here : put (m.idempotency_keys e.run_id) e.idempotency_key (length (log m e.run_id)) k
              ≡ some (length (log m e.run_id)) =
            rw same refl in
          let at : length (log m e.run_id) ≡ i = cc (used, here) in
          (
            e,
            subst (λ j. get_elem? (log m e.run_id ++ e ∷ []) j ≡ some e) at
                (get_elem?-append_last (log m e.run_id) e),
            sym (eq_of_== k e.idempotency_key same),
          )
      | inr other ↦
          let (x, at, key) =
            sound.found e.run_id k i (sym (if_false (k == e.idempotency_key) _ _ other) ∙ used) in
          (x, get_elem?-append_left (log m e.run_id) (e ∷ []) i at, key)
    ]

    same_indexed :
        (r : String)
        → r ≡ e.run_id
        → (i : ℕ) (x : Event) → get_elem? (log (extend m e) r) i ≡ some x
        → (x.run_id ≡ r)
          × (x.seq ≡ i + 1)
          × ((extend m e).idempotency_keys r x.idempotency_key ≡ some i)
    same_indexed r q =
        rw q (λ i x at. own_indexed i x (ap (λ es. get_elem? es i) (sym log-extend) ∙ at))

    same_found :
        (r : String)
        → r ≡ e.run_id
        → (k : String) (i : ℕ) → (extend m e).idempotency_keys r k ≡ some i
        → (x : Event) × (get_elem? (log (extend m e) r) i ≡ some x) × (x.idempotency_key ≡ k)
    same_found r q = rw q (λ k i used. rw log-extend (own_found k i (sym (keys-extend k) ∙ used)))

    pub extend-IsSound : IsSound sha (extend m e)
    extend-IsSound = record {
      reduces = λ r. elim (Bool-cases (r == e.run_id)) [
        | inl same ↦ rw (eq_of_== r e.run_id same) (rw log-extend accepted)
        | inr other ↦ rw (log-extend_other r other) (sound.reduces r)
      ];
      indexed = λ r i x at. elim (Bool-cases (r == e.run_id)) [
        | inl same ↦ same_indexed r (eq_of_== r e.run_id same) i x at
        | inr other ↦
            rw (keys-extend_other r x.idempotency_key other) (
              sound.indexed r i x (ap (λ es. get_elem? es i) (sym (log-extend_other r other)) ∙ at))
      ];
      found = λ r k i used. elim (Bool-cases (r == e.run_id)) [
        | inl same ↦ same_found r (eq_of_== r e.run_id same) k i used
        | inr other ↦
            rw (log-extend_other r other)
              (sound.found r k i (sym (keys-extend_other r k other) ∙ used))
      ];
    }
