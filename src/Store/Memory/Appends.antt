-- ===== src/Store/Memory/Appends.antt =====
-- What Append of the store in memory does (internal/store/memory.go).
use agent_dock_coedx5_6sol.Prelude.{
  ℕ, ◌+◌, string_eq, nat_eq, int_eq, Bool, true, false, not, ◌≡◌, refl, sym, ◌∙◌, ap, inl, inr, ◌⊎◌,
  [], ◌∷◌, ◌++◌, ◌==◌, ◌!=◌, Bool-cases, Option, none, some, Option-cases, Result, ok, err, reject,
  >>=-eq-ok, reject-eq-ok, ok-injective, length, get_elem?, get_elem?-append_last, ==_self,
  eq_of_!=, holds_of_not, ℤ,
}
use agent_dock_coedx5_6sol.Domain.Types.{State, EventData, Event}
use agent_dock_coedx5_6sol.Domain.Transition.{DomainError}
use agent_dock_coedx5_6sol.Domain.Decide.{Sha256}
use agent_dock_coedx5_6sol.Domain.Reduce.{reduce}
use agent_dock_coedx5_6sol.Store.Errors.{StoreError, AppendResult}
use agent_dock_coedx5_6sol.Store.Equality.{event_eq}
use agent_dock_coedx5_6sol.Store.Memory.{
  MemoryEventStore, from_domain, event_at, extend, replay, write, append_locked, append,
  validate_append_input, with_version, same_idempotent_event,
}
use agent_dock_coedx5_6sol.Store.Memory.Sound.{
  log, IsSound, extend-IsSound, log-extend, keys-extend_self,
}

from_domain-ok : {A : Type 0} (r : Result DomainError A) {a : A} → from_domain r ≡ ok a → r ≡ ok a
from_domain-ok (ok a) h = cc h
from_domain-ok (err e) h = cc h

event_at-ok : (o : Option Event) {e : Event} → event_at o ≡ ok e → o ≡ some e
event_at-ok none h = cc h
event_at-ok (some e) h = cc h

-- The event as the store keeps it.
abbrev pub sequenced : MemoryEventStore → Event → Event
sequenced m e = record e { seq = length (log m e.run_id) + 1 }

-- A call that returned the event of an earlier one.
abbrev pub Replayed : MemoryEventStore → Event → MemoryEventStore → AppendResult → Type 0
Replayed m e after result =
    (i : ℕ) × (x : Event) × (m.idempotency_keys e.run_id e.idempotency_key ≡ some i)
    × (get_elem? (log m e.run_id) i ≡ some x)
    × (same_idempotent_event x e ≡ true)
    × (after ≡ m)
    × (result ≡ record { event = x; appended = false })

-- A call that wrote the event.
abbrev pub Written :
    Sha256 → MemoryEventStore → ℕ → Event → MemoryEventStore → AppendResult → Type 0
Written sha m n e after result =
    (m.idempotency_keys e.run_id e.idempotency_key ≡ none)
    × (length (log m e.run_id) ≡ n)
    × ((s : State) × (reduce sha (log m e.run_id ++ sequenced m e ∷ []) ≡ ok s))
    × (after ≡ extend m (sequenced m e))
    × (result ≡ record { event = sequenced m e; appended = true })

module _ (sha : Sha256) (m : MemoryEventStore) (n : ℕ) (e : Event) (after : MemoryEventStore)
    (result : AppendResult) where
  replay-Replayed :
      (i : ℕ)
      → m.idempotency_keys e.run_id e.idempotency_key ≡ some i
      → replay m e i ≡ ok (after, result)
      → Replayed m e after result
  unfolding replay
  replay-Replayed i key p =
      let (x, at, p₁) = >>=-eq-ok (event_at (get_elem? (log m e.run_id) i)) _ p in
      let (u, same, p₂) = >>=-eq-ok (reject (not (same_idempotent_event x e)) _) _ p₁ in
      let q = ok-injective p₂ in
      (
        i,
        x,
        key,
        event_at-ok _ at,
        holds_of_not _ (reject-eq-ok _ _ same),
        sym (ap (λ z. z.0) q),
        sym (ap (λ z. z.1) q),
      )

  write-Written :
      m.idempotency_keys e.run_id e.idempotency_key ≡ none
      → write sha m n e ≡ ok (after, result)
      → Written sha m n e after result
  unfolding write
  write-Written key p =
      let (u, version, p₁) = >>=-eq-ok (reject (length (log m e.run_id) != n) _) _ p in
      let (s, accepted, p₂) =
        >>=-eq-ok (from_domain (reduce sha (log m e.run_id ++ sequenced m e ∷ []))) _ p₁ in
      let q = ok-injective p₂ in
      (
        key,
        eq_of_!= _ _ (reject-eq-ok _ _ version),
        (s, from_domain-ok _ accepted),
        sym (ap (λ z. z.0) q),
        sym (ap (λ z. z.1) q),
      )

  locked_cases :
      append_locked sha m n e (m.idempotency_keys e.run_id e.idempotency_key) ≡ ok (after, result)
      → Replayed m e after result ⊎ Written sha m n e after result
  locked_cases p = elim (Option-cases (m.idempotency_keys e.run_id e.idempotency_key)) [
    | inl key ↦ inr (write-Written key (ap (append_locked sha m n e) (sym key) ∙ p))
    | inr (i, key) ↦ inl (replay-Replayed i key (ap (append_locked sha m n e) (sym key) ∙ p))
  ]

module _ (sensitive : EventData → Bool) (sha : Sha256) (done : Bool) (m : MemoryEventStore) (n : ℕ)
    (e : Event) {after : MemoryEventStore} {result : AppendResult} where
  -- A call that succeeds has passed the tests, and has replayed or written the event.
  pub append_parts :
      append sensitive sha done m n e ≡ ok (after, result)
      → (validate_append_input sensitive e ≡ ok tt)
        × (Replayed m (with_version e) after result ⊎ Written sha m n (with_version e) after result)
  unfolding append
  append_parts p =
      let (u, live, p₁) = >>=-eq-ok (reject done StoreError.context_done) _ p in
      let (v, valid, p₂) = >>=-eq-ok (validate_append_input sensitive e) _ p₁ in
      (valid, locked_cases sha m n (with_version e) after result p₂)

  -- An append that succeeds on a sound store gives a sound store.
  pub append-IsSound :
      IsSound sha m → append sensitive sha done m n e ≡ ok (after, result) → IsSound sha after
  append-IsSound sound p = elim (append_parts p).1 [
    | inl (i, x, key, at, same, kept, r) ↦ rw kept sound
    | inr (key, version, accepted, grown, r) ↦
        rw grown (extend-IsSound m (sequenced m (with_version e)) sha sound key refl accepted)
  ]

-- A known key whose event agrees gives that event, whatever version is expected.
replay_known :
    (sha : Sha256) (m : MemoryEventStore) (n : ℕ) (e : Event) {x : Event} {i : ℕ}
    → m.idempotency_keys e.run_id e.idempotency_key ≡ some i
    → get_elem? (log m e.run_id) i ≡ some x
    → same_idempotent_event x e ≡ true
    → append_locked sha m n e (m.idempotency_keys e.run_id e.idempotency_key)
      ≡ ok (m, record { event = x; appended = false })
unfolding replay
replay_known sha m n e key at same = rw (key, at, same) refl

version_given : (e : Event) → (e.payload_version == ℤ.pos 0) ≡ false → with_version e ≡ e
unfolding with_version
version_given e h = rw h refl

with_version-given : (e : Event) → ((with_version e).payload_version == ℤ.pos 0) ≡ false
unfolding with_version
with_version-given e = elim (Bool-cases (e.payload_version == ℤ.pos 0)) [
  | inl h ↦ rw h refl
  | inr h ↦ rw h h
]

-- The event that a call writes agrees with what the call was given.
sequenced_same :
    (m : MemoryEventStore) (e : Event)
    → same_idempotent_event (sequenced m (with_version e)) (with_version e) ≡ true
unfolding same_idempotent_event
sequenced_same m e =
    let f = record (with_version e) { seq = 0; created_at = "" } in
    rw (version_given f (with_version-given e)) (==_self f)

module _ (sensitive : EventData → Bool) (sha : Sha256) (done : Bool) (m : MemoryEventStore)
    (n again : ℕ) (e : Event) {after : MemoryEventStore} {result : AppendResult} where
  known_after :
      Replayed m (with_version e) after result ⊎ Written sha m n (with_version e) after result
      → append_locked sha after again
          (with_version e)
          (after.idempotency_keys (with_version e).run_id (with_version e).idempotency_key)
        ≡ ok (after, record { event = result.event; appended = false })
  known_after (inl (i, x, key, at, same, kept, r)) =
      rw (kept, r) (replay_known sha m again (with_version e) key at same)
  known_after (inr (key, version, accepted, grown, r)) =
      let f = sequenced m (with_version e) in
      rw (grown, r)
        (replay_known sha (extend m f) again (with_version e) (keys-extend_self m f)
          (ap (λ es. get_elem? es (length (log m f.run_id))) (log-extend m f)
            ∙ get_elem?-append_last (log m f.run_id) f)
          (sequenced_same m e))

  -- After an append that succeeds, the same append at any expected version returns the same event,
  -- writes nothing and leaves the store as it is.
  pub append-again :
      append sensitive sha done m n e ≡ ok (after, result)
      → append sensitive sha false after again e
        ≡ ok (after, record { event = result.event; appended = false })
  unfolding append
  append-again p =
      let (valid, cases) = append_parts sensitive sha done m n e p in rw valid (known_after cases)
