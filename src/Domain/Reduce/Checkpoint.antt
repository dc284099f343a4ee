-- ===== src/Domain/Reduce/Checkpoint.antt =====
-- ReduceFromCheckpoint against Reduce of the whole log (internal/domain/reducer.go).
use agent_dock_coedx5_6sol.Prelude.{
  ℕ, ◌+◌, ◌^◌, ◌<◌, ◌↔◌, ◌≡◌, ◌==◌, ◌||◌, String, string_eq, nat_eq, int_eq, Bool, true, false, not,
  List, [], ◌∷◌, ◌++◌, ok, refl, arith, length, sym, ◌∙◌, >>=-eq-ok, ok-injective, skip, eq_iff,
}
use agent_dock_coedx5_6sol.Domain.Types.{State, Event, initial_state}
use agent_dock_coedx5_6sol.Domain.Decide.{Sha256}
use agent_dock_coedx5_6sol.Domain.Apply.{apply_event}
use agent_dock_coedx5_6sol.Domain.Lifecycle.Coherence.{Step-id}
use agent_dock_coedx5_6sol.Domain.Lifecycle.Refinement.{apply_event-Step}
use agent_dock_coedx5_6sol.Domain.Lifecycle.Logs.{reduce-IsCoherent, reduce-id}
use agent_dock_coedx5_6sol.Domain.Reduce.Append.{
  round, keys_after, log_uses, key_used-keys_after, reduce_from-append, reduce-version,
}
use agent_dock_coedx5_6sol.Domain.Reduce.{
  stamp, key_used, reduce_guard, reduce_step, reduce_from, reduce, suffix_guard, suffix_step,
  suffix_from, reduce_from_checkpoint,
}

module _ (version j : ℕ) (keys suffix_keys : List String) (s : State) (e : Event)
    (there : s.exists ≡ true) (room : version + j + 1 < 2 ^ 64) where
  to_suffix :
      (key_used keys e.idempotency_key ≡ false → key_used suffix_keys e.idempotency_key ≡ false)
      → reduce_guard (version + j) keys s e ≡ ok tt
      → suffix_guard version j suffix_keys s e ≡ ok tt
  unfolding reduce_guard suffix_guard
  to_suffix fresh p = ground arith

  of_suffix :
      (s.run.id == "") ≡ false
      → (key_used suffix_keys e.idempotency_key ≡ false → key_used keys e.idempotency_key ≡ false)
      → suffix_guard version j suffix_keys s e ≡ ok tt
      → reduce_guard (version + j) keys s e ≡ ok tt
  unfolding reduce_guard suffix_guard
  of_suffix named fresh p =
      ground (arith, eq_iff e.run_id s.run.id, eq_iff e.run_id "", eq_iff s.run.id "")

suffix_round :
    (sha : Sha256) (version j : ℕ) (keys : List String) (s : State) (e : Event) {t : State}
    → suffix_step sha version j keys s e ≡ ok t
    → (u : State) × (suffix_guard version j keys s e ≡ ok tt)
      × (apply_event sha s e ≡ ok u)
      × (t ≡ stamp u e)
unfolding suffix_step
suffix_round sha version j keys s e p =
    let (g, guard, p₁) = >>=-eq-ok (suffix_guard version j keys s e) _ p in
    let (u, applied, q) = >>=-eq-ok (apply_event sha s e) _ p₁ in
    (u, guard, applied, sym (ok-injective q))

-- No event of the list has a key that `used` knows.
abbrev pub Unused : (String → Bool) → List Event → Type 0
Unused used [] = Unit {0}
Unused used (e ∷ es) = (used e.idempotency_key ≡ false) × Unused used es

-- The keys of the whole log are those before the checkpoint and those after it.
abbrev Joined : (String → Bool) → List String → List String → Type 0
Joined used keys suffix_keys = (k : String) → key_used keys k ≡ (used k || key_used suffix_keys k)

Joined-cons :
    (used : String → Bool) (keys suffix_keys : List String) (key : String)
    → Joined used keys suffix_keys
    → Joined used (key ∷ keys) (key ∷ suffix_keys)
Joined-cons used keys suffix_keys key h k = ground (arith, h k)

stamped :
    (sha : Sha256) (s u : State) (e : Event)
    → s.exists ≡ true
    → apply_event sha s e ≡ ok u
    → ((stamp u e).exists ≡ true) × ((stamp u e).run.id ≡ s.run.id)
unfolding stamp
stamped sha s u e there applied =
    let (same_id, same_exists) = Step-id (apply_event-Step sha s e there applied) in
    (same_exists ∙ there, same_id)

module _ (sha : Sha256) (used : String → Bool) (version : ℕ) where
  to_suffix_from :
      (i j : ℕ) (keys suffix_keys : List String) (s : State) (ys : List Event) {t : State}
      → i ≡ version + j
      → i + length ys < 2 ^ 64
      → Joined used keys suffix_keys
      → s.exists ≡ true
      → reduce_from sha i keys s ys ≡ ok t
      → suffix_from sha version j suffix_keys s ys ≡ ok t
  unfolding reduce_from suffix_from suffix_step
  to_suffix_from i j keys suffix_keys s [] e room joined there p = p
  to_suffix_from i j keys suffix_keys s (y ∷ ys) e room joined there p =
      let (t, stepped, p₁) = >>=-eq-ok (reduce_step sha i keys s y) _ p in
      let (u, guard, applied, q) = round sha i keys s y stepped in
      let guard' =
        to_suffix version j keys suffix_keys s y there (omega (arith, room, e))
          (λ f. ground (arith, joined y.idempotency_key)) (rw e at guard) in
      rw (guard', applied)
        (to_suffix_from (i + 1) (j + 1) (y.idempotency_key ∷ keys) (y.idempotency_key ∷ suffix_keys)
          (stamp u y) ys (omega (arith, e)) (omega (arith, room))
          (Joined-cons used keys suffix_keys y.idempotency_key joined)
          (stamped sha s u y there applied).0 (rw q at p₁))

  of_suffix_from :
      (i j : ℕ) (keys suffix_keys : List String) (s : State) (ys : List Event) {t : State}
      → i ≡ version + j
      → i + length ys < 2 ^ 64
      → Joined used keys suffix_keys
      → Unused used ys
      → s.exists ≡ true
      → (s.run.id == "") ≡ false
      → suffix_from sha version j suffix_keys s ys ≡ ok t
      → reduce_from sha i keys s ys ≡ ok t
  unfolding reduce_from suffix_from reduce_step
  of_suffix_from i j keys suffix_keys s [] e room joined new there named p = p
  of_suffix_from i j keys suffix_keys s (y ∷ ys) e room joined new there named p =
      let (t, stepped, p₁) = >>=-eq-ok (suffix_step sha version j suffix_keys s y) _ p in
      let (u, guard, applied, q) = suffix_round sha version j suffix_keys s y stepped in
      let (there', same) = stamped sha s u y there applied in
      let guard' =
        of_suffix version j keys suffix_keys s y there (omega (arith, room, e)) named
          (λ f. ground (arith, joined y.idempotency_key, new.0)) guard in
      rw (rw (← e) at guard', applied)
        (of_suffix_from (i + 1) (j + 1) (y.idempotency_key ∷ keys) (y.idempotency_key ∷ suffix_keys)
          (stamp u y) ys (omega (arith, e)) (omega (arith, room))
          (Joined-cons used keys suffix_keys y.idempotency_key joined) new.1 there' (rw same named)
          (rw q at p₁))

-- Over a log with a prefix that reduces to the checkpoint, and a suffix that reuses none of its keys,
-- ReduceFromCheckpoint of the suffix and Reduce of the whole log succeed together, with one result.
module _ (sha : Sha256) (e : Event) (xs ys : List Event) {s : State}
    (prefix : reduce sha (e ∷ xs) ≡ ok s) (room : length (e ∷ xs) + length ys < 2 ^ 64) where
  whole_log :
      reduce sha ((e ∷ xs) ++ ys)
      ≡ reduce_from sha (0 + length (e ∷ xs)) (keys_after [] (e ∷ xs)) s ys
  unfolding reduce
  whole_log = rw (reduce_from-append sha 0 [] initial_state (e ∷ xs) ys, prefix) refl

  usable : reduce_from_checkpoint sha s ys ≡ suffix_from sha s.run.version 0 [] s ys
  unfolding reduce_from_checkpoint
  usable = skip (not s.exists || s.run.id == "" || s.run.version == 0) _ _ (
      ground (
        arith,
        (reduce-IsCoherent sha e xs prefix).existing,
        (reduce-id sha e xs prefix).1,
        reduce-version sha (e ∷ xs) prefix,
      ))

  -- For a log that Reduce accepts and a suffix whose keys the log does not use, where the length of
  -- both fits in 64 bits, the whole log reduces to a projection just when the suffix reduces to it
  -- from the log's projection as checkpoint.
  pub checkpoint_agrees :
      {t : State}
      → Unused (log_uses (e ∷ xs)) ys
      → (reduce sha ((e ∷ xs) ++ ys) ≡ ok t) ↔ (reduce_from_checkpoint sha s ys ≡ ok t)
  checkpoint_agrees new =
      let h = reduce-IsCoherent sha e xs prefix in
      let version = reduce-version sha (e ∷ xs) prefix in
      let keys = keys_after [] (e ∷ xs) in
      let joined : Joined (log_uses (e ∷ xs)) keys [] = key_used-keys_after [] (e ∷ xs) in
      (
        λ p. rw usable (
            to_suffix_from sha (log_uses (e ∷ xs)) s.run.version (0 + length (e ∷ xs)) 0 keys [] s
              ys (omega (arith, version)) (omega (arith, room)) joined h.existing
              (rw whole_log at p)),
        λ p. rw whole_log (
            of_suffix_from sha (log_uses (e ∷ xs)) s.run.version (0 + length (e ∷ xs)) 0 keys [] s
              ys (omega (arith, version)) (omega (arith, room)) joined new h.existing
              (reduce-id sha e xs prefix).1 (rw usable at p)),
      )
