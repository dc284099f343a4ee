-- ===== src/Domain/Reduce/Append.antt =====
-- Reduce over a log in two parts (internal/domain/reducer.go).
use native.Mathlib.Nat.{add-zero}
use agent_dock_coedx5_6sol.Prelude.{
  ℕ, suc, ◌+◌, ◌≡◌, ◌==◌, ◌!=◌, ◌>>=◌, ◌||◌, String, string_eq, nat_eq, Bool, false, List, [], ◌∷◌,
  ◌++◌, ok, refl, arith, length, any, ap, sym, ◌∙◌, >>=-eq-ok, ok-injective, reject, reject-eq-ok,
  eq_of_!=, Result-cases, inl, inr,
}
use agent_dock_coedx5_6sol.Domain.Types.{State, Event, initial_state}
use agent_dock_coedx5_6sol.Domain.Transition.{DomainError}
use agent_dock_coedx5_6sol.Domain.Decide.{Sha256}
use agent_dock_coedx5_6sol.Domain.Apply.{apply_event}
use agent_dock_coedx5_6sol.Domain.Reduce.{
  stamp, key_used, reduce_guard, reduce_step, reduce_from, reduce,
}

-- The keys that the loop has met after `es`.
abbrev pub keys_after : List String → List Event → List String
keys_after keys [] = keys
keys_after keys (e ∷ es) = keys_after (e.idempotency_key ∷ keys) es

-- An event of the log carries the key.
abbrev pub log_uses : List Event → String → Bool
log_uses es key = any (λ (e : Event). e.idempotency_key == key) es

pub key_used-keys_after :
    (keys : List String) (es : List Event) (key : String)
    → key_used (keys_after keys es) key ≡ (log_uses es key || key_used keys key)
key_used-keys_after keys [] key = refl
key_used-keys_after keys (e ∷ es) key =
    ground (arith, key_used-keys_after (e.idempotency_key ∷ keys) es key)

-- An accepted round applies the event and stamps the projection.
module _ (sha : Sha256) (index : ℕ) (keys : List String) (s : State) (e : Event) {t : State} where
  pub round :
      reduce_step sha index keys s e ≡ ok t
      → (u : State) × (reduce_guard index keys s e ≡ ok tt)
        × (apply_event sha s e ≡ ok u)
        × (t ≡ stamp u e)
  unfolding reduce_step
  round p =
      let (g, guard, p₁) = >>=-eq-ok (reduce_guard index keys s e) _ p in
      let (u, applied, q) = >>=-eq-ok (apply_event sha s e) _ p₁ in
      (u, guard, applied, sym (ok-injective q))

guard_seq :
    (index : ℕ) (keys : List String) (s : State) (e : Event) {u : Unit {0}}
    → reduce_guard index keys s e ≡ ok u
    → e.seq ≡ index + 1
unfolding reduce_guard
guard_seq index keys s e p =
    let (u, seq, rest) = >>=-eq-ok (reject (e.seq != index + 1) DomainError.invalid_sequence) _ p in
    eq_of_!= e.seq (index + 1) (reject-eq-ok _ _ seq)

pub guard_run_id :
    (index : ℕ) (keys : List String) (s : State) (e : Event) {u : Unit {0}}
    → reduce_guard index keys s e ≡ ok u
    → (e.run_id == "") ≡ false
unfolding reduce_guard
guard_run_id index keys s e p =
    let (u, seq, p₁) = >>=-eq-ok (reject (e.seq != index + 1) DomainError.invalid_sequence) _ p in
    let (u', named, rest) = >>=-eq-ok (reject (e.run_id == "") DomainError.invalid_event) _ p₁ in
    reject-eq-ok _ _ named

module _ (sha : Sha256) where
  pub reduce_from-append :
      (index : ℕ) (keys : List String) (s : State) (xs ys : List Event)
      → reduce_from sha index keys s (xs ++ ys) ≡ (
          reduce_from sha index keys s xs >>= λ t.
          reduce_from sha (index + length xs) (keys_after keys xs) t ys)
  unfolding reduce_from
  reduce_from-append index keys s [] ys = rw add-zero refl
  reduce_from-append index keys s (x ∷ xs) ys =
      elim (Result-cases (reduce_step sha index keys s x)) [
        | inl (t, e) ↦
            rw (e, index_step index (length xs))
              (reduce_from-append (index + 1) (x.idempotency_key ∷ keys) t xs ys)
        | inr (d, e) ↦ rw e refl
      ]
    where
      index_step : (i n : ℕ) → i + suc n ≡ i + 1 + n
      index_step i n = omega arith

  -- An accepted round has checked the sequence number, and it becomes the version.
  version_step :
      (index : ℕ) (keys : List String) (s : State) (e : Event) {t : State}
      → reduce_step sha index keys s e ≡ ok t
      → t.run.version ≡ index + 1
  unfolding stamp
  version_step index keys s e p =
      let (u, guard, applied, q) = round sha index keys s e p in
      ap (λ (v : State). v.run.version) q ∙ guard_seq index keys s e guard

  pub reduce_from-version :
      (index : ℕ) (keys : List String) (s : State) (es : List Event) {t : State}
      → s.run.version ≡ index
      → reduce_from sha index keys s es ≡ ok t
      → t.run.version ≡ index + length es
  unfolding reduce_from
  reduce_from-version index keys s [] v p =
      omega (arith, v, ap (λ (u : State). u.run.version) (ok-injective p))
  reduce_from-version index keys s (e ∷ es) v p =
      let (u, stepped, p₁) = >>=-eq-ok (reduce_step sha index keys s e) _ p in
      omega (
        arith,
        reduce_from-version (index + 1) (e.idempotency_key ∷ keys) u es
            (version_step index keys s e stepped) p₁,
      )

  -- The version of the projection that Reduce returns is the number of events of its log.
  pub reduce-version :
      (es : List Event) {t : State} → reduce sha es ≡ ok t → t.run.version ≡ length es
  unfolding reduce
  reduce-version es p = omega (arith, reduce_from-version 0 [] initial_state es refl p)
