-- ===== src/Prelude/Lists.antt =====
-- Lists measured and indexed by native numbers, under the library's names.
use Prim.Native.Nat.{ℕ, zero, suc, ◌+◌}
use mathlib.Core.Path.{◌≡◌, refl, sym, ◌∙◌, ap}
use mathlib.Core.Logic.{◌⊎◌, inl, inr}
use mathlib.Core.List.{List, [], ◌∷◌, ◌++◌, Memᴰ}
use mathlib.Core.List.Memᴰ.{head, tail}
use mathlib.Core.Option.{Option, none, some}
use mathlib.Core.Bool.{Bool, true, false, ◌||◌, ◌&&◌}
use agent_dock_coedx5_6sol.Prelude.Tests.{Bool-cases, both}
use native.Mathlib.Omega.{arith}

module _ {ℓ} {A : Type ℓ} where
  abbrev pub length : List A → ℕ
  length [] = 0
  length (x ∷ xs) = suc (length xs)

  abbrev pub get_elem? : List A → ℕ → Option A
  get_elem? [] i = none
  get_elem? (x ∷ xs) zero = some x
  get_elem? (x ∷ xs) (suc i) = get_elem? xs i

  abbrev pub get_or : List A → ℕ → A → A
  get_or [] i d = d
  get_or (x ∷ xs) zero d = x
  get_or (x ∷ xs) (suc i) d = get_or xs i d

  abbrev pub any : (A → Bool) → List A → Bool
  any p [] = false
  any p (x ∷ xs) = p x || any p xs

  abbrev pub all : (A → Bool) → List A → Bool
  all p [] = true
  all p (x ∷ xs) = p x && all p xs

  -- A test that some element passes.
  pub any-Memᴰ : (p : A → Bool) (xs : List A) → any p xs ≡ true → (x : A) × Memᴰ x xs × (p x ≡ true)
  any-Memᴰ p [] h = cc h
  any-Memᴰ p (x ∷ xs) h = elim (Bool-cases (p x)) [
    | inl here ↦ (x, head refl, here)
    | inr there ↦
        let (y, at, holds) = any-Memᴰ p xs (rest (p x) (any p xs) there h) in (y, tail at, holds)
  ]
    where
      rest : (a b : Bool) → a ≡ false → (a || b) ≡ true → b ≡ true
      rest a b off h = ground arith

  pub any_of_Memᴰ : (p : A → Bool) (xs : List A) {x : A} → Memᴰ x xs → p x ≡ true → any p xs ≡ true
  any_of_Memᴰ p [] m h = elim m [ ]
  any_of_Memᴰ p (y ∷ xs) (head e) h = rw (sym (ap p e), h) refl
  any_of_Memᴰ p (y ∷ xs) (tail m) h = last (p y) (any p xs) (any_of_Memᴰ p xs m h)
    where
      last : (a b : Bool) → b ≡ true → (a || b) ≡ true
      last a b h = ground arith

  -- A test that every element passes.
  pub all-Memᴰ : (p : A → Bool) (xs : List A) {x : A} → all p xs ≡ true → Memᴰ x xs → p x ≡ true
  all-Memᴰ p [] h m = elim m [ ]
  all-Memᴰ p (y ∷ xs) h (head e) = ap p e ∙ (both (p y) (all p xs) h).0
  all-Memᴰ p (y ∷ xs) h (tail m) = all-Memᴰ p xs (both (p y) (all p xs) h).1 m

  pub all_of_Memᴰ :
      (p : A → Bool) (xs : List A) → ((x : A) → Memᴰ x xs → p x ≡ true) → all p xs ≡ true
  all_of_Memᴰ p [] h = refl
  all_of_Memᴰ p (y ∷ xs) h = rw (h y (head refl), all_of_Memᴰ p xs (λ x m. h x (tail m))) refl

  pub length-append : (xs ys : List A) → length (xs ++ ys) ≡ length xs + length ys
  length-append [] ys = omega arith
  length-append (x ∷ xs) ys = omega (arith, length-append xs ys)

  pub get_elem?-append_last : (xs : List A) (x : A) → get_elem? (xs ++ x ∷ []) (length xs) ≡ some x
  get_elem?-append_last [] x = refl
  get_elem?-append_last (y ∷ xs) x = get_elem?-append_last xs x

  pub get_elem?-append_left :
      (xs ys : List A) (i : ℕ) {x : A} → get_elem? xs i ≡ some x → get_elem? (xs ++ ys) i ≡ some x
  get_elem?-append_left [] ys i h = cc h
  get_elem?-append_left (y ∷ xs) ys zero h = h
  get_elem?-append_left (y ∷ xs) ys (suc i) h = get_elem?-append_left xs ys i h

  -- An element of a list with one more at its end is of the list, or is that one.
  pub get_elem?-snoc :
      (xs : List A) (y : A) (i : ℕ) {x : A}
      → get_elem? (xs ++ y ∷ []) i ≡ some x
      → (get_elem? xs i ≡ some x) ⊎ ((i ≡ length xs) × (x ≡ y))
  get_elem?-snoc [] y zero h = inr (refl, cc h)
  get_elem?-snoc [] y (suc i) h = cc h
  get_elem?-snoc (x ∷ xs) y zero h = inl h
  get_elem?-snoc (x ∷ xs) y (suc i) h = elim (get_elem?-snoc xs y i h) [
    | inl q ↦ inl q
    | inr (p, q) ↦ inr (ap suc p, q)
  ]
