-- ===== src/Prelude/Results.antt =====
-- A call that may return an error: `(T, error)` of the source, as a value or an error.
use mathlib.Core.Path.{◌≡◌, refl, ap}
use mathlib.Core.Logic.{◌≢◌, ◌⊎◌, inl, inr}
use mathlib.Core.Bool.{Bool, true, false}

pub data Result {ℓ κ} (E : Type ℓ) (A : Type κ) : Type (ℓ ⊔ κ) where
  ok : A → Result E A
  err : E → Result E A

infixl 5 ◌>>=◌ ◌>>◌
abbrev pub ◌>>=◌ {ℓ κ ι} :
    {E : Type ℓ} {A : Type κ} {B : Type ι} → Result E A → (A → Result E B) → Result E B
ok value >>= next = next value
err problem >>= next = err problem

abbrev pub ◌>>◌ {ℓ κ} : {E : Type ℓ} {B : Type κ} → Result E (Unit {0}) → Result E B → Result E B
test >> rest = test >>= λ u. rest

-- `if bad { return e }`.
abbrev pub reject {ℓ} : {E : Type ℓ} → Bool → E → Result E (Unit {0})
reject true e = err e
reject false e = ok tt

module _ {ℓ κ ι} {E : Type ℓ} {A : Type κ} {B : Type ι} where
  -- A block that succeeds has had its first call succeed.
  pub >>=-eq-ok :
      (call : Result E A) (next : A → Result E B) {result : B}
      → (call >>= next) ≡ ok result
      → (value : A) × (call ≡ ok value) × (next value ≡ ok result)
  >>=-eq-ok (ok value) next p = (value, refl, p)
  >>=-eq-ok (err problem) next p = cc

module _ {ℓ κ} {E : Type ℓ} {A : Type κ} where
  pub ok-injective : {a b : A} → ◌≡◌ {A = Result E A} (ok a) (ok b) → a ≡ b
  ok-injective h = cc

  pub err-injective : {a b : E} → ◌≡◌ {A = Result E A} (err a) (err b) → a ≡ b
  err-injective h = cc

  pub ok≢err : {r : Result E A} {a : A} {e : E} → r ≡ err e → r ≡ ok a → ⊥
  ok≢err p q = cc

  pub Result-cases : (r : Result E A) → ((a : A) × (r ≡ ok a)) ⊎ ((e : E) × (r ≡ err e))
  Result-cases (ok a) = inl (a, refl)
  Result-cases (err e) = inr (e, refl)

module _ {ℓ} {E : Type ℓ} where
  pub reject-≢-err : (b : Bool) (e x : E) → e ≢ x → reject b e ≢ err x
  reject-≢-err true e x h = λ p. h (err-injective p)
  reject-≢-err false e x h = λ p. cc

  -- A failed test is the one way through `reject`.
  pub reject-eq-ok : (b : Bool) (e : E) {u : Unit {0}} → reject b e ≡ ok u → b ≡ false
  reject-eq-ok true e h = cc
  reject-eq-ok false e h = refl

module _ {ℓ κ} {E : Type ℓ} {A : Type κ} where
  -- A block that succeeds has passed its first test.
  pub through :
      (b : Bool) (e : E) (rest : Result E A) {a : A}
      → (reject b e >> rest) ≡ ok a
      → (b ≡ false) × (rest ≡ ok a)
  through true e rest h = cc
  through false e rest h = (refl, h)

  pub skip : (b : Bool) (e : E) (rest : Result E A) → b ≡ false → (reject b e >> rest) ≡ rest
  skip true e rest h = cc
  skip false e rest h = refl

module _ {ℓ κ ι} {E : Type ℓ} {A : Type κ} {B : Type ι} where
  -- A block gives an error only if one of its calls does.
  pub >>=-≢-err :
      (m : Result E A) (f : A → Result E B) (e : E)
      → m ≢ err e
      → ((a : A) → m ≡ ok a → f a ≢ err e)
      → (m >>= f) ≢ err e
  >>=-≢-err (ok a) f e h k = k a refl
  >>=-≢-err (err x) f e h k = λ p. h (ap err (err-injective p))
