-- ===== src/Prelude/Tests.antt =====
-- Equality as an interface, Boolean tests, and the conditional.
use Prim.Native.Nat.{ℕ, compare, Ordering}
use Prim.Native.String.{String}
use mathlib.Core.Path.{◌≡◌, refl}
use mathlib.Core.Logic.{◌↔◌, ◌⊎◌, inl, inr}
use mathlib.Core.Bool.{Bool, true, false, not, ◌&&◌, ◌||◌, false≢true}
use mathlib.Core.Option.{Option, none, some}
use native.Mathlib.Omega.{arith}
use text.Mathlib.Text.{◌==◌ as str_eq}
use text.Mathlib.TextEquality.{eq_iff}

-- Go's `==` on a comparable type.
pub record Eq {ℓ} (A : Type ℓ) : Type ℓ where
  pub equal : A → A → Bool
  pub equal_iff : (a b : A) → (equal a b ≡ true) ↔ (a ≡ b)

infix 50 ◌==◌ ◌!=◌
abbrev pub ◌==◌ {ℓ} : {A : Type ℓ} ⦃e : Eq A⦄ → A → A → Bool
◌==◌ ⦃e⦄ = e.equal

abbrev pub ◌!=◌ {ℓ} : {A : Type ℓ} ⦃e : Eq A⦄ → A → A → Bool
◌!=◌ ⦃e⦄ a b = not (e.equal a b)

-- A test that passed, as an equation.
module _ {ℓ} {A : Type ℓ} ⦃e : Eq A⦄ (a b : A) where
  pub eq_of_== : (a == b) ≡ true → a ≡ b
  eq_of_== h = (e.equal_iff a b).0 h

  pub eq_of_!= : (a != b) ≡ false → a ≡ b
  eq_of_!= h = (e.equal_iff a b).0 (ground arith)

module _ {ℓ} {A : Type ℓ} ⦃e : Eq A⦄ (a : A) where
  pub ==_self : (a == a) ≡ true
  ==_self = (e.equal_iff a a).1 refl

  pub !=_self : (a != a) ≡ false
  !=_self = rw ==_self refl

abbrev pub nat_beq : ℕ → ℕ → Bool
nat_beq a b = elim (compare a b) [ Ordering.eq ↦ true | _ ↦ false ]

pub nat_beq_iff : (a b : ℕ) → (nat_beq a b ≡ true) ↔ (a ≡ b)
nat_beq_iff a b = ground arith

abbrev pub bool_beq : Bool → Bool → Bool
bool_beq true b = b
bool_beq false b = not b

pub bool_beq_iff : (a b : Bool) → (bool_beq a b ≡ true) ↔ (a ≡ b)
bool_beq_iff a b = ground arith

instance abbrev pub nat_eq : Eq ℕ
nat_eq = record { equal = nat_beq; equal_iff = nat_beq_iff }

instance abbrev pub bool_eq : Eq Bool
bool_eq = record { equal = bool_beq; equal_iff = bool_beq_iff }

instance abbrev pub string_eq : Eq String
string_eq = record { equal = str_eq; equal_iff = eq_iff }

abbrev pub ltb : ℕ → ℕ → Bool
ltb a b = elim (compare a b) [ Ordering.lt ↦ true | _ ↦ false ]

abbrev pub leb : ℕ → ℕ → Bool
leb a b = elim (compare a b) [ Ordering.gt ↦ false | _ ↦ true ]

infix 1 if◌then◌else◌
abbrev pub if◌then◌else◌ {ℓ} : {A : Type ℓ} → Bool → A → A → A
if true then x else y = x
if false then x else y = y

-- A split on a computed value that keeps the equation.
pub Bool-cases : (b : Bool) → (b ≡ true) ⊎ (b ≡ false)
Bool-cases true = inl refl
Bool-cases false = inr refl

pub Option-cases {ℓ} : {A : Type ℓ} (o : Option A) → (o ≡ none) ⊎ ((a : A) × (o ≡ some a))
Option-cases none = inl refl
Option-cases (some a) = inr (a, refl)

-- Equality of a type that a derived decision compares.
abbrev pub is_yes {ℓ} : {A : Type ℓ} → Dec A → Bool
is_yes (yes _) = true
is_yes (no _) = false

pub is_yes_iff {ℓ} : {A : Type ℓ} (d : Dec A) → (is_yes d ≡ true) ↔ A
is_yes_iff (yes a) = (λ _. a, λ _. refl)
is_yes_iff (no h) = (λ e. cc, λ a. absurd (h a))

abbrev pub derived_eq {ℓ} : {A : Type ℓ} → Discrete A → Eq A
derived_eq d = record { equal = λ a b. is_yes (d a b); equal_iff = λ a b. is_yes_iff (d a b) }

string_decision : (s t : String) (b : Bool) → ((b ≡ true) ↔ (s ≡ t)) → Dec (s ≡ t)
string_decision s t true e = yes (e.0 refl)
string_decision s t false e = no (λ p. false≢true (e.1 p))

unfoldable pub String_discrete : Discrete String
unfolding string_decision
String_discrete s t = string_decision s t (str_eq s t) (eq_iff s t)

-- Equality of a type that is a number and a text: a constructor's index, and its text if it has one.
module _ {ℓ} {A : Type ℓ} (code : A → ℕ) (text : A → String) where
  abbrev pub coded_beq : A → A → Bool
  coded_beq a b = nat_beq (code a) (code b) && str_eq (text a) (text b)

  and_parts : (p q : Bool) → (p && q) ≡ true → (p ≡ true) × (q ≡ true)
  and_parts p q h = ground arith

  pub coded_beq_iff :
      (decode : ℕ → String → A)
      → ((a : A) → decode (code a) (text a) ≡ a)
      → (a b : A) → (coded_beq a b ≡ true) ↔ (a ≡ b)
  coded_beq_iff decode retract a b = (
    λ h.
        let (same_code, same_text) = and_parts (nat_beq (code a) (code b)) _ h in
        cc (
          retract a,
          retract b,
          (nat_beq_iff (code a) (code b)).0 same_code,
          (eq_iff (text a) (text b)).0 same_text,
        ),
    λ e. rw e (rw ((nat_beq_iff (code b) (code b)).1 refl) ((eq_iff (text b) (text b)).1 refl)),
  )

pub holds_of_not : (b : Bool) → not b ≡ false → b ≡ true
holds_of_not b h = ground arith

-- A disjunction that fails has no alternative that holds.
pub none_of : (p q : Bool) → (p || q) ≡ false → (p ≡ false) × (q ≡ false)
none_of p q h = ground arith

-- Each part of a conjunction that holds.
pub both : (p q : Bool) → (p && q) ≡ true → (p ≡ true) × (q ≡ true)
both true q h = (refl, h)
both false q h = cc

module _ {ℓ} {A : Type ℓ} (b : Bool) (x y : A) where
  pub if_true : b ≡ true → (if b then x else y) ≡ x
  if_true h = ground arith

  pub if_false : b ≡ false → (if b then x else y) ≡ y
  if_false h = ground arith

-- A conditional that does not have its first value took its second.
pub past_if {ℓ} :
    {A : Type ℓ} (b : Bool) (x y : A) {a : A}
    → (x ≡ a → ⊥)
    → (if b then x else y) ≡ a
    → (b ≡ false) × (y ≡ a)
past_if true x y differs h = absurd (differs h)
past_if false x y differs h = (refl, h)
