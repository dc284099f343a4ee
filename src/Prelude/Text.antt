-- ===== src/Prelude/Text.antt =====
-- `fmt.Sprintf` with `%s`, `%d` and `%x`: texts joined, decimal numbers and hexadecimal bytes.
use Prim.Native.Nat.{ℕ, zero, suc, ◌/◌, ◌%◌}
use Prim.Native.String
use Prim.Native.String.{String}
use mathlib.Core.List.{List, [], ◌∷◌}
use mathlib.Core.Path.{◌≡◌, refl, sym, ◌∙◌}
use mathlib.Core.Logic.{inl, inr}
use mathlib.Core.Bool.{false, false≢true}
use text.Mathlib.Text.{◌==◌ as str_eq}
use text.Mathlib.TextEquality.{eq_iff}
use text.Mathlib.TextLemmas.{append-eq-nil_iff}
use agent_dock_coedx5_6sol.Prelude.Tests.{ltb, if◌then◌else◌, Bool-cases}
use agent_dock_coedx5_6sol.Prelude.Lists.{get_or}

unfoldable pub concat : List String → String
concat [] = ""
concat (s ∷ ss) = String.◌++◌ s (concat ss)

digits : List String
digits =
    "0" ∷ "1" ∷ "2" ∷ "3" ∷ "4" ∷ "5" ∷ "6" ∷ "7" ∷ "8" ∷ "9" ∷ "a" ∷ "b" ∷ "c" ∷ "d" ∷ "e" ∷ "f"
    ∷ []

digit : ℕ → String
unfolding digits
digit n = get_or digits n "f"

-- The number of rounds is at most the number itself.
itoa_from : ℕ → ℕ → String → String
itoa_from zero n acc = acc
itoa_from (suc rounds) n acc =
    let longer = String.◌++◌ (digit (n % 10)) acc in
    let rest = itoa_from rounds (n / 10) longer in if ltb n 10 then longer else rest

-- `%d`
unfoldable pub itoa : ℕ → String
unfolding itoa_from digit
itoa n = itoa_from (suc n) n ""

-- `%x` of a byte slice
unfoldable pub hex : List ℕ → String
unfolding digit
hex [] = ""
hex (b ∷ bs) = String.◌++◌ (digit (b / 16)) (String.◌++◌ (digit (b % 16)) (hex bs))

AllNamed : List String → Type 0
AllNamed [] = Unit
AllNamed (x ∷ xs) = (str_eq x "" ≡ false) × AllNamed xs

get_or-named : (xs : List String) (n : ℕ) → AllNamed xs → str_eq (get_or xs n "f") "" ≡ false
unfolding AllNamed
get_or-named [] n h = refl
get_or-named (x ∷ xs) zero h = h.0
get_or-named (x ∷ xs) (suc n) h = get_or-named xs n h.1

digit-named : (n : ℕ) → str_eq (digit n) "" ≡ false
unfolding digit AllNamed
digit-named n = get_or-named digits n (
  refl,
  (
    refl,
    (
      refl,
      (
        refl,
        (
          refl,
          (
            refl,
            (refl, (refl, (refl, (refl, (refl, (refl, (refl, (refl, (refl, (refl, tt)))))))))),
          ),
        ),
      ),
    ),
  ),
)

append-named : (s t : String) → str_eq s "" ≡ false → str_eq (String.◌++◌ s t) "" ≡ false
append-named s t h = elim (Bool-cases (str_eq (String.◌++◌ s t) "")) [
  | inl empty ↦ absurd (
      false≢true
        (sym h ∙ (eq_iff s "").1 (append-eq-nil_iff.0 ((eq_iff (String.◌++◌ s t) "").0 empty)).0))
  | inr named ↦ named
]

-- The hexadecimal text of a non-empty slice is not empty.
pub hex-named : (b : ℕ) (bs : List ℕ) → str_eq (hex (b ∷ bs)) "" ≡ false
unfolding hex
hex-named b bs = append-named (digit (b / 16)) _ (digit-named (b / 16))
