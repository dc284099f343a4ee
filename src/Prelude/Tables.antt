-- ===== src/Prelude/Tables.antt =====
-- A map with keys of type string, as a function.
use Prim.Native.String.{String}
use mathlib.Core.Path.{◌≡◌}
use mathlib.Core.Bool.{false}
use mathlib.Core.Option.{Option, some}
use agent_dock_coedx5_6sol.Prelude.Tests.{
  ◌==◌, string_eq, if◌then◌else◌, ==_self, if_true, if_false,
}

abbrev pub Table : Type 0 → Type 0
Table A = String → Option A

abbrev pub put : {A : Type 0} → Table A → String → A → Table A
put m k v j = if j == k then some v else m j

module _ {A : Type 0} (m : Table A) (k : String) (v : A) where
  pub put_self : put m k v k ≡ some v
  put_self = if_true (k == k) _ _ (==_self k)

  pub put_other : (j : String) → (j == k) ≡ false → put m k v j ≡ m j
  put_other j h = if_false (j == k) _ _ h
