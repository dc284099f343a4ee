-- ===== src/Controller/Keeps.antt =====
-- What a program over a store keeps, whatever it gives (internal/controller/controller.go).
use agent_dock_coedx5_6sol.Prelude.{
  ◌≡◌, refl, string_eq, Bool, true, false, Result, ok, err, if◌then◌else◌,
}
use agent_dock_coedx5_6sol.Domain.Types.{State, desired_eq, command_type_eq}
use agent_dock_coedx5_6sol.Store.Errors.{StoreError}
use agent_dock_coedx5_6sol.Controller.Exec.{
  ◌>>◌, ControllerError, Exec, lift, proceed, ◌>>=◌, refuse,
}

module _ {S : Type 0} (P : S → Type 0) where
  -- Whatever the program gives, the store after it still has the property.
  abbrev pub Keeps : {A : Type 0} → Exec S A → Type 0
  Keeps x = (m : S) → P m → P (x m).0

  pub kept_lift : {A : Type 0} (m : S) (q : Result StoreError A) → P m → P (lift q m).0
  kept_lift m (ok a) h = h
  kept_lift m (err e) h = h

  pub lift-Keeps : {A : Type 0} (r : S → Result StoreError A) → Keeps (λ m. lift (r m) m)
  lift-Keeps r m h = kept_lift m (r m) h

  pub refuse-Keeps : (b : Bool) (e : ControllerError) → Keeps (refuse b e)
  refuse-Keeps true e m h = h
  refuse-Keeps false e m h = h

  pub if-Keeps :
      {A : Type 0} (b : Bool) (x y : Exec S A) → Keeps x → Keeps y → Keeps (if b then x else y)
  if-Keeps true x y hx hy = hx
  if-Keeps false x y hx hy = hy

  pub proceed-Keeps :
      {A B : Type 0} (m : S) (r : Result ControllerError A) (f : A → Exec S B)
      → P m
      → ((a : A) → Keeps (f a))
      → P (proceed m r f).0
  proceed-Keeps m (ok a) f h k = k a m h
  proceed-Keeps m (err e) f h k = h

  pub bind-Keeps :
      {A B : Type 0} (x : Exec S A) (f : A → Exec S B)
      → Keeps x
      → ((a : A) → Keeps (f a))
      → Keeps (x >>= f)
  bind-Keeps x f hx hf m h = proceed-Keeps (x m).0 (x m).1 f (hx m h) hf

  -- What a test and a read that come first leave to show.
  pub guarded :
      {A : Type 0} (b : Bool) (x : ControllerError) (rest : Exec S A) (m : S)
      → P m
      → (b ≡ false → P (rest m).0)
      → P ((refuse b x >> rest) m).0
  guarded true x rest m h k = h
  guarded false x rest m h k = k refl

  pub chosen :
      {A : Type 0} (b : Bool) (x y : Exec S A) (m : S)
      → P (x m).0
      → (b ≡ false → P (y m).0)
      → P ((if b then x else y) m).0
  chosen true x y m h k = h
  chosen false x y m h k = k refl

  pub read :
      {A : Type 0} (r : Result StoreError State) (f : State → Exec S A) (m : S)
      → P m
      → ((s : State) → r ≡ ok s → P (f s m).0)
      → P (proceed (lift r m).0 (lift r m).1 f).0
  read (ok s) f m h k = k s refl
  read (err e) f m h k = h
