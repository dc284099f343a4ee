-- ===== src/Store/Validation/Hidden.antt =====
-- No nesting hides a credential (internal/store/validation.go).
use agent_dock_coedx5_6sol.Prelude.{
  ℕ, zero, suc, String, Bool, true, ◌||◌, ◌≡◌, refl, List, ◌∷◌, any, Option, some, arith, err, ◌==◌,
  ◌!=◌, string_eq, nat_eq, false,
}
use agent_dock_coedx5_6sol.Domain.Types.{Event}
use agent_dock_coedx5_6sol.Domain.Decide.{Sha256}
use agent_dock_coedx5_6sol.Store.Errors.{StoreError}
use agent_dock_coedx5_6sol.Store.Memory.{MemoryEventStore, append, validate_append_input}
use agent_dock_coedx5_6sol.Store.Validation.{
  Json, Members, Items, GoPackages, any_member, any_item, decoded, sensitive_key,
  has_sensitive_value, has_sensitive_json, has_sensitive_string, string_fields,
  contains_credential_material,
}

or_left : (p q : Bool) → p ≡ true → (p || q) ≡ true
or_left p q h = ground arith

or_right : (p q : Bool) → q ≡ true → (p || q) ≡ true
or_right p q h = ground arith

decoded_found :
    (p : Json → Bool) {o : Option Json} {v : Json} → o ≡ some v → p v ≡ true → decoded p o ≡ true
decoded_found p e h = rw e h

-- A value of a list.
pub data Among {A : Type 0} (x : A) : List A → Type 0 where
  first : {xs : List A} → Among x (x ∷ xs)
  next : {y : A} {xs : List A} → Among x xs → Among x (y ∷ xs)

any-Among :
    {A : Type 0} (p : A → Bool) {x : A} {xs : List A} → Among x xs → p x ≡ true → any p xs ≡ true
any-Among p Among.first h = or_left _ _ h
any-Among p (Among.next a) h = or_right _ _ (any-Among p a h)

module _ (go : GoPackages) where
  -- A value of JSON has a credential at some depth: a text of it, a key of it, or what a text of it
  -- decodes to.
  mutual
    pub data Hides : Json → Type 0 where
      in_text : {s : String} → has_sensitive_value go s ≡ true → Hides (Json.text s)
      in_decoded : {s : String} {v : Json} → go.unmarshal s ≡ some v → Hides v → Hides (Json.text s)
      in_object : {ms : Members} → HidesMember ms → Hides (Json.object ms)
      in_array : {xs : Items} → HidesItem xs → Hides (Json.array xs)

    pub data HidesMember : Members → Type 0 where
      in_key :
          {k : String} {v : Json} {ms : Members}
          → sensitive_key go k ≡ true
          → HidesMember (Members.member k v ms)
      in_value :
          {k : String} {v : Json} {ms : Members} → Hides v → HidesMember (Members.member k v ms)
      later :
          {k : String} {v : Json} {ms : Members}
          → HidesMember ms
          → HidesMember (Members.member k v ms)

    pub data HidesItem : Items → Type 0 where
      here : {v : Json} {xs : Items} → Hides v → HidesItem (Items.item v xs)
      there : {v : Json} {xs : Items} → HidesItem xs → HidesItem (Items.item v xs)

  mutual
    unfolding has_sensitive_json

    hidden_found : (left : ℕ) {v : Json} → Hides v → has_sensitive_json go left v ≡ true
    hidden_found zero h = refl
    hidden_found (suc zero) (Hides.in_text s) = refl
    hidden_found (suc (suc left)) (Hides.in_text s) = or_left _ _ s
    hidden_found (suc zero) (Hides.in_decoded e h) = refl
    hidden_found (suc (suc left)) (Hides.in_decoded e h) =
        or_right _ _ (decoded_found (has_sensitive_json go left) e (hidden_found left h))
    hidden_found (suc left) (Hides.in_object h) = member_found left h
    hidden_found (suc left) (Hides.in_array h) = item_found left h

    member_found :
        (left : ℕ) {ms : Members}
        → HidesMember ms
        → any_member (λ k v. sensitive_key go k || has_sensitive_json go left v) ms ≡ true
    member_found left (HidesMember.in_key {k} {v} s) =
        or_left _ _ (or_left (sensitive_key go k) (has_sensitive_json go left v) s)
    member_found left (HidesMember.in_value {k} {v} h) =
        or_left _ _
          (or_right (sensitive_key go k) (has_sensitive_json go left v) (hidden_found left h))
    member_found left (HidesMember.later h) = or_right _ _ (member_found left h)

    item_found :
        (left : ℕ) {xs : Items} → HidesItem xs → any_item (has_sensitive_json go left) xs ≡ true
    item_found left (HidesItem.here h) = or_left _ _ (hidden_found left h)
    item_found left (HidesItem.there h) = or_right _ _ (item_found left h)

  string_found :
      (left : ℕ) (s : String) → Hides (Json.text s) → has_sensitive_string go left s ≡ true
  unfolding has_sensitive_string
  string_found zero s h = refl
  string_found (suc left) s (Hides.in_text value) = or_left _ _ value
  string_found (suc left) s (Hides.in_decoded e h) =
      or_right _ _ (decoded_found (has_sensitive_json go left) e (hidden_found left h))

  -- A payload one of whose fields has a credential, at whatever depth of JSON objects, arrays and texts
  -- that are JSON again, is refused by an append, which has a run, a key and no sequence number.
  pub append-hidden :
      (sha : Sha256) (m : MemoryEventStore) (n : ℕ) (e : Event) {s : String}
      → (e.run_id == "" || e.idempotency_key == "" || e.seq != 0) ≡ false
      → Among s (string_fields e.payload)
      → Hides (Json.text s)
      → append (contains_credential_material go) sha false m n e ≡ err StoreError.sensitive_payload
  unfolding append validate_append_input contains_credential_material
  append-hidden sha m n e {s} whole field h =
      rw (whole, any-Among (λ f. has_sensitive_string go 32 f) field (string_found 32 s h)) refl
