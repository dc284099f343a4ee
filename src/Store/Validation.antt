-- ===== src/Store/Validation.antt =====
-- internal/store/validation.go: the search for credentials in a payload. Packages strings, regexp,
-- net/url and encoding/json are the parameter `go`; characters are numbers of Unicode.
pub mod Hidden
use agent_dock_coedx5_6sol.Prelude.{
  ℕ, zero, suc, String, string_eq, nat_eq, Bool, true, false, not, ◌&&◌, ◌||◌, ◌==◌, leb, List, [],
  ◌∷◌, ◌++◌, any, Option, none, some, if◌then◌else◌,
}
use agent_dock_coedx5_6sol.Domain.Types.{DesiredState, IdempotencyScope, ActionOutcome, EventData}
use agent_dock_coedx5_6sol.Domain.Decide.{command_name}

-- What json.Unmarshal decodes into an `any`: a map, a slice, a string, or a value of another kind.
mutual
  pub data Json : Type 0 where
    object : Members → Json
    array : Items → Json
    text : String → Json
    other : Json

  pub data Members : Type 0 where
    no_members : Members
    member : String → Json → Members → Members

  pub data Items : Type 0 where
    no_items : Items
    item : Json → Items → Items

-- `to_lower`, `contains`, `has_suffix` and `fields` are of package strings, as is `trim_quotes`,
-- strings.Trim with the cutset of hasCredentialURL. `has_password` says that url.Parse gives a URL with
-- a scheme and a user with a password, `patterns` are the matches of credentialPatterns, and
-- `unmarshal` is json.Unmarshal into an `any`.
pub record GoPackages : Type 0 where
  pub to_lower : String → String
  pub contains : String → String → Bool
  pub has_suffix : String → String → Bool
  pub fields : String → List String
  pub trim_quotes : String → String
  pub has_password : String → Bool
  pub patterns : List (String → Bool)
  pub unmarshal : String → Option Json
  pub runes : String → List ℕ
  pub of_runes : List ℕ → String

-- A letter from a to z or a digit
abbrev pub is_word : ℕ → Bool
is_word c = (leb 97 c && leb c 122) || (leb 48 c && leb c 57)

-- '_'
abbrev pub separator : ℕ
separator = 95

-- The loop of normalizeSensitiveKey, without the separators at the end of the text: `gap` says that
-- one is due before the next character that is kept.
unfoldable pub normalize_rest : Bool → Bool → List ℕ → List ℕ
normalize_rest started gap [] = []
normalize_rest started gap (c ∷ cs) =
    let kept = normalize_rest true false cs in
    let skipped = normalize_rest started started cs in
    if is_word c then (if gap then separator ∷ c ∷ kept else c ∷ kept) else skipped

markers : List String
markers =
    "openai_api_key=" ∷ "anthropic_api_key=" ∷ "database_url=postgres://" ∷ "authorization: bearer "
    ∷ "\"api_key\":" ∷ "\"password\":" ∷ "\"access_token\":" ∷ "\"refresh_token\":"
    ∷ "\"private_key\":" ∷ "\"client_secret\":" ∷ []

sensitive_names : List String
sensitive_names =
    "api_key" ∷ "apikey" ∷ "password" ∷ "passwd" ∷ "credential" ∷ "credentials" ∷ "authorization"
    ∷ "access_token" ∷ "refresh_token" ∷ "private_key" ∷ "database_url" ∷ "secret" ∷ "client_secret"
    ∷ "token" ∷ "env" ∷ "environment" ∷ "openai_api_key" ∷ "anthropic_api_key"
    ∷ "aws_secret_access_key" ∷ "service_token" ∷ []

sensitive_endings : List String
sensitive_endings = "_api_key" ∷ "_password" ∷ "_credential" ∷ "_secret" ∷ []

abbrev pub any_member : (String → Json → Bool) → Members → Bool
any_member p no_members = false
any_member p (member k v rest) = p k v || any_member p rest

abbrev pub any_item : (Json → Bool) → Items → Bool
any_item p no_items = false
any_item p (item v rest) = p v || any_item p rest

-- A decoded text, if it decodes
abbrev pub decoded : (Json → Bool) → Option Json → Bool
decoded p none = false
decoded p (some v) = p v

-- The text of a DesiredState
abbrev pub desired_name : DesiredState → String
desired_name DesiredState.unset = ""
desired_name DesiredState.running = "Running"
desired_name DesiredState.paused = "Paused"
desired_name DesiredState.cancelled = "Cancelled"
desired_name (DesiredState.other s) = s

-- The text of an IdempotencyScope
abbrev pub scope_name : IdempotencyScope → String
scope_name IdempotencyScope.unset = ""
scope_name IdempotencyScope.scoped = "scoped-idempotent"
scope_name IdempotencyScope.unsafe = "unsafe"
scope_name (IdempotencyScope.other s) = s

-- The text of an ActionOutcome
abbrev pub outcome_name : ActionOutcome → String
outcome_name ActionOutcome.unset = ""
outcome_name ActionOutcome.failed = "failed"
outcome_name ActionOutcome.ambiguous = "ambiguous"
outcome_name (ActionOutcome.other s) = s

-- The fields of EventData, all of a kind of string, as reflect.ValueOf gives them
unfoldable pub string_fields : EventData → List String
unfolding command_name
string_fields d =
    d.scenario_id
    ∷ d.spec_hash
    ∷ desired_name d.desired_state
    ∷ d.attempt_id
    ∷ d.action_id
    ∷ command_name d.action_type
    ∷ scope_name d.idempotency_scope
    ∷ d.receipt_id
    ∷ outcome_name d.outcome
    ∷ d.output
    ∷ d.output_digest
    ∷ d.artifact_id
    ∷ d.artifact_digest
    ∷ d.tool_name
    ∷ d.tool_arguments
    ∷ d.reason
    ∷ []

module _ (go : GoPackages) where
  -- normalizeSensitiveKey
  unfoldable pub normalize_sensitive_key : String → String
  normalize_sensitive_key key =
      go.of_runes (normalize_rest false false (go.runes (go.to_lower key)))

  -- sensitiveKey
  unfoldable pub sensitive_key : String → Bool
  unfolding sensitive_names sensitive_endings
  sensitive_key key =
      let normalized = normalize_sensitive_key key in
      any (λ name. normalized == name) sensitive_names
      || any (λ ending. go.has_suffix normalized ending) sensitive_endings

  -- hasSensitiveMarker
  unfoldable pub has_sensitive_marker : String → Bool
  unfolding markers
  has_sensitive_marker value = any (λ marker. go.contains (go.to_lower value) marker) markers

  -- hasCredentialURL
  unfoldable pub has_credential_url : String → Bool
  has_credential_url value = any (λ field. go.has_password (go.trim_quotes field)) (go.fields value)

  -- hasSensitiveValue
  unfoldable pub has_sensitive_value : String → Bool
  has_sensitive_value value =
      has_sensitive_marker value
      || has_credential_url value
      || any (λ (matches : String → Bool). matches value) go.patterns

  -- hasSensitiveJSONAtDepth, where `left` is maxSensitiveJSONDepth less the depth. The clauses for a
  -- text are hasSensitiveString at the next depth.
  unfoldable pub has_sensitive_json : ℕ → Json → Bool
  has_sensitive_json zero v = true
  has_sensitive_json (suc left) (Json.object ms) =
      any_member (λ k v. sensitive_key k || has_sensitive_json left v) ms
  has_sensitive_json (suc left) (Json.array xs) = any_item (has_sensitive_json left) xs
  has_sensitive_json (suc zero) (Json.text s) = true
  has_sensitive_json (suc (suc left)) (Json.text s) =
      has_sensitive_value s || decoded (has_sensitive_json left) (go.unmarshal s)
  has_sensitive_json (suc left) Json.other = false

  -- hasSensitiveString, where `left` is maxSensitiveJSONDepth less the depth
  unfoldable pub has_sensitive_string : ℕ → String → Bool
  has_sensitive_string zero s = true
  has_sensitive_string (suc left) s =
      has_sensitive_value s || decoded (has_sensitive_json left) (go.unmarshal s)

  -- containsCredentialMaterial
  unfoldable pub contains_credential_material : EventData → Bool
  contains_credential_material d = any (λ field. has_sensitive_string 32 field) (string_fields d)
