-- ===== src/Policy/Permits.antt =====
-- What a policy allows, said without the order of its tests (internal/policy/policy.go).
use agent_dock_coedx5_6sol.Prelude.{
  String, true, false, not, ◌≡◌, ◌≢◌, refl, ◌∙◌, ap, subst, ◌&&◌, ◌||◌, ◌==◌, ◌!=◌, string_eq,
  bool_eq, List, [], ◌∷◌, any, Memᴰ, Result, ok, err, is_positive, int_ltb, past_if, any-Memᴰ,
  any_of_Memᴰ, all-Memᴰ, all_of_Memᴰ, eq_of_!=, eq_of_==, ==_self, !=_self, holds_of_not, none_of,
}
use agent_dock_coedx5_6sol.Policy.Types.{Rule, Config, Request}
use agent_dock_coedx5_6sol.Policy.Paths.{
  PathLibrary, PathError, paths_allowed, environment_allowed, normalize_logical_path, is_under,
  is_allowed, matches,
}
use agent_dock_coedx5_6sol.Policy.Engine.{Verdict, verdict}

module _ (lib : PathLibrary) where
  -- A path normalizes to one that is under a prefix of the list.
  pub Reaches : List String → String → Type 0
  Reaches allowed path =
      (n : String) × (normalize_logical_path lib path ≡ ok n)
      × (prefix : String) × Memᴰ prefix allowed
      × (m : String) × (normalize_logical_path lib prefix ≡ ok m)
      × (is_under lib n m ≡ true)

  -- A rule permits a request under a configuration.
  pub record Permits (config : Config) (request : Request) (rule : Rule) : Type 0 where
    pub tool : rule.tool ≡ request.tool_name
    pub capability : rule.capability ≡ request.capability
    pub read_only : rule.read_only ≡ request.read_only
    pub network : (request.network && not rule.network) ≡ false
    pub timeout :
        (is_positive request.timeout ≡ true) × (int_ltb rule.max_timeout request.timeout ≡ false)
    pub output :
        (is_positive request.output_limit ≡ true)
        × (int_ltb rule.max_output_bytes request.output_limit ≡ false)
    pub some_path : request.paths ≢ []
    pub paths : (path : String) → Memᴰ path request.paths → Reaches rule.paths path
    pub environment :
        (entry : String × String)
        → Memᴰ entry request.environment
        → Memᴰ entry.0 config.environment.allow

  -- Some rule of the configuration permits the request.
  abbrev pub IsAllowed : Config → Request → Type 0
  IsAllowed config request = (rule : Rule) × Memᴰ rule config.rules × Permits config request rule

  matches-ok :
      (n : String) (r : Result PathError String)
      → matches lib n r ≡ true
      → (m : String) × (r ≡ ok m) × (is_under lib n m ≡ true)
  matches-ok n (ok m) h = (m, refl, h)
  matches-ok n (err e) h = cc h

  is_allowed-ok :
      (allowed : List String) (r : Result PathError String)
      → is_allowed lib allowed r ≡ true
      → (n : String) × (r ≡ ok n)
        × (any (λ prefix. matches lib n (normalize_logical_path lib prefix)) allowed ≡ true)
  is_allowed-ok allowed (ok n) h = (n, refl, h)
  is_allowed-ok allowed (err e) h = cc h

  is_allowed-Reaches :
      (allowed : List String) (path : String)
      → is_allowed lib allowed (normalize_logical_path lib path) ≡ true
      → Reaches allowed path
  unfolding Reaches
  is_allowed-Reaches allowed path h =
      let (n, at, found) = is_allowed-ok allowed _ h in
      let (prefix, here, fits) = any-Memᴰ _ allowed found in
      let (m, norm, under) = matches-ok n _ fits in (n, at, prefix, here, m, norm, under)

  is_allowed_of_Reaches :
      (allowed : List String) (path : String)
      → Reaches allowed path
      → is_allowed lib allowed (normalize_logical_path lib path) ≡ true
  unfolding Reaches
  is_allowed_of_Reaches allowed path (n, at, prefix, here, m, norm, under) =
      ap (is_allowed lib allowed) at
      ∙ any_of_Memᴰ (λ prefix. matches lib n (normalize_logical_path lib prefix)) allowed here
          (ap (matches lib n) norm ∙ under)

  paths_allowed-Reaches :
      (paths allowed : List String)
      → paths_allowed lib paths allowed ≡ true
      → (paths ≢ []) × ((path : String) → Memᴰ path paths → Reaches allowed path)
  unfolding paths_allowed
  paths_allowed-Reaches [] allowed h = cc h
  paths_allowed-Reaches (path ∷ paths) allowed h = (
    λ e. cc e,
    λ p m.
        is_allowed-Reaches allowed p (
          all-Memᴰ (λ x. is_allowed lib allowed (normalize_logical_path lib x)) (path ∷ paths) h m),
  )

  paths_allowed_of_Reaches :
      (paths allowed : List String)
      → paths ≢ []
      → ((path : String) → Memᴰ path paths → Reaches allowed path)
      → paths_allowed lib paths allowed ≡ true
  unfolding paths_allowed
  paths_allowed_of_Reaches [] allowed some_path h = absurd (some_path refl)
  paths_allowed_of_Reaches (path ∷ paths) allowed some_path h =
      all_of_Memᴰ _ (path ∷ paths) (λ p m. is_allowed_of_Reaches allowed p (h p m))

listed : (key : String) (keys : List String) → any (λ k. k == key) keys ≡ true → Memᴰ key keys
listed key keys h =
    let (k, at, same) = any-Memᴰ (λ k. k == key) keys h in
    subst (λ z. Memᴰ z keys) (eq_of_== k key same) at

environment_allowed-Memᴰ :
    (environment : List (String × String)) (allowed : List String)
    → environment_allowed environment allowed ≡ true
    → (entry : String × String) → Memᴰ entry environment
    → Memᴰ entry.0 allowed
unfolding environment_allowed
environment_allowed-Memᴰ environment allowed h entry m =
    listed entry.0 allowed
      (all-Memᴰ (λ (e : String × String). any (λ key. key == e.0) allowed) environment h m)

environment_allowed_of_Memᴰ :
    (environment : List (String × String)) (allowed : List String)
    → ((entry : String × String) → Memᴰ entry environment → Memᴰ entry.0 allowed)
    → environment_allowed environment allowed ≡ true
unfolding environment_allowed
environment_allowed_of_Memᴰ environment allowed h =
    all_of_Memᴰ _ environment
      (λ entry m. any_of_Memᴰ (λ key. key == entry.0) allowed (h entry m) (==_self entry.0))

module _ (lib : PathLibrary) (config : Config) (request : Request) where
  pub verdict-Permits :
      (rule : Rule)
      → verdict lib config request rule ≡ Verdict.allows
      → Permits lib config request rule
  unfolding verdict
  verdict-Permits rule h₀ =
      let (tool, h₁) = past_if (rule.tool != request.tool_name) _ _ (λ e. cc e) h₀ in
      let (capability, h₂) = past_if (rule.capability != request.capability) _ _ (λ e. cc e) h₁ in
      let (read_only, h₃) = past_if (rule.read_only != request.read_only) _ _ (λ e. cc e) h₂ in
      let (network, h₄) = past_if (request.network && not rule.network) _ _ (λ e. cc e) h₃ in
      let (timeout, h₅) =
        past_if (not (is_positive request.timeout) || int_ltb rule.max_timeout request.timeout) _ _
          (λ e. cc e) h₄ in
      let (output, h₆) =
        past_if
          (not (is_positive request.output_limit)
            || int_ltb rule.max_output_bytes request.output_limit)
          _ _ (λ e. cc e) h₅ in
      let (paths, h₇) =
        past_if (not (paths_allowed lib request.paths rule.paths)) _ _ (λ e. cc e) h₆ in
      let (environment, h₈) =
        past_if (not (environment_allowed request.environment config.environment.allow)) _ _
          (λ e. cc e) h₇ in
      let reached = paths_allowed-Reaches lib request.paths rule.paths (holds_of_not _ paths) in
      let in_time = none_of (not (is_positive request.timeout)) _ timeout in
      let in_size = none_of (not (is_positive request.output_limit)) _ output in
      record {
        tool = eq_of_!= rule.tool request.tool_name tool;
        capability = eq_of_!= rule.capability request.capability capability;
        read_only = eq_of_!= rule.read_only request.read_only read_only;
        network = network;
        timeout = (holds_of_not _ in_time.0, in_time.1);
        output = (holds_of_not _ in_size.0, in_size.1);
        some_path = reached.0;
        paths = reached.1;
        environment =
            environment_allowed-Memᴰ request.environment config.environment.allow
              (holds_of_not _ environment);
      }

  differs :
      (rule : Rule) → Permits lib config request rule → (rule.tool != request.tool_name) ≡ false
  differs rule p = rw p.tool (!=_self request.tool_name)

  pub verdict_of_Permits :
      (rule : Rule)
      → Permits lib config request rule
      → verdict lib config request rule ≡ Verdict.allows
  unfolding verdict
  verdict_of_Permits rule p =
      rw
        (
          differs rule p,
          p.capability,
          !=_self request.capability,
          p.read_only,
          !=_self request.read_only,
          p.network,
          p.timeout.0,
          p.timeout.1,
          p.output.0,
          p.output.1,
          paths_allowed_of_Reaches lib request.paths rule.paths p.some_path p.paths,
          environment_allowed_of_Memᴰ request.environment config.environment.allow p.environment,
        )
        refl
