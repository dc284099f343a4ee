-- ===== src/Policy/Parsed.antt =====
-- What a parsed policy holds, and what it bounds (internal/policy/policy.go).
use agent_dock_coedx5_6sol.Prelude.{
  ℤ, String, string_eq, true, false, not, ◌≡◌, ◌≢◌, sym, ◌∙◌, ap, subst, ◌||◌, ◌==◌, ◌!=◌, List, [],
  ◌∷◌, Memᴰ, head, tail, Option, none, some, ok, >>=-eq-ok, through, ok-injective, none_of,
  eq_of_!=, holds_of_not, ==_self, is_positive, int_ltb,
}
use agent_dock_coedx5_6sol.Policy.Types.{Rule, Config, RawRule, RawConfig, Request, AuditRecorder}
use agent_dock_coedx5_6sol.Policy.Paths.{PathLibrary}
use agent_dock_coedx5_6sol.Policy.Engine.{engine_decide}
use agent_dock_coedx5_6sol.Policy.Parse.{
  Trailing, ParseError, expect_end, no_paths, parsed_timeout, parse_rule, parse_rules,
  parse_document, parse_decoded, parse,
}
use agent_dock_coedx5_6sol.Policy.Decided.{engine_decide_iff_IsAllowed}

-- A rule that bounds what it allows.
pub record IsComplete (rule : Rule) : Type 0 where
  pub tool : rule.tool ≢ ""
  pub capability : rule.capability ≢ ""
  pub paths : rule.paths ≢ []
  pub max_timeout : is_positive rule.max_timeout ≡ true
  pub max_output_bytes : is_positive rule.max_output_bytes ≡ true

named : (s : String) → (s == "") ≡ false → s ≢ ""
named s h e = let empty : String = "" in cc (h, ap (λ t. t == empty) e, ==_self empty)

non_empty : (xs : List String) → no_paths xs ≡ false → xs ≢ []
non_empty [] h e = cc h
non_empty (x ∷ xs) h e = cc e

module _ (parse_duration : String → Option ℤ) where
  parse_rule-IsComplete :
      (raw : RawRule) {rule : Rule} → parse_rule parse_duration raw ≡ ok rule → IsComplete rule
  unfolding parse_rule
  parse_rule-IsComplete raw p =
      let (timeout, at, p₁) = >>=-eq-ok (parsed_timeout raw (parse_duration raw.max_timeout)) _ p in
      let (positive, p₂) =
        through (not (is_positive timeout)) (ParseError.bad_timeout raw.tool) _ p₁ in
      let (complete, p₃) =
        through
          (raw.tool == ""
            || raw.capability == ""
            || no_paths raw.paths
            || not (is_positive raw.max_output_bytes))
          (ParseError.incomplete_rule raw.tool) _ p₂ in
      let (three, output) =
        none_of (raw.tool == "" || raw.capability == "" || no_paths raw.paths) _ complete in
      let (two, paths) = none_of (raw.tool == "" || raw.capability == "") _ three in
      let (tool, capability) = none_of (raw.tool == "") _ two in
      subst IsComplete (ok-injective p₃) (record {
        tool = named raw.tool tool;
        capability = named raw.capability capability;
        paths = non_empty raw.paths paths;
        max_timeout = holds_of_not _ positive;
        max_output_bytes = holds_of_not _ output;
      })

  parse_rules-IsComplete :
      (raws : List RawRule) {rules : List Rule}
      → parse_rules parse_duration raws ≡ ok rules
      → (rule : Rule) → Memᴰ rule rules
      → IsComplete rule
  unfolding parse_rules
  parse_rules-IsComplete [] p rule m = elim (subst (Memᴰ rule) (sym (ok-injective p)) m) [ ]
  parse_rules-IsComplete (raw ∷ raws) p rule m =
      let (first, here, p₁) = >>=-eq-ok (parse_rule parse_duration raw) _ p in
      let (rest, there, p₂) = >>=-eq-ok (parse_rules parse_duration raws) _ p₁ in
      elim (subst (Memᴰ rule) (sym (ok-injective p₂)) m) [
        | head e ↦ subst IsComplete (sym e) (parse_rule-IsComplete raw here)
        | tail k ↦ parse_rules-IsComplete raws there rule k
      ]

  -- A document that is accepted denies by default, and each of its rules is complete.
  parse_document-IsComplete :
      (raw : RawConfig) (trailing : Trailing) {config : Config}
      → parse_document parse_duration raw trailing ≡ ok config
      → (config.default ≡ "deny") × ((rule : Rule) → Memᴰ rule config.rules → IsComplete rule)
  unfolding parse_document
  parse_document-IsComplete raw trailing p =
      let (u, ended, p₁) = >>=-eq-ok (expect_end trailing) _ p in
      let (header, p₂) =
        through (raw.version == "" || raw.default != "deny") ParseError.bad_header _ p₁ in
      let (rules, parsed, p₃) = >>=-eq-ok (parse_rules parse_duration raw.rules) _ p₂ in
      let config-eq = ok-injective p₃ in
      (
        sym (ap (λ (c : Config). c.default) config-eq)
            ∙ eq_of_!= raw.default "deny" (none_of (raw.version == "") _ header).1,
        λ rule m.
            parse_rules-IsComplete raw.rules parsed rule
              (subst (λ (c : Config). Memᴰ rule c.rules) (sym config-eq) m),
      )

  parse_decoded-IsComplete :
      (decoded : Option (RawConfig × Trailing)) {config : Config}
      → parse_decoded parse_duration decoded ≡ ok config
      → (config.default ≡ "deny") × ((rule : Rule) → Memᴰ rule config.rules → IsComplete rule)
  parse_decoded-IsComplete none p = cc p
  parse_decoded-IsComplete (some (raw, trailing)) p = parse_document-IsComplete raw trailing p

  -- Under a policy that Parse accepts, a request that Decide allows is bounded: some rule for its tool
  -- and capability has a positive maximal timeout and output, and the request's are positive and not
  -- above them.
  pub engine_decide-bounded :
      (decode : String → Option (RawConfig × Trailing)) (content : String) (config : Config)
      → parse parse_duration decode content ≡ ok config
      → (sort : List String → List String) (milliseconds : ℤ → ℤ) {S : Type 0}
        (recorder : AuditRecorder S) (lib : PathLibrary) (request : Request) (s : S)
      → (engine_decide sort milliseconds recorder lib config request s).1.allowed ≡ true
      → (rule : Rule) × Memᴰ rule config.rules
        × IsComplete rule
        × (rule.tool ≡ request.tool_name)
        × (rule.capability ≡ request.capability)
        × (is_positive request.timeout ≡ true)
        × (int_ltb rule.max_timeout request.timeout ≡ false)
        × (is_positive request.output_limit ≡ true)
        × (int_ltb rule.max_output_bytes request.output_limit ≡ false)
  unfolding parse
  engine_decide-bounded decode content config p sort milliseconds recorder lib request s h =
      let (rule, m, permits) =
        ((engine_decide_iff_IsAllowed sort milliseconds recorder lib config request s).0 h).0 in
      (
        rule,
        m,
        (parse_decoded-IsComplete (decode content) p).1 rule m,
        permits.tool,
        permits.capability,
        permits.timeout.0,
        permits.timeout.1,
        permits.output.0,
        permits.output.1,
      )
