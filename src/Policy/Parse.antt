-- ===== src/Policy/Parse.antt =====
-- internal/policy/policy.go: Parse. `decode` stands for the decoder of package yaml on a text: its
-- first document with known fields, and what follows it; `parse_duration` is time.ParseDuration.
use agent_dock_coedx5_6sol.Prelude.{
  ℤ, String, Bool, true, false, not, ◌||◌, ◌==◌, ◌!=◌, string_eq, List, [], ◌∷◌, Option, none, some,
  Result, ok, err, ◌>>=◌, ◌>>◌, reject, is_positive,
}
use agent_dock_coedx5_6sol.Policy.Types.{Rule, Config, RawRule, RawConfig}

-- What the second call of the decoder finds.
pub data Trailing : Type 0 where
  end_of_file another_document malformed : Trailing

pub data ParseError : Type 0 where
  bad_yaml several_documents bad_trailing bad_header : ParseError
  bad_timeout incomplete_rule : String → ParseError

abbrev pub no_paths : List String → Bool
no_paths [] = true
no_paths (x ∷ xs) = false

abbrev pub expect_end : Trailing → Result ParseError (Unit {0})
expect_end Trailing.end_of_file = ok tt
expect_end Trailing.another_document = err ParseError.several_documents
expect_end Trailing.malformed = err ParseError.bad_trailing

-- An error of time.ParseDuration, as the error for the rule.
abbrev pub parsed_timeout : RawRule → Option ℤ → Result ParseError ℤ
parsed_timeout candidate none = err (ParseError.bad_timeout candidate.tool)
parsed_timeout candidate (some timeout) = ok timeout

module _ (parse_duration : String → Option ℤ) where
  -- The body of the loop.
  unfoldable pub parse_rule : RawRule → Result ParseError Rule
  parse_rule candidate = do
    timeout ← parsed_timeout candidate (parse_duration candidate.max_timeout)
    reject (not (is_positive timeout)) (ParseError.bad_timeout candidate.tool)
    reject
        (candidate.tool == ""
          || candidate.capability == ""
          || no_paths candidate.paths
          || not (is_positive candidate.max_output_bytes))
        (ParseError.incomplete_rule candidate.tool)
    ok (record {
      tool = candidate.tool;
      capability = candidate.capability;
      read_only = candidate.read_only;
      paths = candidate.paths;
      network = candidate.network;
      max_timeout = timeout;
      max_output_bytes = candidate.max_output_bytes;
    })

  unfoldable pub parse_rules : List RawRule → Result ParseError (List Rule)
  parse_rules [] = ok []
  parse_rules (candidate ∷ rest) = do
    rule ← parse_rule candidate
    rules ← parse_rules rest
    ok (rule ∷ rules)

  -- What Parse does with the first document and what follows it.
  unfoldable pub parse_document : RawConfig → Trailing → Result ParseError Config
  parse_document raw trailing = do
    expect_end trailing
    reject (raw.version == "" || raw.default != "deny") ParseError.bad_header
    rules ← parse_rules raw.rules
    ok (record {
      version = raw.version;
      default = raw.default;
      environment = raw.environment;
      rules = rules;
    })

  abbrev pub parse_decoded : Option (RawConfig × Trailing) → Result ParseError Config
  parse_decoded none = err ParseError.bad_yaml
  parse_decoded (some (raw, trailing)) = parse_document raw trailing

  -- Parse
  unfoldable pub parse :
      (String → Option (RawConfig × Trailing)) → String → Result ParseError Config
  parse decode content = parse_decoded (decode content)
