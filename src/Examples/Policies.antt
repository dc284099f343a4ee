-- ===== src/Examples/Policies.antt =====
-- The theorems on the policy at one rule and one request (internal/policy).
use agent_dock_coedx5_6sol.Prelude.{
  ℤ, ◌≡◌, ◌↔◌, refl, String, true, false, string_eq, ◌==◌, ok, Option, some, List, [], ◌∷◌, Memᴰ,
  is_positive, int_ltb,
}
use agent_dock_coedx5_6sol.Policy.Types.{
  Rule, Config, RawRule, RawConfig, Request, AuditEvent, AuditRecorder,
}
use agent_dock_coedx5_6sol.Policy.Paths.{
  PathLibrary, paths_allowed, environment_allowed, normalize_logical_path,
}
use agent_dock_coedx5_6sol.Policy.Engine.{verdict, scan, engine_decide, memory_recorder}
use agent_dock_coedx5_6sol.Policy.Parse.{Trailing, parse, parse_document, parse_rules, parse_rule}
use agent_dock_coedx5_6sol.Policy.Root.{Stat, FileSystem, walk, within_root, normalize_path}
use agent_dock_coedx5_6sol.Policy.Permits.{IsAllowed}
use agent_dock_coedx5_6sol.Policy.Decided.{
  allow_event, Recorded, engine_decide_iff_IsAllowed, engine_decide-Recorded,
}
use agent_dock_coedx5_6sol.Policy.Parsed.{IsComplete, engine_decide-bounded}
use agent_dock_coedx5_6sol.Policy.Resolved.{places, normalize_path-contained}

-- Paths of one part each.
abbrev plain_paths : PathLibrary
plain_paths = record {
  is_abs = λ s. s == "/";
  volume_name = λ s. "";
  clean = λ s. s;
  from_slash = λ s. s;
  to_slash = λ s. s;
  first_part = λ s. s;
  equal_fold = λ s t. s == t;
  has_prefix = λ s prefix. s == prefix;
  contains_nul = λ s. false;
}

abbrev raw_rule : RawRule
raw_rule = record {
  tool = "read_file";
  capability = "repository.read";
  read_only = true;
  paths = "." ∷ [];
  network = false;
  max_timeout = "9ns";
  max_output_bytes = ℤ.pos 100;
}

abbrev raw : RawConfig
raw = record {
  version = "1";
  default = "deny";
  environment = record { allow = "HOME" ∷ [] };
  rules = raw_rule ∷ [];
}

abbrev rule : Rule
rule = record {
  tool = "read_file";
  capability = "repository.read";
  read_only = true;
  paths = "." ∷ [];
  network = false;
  max_timeout = ℤ.pos 9;
  max_output_bytes = ℤ.pos 100;
}

abbrev config : Config
config = record {
  version = "1";
  default = "deny";
  environment = record { allow = "HOME" ∷ [] };
  rules = rule ∷ [];
}

abbrev request : Request
request = record {
  run_id = "run-1";
  attempt_id = "attempt-1";
  tool_name = "read_file";
  contract_version = "v1";
  capability = "repository.read";
  read_only = true;
  paths = "README.md" ∷ [];
  network = false;
  timeout = ℤ.pos 9;
  output_limit = ℤ.pos 100;
  environment = ("HOME", "/root") ∷ [];
}

abbrev same_order : List String → List String
same_order keys = keys

abbrev millis : ℤ → ℤ
millis nanos = ℤ.pos 0

abbrev log_recorder : AuditRecorder (List AuditEvent)
log_recorder = memory_recorder "now"

abbrev nanos : String → Option ℤ
nanos text = some (ℤ.pos 9)

abbrev one_document : String → Option (RawConfig × Trailing)
one_document text = some (raw, Trailing.end_of_file)

-- A file system without links, where a path is joined as its last part.
abbrev flat : FileSystem
flat = record {
  abs = λ path. some path;
  eval_symlinks = λ path. some path;
  lstat = λ path. Stat.found;
  split = λ path. path ∷ [];
  join = λ base part. part;
  rel = λ base path. some path;
}

engine_decide_iff_IsAllowed_example :
    ((engine_decide same_order millis log_recorder plain_paths config request []).1.allowed ≡ true)
    ↔ (IsAllowed plain_paths config request
        × ((log_recorder.record_event []
              (allow_event same_order millis log_recorder plain_paths config request [])).1
            ≡ true))
engine_decide_iff_IsAllowed_example =
    engine_decide_iff_IsAllowed same_order millis log_recorder plain_paths config request []

engine_decide-Recorded_example :
    Recorded same_order millis log_recorder plain_paths config request []
      (engine_decide same_order millis log_recorder plain_paths config request [])
engine_decide-Recorded_example =
    engine_decide-Recorded same_order millis log_recorder plain_paths config request []

engine_decide-bounded_example :
    (r : Rule) × Memᴰ r config.rules
    × IsComplete r
    × (r.tool ≡ request.tool_name)
    × (r.capability ≡ request.capability)
    × (is_positive request.timeout ≡ true)
    × (int_ltb r.max_timeout request.timeout ≡ false)
    × (is_positive request.output_limit ≡ true)
    × (int_ltb r.max_output_bytes request.output_limit ≡ false)
unfolding parse parse_document parse_rules parse_rule engine_decide scan verdict paths_allowed
    environment_allowed normalize_logical_path memory_recorder
engine_decide-bounded_example =
    engine_decide-bounded nanos one_document "" config refl same_order millis log_recorder
      plain_paths request [] refl

normalize_path-contained_example :
    (normalize_logical_path plain_paths "README.md" ≡ ok "README.md")
    × (absolute : String) × (canonical : String) × (flat.abs "/" ≡ some absolute)
    × (flat.eval_symlinks absolute ≡ some canonical)
    × ((place : String)
        → Memᴰ place
            (places plain_paths flat canonical (flat.split (plain_paths.from_slash "README.md")))
        → within_root plain_paths flat canonical place ≡ true)
unfolding normalize_path normalize_logical_path walk within_root
normalize_path-contained_example =
    normalize_path-contained plain_paths flat "/" "README.md" "README.md" refl
