-- ===== src/Policy/Paths.antt =====
-- internal/policy/policy.go: paths and environments that a policy allows.
use agent_dock_coedx5_6sol.Prelude.{
  String, Bool, false, ◌||◌, ◌==◌, ◌!=◌, string_eq, List, [], ◌∷◌, any, all, Result, ok, err, ◌>>◌,
  reject, concat,
}

-- What the policy uses of packages path/filepath and strings, on a Unix system: `first_part` is the
-- text before the first slash, and `contains_nul` looks for the rune 0.
pub record PathLibrary : Type 0 where
  pub is_abs : String → Bool
  pub volume_name : String → String
  pub clean : String → String
  pub from_slash : String → String
  pub to_slash : String → String
  pub first_part : String → String
  pub equal_fold : String → String → Bool
  pub has_prefix : String → String → Bool
  pub contains_nul : String → Bool

-- ErrUnsafePath, alone or joined with an error of the file system
pub data PathError : Type 0 where
  unsafe_path : PathError

module _ (lib : PathLibrary) where
  -- The text climbs out of its base.
  abbrev pub climbs : String → Bool
  climbs clean = clean == ".." || lib.has_prefix clean "../"

  -- normalizeLogicalPath
  unfoldable pub normalize_logical_path : String → Result PathError String
  normalize_logical_path candidate = do
    reject
        (candidate == ""
          || lib.is_abs candidate
          || lib.volume_name candidate != ""
          || lib.contains_nul candidate)
        PathError.unsafe_path
    let clean = lib.clean (lib.from_slash candidate)
    reject (climbs clean) PathError.unsafe_path
    let slashed = lib.to_slash clean
    let first = lib.first_part slashed
    reject (lib.equal_fold first ".git" || lib.equal_fold first ".agentdock") PathError.unsafe_path
    ok slashed

  -- A normalized path is one that the normalized prefix allows.
  abbrev pub is_under : String → String → Bool
  is_under normalized prefix =
      prefix == "."
      || normalized == prefix
      || lib.has_prefix normalized (concat (prefix ∷ "/" ∷ []))

  abbrev pub matches : String → Result PathError String → Bool
  matches normalized (ok prefix) = is_under normalized prefix
  matches normalized (err e) = false

  abbrev pub is_allowed : List String → Result PathError String → Bool
  is_allowed allowed (ok normalized) =
      any (λ prefix. matches normalized (normalize_logical_path prefix)) allowed
  is_allowed allowed (err e) = false

  -- PathsAllowed
  unfoldable pub paths_allowed : List String → List String → Bool
  paths_allowed [] allowed = false
  paths_allowed (path ∷ paths) allowed =
      all (λ candidate. is_allowed allowed (normalize_logical_path candidate)) (path ∷ paths)

-- environmentAllowed
unfoldable pub environment_allowed : List (String × String) → List String → Bool
environment_allowed environment allowed =
    all (λ (entry : String × String). any (λ key. key == entry.0) allowed) environment
