-- ===== src/Policy/Root.antt =====
-- internal/policy/path.go: NormalizePath and withinRoot.
use agent_dock_coedx5_6sol.Prelude.{
  String, Bool, true, false, not, ◌&&◌, ◌||◌, ◌==◌, ◌!=◌, string_eq, List, [], ◌∷◌, Option, none,
  some, Result, ok, err, ◌>>=◌, ◌>>◌, reject, if◌then◌else◌,
}
use agent_dock_coedx5_6sol.Policy.Paths.{PathLibrary, PathError, normalize_logical_path}

-- What os.Lstat says of a path.
pub data Stat : Type 0 where
  found missing stat_failed : Stat

-- The file system as packages os and path/filepath read it during a call, and the functions on paths
-- that the call uses besides those of the library.
pub record FileSystem : Type 0 where
  pub abs : String → Option String
  pub eval_symlinks : String → Option String
  pub lstat : String → Stat
  pub split : String → List String
  pub join : String → String → String
  pub rel : String → String → Option String

-- An error of the file system is joined with ErrUnsafePath.
abbrev pub or_unsafe : Option String → Result PathError String
or_unsafe none = err PathError.unsafe_path
or_unsafe (some path) = ok path

module _ (lib : PathLibrary) (fs : FileSystem) where
  abbrev pub inside : Option String → Bool
  inside none = false
  inside (some relative) =
      if lib.is_abs relative then false else relative != ".." && not (lib.has_prefix relative "../")

  -- withinRoot
  unfoldable pub within_root : String → String → Bool
  within_root root candidate = inside (fs.rel root candidate)

  -- The path that a part resolves to, or none for a part that is not there.
  abbrev pub resolve_link : String → Option String → Result PathError (Option String)
  resolve_link root none = err PathError.unsafe_path
  resolve_link root (some resolved) = do
    reject (not (within_root root resolved)) PathError.unsafe_path
    ok (some resolved)

  abbrev pub resolve_part : String → String → Stat → Result PathError (Option String)
  resolve_part root current Stat.missing = ok none
  resolve_part root current Stat.stat_failed = err PathError.unsafe_path
  resolve_part root current Stat.found = resolve_link root (fs.eval_symlinks current)

  -- The body of the loop: an empty part is passed over, a part that is not there ends the loop, and a
  -- part that is there is entered.
  abbrev pub enter :
      (String → Result PathError (Unit {0}))
      → Result PathError (Option String)
      → Result PathError (Unit {0})
  enter rest (err e) = err e
  enter rest (ok none) = ok tt
  enter rest (ok (some resolved)) = rest resolved

  abbrev pub pass :
      (String → Result PathError (Unit {0}))
      → String
      → String
      → String
      → Bool
      → Result PathError (Unit {0})
  pass rest root current part true = rest current
  pass rest root current part false =
      enter rest (resolve_part root (fs.join current part) (fs.lstat (fs.join current part)))

  -- The loop over the parts of the path, from the directory `current`.
  unfoldable pub walk : String → String → List String → Result PathError (Unit {0})
  walk root current [] = ok tt
  walk root current (part ∷ parts) =
      pass (λ resolved. walk root resolved parts) root current part (part == "." || part == "")

  -- NormalizePath
  unfoldable pub normalize_path : String → String → Result PathError String
  normalize_path root candidate = do
    logical ← normalize_logical_path lib candidate
    absolute_root ← or_unsafe (fs.abs root)
    canonical_root ← or_unsafe (fs.eval_symlinks absolute_root)
    walk canonical_root canonical_root (fs.split (lib.from_slash logical))
    ok logical
