-- ===== src/Policy/Resolved.antt =====
-- Where a normalized path can lead (internal/policy/path.go).
use agent_dock_coedx5_6sol.Prelude.{
  String, string_eq, Bool, true, false, not, ◌≡◌, refl, ◌∙◌, ap, subst, ◌||◌, ◌==◌, List, [], ◌∷◌,
  Memᴰ, head, tail, Option, none, some, Result, ok, >>=-eq-ok, ok-injective, reject, ◌>>◌,
}
use agent_dock_coedx5_6sol.Policy.Paths.{PathLibrary, PathError, normalize_logical_path}
use agent_dock_coedx5_6sol.Policy.Root.{
  Stat, FileSystem, or_unsafe, within_root, resolve_link, resolve_part, enter, pass, walk,
  normalize_path,
}

module _ (lib : PathLibrary) (fs : FileSystem) where
  -- The directories and files that the parts of a path name one after the other, links followed, up to
  -- the first that is not there.
  abbrev pub followed : (String → List String) → Stat → Option String → List String
  followed rest Stat.found (some resolved) = resolved ∷ rest resolved
  followed rest _ _ = []

  abbrev pub part_places : (String → List String) → String → String → Bool → List String
  part_places rest current part true = rest current
  part_places rest current part false =
      followed rest (fs.lstat (fs.join current part)) (fs.eval_symlinks (fs.join current part))

  unfoldable pub places : String → List String → List String
  places current [] = []
  places current (part ∷ parts) =
      part_places (λ resolved. places resolved parts) current part (part == "." || part == "")

  Inside : String → List String → Type 0
  Inside root paths = (place : String) → Memᴰ place paths → within_root lib fs root place ≡ true

  Inside-nil : (root : String) → Inside root []
  unfolding Inside
  Inside-nil root place m = elim m [ ]

  Inside-cons :
      (root path : String) (paths : List String)
      → within_root lib fs root path ≡ true
      → Inside root paths
      → Inside root (path ∷ paths)
  unfolding Inside
  Inside-cons root path paths here there place (head e) = ap (within_root lib fs root) e ∙ here
  Inside-cons root path paths here there place (tail m) = there place m

  module _ (root : String) (rest : String → Result PathError (Unit {0}))
      (after : String → List String)
      (inside : (next : String) → rest next ≡ ok tt → Inside root (after next)) where
    entered :
        (b : Bool) (place : String)
        → enter lib fs rest (reject (not b) PathError.unsafe_path >> ok (some place)) ≡ ok tt
        → (b ≡ true) × (rest place ≡ ok tt)
    entered true place h = (refl, h)
    entered false place h = cc h

    link-Inside :
        (target : Option String)
        → enter lib fs rest (resolve_link lib fs root target) ≡ ok tt
        → Inside root (followed after Stat.found target)
    link-Inside none h = Inside-nil root
    link-Inside (some place) h =
        let (within, onward) = entered (within_root lib fs root place) place h in
        Inside-cons root place (after place) within (inside place onward)

    part-Inside :
        (current : String) (stat : Stat)
        → enter lib fs rest (resolve_part lib fs root current stat) ≡ ok tt
        → Inside root (followed after stat (fs.eval_symlinks current))
    part-Inside current Stat.missing h = Inside-nil root
    part-Inside current Stat.stat_failed h = cc h
    part-Inside current Stat.found h = link-Inside (fs.eval_symlinks current) h

    pass-Inside :
        (current part : String) (empty : Bool)
        → pass lib fs rest root current part empty ≡ ok tt
        → Inside root (part_places after current part empty)
    pass-Inside current part true h = inside current h
    pass-Inside current part false h =
        part-Inside (fs.join current part) (fs.lstat (fs.join current part)) h

  walk-Inside :
      (root current : String) (parts : List String)
      → walk lib fs root current parts ≡ ok tt
      → Inside root (places current parts)
  unfolding walk places
  walk-Inside root current [] h = Inside-nil root
  walk-Inside root current (part ∷ parts) h =
      pass-Inside root (λ next. walk lib fs root next parts) (λ next. places next parts)
        (λ next p. walk-Inside root next parts p) current part (part == "." || part == "") h

  or_unsafe-ok : (o : Option String) {path : String} → or_unsafe o ≡ ok path → o ≡ some path
  or_unsafe-ok none h = cc h
  or_unsafe-ok (some path) h = cc h

  -- A path that NormalizePath accepts is returned in its normal form, and every place that its parts lead
  -- to from the resolved root, links followed, is inside that root.
  pub normalize_path-contained :
      (root candidate logical : String)
      → normalize_path lib fs root candidate ≡ ok logical
      → (normalize_logical_path lib candidate ≡ ok logical)
        × (absolute : String) × (canonical : String) × (fs.abs root ≡ some absolute)
        × (fs.eval_symlinks absolute ≡ some canonical)
        × ((place : String)
            → Memᴰ place (places canonical (fs.split (lib.from_slash logical)))
            → within_root lib fs canonical place ≡ true)
  unfolding normalize_path Inside
  normalize_path-contained root candidate logical p =
      let (normal, norm, p₁) = >>=-eq-ok (normalize_logical_path lib candidate) _ p in
      let (absolute, abs, p₂) = >>=-eq-ok (or_unsafe (fs.abs root)) _ p₁ in
      let (canonical, resolved, p₃) = >>=-eq-ok (or_unsafe (fs.eval_symlinks absolute)) _ p₂ in
      let (u, walked, p₄) =
        >>=-eq-ok (walk lib fs canonical canonical (fs.split (lib.from_slash normal))) _ p₃ in
      let same = ok-injective p₄ in
      (
        norm ∙ ap ok same,
        absolute,
        canonical,
        or_unsafe-ok _ abs,
        or_unsafe-ok _ resolved,
        subst
            (λ l.
              (place : String)
              → Memᴰ place (places canonical (fs.split (lib.from_slash l)))
              → within_root lib fs canonical place ≡ true)
            same (walk-Inside canonical canonical (fs.split (lib.from_slash normal)) walked),
      )
