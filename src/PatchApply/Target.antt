-- ===== src/PatchApply/Target.antt =====
-- `resolve_apply_path` and `basename_candidates` of scripts/a9_patch_apply.py, over a file system
-- that is a parameter.
use a.Prelude.{Bool, true, false, not, ◌||◌, Option, none, some, List, [], ◌∷◌, ◌++◌, if◌then◌else◌}
use a.Text.{Text, join, has_char}
use a.Paths.{slash, path_parts, last_part, first_blocked}
use a.Paths.Order.{sorted_set}
use a.PatchGuard.{
  blocked_parts, Normalization, basename_unique, Finding, Node, file, Tree, validate_rel_path,
}

-- The file system under the root. `rglob` lists the places under the root whose name matches;
-- `write` makes the directories above a place and writes a file there, and is `none` where one of
-- these raises.
pub record FileSystem : Type 1 where
  pub State : Type 0
  pub tree : State → Tree
  pub rglob : State → Text → List (List Text)
  pub write : List Text → Text → State → Option State

-- Where a block leads: the place, the path to it, and what was done to find it.
pub record Target : Type 0 where
  pub resolved : Option (List Text)
  pub effective_path : Text
  pub normalizations : List Normalization
  pub candidates : List Text
  pub findings : List Finding

abbrev pub exists : Option Node → Bool
exists none = false
exists (some _) = true

abbrev pub is_file : Option Node → Bool
is_file (some (file _)) = true
is_file _ = false

module _ (fs : FileSystem) where
  -- The paths of the files among the places, less those in a blocked directory.
  unfoldable pub candidate_paths : Tree → List (List Text) → List Text
  candidate_paths tree [] = []
  candidate_paths tree (place ∷ places) =
      let rest = candidate_paths tree places in
      elim (first_blocked blocked_parts place) [
        | some _ ↦ rest
        | none ↦ if is_file (tree.node place) then join (slash ∷ []) place ∷ rest else rest
      ]

  unfoldable pub basename_candidates : fs.State → Text → List Text
  unfolding candidate_paths sorted_set
  basename_candidates s name = sorted_set (candidate_paths (fs.tree s) (fs.rglob s name))

  -- A unique candidate is validated in place of the path.
  unfoldable pub by_basename : fs.State → Text → List Text → List Finding → List Text → Target
  by_basename s raw_path place findings (candidate ∷ []) =
      let (resolved, found) = validate_rel_path (fs.tree s) candidate in
      record {
        resolved = resolved;
        effective_path = candidate;
        normalizations = basename_unique ∷ [];
        candidates = candidate ∷ [];
        findings = findings ++ found;
      }
  by_basename s raw_path place findings candidates = record {
    resolved = some place;
    effective_path = raw_path;
    normalizations = [];
    candidates = candidates;
    findings = findings;
  }

  unfoldable pub resolve_existing :
      fs.State → Text → Bool → Option (List Text) → List Finding → Target
  unfolding by_basename basename_candidates
  resolve_existing s raw_path allow_basename none findings = record {
    resolved = none;
    effective_path = raw_path;
    normalizations = [];
    candidates = [];
    findings = findings;
  }
  resolve_existing s raw_path allow_basename (some place) findings =
      if exists ((fs.tree s).node place)
        || not allow_basename
        || has_char slash raw_path
        || has_char b'\\' raw_path
      then record {
        resolved = some place;
        effective_path = raw_path;
        normalizations = [];
        candidates = [];
        findings = findings;
      }
      else by_basename s raw_path place findings
          (basename_candidates s (last_part (path_parts raw_path)))

  unfoldable pub resolve_apply_path : fs.State → Text → Bool → Target
  unfolding resolve_existing
  resolve_apply_path s raw_path allow_basename =
      let (resolved, findings) = validate_rel_path (fs.tree s) raw_path in
      resolve_existing s raw_path allow_basename resolved findings
