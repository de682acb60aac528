-- ===== src/PatchGuard.antt =====
-- scripts/a9_patch_guard.py: the data of the guard, the file tree it looks at, and the test that a
-- path stays inside the root. The modules below hold the parser and the two validators.
pub mod PathLine
pub mod Parse
pub mod Steps
pub mod RoundTrip
pub mod Origin
pub mod Validate
pub mod SafePath
pub mod Verdict
pub mod DiffLines
pub mod DiffVerdict
mod Tests
use a.Prelude.{
  ℕ, Bool, true, false, ◌||◌, Option, none, some, List, [], ◌∷◌, ◌≡◌, refl, if◌then◌else◌,
}
use a.Text.{Text, codes, text_eq}
use a.Paths.{
  member, is_absolute, path_parts, first_blocked, normalize_diff_path, Level, error, warning, info,
}

-- In the order of `sorted(blocked)[0]`.
abbrev pub blocked_parts : List Text
blocked_parts =
    codes ".aider.tags.cache.v3"
    ∷ codes ".aider.tags.cache.v4"
    ∷ codes ".git"
    ∷ codes "__pycache__"
    ∷ codes "node_modules"
    ∷ codes "reference-projects"
    ∷ codes "target"
    ∷ codes "vendor-src"
    ∷ []

-- What was done to a path or to the text of a block before use; `a9_patch_apply.py` adds the last
-- five, for the SEARCH and the REPLACE section.
pub data Normalization : Type 0 where
  fence_language_prefix fence_prefix trailing_colon leading_hash : Normalization
  embedded_inline_path inline_markup basename_unique : Normalization
  search_filename_line search_fence replace_filename_line replace_fence : Normalization

-- The messages of the findings of this file and of `a9_patch_apply.py`; the strategy that
-- `controlled_fuzz` names stands in the entry of the edit.
pub data Message : Type 0 where
  absolute_path path_traversal path_escapes : Message
  blocked_component : Text → Message
  no_file_path unterminated_block : (line : ℕ) → Message
  no_blocks target_missing target_not_file search_empty identical : Message
  match_count : (found : ℕ) → Message
  no_file_paths no_hunks no_changed_lines : Message
  ambiguous_basename : (candidates : ℕ) → Message
  empty_search_for_existing already_applied controlled_fuzz : Message
  normalized_content : List Normalization → Message
  repeated_replace : (found replaced : ℕ) → Message

pub record Finding : Type 0 where
  pub level : Level
  pub message : Message
  pub path : Option Text

abbrev pub error_at : Message → Text → Finding
error_at message path = record { level = error; message = message; path = some path }

abbrev pub warning_at : Message → Text → Finding
warning_at message path = record { level = warning; message = message; path = some path }

abbrev pub error_plain : Message → Finding
error_plain message = record { level = error; message = message; path = none }

abbrev pub is_error : Level → Bool
is_error error = true
is_error warning = false
is_error info = false

unfoldable pub any_error : List Finding → Bool
any_error [] = false
any_error (f ∷ fs) = is_error f.level || any_error fs

pub record SearchReplaceBlock : Type 0 where
  pub path : Text
  pub search : Text
  pub replace : Text
  pub line : ℕ
  pub path_normalizations : List Normalization

-- What stands at a place of the tree. Only texts are modelled: a file that is no UTF-8 makes the
-- program raise.
pub data Node : Type 0 where
  file : Text → Node
  directory : Node

-- The files under the root, by the components of their path. `resolve` follows the symbolic links
-- of a path that holds no "..", and is `none` where they lead out of the root.
pub record Tree : Type 0 where
  pub resolve : List Text → Option (List Text)
  pub node : List Text → Option Node

unfoldable pub escaping : Option (List Text) → Text → Option (List Text) × List Finding
escaping none rel = (none, error_at path_escapes rel ∷ [])
escaping (some resolved) rel = (some resolved, [])

unfoldable pub unblocked : Option Text → Tree → List Text → Text → Option (List Text) × List Finding
unfolding escaping
unblocked (some part) tree parts rel = (none, error_at (blocked_component part) rel ∷ [])
unblocked none tree parts rel = escaping (tree.resolve parts) rel

-- The place that a path leads to, and what is appended to the findings.
unfoldable pub validate_rel_path : Tree → Text → Option (List Text) × List Finding
unfolding unblocked
validate_rel_path tree raw_path =
    let rel = normalize_diff_path raw_path in
    let parts = path_parts rel in
    if text_eq raw_path (codes "/dev/null")
    then (none, [])
    else if is_absolute rel
    then (none, error_at absolute_path rel ∷ [])
    else if member (codes "..") parts
    then (none, error_at path_traversal rel ∷ [])
    else unblocked (first_blocked blocked_parts parts) tree parts rel
