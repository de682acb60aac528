-- ===== src/ScopeGuard.antt =====
-- scripts/a9_scope_guard.py: whether a diff stays inside the scope of a task.
pub mod Soundness
mod Tests
use a.Prelude.{
  ℕ, Bool, true, false, not, ◌&&◌, ◌||◌, Option, none, some, List, [], ◌∷◌, ◌++◌, ◌==◌, ◌≡◌, refl,
  if◌then◌else◌, map,
}
use a.Text.{
  Text, codes, text_eq, starts_with, drop, take, strip, strip_by, rstrip_by, words, has_char,
  is_empty,
}
use a.Text.Lines.{lines}
use a.Text.Glob.{fnmatch}
use a.Paths.{
  any_member, slash, member, is_absolute, path_parts, last_part, first_blocked, normalize_diff_path,
  Level, error, warning, info, Status, pass, fail,
}
use a.Paths.Order.{sorted_set}

-- In the order of `sorted(blocked)[0]`.
abbrev pub blocked_parts : List Text
blocked_parts =
    codes ".git"
    ∷ codes "__pycache__"
    ∷ codes "node_modules"
    ∷ codes "reference-projects"
    ∷ codes "target"
    ∷ codes "vendor-src"
    ∷ []

abbrev pub sensitive_names : List Text
sensitive_names =
    codes ".env"
    ∷ codes ".env.local"
    ∷ codes ".env.production"
    ∷ codes "id_rsa"
    ∷ codes "id_ed25519"
    ∷ codes "known_hosts"
    ∷ []

abbrev pub sensitive_parts : List Text
sensitive_parts = codes ".ssh" ∷ codes ".aws" ∷ codes ".config" ∷ []

-- The messages of the findings.
pub data Message : Type 0 where
  absolute_path path_traversal sensitive_path outside_allowed_paths no_changed_files : Message
  blocked_component : Text → Message

pub record Finding : Type 0 where
  pub level : Level
  pub message : Message
  pub path : Option Text

-- The paths that one line of a diff names, "/dev/null" among them.
unfoldable pub header_paths : Text → List Text
unfolding words normalize_diff_path starts_with
header_paths line =
    if starts_with line (codes "diff --git ")
    then map normalize_diff_path (take 2 (drop 2 (words line)))
    else if starts_with line (codes "--- ") || starts_with line (codes "+++ ")
    then normalize_diff_path (drop 4 line) ∷ []
    else []

drop_dev_null : List Text → List Text
unfolding text_eq
drop_dev_null [] = []
drop_dev_null (x ∷ xs) =
    let rest = drop_dev_null xs in if text_eq x (codes "/dev/null") then rest else x ∷ rest

touched_in : List Text → List Text
unfolding header_paths drop_dev_null
touched_in [] = []
touched_in (line ∷ rest) = drop_dev_null (header_paths line) ++ touched_in rest

unfoldable pub changed_files_from_diff : Text → List Text
unfolding touched_in lines sorted_set
changed_files_from_diff text = sorted_set (touched_in (lines text))

abbrev is_slash : ℕ → Bool
is_slash c = c == slash

-- any(ch in item for ch in "*?[]")
unfoldable pub has_wildcard : Text → Bool
unfolding has_char
has_wildcard item =
    has_char b'*' item || has_char b'?' item || has_char b'[' item || has_char b']' item

-- One round of the loop of `is_allowed`.
allows : Text → Text → Bool
unfolding has_wildcard fnmatch text_eq starts_with rstrip_by strip_by
allows normalized pattern =
    let item = strip_by is_slash (strip pattern) in
    if is_empty item
    then false
    else if has_wildcard item
    then fnmatch normalized item
    else text_eq normalized item || starts_with normalized (rstrip_by is_slash item ++ slash ∷ [])

any_allows : Text → List Text → Bool
unfolding allows
any_allows normalized [] = false
any_allows normalized (pattern ∷ patterns) =
    allows normalized pattern || any_allows normalized patterns

unfoldable pub is_allowed : Text → List Text → Bool
unfolding any_allows strip_by
is_allowed path patterns =
    if is_empty patterns then true else any_allows (strip_by is_slash path) patterns

finding : Message → Text → Finding
finding message path = record { level = error; message = message; path = some path }

when : Bool → Finding → List Finding
when true f = f ∷ []
when false f = []

blocked_finding : Option Text → Text → List Finding
unfolding finding
blocked_finding none path = []
blocked_finding (some part) path = finding (blocked_component part) path ∷ []

unfoldable pub is_sensitive : List Text → Bool
unfolding any_member last_part
is_sensitive parts = member (last_part parts) sensitive_names || any_member sensitive_parts parts

-- What `validate_path` appends to the findings.
unfoldable pub validate_path : Text → List Text → List Finding
unfolding finding when blocked_finding
validate_path path allowed_paths =
    let parts = path_parts path in
    if is_absolute path
    then finding absolute_path path ∷ []
    else if member (codes "..") parts
    then finding path_traversal path ∷ []
    else blocked_finding (first_blocked blocked_parts parts) path
      ++ when (is_sensitive parts) (finding sensitive_path path)
      ++ when (not (is_allowed path allowed_paths)) (finding outside_allowed_paths path)

validate_all : List Text → List Text → List Finding
validate_all [] allowed_paths = []
validate_all (path ∷ paths) allowed_paths =
    validate_path path allowed_paths ++ validate_all paths allowed_paths

pub record Report : Type 0 where
  pub status : Status
  pub changed_files : List Text
  pub allowed_paths : List Text
  pub findings : List Finding

abbrev is_error : Level → Bool
is_error error = true
is_error warning = false
is_error info = false

any_error : List Finding → Bool
any_error [] = false
any_error (f ∷ fs) = is_error f.level || any_error fs

unfoldable pub report : List Text → List Text → List Finding → Report
unfolding any_error
report changed_files allowed_paths findings = record {
  status = if any_error findings then fail else pass;
  changed_files = changed_files;
  allowed_paths = allowed_paths;
  findings = findings;
}

no_files_finding : List Text → List Finding
no_files_finding [] = record { level = info; message = no_changed_files; path = none } ∷ []
no_files_finding (_ ∷ _) = []

unfoldable pub validate_diff : Text → List Text → Report
unfolding changed_files_from_diff validate_all no_files_finding report validate_path is_absolute
    path_parts member first_blocked is_sensitive is_allowed
validate_diff text allowed_paths =
    let changed_files = changed_files_from_diff text in
    report changed_files allowed_paths
      (validate_all changed_files allowed_paths ++ no_files_finding changed_files)
