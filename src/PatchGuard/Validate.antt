-- ===== src/PatchGuard/Validate.antt =====
-- The validators of scripts/a9_patch_guard.py: of SEARCH/REPLACE blocks and of unified diffs.
use a.Prelude.{
  ℕ, ◌+◌, Bool, true, false, not, ◌&&◌, ◌||◌, Option, none, some, List, [], ◌∷◌, ◌++◌, ◌==◌,
  if◌then◌else◌, map, length, leb,
}
use a.Text.{Text, codes, text_eq, starts_with, drop, take, words, is_empty, contains}
use a.Text.Lines.{lines}
use a.Text.Search.{count}
use a.Paths.{normalize_diff_path, Status, pass, fail}
use a.Paths.Order.{sorted_set}
use a.PatchGuard.{
  Finding, error_at, warning_at, error_plain, any_error, SearchReplaceBlock, Node, file, directory,
  Tree, validate_rel_path, no_blocks, target_missing, target_not_file, search_empty, match_count,
  identical, no_file_paths, no_hunks, no_changed_lines,
}
use a.PatchGuard.Parse.{parse_search_replace}

pub data Kind : Type 0 where
  search_replace unified_diff : Kind

pub record Report : Type 0 where
  pub status : Status
  pub kind : Kind
  pub block_count : ℕ
  pub touched_files : List Text
  pub findings : List Finding

unfoldable pub report : Kind → ℕ → List Text → List Finding → Report
unfolding any_error
report kind block_count touched findings = record {
  status = if any_error findings then fail else pass;
  kind = kind;
  block_count = block_count;
  touched_files = touched;
  findings = findings;
}

unfoldable pub when : Bool → Finding → List Finding
when true f = f ∷ []
when false f = []

-- The checks on the file that a block edits.
unfoldable pub check_target : SearchReplaceBlock → Option Node → List Finding
unfolding when
check_target b none = error_at target_missing b.path ∷ []
check_target b (some directory) = error_at target_not_file b.path ∷ []
check_target b (some (file current)) =
    if is_empty b.search
    then error_at search_empty b.path ∷ []
    else when (not (count current b.search == 1))
        (error_at (match_count (count current b.search)) b.path)
      ++ when (text_eq b.search b.replace) (warning_at identical b.path)

unfoldable pub check_resolved : Tree → SearchReplaceBlock → Option (List Text) → List Finding
unfolding check_target
check_resolved tree b none = []
check_resolved tree b (some resolved) = check_target b (tree.node resolved)

-- One round of the loop over the blocks.
unfoldable pub check_block : Tree → SearchReplaceBlock → List Finding
unfolding check_resolved
check_block tree b =
    let (resolved, found) = validate_rel_path tree b.path in found ++ check_resolved tree b resolved

unfoldable pub check_blocks : Tree → List SearchReplaceBlock → List Finding
unfolding check_block
check_blocks tree [] = []
check_blocks tree (b ∷ bs) = check_block tree b ++ check_blocks tree bs

abbrev pub paths_of : List SearchReplaceBlock → List Text
paths_of [] = []
paths_of (b ∷ bs) = b.path ∷ paths_of bs

unfoldable pub no_blocks_report : List Finding → Report
unfolding report
no_blocks_report [] = report search_replace 0 [] (error_plain no_blocks ∷ [])
no_blocks_report (f ∷ fs) = report search_replace 0 [] (f ∷ fs)

unfoldable pub blocks_report : Tree → List SearchReplaceBlock → List Finding → Report
unfolding report check_blocks no_blocks_report sorted_set
blocks_report tree [] parse_findings = no_blocks_report parse_findings
blocks_report tree (b ∷ bs) parse_findings =
    report search_replace (length (b ∷ bs)) (sorted_set (paths_of (b ∷ bs)))
      (parse_findings ++ check_blocks tree (b ∷ bs))

unfoldable pub validate_search_replace : Text → Tree → Report
unfolding blocks_report parse_search_replace validate_rel_path count
validate_search_replace text tree =
    let (blocks, parse_findings) = parse_search_replace text in
    blocks_report tree blocks parse_findings

-- What the loop over the lines of a diff has gathered.
pub record DiffState : Type 0 where
  pub touched : List Text
  pub findings : List Finding
  pub hunk_count : ℕ
  pub change_count : ℕ

-- A path of a header line; "/dev/null" is passed over.
unfoldable pub touch : Tree → Text → DiffState → DiffState
unfolding text_eq
touch tree rel s = if text_eq rel (codes "/dev/null") then s else record s {
  touched = rel ∷ s.touched;
  findings = (validate_rel_path tree rel).1 ++ s.findings;
}

unfoldable pub touch_all : Tree → List Text → DiffState → DiffState
unfolding touch
touch_all tree [] s = s
touch_all tree (rel ∷ rels) s = touch tree rel (touch_all tree rels s)

-- The paths of a "diff --git" line: none where it has fewer than four words.
unfoldable pub git_paths : Text → List Text
unfolding words normalize_diff_path
git_paths line =
    let parts = words line in
    if leb 4 (length parts) then map normalize_diff_path (take 2 (drop 2 parts)) else []

-- A line that adds or removes.
unfoldable pub is_change : Text → Bool
unfolding starts_with
is_change line =
    (starts_with line (codes "+") || starts_with line (codes "-"))
    && not (starts_with line (codes "+++") || starts_with line (codes "---"))

-- One round of the loop over the lines, in front of what the later lines gather.
unfoldable pub read_line : Tree → Text → DiffState → DiffState
unfolding touch_all git_paths is_change
read_line tree line s =
    if starts_with line (codes "diff --git ")
    then touch_all tree (git_paths line) s
    else if starts_with line (codes "--- ") || starts_with line (codes "+++ ")
    then touch tree (normalize_diff_path (drop 4 line)) s
    else if starts_with line (codes "@@ ")
    then record s { hunk_count = s.hunk_count + 1 }
    else if is_change line
    then record s { change_count = s.change_count + 1 }
    else s

unfoldable pub read_lines : Tree → List Text → DiffState
unfolding read_line
read_lines tree [] = record { touched = []; findings = []; hunk_count = 0; change_count = 0 }
read_lines tree (line ∷ rest) = read_line tree line (read_lines tree rest)

-- The three findings behind the loop.
unfoldable pub closing_findings : DiffState → List Finding
unfolding when
closing_findings s =
    when (is_empty s.touched) (error_plain no_file_paths)
    ++ when (s.hunk_count == 0) (error_plain no_hunks)
    ++ when (s.change_count == 0) (error_plain no_changed_lines)

unfoldable pub validate_unified_diff : Text → Tree → Report
unfolding report read_lines closing_findings lines validate_rel_path sorted_set
validate_unified_diff text tree =
    let s = read_lines tree (lines text) in
    report unified_diff s.hunk_count (sorted_set s.touched) (s.findings ++ closing_findings s)

unfoldable pub detect_format : Text → Kind
unfolding contains
detect_format text =
    if contains text (codes "<<<<<<< SEARCH") && contains text (codes ">>>>>>> REPLACE")
    then search_replace
    else unified_diff

-- `none` for "auto".
unfoldable pub kind_of : Text → Option Kind → Kind
unfolding detect_format
kind_of text none = detect_format text
kind_of text (some kind) = kind

unfoldable pub validate_as : Kind → Text → Tree → Report
unfolding validate_search_replace validate_unified_diff
validate_as search_replace text tree = validate_search_replace text tree
validate_as unified_diff text tree = validate_unified_diff text tree

unfoldable pub validate : Text → Tree → Option Kind → Report
unfolding validate_as kind_of
validate text tree patch_format = validate_as (kind_of text patch_format) text tree
