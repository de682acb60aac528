-- ===== src/PatchApply/Run.antt =====
-- `apply_search_replace` of scripts/a9_patch_apply.py, and its report.
use a.Prelude.{
  ℕ, Bool, true, false, not, ◌&&◌, Option, none, some, List, [], ◌∷◌, ◌++◌, length, if◌then◌else◌,
}
use a.Text.{Text, is_empty}
use a.Paths.{Status, pass, fail}
use a.Paths.Order.{sorted_set}
use a.PatchGuard.{Finding, error_plain, any_error, SearchReplaceBlock, no_blocks}
use a.PatchGuard.Parse.{parse_search_replace}
use a.PatchApply.Target.{FileSystem}
use a.PatchApply.Apply.{
  Mode, failed, already_there, created, replaced, Applied, Progress, apply_blocks,
}

pub record Report : Type 0 where
  pub status : Status
  pub dry_run : Bool
  pub applied_count : ℕ
  pub already_applied_count : ℕ
  pub success_count : ℕ
  pub failed_count : ℕ
  pub partial_success : Bool
  pub applied : List Applied
  pub touched_files : List Text
  pub referenced_files : List Text
  pub findings : List Finding

abbrev pub is_failed : Mode → Bool
is_failed failed = true
is_failed _ = false

abbrev pub is_written : Mode → Bool
is_written created = true
is_written replaced = true
is_written _ = false

abbrev pub is_already_there : Mode → Bool
is_already_there already_there = true
is_already_there _ = false

abbrev pub is_success : Mode → Bool
is_success mode = not (is_failed mode)

unfoldable pub with_mode : (Mode → Bool) → List Applied → List Applied
with_mode p [] = []
with_mode p (item ∷ items) =
    let rest = with_mode p items in if p item.mode then item ∷ rest else rest

abbrev pub effective_paths : List Applied → List Text
effective_paths [] = []
effective_paths (item ∷ items) =
    (if is_empty item.effective_path then item.path else item.effective_path)
    ∷ effective_paths items

unfoldable pub report : Status → List Applied → List Finding → Bool → Report
unfolding with_mode sorted_set
report status applied findings dry_run =
    let success = with_mode is_success applied in
    let bad = with_mode is_failed applied in
    record {
      status = status;
      dry_run = dry_run;
      applied_count = length (with_mode is_written success);
      already_applied_count = length (with_mode is_already_there success);
      success_count = length success;
      failed_count = length bad;
      partial_success = not (is_empty success) && not (is_empty bad);
      applied = applied;
      touched_files = sorted_set (effective_paths (with_mode is_written success));
      referenced_files = sorted_set (effective_paths success);
      findings = findings;
    }

unfoldable pub or_no_blocks : List Finding → List Finding
or_no_blocks [] = error_plain no_blocks ∷ []
or_no_blocks (f ∷ fs) = f ∷ fs

module _ (fs : FileSystem) where
  unfoldable pub close :
      Bool → List Finding → Option (Progress fs.State) → Option (fs.State × Report)
  unfolding report any_error
  close dry_run parse_findings none = none
  close dry_run parse_findings (some p) =
      let findings = parse_findings ++ p.findings in
      some (p.state, report (if any_error findings then fail else pass) p.applied findings dry_run)

  unfoldable pub apply_parsed :
      Bool → List SearchReplaceBlock → List Finding → fs.State → Option (fs.State × Report)
  unfolding close apply_blocks report or_no_blocks
  apply_parsed dry_run [] parse_findings s =
      some (s, report fail [] (or_no_blocks parse_findings) dry_run)
  apply_parsed dry_run (b ∷ bs) parse_findings s =
      close dry_run parse_findings (apply_blocks fs dry_run 1 (b ∷ bs) s)

  unfoldable pub apply_search_replace : Bool → Text → fs.State → Option (fs.State × Report)
  unfolding apply_parsed parse_search_replace
  apply_search_replace dry_run text s =
      let (blocks, parse_findings) = parse_search_replace text in
      apply_parsed dry_run blocks parse_findings s
