-- ===== src/PatchApply/Apply.antt =====
-- The loop of `apply_search_replace` of scripts/a9_patch_apply.py, over a file system that is a
-- parameter. Its files are read as texts: one that is not UTF-8, where `read_text` raises, is left out.
use a.Prelude.{
  ℕ, ◌+◌, Bool, true, false, not, Option, none, some, List, [], ◌∷◌, ◌++◌, ◌==◌, ltb, length,
  if◌then◌else◌,
}
use a.Text.{Text, is_empty, text_eq}
use a.Text.Search.{count}
use a.PatchGuard.{
  Normalization, Finding, error_at, warning_at, SearchReplaceBlock, Node, file, directory,
  target_missing, target_not_file, match_count, ambiguous_basename, empty_search_for_existing,
  already_applied, controlled_fuzz, normalized_content, repeated_replace, identical,
}
use a.PatchApply.{MatchMeta, Replacement, replace_with_strategy}
use a.PatchApply.Target.{FileSystem, Target, resolve_apply_path}
use a.PatchApply.Section.{search_section, replace_section, normalize_wrapped_text}

-- The "mode" of an entry of the report.
pub data Mode : Type 0 where
  failed already_there created replaced : Mode

-- An entry of the report, less the sizes in bytes and the hint for a repair. `match_meta` is
-- `none` where the program writes a fixed strategy for the mode; the program gives
-- `path_candidates` only for a file that is missing, and `replace_matches` only where no strategy
-- found SEARCH.
pub record Applied : Type 0 where
  pub index : ℕ
  pub path : Text
  pub effective_path : Text
  pub line : ℕ
  pub mode : Mode
  pub matches : ℕ
  pub replace_matches : ℕ
  pub match_meta : Option MatchMeta
  pub normalizations : List Normalization
  pub path_candidates : List Text

-- The sections of a block, unwrapped, with what a report says of it.
pub record Edit : Type 0 where
  pub index : ℕ
  pub block : SearchReplaceBlock
  pub target : Target
  pub search : Text
  pub replace : Text
  pub normalizations : List Normalization

unfoldable pub edit_of : ℕ → SearchReplaceBlock → Target → Edit
edit_of index b t =
    let (sought, search_done) = normalize_wrapped_text b.search t.effective_path search_section in
    let (new, replace_done) = normalize_wrapped_text b.replace t.effective_path replace_section in
    record {
      index = index;
      block = b;
      target = t;
      search = sought;
      replace = new;
      normalizations = b.path_normalizations ++ t.normalizations ++ search_done ++ replace_done;
    }

unfoldable pub entry : Edit → Mode → ℕ → ℕ → Option MatchMeta → Applied
entry e mode matches replace_matches match_meta = record {
  index = e.index;
  path = e.block.path;
  effective_path = e.target.effective_path;
  line = e.block.line;
  mode = mode;
  matches = matches;
  replace_matches = replace_matches;
  match_meta = match_meta;
  normalizations = e.normalizations;
  path_candidates = e.target.candidates;
}

unfoldable pub when : Bool → Finding → List Finding
when true f = f ∷ []
when false f = []

unfoldable pub normalized_warning : Edit → List Finding
unfolding when
normalized_warning e =
    when (not (is_empty e.normalizations))
      (warning_at (normalized_content e.normalizations) e.block.path)

-- What the program has at a point: the file system, the entries and the findings so far.
pub record Progress (State : Type 0) : Type 0 where
  pub state : State
  pub applied : List Applied
  pub findings : List Finding

module _ (fs : FileSystem) where
  -- A block that writes nothing.
  unfoldable pub keep : fs.State → List Applied → List Finding → Option (Progress fs.State)
  keep s applied findings = some (record { state = s; applied = applied; findings = findings })

  unfoldable pub written : Bool → fs.State → List Text → Text → Option fs.State
  written true s place new_content = some s
  written false s place new_content = fs.write place new_content s

  unfoldable pub finish : Option fs.State → List Applied → List Finding → Option (Progress fs.State)
  finish none applied findings = none
  finish (some s) applied findings =
      some (record { state = s; applied = applied; findings = findings })

  -- The file is missing and SEARCH is not empty.
  unfoldable pub missing : Edit → fs.State → Option (Progress fs.State)
  unfolding keep entry
  missing e s =
      let message =
        if is_empty e.target.candidates
        then target_missing
        else ambiguous_basename (length e.target.candidates) in
      keep s (entry e failed 0 0 none ∷ []) (error_at message e.block.path ∷ [])

  -- No strategy finds SEARCH.
  unfoldable pub unmatched : Edit → Text → fs.State → Option (Progress fs.State)
  unfolding keep entry normalized_warning
  unmatched e current s =
      let exact_matches = count current e.search in
      let replace_matches = if is_empty e.replace then 0 else count current e.replace in
      if replace_matches == 1
      then keep s (entry e already_there exact_matches replace_matches none ∷ [])
          (warning_at already_applied e.block.path ∷ normalized_warning e)
      else keep s (entry e failed exact_matches replace_matches none ∷ []) (
          error_at
            (if ltb 1 replace_matches
              then repeated_replace exact_matches replace_matches
              else match_count exact_matches)
            e.block.path
          ∷ [])

  unfoldable pub edit_file :
      Bool → Edit → List Text → Text → Replacement → fs.State → Option (Progress fs.State)
  unfolding unmatched written finish entry normalized_warning when
  edit_file dry_run e place current none s = unmatched e current s
  edit_file dry_run e place current (some (new_content, meta)) s =
      finish (written dry_run s place new_content)
        (entry e replaced meta.matches 0 (some meta) ∷ [])
        (when (text_eq new_content current) (warning_at identical e.block.path)
          ++ when (ltb 0 meta.fuzz_level) (warning_at controlled_fuzz e.block.path)
          ++ normalized_warning e)

  unfoldable pub create_file : Bool → Edit → List Text → fs.State → Option (Progress fs.State)
  unfolding written finish entry normalized_warning
  create_file dry_run e place s =
      finish (written dry_run s place e.replace) (entry e created 0 0 none ∷ [])
        (normalized_warning e)

  unfoldable pub apply_at :
      Bool → Edit → List Text → Option Node → fs.State → Option (Progress fs.State)
  unfolding keep missing edit_file create_file
  apply_at dry_run e place none s =
      if is_empty e.search then create_file dry_run e place s else missing e s
  apply_at dry_run e place (some directory) s =
      keep s [] (error_at target_not_file e.block.path ∷ [])
  apply_at dry_run e place (some (file current)) s =
      if is_empty e.search
      then keep s [] (error_at empty_search_for_existing e.block.path ∷ [])
      else edit_file dry_run e place current (replace_with_strategy current e.search e.replace) s

  unfoldable pub apply_target :
      Bool → Edit → Option (List Text) → fs.State → Option (Progress fs.State)
  unfolding keep apply_at
  apply_target dry_run e none s = keep s [] []
  apply_target dry_run e (some place) s = apply_at dry_run e place ((fs.tree s).node place) s

  unfoldable pub with_findings :
      List Finding → Option (Progress fs.State) → Option (Progress fs.State)
  with_findings findings none = none
  with_findings findings (some p) = some (record p { findings = findings ++ p.findings })

  -- The probe tells whether a file is to be created, which needs the path as it is.
  unfoldable pub target_of : SearchReplaceBlock → fs.State → Target
  unfolding resolve_apply_path normalize_wrapped_text
  target_of b s =
      let probe = (normalize_wrapped_text b.search b.path search_section).0 in
      resolve_apply_path fs s b.path (not (is_empty probe))

  -- One round of the loop; the findings on the path come before those on the edit.
  unfoldable pub apply_block : Bool → ℕ → SearchReplaceBlock → fs.State → Option (Progress fs.State)
  unfolding with_findings apply_target edit_of target_of
  apply_block dry_run index b s =
      let t = target_of b s in
      with_findings t.findings (apply_target dry_run (edit_of index b t) t.resolved s)

  unfoldable pub followed_by :
      Progress fs.State → Option (Progress fs.State) → Option (Progress fs.State)
  followed_by p none = none
  followed_by p (some q) =
      some (record q { applied = p.applied ++ q.applied; findings = p.findings ++ q.findings })

  -- A round that raises ends the loop.
  unfoldable pub go_on :
      Option (Progress fs.State)
      → (fs.State → Option (Progress fs.State))
      → Option (Progress fs.State)
  unfolding followed_by
  go_on none again = none
  go_on (some p) again = followed_by p (again p.state)

  unfoldable pub apply_blocks :
      Bool → ℕ → List SearchReplaceBlock → fs.State → Option (Progress fs.State)
  unfolding apply_block go_on keep
  apply_blocks dry_run index [] s = keep s [] []
  apply_blocks dry_run index (b ∷ bs) s =
      go_on (apply_block dry_run index b s) (λ t. apply_blocks dry_run (index + 1) bs t)
