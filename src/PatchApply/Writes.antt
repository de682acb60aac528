-- ===== src/PatchApply/Writes.antt =====
-- The files that a run of `apply_search_replace` (scripts/a9_patch_apply.py) may write.
use a.Prelude.{
  ℕ, ◌+◌, ◌≡◌, refl, Bool, true, false, Option, none, some, List, [], ◌∷◌, arith, if◌then◌else◌,
}
use mathlib.Core.Path.{subst}
use a.Text.{Text}
use a.PatchGuard.{SearchReplaceBlock, Finding, validate_rel_path}
use a.PatchGuard.Parse.{parse_search_replace}
use a.PatchGuard.SafePath.{Reaches, validate_rel_path-Reaches}
use a.PatchApply.Target.{
  FileSystem, Target, by_basename, resolve_existing, resolve_apply_path, basename_candidates,
}
use a.PatchApply.Apply.{
  Edit, edit_of, Progress, apply_target, apply_block, followed_by, with_findings, go_on, target_of,
  apply_blocks,
}
use a.PatchApply.Run.{Report, close, apply_parsed, apply_search_replace}
use a.Paths.{last_part, path_parts}
use a.PatchApply.Frame.{
  WritesOne, Keeps, Keeps-refl, Keeps-Keeps, AllKept, AllKept-same, apply_at-AllKept,
}

module _ (fs : FileSystem) where
  -- Whatever place the search for a target ends at, a safe path leads to it.
  abbrev Sound : fs.State → Option (List Text) → Type 0
  Sound s o = (place : List Text) → o ≡ some place → (raw : Text) × Reaches (fs.tree s) raw place

  validated-Sound : (s : fs.State) (raw : Text) → Sound s (validate_rel_path (fs.tree s) raw).0
  validated-Sound s raw place e = (raw, (validate_rel_path-Reaches (fs.tree s) raw place).0 e)

  by_basename-Sound :
      (s : fs.State) (raw : Text) (place : List Text) (found : List Finding)
      (candidates : List Text)
      → Sound s (some place)
      → Sound s (by_basename fs s raw place found candidates).resolved
  unfolding by_basename
  by_basename-Sound s raw place found [] h = h
  by_basename-Sound s raw place found (c ∷ []) h = validated-Sound s c
  by_basename-Sound s raw place found (c ∷ d ∷ cs) h = h

  if-Sound :
      (test : Bool) (s : fs.State) (x y : Target)
      → Sound s x.resolved
      → Sound s y.resolved
      → Sound s (if test then x else y).resolved
  if-Sound true s x y hx hy = hx
  if-Sound false s x y hx hy = hy

  resolve_existing-Sound :
      (s : fs.State) (raw : Text) (allow : Bool) (o : Option (List Text)) (found : List Finding)
      → Sound s o
      → Sound s (resolve_existing fs s raw allow o found).resolved
  unfolding resolve_existing
  resolve_existing-Sound s raw allow none found h = h
  resolve_existing-Sound s raw allow (some place) found h = if-Sound _ s _ _ h (
      by_basename-Sound s raw place found (basename_candidates fs s (last_part (path_parts raw))) h)

  pub target_of-Sound :
      (b : SearchReplaceBlock) (s : fs.State) → Sound s (target_of fs b s).resolved
  unfolding target_of resolve_apply_path
  target_of-Sound b s = resolve_existing-Sound s b.path _ _ _ (validated-Sound s b.path)

module _ (fs : FileSystem) (laws : WritesOne fs) where
  apply_target-AllKept :
      (dry_run : Bool) (e : Edit) (o : Option (List Text)) (s : fs.State)
      → Sound fs s o
      → AllKept fs laws s (apply_target fs dry_run e o s)
  unfolding apply_target
  apply_target-AllKept dry_run e none s h = AllKept-same fs laws s _ _
  apply_target-AllKept dry_run e (some place) s h =
      apply_at-AllKept fs laws dry_run e place ((fs.tree s).node place) s (h place refl)

  with_findings-AllKept :
      (s : fs.State) (found : List Finding) (o : Option (Progress fs.State))
      → AllKept fs laws s o
      → AllKept fs laws s (with_findings fs found o)
  unfolding with_findings
  with_findings-AllKept s found none h p e = absurd (ground arith)
  with_findings-AllKept s found (some q) h p e = subst (Keeps fs laws s) (ground arith) (h q refl)

  apply_block-AllKept :
      (dry_run : Bool) (index : ℕ) (b : SearchReplaceBlock) (s : fs.State)
      → AllKept fs laws s (apply_block fs dry_run index b s)
  unfolding apply_block
  apply_block-AllKept dry_run index b s =
      let t = target_of fs b s in
      with_findings-AllKept s t.findings _
        (apply_target-AllKept dry_run (edit_of index b t) t.resolved s (target_of-Sound fs b s))

  go_on-AllKept :
      (s : fs.State) (o : Option (Progress fs.State))
      (again : fs.State → Option (Progress fs.State))
      → AllKept fs laws s o
      → ((t : fs.State) → AllKept fs laws t (again t))
      → AllKept fs laws s (go_on fs o again)
  unfolding go_on followed_by
  go_on-AllKept s none again k h p e = absurd (ground arith)
  go_on-AllKept s (some q) again k h p e = later (again q.state) (h q.state) e
    where
      later :
          (o : Option (Progress fs.State))
          → AllKept fs laws q.state o
          → followed_by fs q o ≡ some p
          → Keeps fs laws s p.state
      later none l d = absurd (ground arith)
      later (some r) l d =
          subst (Keeps fs laws s) (ground arith)
            (Keeps-Keeps fs laws s q.state r.state (k q refl) (l r refl))

  apply_blocks-AllKept :
      (bs : List SearchReplaceBlock) (dry_run : Bool) (index : ℕ) (s : fs.State)
      → AllKept fs laws s (apply_blocks fs dry_run index bs s)
  unfolding apply_blocks
  apply_blocks-AllKept [] dry_run index s = AllKept-same fs laws s _ _
  apply_blocks-AllKept (b ∷ bs) dry_run index s =
      go_on-AllKept s _ _ (apply_block-AllKept dry_run index b s)
        (λ t. apply_blocks-AllKept bs dry_run (index + 1) t)

  close-Keeps :
      (dry_run : Bool) (found : List Finding) (o : Option (Progress fs.State)) (s t : fs.State)
      (r : Report)
      → AllKept fs laws s o
      → close fs dry_run found o ≡ some (t, r)
      → Keeps fs laws s t
  unfolding close
  close-Keeps dry_run found none s t r h e = absurd (ground arith)
  close-Keeps dry_run found (some p) s t r h e = subst (Keeps fs laws s) (ground arith) (h p refl)

  apply_parsed-Keeps :
      (dry_run : Bool) (bs : List SearchReplaceBlock) (found : List Finding) (s t : fs.State)
      (r : Report)
      → apply_parsed fs dry_run bs found s ≡ some (t, r)
      → Keeps fs laws s t
  unfolding apply_parsed
  apply_parsed-Keeps dry_run [] found s t r e =
      subst (Keeps fs laws s) (ground arith) (Keeps-refl fs laws s)
  apply_parsed-Keeps dry_run (b ∷ bs) found s t r e =
      close-Keeps dry_run found _ s t r (apply_blocks-AllKept (b ∷ bs) dry_run 1 s) e

  -- Where `apply_search_replace` ends with a report, the files at places that no safe path leads
  -- to are as they were, and symbolic links lead where they led. A safe path is one that
  -- `validate_rel_path` lets through in the file system before the run. Writing a file is taken
  -- to change no other file and no link.
  pub apply_search_replace-Keeps :
      (dry_run : Bool) (text : Text) (s t : fs.State) (r : Report)
      → apply_search_replace fs dry_run text s ≡ some (t, r)
      → Keeps fs laws s t
  unfolding apply_search_replace
  apply_search_replace-Keeps dry_run text s t r e =
      apply_parsed-Keeps dry_run (parse_search_replace text).0 (parse_search_replace text).1 s t r e
