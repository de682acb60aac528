-- ===== src/PatchApply/Frame.antt =====
-- Which files an application of blocks (scripts/a9_patch_apply.py) may write.
use a.Prelude.{
  ◌≡◌, ◌≢◌, refl, sym, ◌∙◌, ◌↔◌, Bool, true, false, Option, none, some, List, arith, if◌then◌else◌,
}
use mathlib.Core.Path.{subst}
use a.Text.{Text, is_empty}
use a.PatchGuard.{Finding, Node, file, directory}
use a.PatchGuard.SafePath.{Reaches}
use a.PatchApply.{Replacement}
use a.PatchApply.Target.{FileSystem}
use a.PatchApply.Apply.{
  Applied, Edit, Progress, keep, written, finish, missing, unmatched, edit_file, create_file,
  apply_at,
}

-- What writing a file does not do: it changes no other file, and no symbolic link.
pub record WritesOne (fs : FileSystem) : Type 0 where
  pub others :
      (place other : List Text) (new content : Text) (s t : fs.State)
      → fs.write place new s ≡ some t
      → other ≢ place
      → ((fs.tree t).node other ≡ some (file content))
        ↔ ((fs.tree s).node other ≡ some (file content))
  pub links :
      (place : List Text) (new : Text) (s t : fs.State) (parts : List Text)
      → fs.write place new s ≡ some t
      → (fs.tree t).resolve parts ≡ (fs.tree s).resolve parts

module _ (fs : FileSystem) (laws : WritesOne fs) where
  -- A safe path leads to the place.
  abbrev pub IsReached : fs.State → List Text → Type 0
  IsReached s place = (raw : Text) × Reaches (fs.tree s) raw place

  -- From one state to the other, only files at places that a safe path leads to have changed.
  pub record Keeps (s t : fs.State) : Type 0 where
    pub files :
        (place : List Text) (content : Text)
        → ¬ IsReached s place
        → ((fs.tree t).node place ≡ some (file content))
          ↔ ((fs.tree s).node place ≡ some (file content))
    pub links : (parts : List Text) → (fs.tree t).resolve parts ≡ (fs.tree s).resolve parts

  pub IsReached-back :
      (s t : fs.State) (place : List Text) → Keeps s t → IsReached t place → IsReached s place
  IsReached-back s t place k (raw, r) = (
    raw,
    record {
      named = r.named;
      relative = r.relative;
      no_traversal = r.no_traversal;
      unblocked = r.unblocked;
      inside = sym (k.links _) ∙ r.inside;
    },
  )

  pub Keeps-refl : (s : fs.State) → Keeps s s
  Keeps-refl s = record { files = λ place content h. (λ e. e, λ e. e); links = λ parts. refl }

  pub Keeps-Keeps : (s t u : fs.State) → Keeps s t → Keeps t u → Keeps s u
  Keeps-Keeps s t u k l = record {
    files = λ place content h.
        let one = k.files place content h in
        let two = l.files place content (λ r. h (IsReached-back s t place k r)) in
        (λ e. one.0 (two.0 e), λ e. two.1 (one.1 e));
    links = λ parts. l.links parts ∙ k.links parts;
  }

  written-Keeps :
      (dry_run : Bool) (s t : fs.State) (place : List Text) (new : Text)
      → IsReached s place
      → written fs dry_run s place new ≡ some t
      → Keeps s t
  unfolding written
  written-Keeps true s t place new r h = subst (Keeps s) (ground arith) (Keeps-refl s)
  written-Keeps false s t place new r h = record {
    files = λ other content unreached.
        laws.others place other new content s t h (λ e. unreached (subst (IsReached s) (sym e) r));
    links = λ parts. laws.links place new s t parts h;
  }

  -- What a block makes of the state keeps it.
  abbrev pub AllKept : fs.State → Option (Progress fs.State) → Type 0
  AllKept s o = (p : Progress fs.State) → o ≡ some p → Keeps s p.state

  pub AllKept-same :
      (s : fs.State) (applied : List Applied) (found : List Finding)
      → AllKept s (keep fs s applied found)
  unfolding keep
  AllKept-same s applied found p e = subst (Keeps s) (ground arith) (Keeps-refl s)

  AllKept-finish :
      (s : fs.State) (o : Option fs.State) (applied : List Applied) (found : List Finding)
      → ((t : fs.State) → o ≡ some t → Keeps s t)
      → AllKept s (finish fs o applied found)
  unfolding finish
  AllKept-finish s none applied found h p e = absurd (ground arith)
  AllKept-finish s (some t) applied found h p e = h p.state (ground arith)

  AllKept-if :
      (test : Bool) (s : fs.State) (x y : Option (Progress fs.State))
      → AllKept s x
      → AllKept s y
      → AllKept s (if test then x else y)
  AllKept-if true s x y hx hy = hx
  AllKept-if false s x y hx hy = hy

  edit_file-AllKept :
      (dry_run : Bool) (e : Edit) (place : List Text) (current : Text) (r : Replacement)
      (s : fs.State)
      → IsReached s place
      → AllKept s (edit_file fs dry_run e place current r s)
  unfolding edit_file unmatched
  edit_file-AllKept dry_run e place current none s h =
      AllKept-if _ s _ _ (AllKept-same s _ _) (AllKept-same s _ _)
  edit_file-AllKept dry_run e place current (some (new_content, meta)) s h =
      AllKept-finish s _ _ _ (λ t. written-Keeps dry_run s t place new_content h)

  pub apply_at-AllKept :
      (dry_run : Bool) (e : Edit) (place : List Text) (n : Option Node) (s : fs.State)
      → IsReached s place
      → AllKept s (apply_at fs dry_run e place n s)
  unfolding apply_at create_file missing
  apply_at-AllKept dry_run e place none s h =
      AllKept-if _ s _ _ (AllKept-finish s _ _ _ (λ t. written-Keeps dry_run s t place e.replace h))
        (AllKept-same s _ _)
  apply_at-AllKept dry_run e place (some directory) s h = AllKept-same s _ _
  apply_at-AllKept dry_run e place (some (file current)) s h =
      AllKept-if (is_empty e.search) s _ _ (AllKept-same s _ _)
        (edit_file-AllKept dry_run e place current _ s h)
