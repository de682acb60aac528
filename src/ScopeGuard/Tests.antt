-- ===== src/ScopeGuard/Tests.antt =====
-- Runs of the scope guard.
use a.Prelude.{◌≡◌, ◌↔◌, refl, List, [], ◌∷◌}
use a.Text.{Text, codes}
use a.Text.Lines.{lines}
use a.Paths.{pass}
use a.Paths.Order.{Member}
use a.ScopeGuard.{validate_diff}
use a.ScopeGuard.Soundness.{InScope, NamedBy, pass_iff}

abbrev small_diff : Text
small_diff =
    codes "diff --git a/src/a.py b/src/a.py\n--- a/src/a.py\n+++ /dev/null\n@@ -1 +1 @@\n-x\n"

abbrev allowed : List Text
allowed = codes "src/" ∷ []

small_diff_passes : (validate_diff small_diff allowed).status ≡ pass
unfolding validate_diff
small_diff_passes = refl

changed_run : (validate_diff small_diff allowed).changed_files ≡ codes "src/a.py" ∷ []
unfolding validate_diff
changed_run = refl

pass_iff_example : ((validate_diff small_diff allowed).status ≡ pass) ↔ (
    (line path : Text) → Member line (lines small_diff) → NamedBy line path → InScope path allowed)
pass_iff_example = pass_iff small_diff allowed
