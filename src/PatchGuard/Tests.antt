-- ===== src/PatchGuard/Tests.antt =====
-- Runs of the patch guard.
use a.Prelude.{
  ◌≡◌, ◌↔◌, ◌⊎◌, refl, Bool, true, false, not, ◌&&◌, none, some, List, [], ◌∷◌, ◌++◌, arith, All,
}
use native.Mathlib.Nat.{le_refl}
use a.Text.{strip_by, Text, codes, concat, is_empty}
use a.Text.Lines.{lines, lines_keepends, WholeLine, Unbroken, is_break}
use a.Paths.{pass}
use a.PatchGuard.{file, Tree}
use a.Paths.{is_absolute, normalize_diff_path, member, path_parts, first_blocked}
use a.PatchGuard.Parse.{search_marker, divider, replace_marker, parse_search_replace, parse_from}
use a.PatchGuard.RoundTrip.{Draft, IsPlain, render_all, blocks, parse-render_text}
use a.PatchGuard.Origin.{StandsIn, parse_search_replace-StandsIn, parse_from-enough}
use a.PatchGuard.Validate.{validate_unified_diff, validate_search_replace}
use a.PatchGuard.DiffVerdict.{validate_unified_diff_iff}
use a.PatchGuard.DiffLines.{Names, OpensHunk, Changes, Some}
use a.PatchGuard.SafePath.{Reaches}
use a.Paths.Order.{Member}
use a.PatchGuard.Verdict.{Applicable, validate_search_replace_iff}

abbrev draft : Draft
draft = record {
  path_line = codes "a.py";
  search_lines = codes "x\n" ∷ [];
  replace_lines = codes "y\n" ∷ [];
}

draft-IsPlain : IsPlain draft
unfolding parse_search_replace
draft-IsPlain = record {
  trimmed = refl;
  named = refl;
  no_marker = refl;
  unfenced = refl;
  normal = refl;
  search_lines_plain = ((refl, refl), tt);
  replace_lines_plain = (refl, tt);
}

is_unbroken : Text → Bool
unfolding is_break
is_unbroken [] = true
is_unbroken (c ∷ s) = not (is_break c) && is_unbroken s

is_unbroken_sound : (s : Text) → is_unbroken s ≡ true → Unbroken s
unfolding is_unbroken
is_unbroken_sound [] h = tt
is_unbroken_sound (c ∷ s) h = ground (arith, is_unbroken_sound s)

whole : (body : Text) → is_unbroken body ≡ true → WholeLine (body ++ 10 ∷ [])
whole body h = (body, refl, is_unbroken_sound body h)

draft-whole : All WholeLine (render_all (draft ∷ []))
unfolding is_unbroken
draft-whole = (
  whole (codes "a.py") refl,
  (
    whole search_marker refl,
    (
      whole (codes "x") refl,
      (whole divider refl, (whole (codes "y") refl, (whole replace_marker refl, tt))),
    ),
  ),
)

parse-render_text_example :
    parse_search_replace (concat (render_all (draft ∷ []))) ≡ (blocks 0 (draft ∷ []), [])
parse-render_text_example = parse-render_text (draft ∷ []) (draft-IsPlain, tt) draft-whole

abbrev small_patch : Text
small_patch = codes "a.py\n<<<<<<< SEARCH\nx\n=======\ny\n>>>>>>> REPLACE\n"

parse_search_replace-StandsIn_example :
    All (StandsIn (lines_keepends small_patch)) (parse_search_replace small_patch).0
    × (concat (lines_keepends small_patch) ≡ small_patch)
parse_search_replace-StandsIn_example = parse_search_replace-StandsIn small_patch

abbrev small_lines : List Text
small_lines = codes "a.py\n" ∷ codes "<<<<<<< SEARCH\n" ∷ codes "x\n" ∷ []

parse_from-enough_example : parse_from 4 0 none small_lines ≡ parse_from 3 0 none small_lines
parse_from-enough_example = parse_from-enough 3 0 none small_lines (le_refl 3)

-- One file, "a.py", with no links.
abbrev tree : Tree
tree = record { resolve = some; node = λ parts. some (file (codes "w\nx\n")) }

small_patch_passes : (validate_search_replace small_patch tree).status ≡ pass
unfolding validate_search_replace is_absolute normalize_diff_path member path_parts first_blocked
small_patch_passes = refl

validate_search_replace_iff_example : ((validate_search_replace small_patch tree).status ≡ pass) ↔ (
    (is_empty (parse_search_replace small_patch).0 ≡ false)
    × ((parse_search_replace small_patch).1 ≡ [])
    × All
        (λ b. (b.path ≡ codes "/dev/null") ⊎ Applicable tree b)
        (parse_search_replace small_patch).0)
validate_search_replace_iff_example = validate_search_replace_iff small_patch tree

abbrev small_diff : Text
small_diff = codes "--- a/a.py\n+++ b/a.py\n@@ -1 +1 @@\n-x\n+y\n"

small_diff_passes : (validate_unified_diff small_diff tree).status ≡ pass
unfolding validate_unified_diff is_absolute normalize_diff_path member path_parts first_blocked
    strip_by
small_diff_passes = refl

validate_unified_diff_iff_example : ((validate_unified_diff small_diff tree).status ≡ pass) ↔ (
    Some (λ line. (path : Text) × Names line path) (lines small_diff)
    × Some OpensHunk (lines small_diff)
    × Some Changes (lines small_diff)
    × ((line path : Text)
        → Member line (lines small_diff)
        → Names line path
        → (place : List Text) × Reaches tree path place))
validate_unified_diff_iff_example = validate_unified_diff_iff small_diff tree
