-- ===== src/PatchApply/Tests.antt =====
-- Runs of the editing strategies.
use a.Prelude.{◌≡◌, ◌↔◌, ◌⊎◌, refl, true, false, some, List, [], ◌∷◌}
use a.Text.{Text, codes, lstrip_by, is_space, strip_by}
use a.Text.Search.{count}
use a.PatchApply.{
  replace_direct, replace_exact, match_leading_whitespace, MatchMeta, exact, leading_whitespace,
  unescape, replace_with_strategy, replace_lines,
}
use a.PatchApply.Fuzz.{Edits, replace_with_strategy-Edits, fuzz_free_iff}
use a.PatchApply.Exact.{Swaps}
use a.PatchApply.Indent.{Reindents, replace_lines-Reindents}

abbrev current : Text
current = codes "def f():\n    x = 1\n    y = 2\n"

abbrev sought : Text
sought = codes "x = 1\n"

abbrev replace : Text
replace = codes "x = 3\n"

abbrev replaced : Text
replaced = codes "def f():\n    x = 3\n    y = 2\n"

abbrev by_text : MatchMeta
by_text = record { matches = 1; match_strategy = exact; fuzz_level = 0; unescaped = false }

abbrev by_lines : MatchMeta
by_lines = record {
  matches = 1;
  match_strategy = leading_whitespace;
  fuzz_level = 1;
  unescaped = false;
}

exact_run : replace_with_strategy current sought replace ≡ some (replaced, by_text)
unfolding replace_with_strategy replace_direct replace_exact
exact_run = refl

replace_with_strategy-Edits_example :
    ((false ≡ false) × Edits sought replace current replaced exact)
    ⊎ ((false ≡ true) × Edits (unescape sought) (unescape replace) current replaced exact)
replace_with_strategy-Edits_example =
    replace_with_strategy-Edits current sought replace replaced by_text exact_run

fuzz_free_iff_example : (count current sought ≡ 1) ↔ (
    (new : Text) × (meta : MatchMeta) × (replace_with_strategy current sought replace
      ≡ some (new, meta))
    × (meta.fuzz_level ≡ 0)
    × Swaps sought replace current new)
fuzz_free_iff_example = fuzz_free_iff current sought replace

abbrev file_lines : List Text
file_lines = codes "f:\n" ∷ codes "    x\n" ∷ codes "    y\n" ∷ []

abbrev sought_lines : List Text
sought_lines = codes "x\n" ∷ codes "y\n" ∷ []

indent_run :
    replace_lines file_lines sought_lines (codes "z\n" ∷ []) ≡ some (codes "f:\n    z\n", by_lines)
unfolding replace_lines match_leading_whitespace lstrip_by is_space strip_by
indent_run = refl

replace_lines-Reindents_example :
    Reindents sought_lines (codes "z\n" ∷ []) file_lines (codes "f:\n    z\n")
replace_lines-Reindents_example =
    replace_lines-Reindents file_lines sought_lines (codes "z\n" ∷ []) (codes "f:\n    z\n")
      by_lines indent_run

-- A line searched with more indentation than the file has: the "indentation" found is a piece of
-- the line's own text.
deeper_run :
    replace_lines (codes "foo\n" ∷ []) (codes "  foo\n" ∷ []) (codes "  bar\n" ∷ [])
    ≡ some (codes "fo  bar\n", by_lines)
unfolding replace_lines match_leading_whitespace lstrip_by is_space strip_by
deeper_run = refl
