-- ===== src/PatchApply.antt =====
-- scripts/a9_patch_apply.py: how the text of a file is edited, by the text that matches exactly or
-- by lines that match up to their indentation, and how a section of a block is unwrapped.
pub mod Exact
pub mod Fits
pub mod Indent
pub mod Fuzz
pub mod Section
pub mod Target
pub mod Apply
pub mod Run
pub mod Frame
pub mod Writes
mod FileTests
mod Tests
use a.Prelude.{
  ℕ, ◌+◌, ◌-◌, Bool, true, false, not, ◌&&◌, Option, none, some, List, [], ◌∷◌, ◌++◌, ◌==◌, ltb,
  leb, if◌then◌else◌, length,
}
use a.Text.{
  Text, codes, text_eq, starts_with, ends_with, drop, take, strip, lstrip, is_empty, contains, join,
  concat,
}
use a.Text.Lines.{lines, lines_keepends}
use a.Text.Search.{count, replace_first, replace_all}
use a.PatchGuard.{
  Normalization, search_filename_line, search_fence, replace_filename_line, replace_fence,
}

pub data Strategy : Type 0 where
  exact leading_whitespace : Strategy

-- What a replacement says of itself; `unescaped` stands for the "normalization" key and for the
-- "+windows_backslash_unescape" behind the strategy.
pub record MatchMeta : Type 0 where
  pub matches : ℕ
  pub match_strategy : Strategy
  pub fuzz_level : ℕ
  pub unescaped : Bool

abbrev pub Replacement : Type 0
Replacement = Option (Text × MatchMeta)

unfoldable pub split_keepends : Text → List Text
unfolding ends_with lines_keepends
split_keepends text =
    lines_keepends (
      if not (is_empty text) && not (ends_with text (codes "\n")) then text ++ codes "\n" else text)

unfoldable pub replace_exact : Text → Text → Text → Replacement
unfolding count replace_first
replace_exact current search replace =
    if not (count current search == 1)
    then none
    else some (
      replace_first current search replace,
      record { matches = 1; match_strategy = exact; fuzz_level = 0; unescaped = false },
    )

-- all(whole_lines[i].lstrip() == part_lines[i].lstrip()), for lists of one length.
unfoldable pub same_bodies : List Text → List Text → Bool
unfolding text_eq
same_bodies (w ∷ ws) (p ∷ ps) = text_eq (lstrip w) (lstrip p) && same_bodies ws ps
same_bodies _ _ = true

-- whole[: len(whole) - len(part)]: a negative bound counts from the end of the text.
unfoldable pub offset : Text → Text → Text
offset whole part =
    let w = length whole in
    let p = length part in take (if leb p w then w - p else w - (p - w)) whole

unfoldable pub offsets : List Text → List Text → List Text
unfolding offset
offsets (w ∷ ws) (p ∷ ps) =
    let rest = offsets ws ps in if is_empty (strip w) then rest else offset w p ∷ rest
offsets _ _ = []

unfoldable pub all_equal : Text → List Text → Bool
unfolding text_eq
all_equal t [] = true
all_equal t (x ∷ xs) = text_eq x t && all_equal t xs

-- The element of a set of one element.
unfoldable pub single : List Text → Option Text
unfolding all_equal
single [] = none
single (x ∷ xs) = if all_equal x xs then some x else none

unfoldable pub match_leading_whitespace : List Text → List Text → Option Text
unfolding same_bodies offsets single
match_leading_whitespace whole_lines part_lines =
    if not (length whole_lines == length part_lines)
    then none
    else if not (same_bodies whole_lines part_lines)
    then none
    else single (offsets whole_lines part_lines)

unfoldable pub add_match : ℕ → Option Text → List (ℕ × Text) → List (ℕ × Text)
add_match index none ms = ms
add_match index (some add_leading) ms = (index, add_leading) ∷ ms

-- The loop over the indices, with `whole_lines[index:]`: towards the end the lines left are fewer
-- than the lines searched, and nothing matches.
unfoldable pub find_matches : ℕ → List Text → List Text → List (ℕ × Text)
unfolding add_match
find_matches index [] part = []
find_matches index (l ∷ ls) part =
    add_match index (match_leading_whitespace (take (length part) (l ∷ ls)) part)
      (find_matches (index + 1) ls part)

unfoldable pub adjust : Text → List Text → List Text
adjust add_leading [] = []
adjust add_leading (l ∷ ls) =
    (if is_empty (strip l) then l else add_leading ++ l) ∷ adjust add_leading ls

-- The edit at the one match; `none` where there is none, or several.
unfoldable pub replace_at : List Text → List Text → List Text → List (ℕ × Text) → Replacement
unfolding adjust concat
replace_at whole search replace ((index, add_leading) ∷ []) = some (
  concat (take index whole ++ adjust add_leading replace ++ drop (index + length search) whole),
  record { matches = 1; match_strategy = leading_whitespace; fuzz_level = 1; unescaped = false },
)
replace_at whole search replace _ = none

unfoldable pub replace_lines : List Text → List Text → List Text → Replacement
unfolding replace_at find_matches
replace_lines whole search replace =
    if is_empty search then none else replace_at whole search replace (find_matches 0 whole search)

unfoldable pub replace_leading_whitespace : Text → Text → Text → Replacement
unfolding replace_lines split_keepends
replace_leading_whitespace current search replace =
    replace_lines (split_keepends current) (split_keepends search) (split_keepends replace)

-- replace_exact(…) or replace_leading_whitespace(…)
unfoldable pub either : Replacement → Replacement → Replacement
either none second = second
either (some r) second = some r

unfoldable pub replace_direct : Text → Text → Text → Replacement
unfolding either
replace_direct current search replace =
    either (replace_exact current search replace)
      (replace_leading_whitespace current search replace)

-- text.replace("\\\\", "\\"): two backslashes become one.
unfoldable pub unescape : Text → Text
unfolding replace_all
unescape text = replace_all text (b'\\' ∷ b'\\' ∷ []) (b'\\' ∷ [])

unfoldable pub mark_unescaped : Replacement → Replacement
mark_unescaped none = none
mark_unescaped (some (new_content, meta)) = some (
  new_content,
  record meta {
    fuzz_level = if ltb meta.fuzz_level 1 then 1 else meta.fuzz_level;
    unescaped = true;
  },
)

unfoldable pub replace_with_strategy : Text → Text → Text → Replacement
unfolding either mark_unescaped contains
replace_with_strategy current search replace = either (replace_direct current search replace) (
    if contains search (b'\\' ∷ b'\\' ∷ [])
    then mark_unescaped (replace_direct current (unescape search) (unescape replace))
    else none)
