-- ===== src/PatchApply/Section.antt =====
-- `normalize_wrapped_text` of scripts/a9_patch_apply.py: a section of a block without the line of
-- its file name and without its fence.
use a.Prelude.{
  refl, ◌≡◌, ◌≡◌, Bool, false, not, ◌&&◌, List, [], ◌∷◌, ◌++◌, leb, if◌then◌else◌, length,
}
use mathlib.Core.List.{reverse}
use a.Text.{is_space, strip_by, Text, codes, text_eq, starts_with, ends_with, strip, is_empty, join}
use a.Text.Lines.{lines}
use a.PatchGuard.{
  Normalization, search_filename_line, search_fence, replace_filename_line, replace_fence,
}

pub data Section : Type 0 where
  search_section replace_section : Section

abbrev pub filename_line : Section → Normalization
filename_line search_section = search_filename_line
filename_line replace_section = replace_filename_line

abbrev pub fence : Section → Normalization
fence search_section = search_fence
fence replace_section = replace_fence

unfoldable pub without_filename : Text → Section → List Text → List Text × List Normalization
unfolding text_eq
without_filename path part [] = ([], [])
without_filename path part (l ∷ ls) =
    if text_eq (strip l) path then (ls, filename_line part ∷ []) else (l ∷ ls, [])

unfoldable pub is_fence : List Text → Bool
unfolding starts_with
is_fence [] = false
is_fence (l ∷ ls) = starts_with (strip l) (codes "```")

-- lines[:-1]
unfoldable pub without_last : List Text → List Text
without_last [] = []
without_last (l ∷ []) = []
without_last (l ∷ m ∷ ls) = l ∷ without_last (m ∷ ls)

abbrev pub tail : List Text → List Text
tail [] = []
tail (l ∷ ls) = ls

unfoldable pub without_fence :
    Section → List Text × List Normalization → List Text × List Normalization
unfolding is_fence without_last
without_fence part (ls, done) =
    if leb 2 (length ls) && (is_fence ls && is_fence (reverse ls))
    then (without_last (tail ls), done ++ fence part ∷ [])
    else (ls, done)

-- The lines joined, with a newline at the end where the section had one and is not empty now.
unfoldable pub rejoin : Text → List Text × List Normalization → Text × List Normalization
unfolding join ends_with
rejoin text (ls, done) =
    let normalized = join (codes "\n") ls in
    if not (is_empty normalized) && ends_with text (codes "\n")
    then (normalized ++ codes "\n", done)
    else (normalized, done)

unfoldable pub normalize_wrapped_text : Text → Text → Section → Text × List Normalization
unfolding without_filename without_fence rejoin lines
normalize_wrapped_text text path part =
    if is_empty text
    then (text, [])
    else rejoin text (without_fence part (without_filename path part (lines text)))

fence_run :
    normalize_wrapped_text (codes "a.py\n```\nx = 1\n```\n") (codes "a.py") search_section
    ≡ (codes "x = 1\n", search_filename_line ∷ search_fence ∷ [])
unfolding normalize_wrapped_text strip_by is_space
fence_run = refl

-- A section of one blank line becomes empty.
blank_run : normalize_wrapped_text (codes "\n") (codes "a.py") search_section ≡ ([], [])
unfolding normalize_wrapped_text strip_by is_space
blank_run = refl
