-- ===== src/PatchGuard/Parse.antt =====
-- `parse_search_replace` of scripts/a9_patch_guard.py. `lines[index:]` is the argument of the loop;
-- the inner loop over `cursor` is `scan_search` and `scan_replace`.
use a.Prelude.{
  ℕ, zero, suc, ◌+◌, Bool, true, false, not, ◌||◌, Option, none, some, List, [], ◌∷◌, if◌then◌else◌,
  length,
}
use a.Text.{Text, codes, text_eq, starts_with, strip, is_empty, concat}
use a.Text.Lines.{lines_keepends}
use a.PatchGuard.{
  Finding, SearchReplaceBlock, error_at, error_plain, no_file_path, unterminated_block,
}
use a.PatchGuard.PathLine.{normalize_search_replace_path}

abbrev pub search_marker : Text
search_marker = codes "<<<<<<< SEARCH"

abbrev pub divider : Text
divider = codes "======="

abbrev pub replace_marker : Text
replace_marker = codes ">>>>>>> REPLACE"

-- lines[cursor].strip() == marker
unfoldable pub is_marker : Text → Text → Bool
unfolding text_eq
is_marker marker line = text_eq (strip line) marker

-- The two sections of a block, and the lines behind its last marker.
pub record Body : Type 0 where
  pub search_lines : List Text
  pub replace_lines : List Text
  pub rest : List Text

-- Behind the divider: a second divider belongs to the section.
unfoldable pub scan_replace : List Text → Option (List Text × List Text)
scan_replace [] = none
scan_replace (l ∷ ls) =
    if is_marker replace_marker l
    then some ([], ls)
    else elim (scan_replace ls) [ none ↦ none | some (section, rest) ↦ some (l ∷ section, rest) ]

unfoldable pub body_of : Option (List Text × List Text) → Option Body
body_of none = none
body_of (some (section, rest)) =
    some (record { search_lines = []; replace_lines = section; rest = rest })

unfoldable pub prepend : Text → Option Body → Option Body
prepend l none = none
prepend l (some b) = some (record b { search_lines = l ∷ b.search_lines })

-- Before the divider: the end marker, or the end of the text, leaves the block unterminated.
unfoldable pub scan_search : List Text → Option Body
unfolding body_of prepend
scan_search [] = none
scan_search (l ∷ ls) =
    if is_marker divider l
    then body_of (scan_replace ls)
    else if is_marker replace_marker l
    then none
    else prepend l (scan_search ls)

abbrev pub Parsed : Type 0
Parsed = List SearchReplaceBlock × List Finding

-- A line that may name the file of the next block: any but a blank one, or the line of a fence
-- that names no path.
unfoldable pub note_path : ℕ → Text → Option (ℕ × Text) → Option (ℕ × Text)
unfolding starts_with
note_path number stripped last =
    if is_empty stripped
    then last
    else if not (starts_with stripped (codes "```"))
        || not (is_empty (normalize_search_replace_path stripped).1)
    then some (number, stripped)
    else last

unfoldable pub block_of : ℕ × Text → Body → SearchReplaceBlock
block_of (path_line, raw_path) b =
    let (path, normalizations) = normalize_search_replace_path raw_path in
    record {
      path = path;
      search = concat b.search_lines;
      replace = concat b.replace_lines;
      line = path_line;
      path_normalizations = normalizations;
    }

unfoldable pub consumed : Body → ℕ
consumed b = length b.search_lines + length b.replace_lines + 2

-- What follows a SEARCH marker that has a path; `again` goes on behind the block.
unfoldable pub after_marker : ℕ → ℕ × Text → Option Body → (ℕ → List Text → Parsed) → Parsed
unfolding block_of consumed
after_marker index last none again =
    ([], error_at (unterminated_block (index + 1)) (normalize_search_replace_path last.1).0 ∷ [])
after_marker index last (some b) again =
    let (blocks, findings) = again (index + 1 + consumed b) b.rest in
    (block_of last b ∷ blocks, findings)

unfoldable pub at_marker : ℕ → Option (ℕ × Text) → List Text → (ℕ → List Text → Parsed) → Parsed
unfolding after_marker
at_marker index none ls again =
    let (blocks, findings) = again (index + 1) ls in
    (blocks, error_plain (no_file_path (index + 1)) ∷ findings)
at_marker index (some last) ls again = after_marker index last (scan_search ls) again

-- The main loop, on fuel: each round reads one line at least.
unfoldable pub parse_from : ℕ → ℕ → Option (ℕ × Text) → List Text → Parsed
unfolding note_path at_marker
parse_from fuel index last [] = ([], [])
parse_from zero index last (l ∷ ls) = ([], [])
parse_from (suc fuel) index last (l ∷ ls) = elim (is_marker search_marker l) [
  | false ↦ parse_from fuel (index + 1) (note_path (index + 1) (strip l) last) ls
  | true ↦ at_marker index last ls (λ next rest. parse_from fuel next none rest)
]

unfoldable pub parse_search_replace : Text → Parsed
unfolding parse_from is_marker scan_search scan_replace normalize_search_replace_path concat
    lines_keepends
parse_search_replace text = let ls = lines_keepends text in parse_from (length ls) 0 none ls
