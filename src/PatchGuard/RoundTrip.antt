-- ===== src/PatchGuard/RoundTrip.antt =====
-- Reading back SEARCH/REPLACE blocks that were written out (scripts/a9_patch_guard.py).
use a.Prelude.{
  ap, ℕ, zero, suc, ◌+◌, ◌≤◌, ◌≡◌, refl, true, false, none, some, List, [], ◌∷◌, ◌++◌, arith,
  length, length-append, All, append_assoc,
}
use native.Mathlib.Nat.{le_refl}
use a.Text.Lines.{WholeLine, lines_keepends-concat}
use a.Text.{Text, codes, strip, strip_by, is_space, is_empty, concat, starts_with}
use a.PatchGuard.{SearchReplaceBlock}
use a.PatchGuard.PathLine.{normalize_search_replace_path}
use a.PatchGuard.Steps.{parse-plain, parse-marker}
use a.PatchGuard.Parse.{
  search_marker, divider, replace_marker, is_marker, scan_replace, scan_search, Parsed, note_path,
  block_of, consumed, after_marker, at_marker, parse_from, parse_search_replace,
}

-- A line that ends the REPLACE section, or a line of it.
abbrev pub InReplace : Text → Type 0
InReplace l = is_marker replace_marker l ≡ false

abbrev pub InSearch : Text → Type 0
InSearch l = (is_marker divider l ≡ false) × (is_marker replace_marker l ≡ false)

scan_replace-append :
    (section : List Text) (e : Text) (rest : List Text)
    → All InReplace section
    → is_marker replace_marker e ≡ true
    → scan_replace (section ++ e ∷ rest) ≡ some (section, rest)
unfolding scan_replace
scan_replace-append [] e rest inside ends = rw ends
scan_replace-append (l ∷ section) e rest inside ends =
    rw inside.0 (rw (scan_replace-append section e rest inside.1 ends))

scan_search-append :
    (search : List Text) (d : Text) (replace : List Text) (e : Text) (rest : List Text)
    → All InSearch search
    → is_marker divider d ≡ true
    → All InReplace replace
    → is_marker replace_marker e ≡ true
    → scan_search (search ++ d ∷ (replace ++ e ∷ rest))
      ≡ some (record { search_lines = search; replace_lines = replace; rest = rest })
unfolding scan_search
scan_search-append [] d replace e rest insides divides inside ends =
    rw divides (rw (scan_replace-append replace e rest inside ends))
scan_search-append (l ∷ search) d replace e rest insides divides inside ends =
    rw (insides.0.0, insides.0.1)
      (rw (scan_search-append search d replace e rest insides.1 divides inside ends))

-- A block as it is written: the line of its path, and its two sections.
pub record Draft : Type 0 where
  pub path_line : Text
  pub search_lines : List Text
  pub replace_lines : List Text

abbrev newline : Text
newline = codes "\n"

abbrev pub render : Draft → List Text
render d =
    (d.path_line ++ newline)
    ∷ (search_marker ++ newline)
    ∷ (d.search_lines
        ++ (divider ++ newline) ∷ (d.replace_lines ++ (replace_marker ++ newline) ∷ []))

abbrev pub render_all : List Draft → List Text
render_all [] = []
render_all (d ∷ ds) = render d ++ render_all ds

-- A draft that reads back: the path is what its line says, with nothing to normalise, and no line
-- of a section is taken for a marker.
pub record IsPlain (d : Draft) : Type 0 where
  pub trimmed : strip (d.path_line ++ newline) ≡ d.path_line
  pub named : is_empty d.path_line ≡ false
  pub no_marker : is_marker search_marker (d.path_line ++ newline) ≡ false
  pub unfenced : starts_with d.path_line (codes "```") ≡ false
  pub normal : normalize_search_replace_path d.path_line ≡ (d.path_line, [])
  pub search_lines_plain : All InSearch d.search_lines
  pub replace_lines_plain : All InReplace d.replace_lines

-- The block that a draft stands for, with the number of its first line.
abbrev pub block : ℕ → Draft → SearchReplaceBlock
block index d = record {
  path = d.path_line;
  search = concat d.search_lines;
  replace = concat d.replace_lines;
  line = index + 1;
  path_normalizations = [];
}

abbrev pub size : Draft → ℕ
size d = length d.search_lines + length d.replace_lines + 4

abbrev pub blocks : ℕ → List Draft → List SearchReplaceBlock
blocks index [] = []
blocks index (d ∷ ds) = block index d ∷ blocks (index + size d) ds

render-append :
    (d : Draft) (rest : List Text)
    → render d ++ rest
      ≡ (d.path_line ++ newline)
        ∷ (search_marker ++ newline)
        ∷ (d.search_lines
            ++ (divider ++ newline) ∷ (d.replace_lines ++ (replace_marker ++ newline) ∷ rest))
render-append d rest = simp append_assoc

scan-render :
    (d : Draft) (rest : List Text)
    → IsPlain d
    → scan_search (
        d.search_lines
        ++ (divider ++ newline) ∷ (d.replace_lines ++ (replace_marker ++ newline) ∷ rest))
      ≡ some
          (record { search_lines = d.search_lines; replace_lines = d.replace_lines; rest = rest })
unfolding strip_by is_space
scan-render d rest h =
    scan_search-append d.search_lines (divider ++ newline) d.replace_lines
      (replace_marker ++ newline) rest h.search_lines_plain (unfold is_marker in refl)
      h.replace_lines_plain (unfold is_marker in refl)

note-render :
    (d : Draft) (index : ℕ)
    → IsPlain d
    → note_path (index + 1) (strip (d.path_line ++ newline)) none ≡ some (index + 1, d.path_line)
unfolding note_path
note-render d index h = rw (h.trimmed, h.named, h.unfenced)

block_of-render :
    (d : Draft) (index : ℕ) (rest : List Text)
    → IsPlain d
    → block_of
        (index + 1, d.path_line)
        (record { search_lines = d.search_lines; replace_lines = d.replace_lines; rest = rest })
      ≡ block index d
unfolding block_of
block_of-render d index rest h = rw h.normal

search_marker_lem : is_marker search_marker (search_marker ++ newline) ≡ true
unfolding is_marker strip_by is_space
search_marker_lem = refl

at_marker-render :
    (index : ℕ) (d : Draft) (rest : List Text) (again : ℕ → List Text → Parsed)
    → IsPlain d
    → at_marker
        (index + 1)
        (some (index + 1, d.path_line))
        (d.search_lines
          ++ (divider ++ newline) ∷ (d.replace_lines ++ (replace_marker ++ newline) ∷ rest))
        again
      ≡ (let (found, findings) = again (index + size d) rest in (block index d ∷ found, findings))
unfolding at_marker after_marker consumed
at_marker-render index d rest again h = rw (scan-render d rest h) (
    rw (block_of-render d index rest h)
      (ap (λ next. ((block index d) ∷ (again next rest).0, (again next rest).1)) next_line))
  where
    next_line :
        index + 1 + 1 + (length d.search_lines + length d.replace_lines + 2) ≡ index + size d
    next_line = omega arith

parse-render :
    (fuel index : ℕ) (d : Draft) (rest : List Text)
    → IsPlain d
    → parse_from (suc (suc fuel)) index none (render d ++ rest) ≡ (
        let (found, findings) = parse_from fuel (index + size d) none rest in
        (block index d ∷ found, findings))
parse-render fuel index d rest h =
    rw
      (
        render-append,
        parse-plain (suc fuel) index none (d.path_line ++ newline) _ h.no_marker,
        note-render d index h,
        parse-marker fuel (index + 1) _ (search_marker ++ newline) _ search_marker_lem,
      )
      (at_marker-render index d rest (λ next ls. parse_from fuel next none ls) h)

parse-render_all :
    (ds : List Draft) (fuel index : ℕ)
    → length (render_all ds) ≤ fuel
    → All IsPlain ds
    → parse_from fuel index none (render_all ds) ≡ (blocks index ds, [])
parse-render_all [] fuel index enough h = unfold parse_from in refl
parse-render_all (d ∷ ds) zero index enough h = absurd (omega arith)
parse-render_all (d ∷ ds) (suc zero) index enough h = absurd (omega arith)
parse-render_all (d ∷ ds) (suc (suc fuel)) index enough h =
    rw (parse-render fuel index d (render_all ds) h.0)
      (rw (parse-render_all ds fuel (index + size d) fits h.1))
  where
    fits : length (render_all ds) ≤ fuel
    fits = omega (
      arith,
      length-append
          (d.search_lines
            ++ (divider ++ newline) ∷ (d.replace_lines ++ (replace_marker ++ newline) ∷ []))
          (render_all ds),
    )

-- What is written is what is read: for drafts whose paths need no normalising and whose lines are
-- whole lines, none of them a marker of its section, `parse_search_replace` reads from the text of
-- all the drafts one block for each, in order, with its path, its two sections and the number of
-- its path line, and reports nothing.
pub parse-render_text :
    (ds : List Draft)
    → All IsPlain ds
    → All WholeLine (render_all ds)
    → parse_search_replace (concat (render_all ds)) ≡ (blocks 0 ds, [])
unfolding parse_search_replace
parse-render_text ds plain whole =
    rw (lines_keepends-concat (render_all ds) whole)
      (parse-render_all ds (length (render_all ds)) 0 (le_refl (length (render_all ds))) plain)
