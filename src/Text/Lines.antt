-- ===== src/Text/Lines.antt =====
-- `str.splitlines` and `str.splitlines(keepends=True)`.
use mathlib.Core.List.{reverse}
use a.Prelude.{
  ◌∙◌, All, ℕ, ◌≡◌, refl, ap, Bool, true, false, ◌&&◌, ◌||◌, List, [], ◌∷◌, ◌++◌, map, append-nil,
  append_assoc, arith, ◌==◌, leb, if◌then◌else◌, Bool-cases, inl, inr,
}
use a.Text.{Text, codes, concat}

-- The line boundaries of `splitlines`.
unfoldable pub is_break : ℕ → Bool
is_break c = leb 10 c && leb c 13 || leb 28 c && leb c 30 || c == 133 || c == 8232 || c == 8233

-- `line` is the current line so far; "\r\n" is one boundary.
lines_from : Text → Text → List Text
lines_from [] [] = []
lines_from (c ∷ line) [] = (c ∷ line) ∷ []
lines_from line (c ∷ []) = (line ++ c ∷ []) ∷ []
lines_from line (c ∷ d ∷ s) = elim (c == 13 && d == 10) [
  | true ↦ (line ++ c ∷ d ∷ []) ∷ lines_from [] s
  | false ↦ elim (is_break c) [
    | true ↦ (line ++ c ∷ []) ∷ lines_from [] (d ∷ s)
    | false ↦ lines_from (line ++ c ∷ []) (d ∷ s)
  ]
]

unfoldable pub lines_keepends : Text → List Text
unfolding lines_from is_break
lines_keepends s = lines_from [] s

-- Without its boundary; the argument is reversed.
chomp_reversed : Text → Text
unfolding is_break
chomp_reversed [] = []
chomp_reversed (c ∷ []) = if is_break c then [] else c ∷ []
chomp_reversed (c ∷ d ∷ s) =
    if c == 10 && d == 13 then s else if is_break c then d ∷ s else c ∷ d ∷ s

unfoldable pub chomp : Text → Text
unfolding chomp_reversed
chomp line = reverse (chomp_reversed (reverse line))

unfoldable pub lines : Text → List Text
unfolding lines_keepends chomp
lines s = map chomp (lines_keepends s)

concat-lines_from : (line s : Text) → concat (lines_from line s) ≡ line ++ s
unfolding lines_from concat
concat-lines_from [] [] = refl
concat-lines_from (c ∷ line) [] = refl
concat-lines_from line (c ∷ []) = append-nil (line ++ c ∷ [])
concat-lines_from line (c ∷ d ∷ s) = elim (Bool-cases (c == 13 && d == 10)) [
  | inl crlf ↦ rw (crlf, concat) (simp (concat-lines_from [] s, append_assoc))
  | inr plain ↦
      rw (plain, concat)
        (elim (Bool-cases (is_break c)) [
          | inl ends ↦ rw (ends, concat) (simp (concat-lines_from [] (d ∷ s), append_assoc))
          | inr goes ↦
              rw (goes, concat) (simp (concat-lines_from (line ++ c ∷ []) (d ∷ s), append_assoc))
        ])
]

-- The lines with their boundaries spell the text.
pub concat-lines_keepends : (s : Text) → concat (lines_keepends s) ≡ s
unfolding lines_keepends
concat-lines_keepends s = concat-lines_from [] s

lines_run : lines (codes "a\r\nb\n\nc") ≡ codes "a" ∷ codes "b" ∷ [] ∷ codes "c" ∷ []
unfolding lines
lines_run = refl

-- A line with its newline, and no other boundary.
abbrev pub Unbroken : Text → Type 0
Unbroken [] = Unit
Unbroken (c ∷ s) = (is_break c ≡ false) × Unbroken s

abbrev pub WholeLine : Text → Type 0
WholeLine l = (body : Text) × (l ≡ body ++ 10 ∷ []) × Unbroken body

-- A newline does not begin a pair.
lines_from_newline :
    (line s : Text) → lines_from line (10 ∷ s) ≡ (line ++ 10 ∷ []) ∷ lines_from [] s
unfolding lines_from is_break
lines_from_newline [] [] = refl
lines_from_newline (c ∷ line) [] = refl
lines_from_newline [] (d ∷ s) = refl
lines_from_newline (c ∷ line) (d ∷ s) = refl

lines_from-plain :
    (line : Text) (c d : ℕ) (s : Text)
    → is_break c ≡ false
    → lines_from line (c ∷ d ∷ s) ≡ lines_from (line ++ c ∷ []) (d ∷ s)
unfolding lines_from
lines_from-plain line c d s h = rw (pair, lines_from) (rw (h, lines_from) refl)
  where
    pair : (c == 13 && d == 10) ≡ false
    pair = unfold is_break in ground arith

lines_from-Unbroken :
    (line body s : Text)
    → Unbroken body
    → lines_from line (body ++ 10 ∷ s) ≡ ((line ++ body) ++ 10 ∷ []) ∷ lines_from [] s
lines_from-Unbroken line [] s h = rw append-nil (lines_from_newline line s)
lines_from-Unbroken line (c ∷ []) s h =
    rw (lines_from-plain line c 10 s h.0) (lines_from_newline (line ++ c ∷ []) s)
lines_from-Unbroken line (c ∷ d ∷ body) s h = rw (lines_from-plain line c d (body ++ 10 ∷ s) h.0) (
    lines_from-Unbroken (line ++ c ∷ []) (d ∷ body) s h.1
    ∙ ap (λ t. (t ++ 10 ∷ []) ∷ lines_from [] s) (append_assoc line (c ∷ []) (d ∷ body)))

pub lines_keepends-concat : (ls : List Text) → All WholeLine ls → lines_keepends (concat ls) ≡ ls
unfolding lines_keepends concat
lines_keepends-concat [] h = unfold lines_from in refl
lines_keepends-concat (l ∷ ls) ((body, e, unbroken), rest) =
    rw (e, append_assoc, lines_from-Unbroken [] body (concat ls) unbroken)
      (rw (lines_keepends-concat ls rest))
