-- ===== src/Text/Glob.antt =====
-- `fnmatch.fnmatch` on a POSIX system.
use a.Prelude.{
  ℕ, Bool, true, false, not, ◌&&◌, ◌||◌, Option, none, some, List, [], ◌∷◌, ◌≡◌, refl, ◌==◌, leb,
  if◌then◌else◌,
}
use a.Prelude.{length, zero, suc}
use a.Text.{Text, codes}

-- A member of a bracket expression: the characters from one to another.
abbrev Range : Type 0
Range = ℕ × ℕ

pub data Token : Type 0 where
  any_text any_char : Token
  literal : ℕ → Token
  bracket : (negated : Bool) → List Range → Token

-- "a-z" is a range; a "-" at either end, or behind a range, is itself.
ranges : Text → List Range
ranges [] = []
ranges (a ∷ []) = (a, a) ∷ []
ranges (a ∷ b ∷ []) = (a, a) ∷ (b, b) ∷ []
ranges (a ∷ d ∷ b ∷ s) = elim (d == b'-') [
  | true ↦ (a, b) ∷ ranges s
  | false ↦ (a, a) ∷ ranges (d ∷ b ∷ s)
]

-- What stands before the next "]", and what follows it.
close : Text → Option (Text × Text)
close [] = none
close (c ∷ s) =
    if c == b']'
    then some ([], s)
    else elim (close s) [ none ↦ none | some (inside, rest) ↦ some (c ∷ inside, rest) ]

-- A "]" that comes first is a member.
close_first : Text → Option (Text × Text)
unfolding close
close_first [] = none
close_first (c ∷ s) = elim (close s) [ none ↦ none | some (inside, rest) ↦ some (c ∷ inside, rest) ]

open_bracket : Text → Option (Token × Text)
unfolding close close_first ranges
open_bracket [] = none
open_bracket (c ∷ s) =
    if c == b'!'
    then elim (close_first s) [
      | none ↦ none
      | some (inside, rest) ↦ some (bracket true (ranges inside), rest)
    ]
    else elim (close_first (c ∷ s)) [
      | none ↦ none
      | some (inside, rest) ↦ some (bracket false (ranges inside), rest)
    ]

-- Each round reads one character at least, so as many rounds as characters are enough.
tokens : ℕ → Text → List Token
unfolding open_bracket
tokens rounds [] = []
tokens zero (c ∷ s) = []
tokens (suc rounds) (c ∷ s) = elim (c == b'[') [
  | true ↦ elim (open_bracket s) [
    | none ↦ literal c ∷ tokens rounds s
    | some (t, rest) ↦ t ∷ tokens rounds rest
  ]
  | false ↦
      (if c == b'*' then any_text else if c == b'?' then any_char else literal c) ∷ tokens rounds s
]

in_ranges : ℕ → List Range → Bool
in_ranges c [] = false
in_ranges c ((lo, hi) ∷ rs) = leb lo c && leb c hi || in_ranges c rs

accepts : Token → ℕ → Bool
unfolding in_ranges
accepts any_text c = true
accepts any_char c = true
accepts (literal d) c = c == d
accepts (bracket negated rs) c = if negated then not (in_ranges c rs) else in_ranges c rs

matches : List Token → Text → Bool
unfolding accepts
matches [] [] = true
matches [] (c ∷ s) = false
matches (any_text ∷ ts) [] = matches ts []
matches (any_text ∷ ts) (c ∷ s) = elim (matches ts (c ∷ s)) [
  | true ↦ true
  | false ↦ matches (any_text ∷ ts) s
]
matches (t ∷ ts) [] = false
matches (t ∷ ts) (c ∷ s) = accepts t c && matches ts s

unfoldable pub fnmatch : Text → Text → Bool
unfolding tokens matches
fnmatch name pattern = matches (tokens (length pattern) pattern) name

fnmatch_runs : fnmatch (codes "src/a.py") (codes "src/*.p[a-z]") ≡ true
unfolding fnmatch
fnmatch_runs = refl
