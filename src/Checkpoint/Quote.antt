-- ===== src/Checkpoint/Quote.antt =====
-- `sql_quote` of scripts/a9_checkpoint.py.
use a.Prelude.{
  ℕ, ◌≡◌, refl, true, false, Option, none, some, [], ◌∷◌, ◌++◌, ◌==◌, if◌then◌else◌, arith,
  append_assoc, Bool-cases, inl, inr, ==_iff,
}
use a.Text.{Text, codes, starts_with, drop}
use a.Text.Search.{replace_all}
use a.Text.Single.{replace_all-cons}

abbrev pub quote : ℕ
quote = b'\''

abbrev pub backslash : ℕ
backslash = b'\\'

-- The text between the quotes.
unfoldable pub escape : Text → Text
unfolding replace_all
escape text =
    replace_all (replace_all text (backslash ∷ []) (backslash ∷ backslash ∷ [])) (quote ∷ [])
      (quote ∷ quote ∷ [])

unfoldable pub sql_quote : Option Text → Text
unfolding escape
sql_quote none = codes "NULL"
sql_quote (some text) = quote ∷ (escape text ++ quote ∷ [])

-- Where a reader of a string literal is: in the text, behind a backslash, or behind a quote.
pub data Place : Type 0 where
  inside behind_backslash behind_quote : Place

abbrev in_front : Text → Option (Text × Text) → Option (Text × Text)
in_front t none = none
in_front t (some (read, rest)) = some (t ++ read, rest)

-- A string literal of SQL behind its opening quote, read into its text and what follows it: two
-- quotes are one, a single quote ends it, and a backslash takes the next character with it, which
-- then stands for `named` of it.
unfoldable pub read_literal : (ℕ → Text) → Place → Text → Option (Text × Text)
read_literal named inside [] = none
read_literal named inside (c ∷ s) = elim (c == quote) [
  | true ↦ read_literal named behind_quote s
  | false ↦ elim (c == backslash) [
    | true ↦ read_literal named behind_backslash s
    | false ↦ in_front (c ∷ []) (read_literal named inside s)
  ]
]
read_literal named behind_backslash [] = none
read_literal named behind_backslash (c ∷ s) = in_front (named c) (read_literal named inside s)
read_literal named behind_quote [] = some ([], [])
read_literal named behind_quote (c ∷ s) = elim (c == quote) [
  | true ↦ in_front (quote ∷ []) (read_literal named inside s)
  | false ↦ some ([], c ∷ s)
]

abbrev as_value : Option (Text × Text) → Option (Option Text × Text)
as_value none = none
as_value (some (text, rest)) = some (some text, rest)

-- A value of SQL, NULL or a string literal, and what follows it.
unfoldable pub read_value : (ℕ → Text) → Text → Option (Option Text × Text)
unfolding read_literal starts_with
read_value named [] = none
read_value named (c ∷ s) =
    if c == quote
    then as_value (read_literal named inside s)
    else if starts_with (c ∷ s) (codes "NULL")
    then some (none, drop 3 s)
    else none

escape-nil : escape [] ≡ []
unfolding escape
escape-nil = refl

escape-cons :
    (c : ℕ) (s : Text)
    → escape (c ∷ s) ≡ (
        if c == backslash
        then backslash ∷ backslash ∷ escape s
        else if c == quote
        then quote ∷ quote ∷ escape s
        else c ∷ escape s)
unfolding escape
escape-cons c s = elim (Bool-cases (c == backslash)) [
  | inl e ↦
      rw (replace_all-cons c backslash s, e)
        (rw
          (
            replace_all-cons backslash quote _ (quote ∷ quote ∷ []),
            replace_all-cons backslash quote _ (quote ∷ quote ∷ []),
          )
          refl)
  | inr e ↦
      rw (replace_all-cons c backslash s, e)
        (rw (replace_all-cons c quote _ (quote ∷ quote ∷ [])) refl)
]

module _ (named : ℕ → Text) where
  read_literal-plain :
      (c : ℕ) (s : Text)
      → (c == quote) ≡ false
      → (c == backslash) ≡ false
      → read_literal named inside (c ∷ s) ≡ in_front (c ∷ []) (read_literal named inside s)
  unfolding read_literal
  read_literal-plain c s plain bare = rw (plain, read_literal) (rw bare refl)

  read_literal-slashes :
      (s : Text)
      → named backslash ≡ backslash ∷ []
      → read_literal named inside (backslash ∷ backslash ∷ s)
        ≡ in_front (backslash ∷ []) (read_literal named inside s)
  unfolding read_literal
  read_literal-slashes s h = rw h refl

  read_literal-quotes :
      (s : Text)
      → read_literal named inside (quote ∷ quote ∷ s)
        ≡ in_front (quote ∷ []) (read_literal named inside s)
  unfolding read_literal
  read_literal-quotes s = refl

  read_end :
      (rest : Text)
      → starts_with rest (quote ∷ []) ≡ false
      → read_literal named inside (quote ∷ rest) ≡ some ([], rest)
  unfolding read_literal starts_with
  read_end [] h = refl
  read_end (c ∷ s) h = elim (Bool-cases (c == quote)) [
    | inl again ↦ ground arith
    | inr other ↦ rw (other, read_literal) refl
  ]

  read_literal-escape :
      (text rest : Text)
      → named backslash ≡ backslash ∷ []
      → starts_with rest (quote ∷ []) ≡ false
      → read_literal named inside (escape text ++ quote ∷ rest) ≡ some (text, rest)
  read_literal-escape [] rest h ends = rw escape-nil (read_end rest ends)
  read_literal-escape (c ∷ s) rest h ends =
      let later = read_literal-escape s rest h ends in
      elim (Bool-cases (c == backslash)) [
        | inl slashed ↦
            rw (escape-cons c s, slashed, read_literal-slashes (escape s ++ quote ∷ rest) h, later)
              (ground (arith, ==_iff c backslash))
        | inr bare ↦ elim (Bool-cases (c == quote)) [
          | inl quoted ↦
              rw (escape-cons c s, bare)
                (rw (quoted, read_literal-quotes (escape s ++ quote ∷ rest), later)
                  (ground (arith, ==_iff c quote)))
          | inr plain ↦
              rw (escape-cons c s, bare)
                (rw (plain, read_literal-plain c (escape s ++ quote ∷ rest) plain bare, later) refl)
        ]
      ]

  -- A value is read back from the SQL that `sql_quote` writes for it, NULL or a text, whatever
  -- quotes and backslashes the text holds, and it ends where it was to end: for a reader to which a
  -- doubled backslash stands for one, and where no quote follows.
  pub read_value-sql_quote :
      (value : Option Text) (rest : Text)
      → named backslash ≡ backslash ∷ []
      → starts_with rest (quote ∷ []) ≡ false
      → read_value named (sql_quote value ++ rest) ≡ some (value, rest)
  unfolding read_value sql_quote
  read_value-sql_quote none rest h ends = refl
  read_value-sql_quote (some text) rest h ends =
      rw (append_assoc (escape text) (quote ∷ []) rest)
        (rw (read_literal-escape text rest h ends) refl)
