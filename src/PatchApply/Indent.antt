-- ===== src/PatchApply/Indent.antt =====
-- What `replace_leading_whitespace` of scripts/a9_patch_apply.py does to the lines of a text.
use a.Prelude.{
  ◌⊎◌, ℕ, zero, suc, ◌+◌, ◌≡◌, refl, ap, sym, ◌∙◌, inl, inr, none, some, List, [], ◌∷◌, ◌++◌, arith,
  Option-cases, length,
}
use mathlib.Core.Path.{subst}
use a.Text.{Text, drop, take, concat}
use a.PatchApply.{
  match_leading_whitespace, add_match, find_matches, adjust, replace_at, replace_lines, MatchMeta,
}
use a.PatchApply.Fits.{
  SameButIndent, HasText, SameButIndent-length, match_leading_whitespace-SameButIndent,
  match_leading_whitespace_of, match_leading_whitespace-HasText,
}

find_matches-miss :
    (index : ℕ) (l : Text) (ls part : List Text)
    → match_leading_whitespace (take (length part) (l ∷ ls)) part ≡ none
    → find_matches index (l ∷ ls) part ≡ find_matches (index + 1) ls part
unfolding find_matches add_match
find_matches-miss index l ls part h = rw h refl

find_matches-hit :
    (index : ℕ) (l : Text) (ls part : List Text) (lead : Text)
    → match_leading_whitespace (take (length part) (l ∷ ls)) part ≡ some lead
    → find_matches index (l ∷ ls) part ≡ (index, lead) ∷ find_matches (index + 1) ls part
unfolding find_matches add_match
find_matches-hit index l ls part lead h = rw h refl

find_matches-single :
    (index k : ℕ) (ls part : List Text) (lead : Text)
    → find_matches index ls part ≡ (k, lead) ∷ []
    → (before rest : List Text) × (ls ≡ before ++ rest)
      × (k ≡ index + length before)
      × (match_leading_whitespace (take (length part) rest) part ≡ some lead)
find_matches-single index k [] part lead h = unfold find_matches in cc
find_matches-single index k (l ∷ ls) part lead h =
    elim (Option-cases (match_leading_whitespace (take (length part) (l ∷ ls)) part)) [
      | inl miss ↦
          let (before, rest, split, place, found) =
            find_matches-single (index + 1) k ls part lead
              (sym (find_matches-miss index l ls part miss) ∙ h) in
          (l ∷ before, rest, ap (λ t. l ∷ t) split, omega arith, found)
      | inr (other, e) ↦
          let here = sym (find_matches-hit index l ls part other e) ∙ h in
          ([], l ∷ ls, refl, ground arith, ground arith)
    ]

take-append : (xs ys : List Text) → take (length xs) (xs ++ ys) ≡ xs
take-append [] ys = refl
take-append (x ∷ xs) ys = ap (λ t. x ∷ t) (take-append xs ys)

drop-append : (n : ℕ) (xs ys : List Text) → drop (length xs + n) (xs ++ ys) ≡ drop n ys
drop-append n [] ys = rw (zero_add n) refl
  where
    zero_add : (m : ℕ) → 0 + m ≡ m
    zero_add m = omega arith
drop-append n (x ∷ xs) ys = rw next (drop-append n xs ys)
  where
    next : suc (length xs) + n ≡ suc (length xs + n)
    next = omega arith

-- A place is among those found.
abbrev Listed : ℕ → List (ℕ × Text) → Type 0
Listed n [] = ⊥
Listed n (m ∷ ms) = (m.0 ≡ n) ⊎ Listed n ms

find_matches-Listed :
    (index : ℕ) (b t c part : List Text) (lead : Text)
    → match_leading_whitespace t part ≡ some lead
    → length t ≡ length part
    → HasText t
    → Listed (index + length b) (find_matches index (b ++ (t ++ c)) part)
find_matches-Listed index [] [] c part lead fit n full = absurd full
find_matches-Listed index [] (x ∷ t) c part lead fit n full =
    rw
      (find_matches-hit index x (t ++ c) part lead (
        subst (λ k. match_leading_whitespace (take k (x ∷ (t ++ c))) part ≡ some lead) n
          (rw (take-append (x ∷ t) c) fit)))
      (inl (omega arith))
find_matches-Listed index (x ∷ b) t c part lead fit n full =
    let behind =
      subst (λ k. Listed k (find_matches (index + 1) (b ++ (t ++ c)) part)) next
        (find_matches-Listed (index + 1) b t c part lead fit n full) in
    elim (Option-cases (match_leading_whitespace (take (length part) (x ∷ (b ++ (t ++ c)))) part)) [
      | inl miss ↦ rw (find_matches-miss index x (b ++ (t ++ c)) part miss) behind
      | inr (other, hit) ↦ rw (find_matches-hit index x (b ++ (t ++ c)) part other hit) (inr behind)
    ]
  where
    next : index + 1 + length b ≡ index + suc (length b)
    next = omega arith

-- Where one place is found, lines that fit stand nowhere else.
only_place :
    (whole search : List Text) (k : ℕ) (lead : Text)
    → find_matches 0 whole search ≡ (k, lead) ∷ []
    → (b t c : List Text) (other : Text) → whole ≡ b ++ (t ++ c)
    → SameButIndent other t search
    → HasText t
    → length b ≡ k
only_place whole search k lead alone b t c other split fit full = here (
    subst (Listed (0 + length b)) (ap (λ w. find_matches 0 w search) (sym split) ∙ alone) (
      find_matches-Listed 0 b t c search other (match_leading_whitespace_of t search other fit full)
        (SameButIndent-length other t search fit) full))
  where
    here : Listed (0 + length b) ((k, lead) ∷ []) → length b ≡ k
    here (inl h) = omega (arith, h)
    here (inr h) = absurd h

take-drop : (n : ℕ) (xs : List Text) → xs ≡ take n xs ++ drop n xs
take-drop zero xs = refl
take-drop (suc n) [] = refl
take-drop (suc n) (x ∷ xs) = ap (λ t. x ∷ t) (take-drop n xs)

-- The lines of a file with one stretch of them replaced, where no other stretch fits SEARCH.
pub record Reindents (search replace whole : List Text) (new : Text) : Type 0 where
  pub before : List Text
  pub stretch : List Text
  pub after : List Text
  pub lead : Text
  pub place : whole ≡ before ++ (stretch ++ after)
  pub found : SameButIndent lead stretch search
  pub full : HasText stretch
  pub replaced : new ≡ concat ((before ++ adjust lead replace) ++ after)
  pub only :
      (b t c : List Text) (other : Text)
      → whole ≡ b ++ (t ++ c)
      → SameButIndent other t search
      → HasText t
      → length b ≡ length before

replace_at-single :
    (whole search replace : List Text) (ms : List (ℕ × Text)) (new : Text) (meta : MatchMeta)
    → replace_at whole search replace ms ≡ some (new, meta)
    → (k : ℕ) × (lead : Text) × (ms ≡ (k, lead) ∷ [])
      × (new ≡ concat (take k whole ++ adjust lead replace ++ drop (k + length search) whole))
unfolding replace_at
replace_at-single whole search replace [] new meta h = cc
replace_at-single whole search replace (m ∷ n ∷ ms) new meta h = cc
replace_at-single whole search replace ((k, lead) ∷ []) new meta h = (k, lead, refl, ground arith)

cut_around :
    (whole before rest middle : List Text) (n : ℕ)
    → whole ≡ before ++ rest
    → ((take (length before) whole ++ middle) ++ drop (length before + n) whole)
      ≡ ((before ++ middle) ++ drop n rest)
cut_around whole before rest middle n split =
    rw (split, take-append before rest, drop-append n before rest) refl

-- `replace_leading_whitespace`, on the lines: what it returns is the file with one stretch of
-- lines replaced by the lines of REPLACE, those that are not blank behind a text that the stretch
-- gives. The stretch is the same as SEARCH but for the indentation, and has a line that is not
-- blank; wherever in the file such lines stand, it is there. The text in front is, for each line of
-- the stretch that is not blank, the line's first characters, as many as it is longer than that of
-- SEARCH; where it is shorter, the line without as many of its last characters.
pub replace_lines-Reindents :
    (whole search replace : List Text) (new : Text) (meta : MatchMeta)
    → replace_lines whole search replace ≡ some (new, meta)
    → Reindents search replace whole new
unfolding replace_lines
replace_lines-Reindents whole search replace new meta h =
    let (k, lead, alone, made) =
      replace_at-single whole search replace (find_matches 0 whole search) new meta
        (ground arith) in
    assemble k lead alone made (find_matches-single 0 k whole search lead alone)
  where
    assemble :
        (k : ℕ) (lead : Text)
        → find_matches 0 whole search ≡ (k, lead) ∷ []
        → new ≡ concat ((take k whole ++ adjust lead replace) ++ drop (k + length search) whole)
        → (before rest : List Text) × (whole ≡ before ++ rest)
          × (k ≡ 0 + length before)
          × (match_leading_whitespace (take (length search) rest) search ≡ some lead)
        → Reindents search replace whole new
    assemble k lead alone made (before, rest, split, place, fit) =
        let at : k ≡ length before = omega arith in
        record {
          before = before;
          stretch = take (length search) rest;
          after = drop (length search) rest;
          lead = lead;
          place = split ∙ ap (λ t. before ++ t) (take-drop (length search) rest);
          found =
              match_leading_whitespace-SameButIndent (take (length search) rest) search lead fit;
          replaced =
              subst
                (λ n.
                  new
                  ≡ concat
                      ((take n whole ++ adjust lead replace) ++ drop (n + length search) whole))
                at made
              ∙ ap concat
                  (cut_around whole before rest (adjust lead replace) (length search) split);
          full = match_leading_whitespace-HasText (take (length search) rest) search lead fit;
          only = λ b t c other split' fit' full'.
              only_place whole search k lead alone b t c other split' fit' full' ∙ at;
        }
