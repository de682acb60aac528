-- ===== src/PatchGuard/Origin.antt =====
-- Where the blocks that `parse_search_replace` of scripts/a9_patch_guard.py returns come from.
use a.Prelude.{
  sym, ℕ, zero, suc, ◌+◌, ◌≤◌, ◌≡◌, refl, true, false, Option, none, some, List, [], ◌∷◌, ◌++◌,
  arith, length, length-append, All, append_assoc, Bool-cases, inl, inr, ap, ◌∙◌,
}
use native.Mathlib.Nat.{le_refl, le_trans}
use a.Text.{Text, concat}
use a.Text.Lines.{lines_keepends, concat-lines_keepends}
use a.PatchGuard.{SearchReplaceBlock}
use mathlib.Core.Path.{subst}
use a.PatchGuard.Steps.{parse-plain, parse-marker}
use a.PatchGuard.Parse.{
  search_marker, divider, replace_marker, is_marker, Body, scan_replace, scan_search, Parsed,
  block_of, consumed, after_marker, at_marker, parse_from, parse_search_replace,
}

scan_replace-cons :
    (l : Text) (ls section rest : List Text)
    → is_marker replace_marker l ≡ false
    → scan_replace (l ∷ ls) ≡ some (section, rest)
    → (tail : List Text) × (scan_replace ls ≡ some (tail, rest)) × (section ≡ l ∷ tail)
unfolding scan_replace
scan_replace-cons l ls section rest goes h = ground arith

scan_replace_sound :
    (ls section rest : List Text)
    → scan_replace ls ≡ some (section, rest)
    → (e : Text) × (ls ≡ section ++ e ∷ rest) × (is_marker replace_marker e ≡ true)
scan_replace_sound [] section rest h = unfold scan_replace in cc
scan_replace_sound (l ∷ ls) section rest h = elim (Bool-cases (is_marker replace_marker l)) [
  | inl ends ↦ (l, unfold scan_replace in ground arith, ends)
  | inr goes ↦
      let (tail, found, whole) = scan_replace-cons l ls section rest goes h in
      let (e, split, ends) = scan_replace_sound ls tail rest found in
      (e, rw whole (ap (λ t. l ∷ t) split), ends)
]

scan_search-cons :
    (l : Text) (ls : List Text) (b : Body)
    → is_marker divider l ≡ false
    → scan_search (l ∷ ls) ≡ some b
    → (c : Body) × (scan_search ls ≡ some c) × (b ≡ record c { search_lines = l ∷ c.search_lines })
unfolding scan_search
scan_search-cons l ls b goes h = ground arith

scan_search-divider :
    (l : Text) (ls : List Text) (b : Body)
    → is_marker divider l ≡ true
    → scan_search (l ∷ ls) ≡ some b
    → (scan_replace ls ≡ some (b.replace_lines, b.rest)) × (b.search_lines ≡ [])
unfolding scan_search
scan_search-divider l ls b divides h = ground arith

scan_search_sound :
    (ls : List Text) (b : Body)
    → scan_search ls ≡ some b
    → (d e : Text) × (ls ≡ b.search_lines ++ d ∷ (b.replace_lines ++ e ∷ b.rest))
      × (is_marker divider d ≡ true)
      × (is_marker replace_marker e ≡ true)
scan_search_sound [] b h = unfold scan_search in cc
scan_search_sound (l ∷ ls) b h = elim (Bool-cases (is_marker divider l)) [
  | inl divides ↦
      let (found, none_before) = scan_search-divider l ls b divides h in
      let (e, split, ends) = scan_replace_sound ls b.replace_lines b.rest found in
      (l, e, rw none_before (ap (λ t. l ∷ t) split), divides, ends)
  | inr goes ↦
      let (c, found, whole) = scan_search-cons l ls b goes h in
      let (d, e, split, divides, ends) = scan_search_sound ls c found in
      (d, e, rw whole (ap (λ t. l ∷ t) split), divides, ends)
]

-- A block stands in the lines: behind a SEARCH marker, its sections up to the divider and up to
-- the end marker.
pub record StandsIn (ls : List Text) (b : SearchReplaceBlock) : Type 0 where
  pub before : List Text
  pub opening : Text
  pub search_lines : List Text
  pub dividing : Text
  pub replace_lines : List Text
  pub closing : Text
  pub after : List Text
  pub place :
      ls ≡ before ++ opening ∷ (search_lines ++ dividing ∷ (replace_lines ++ closing ∷ after))
  pub opens : is_marker search_marker opening ≡ true
  pub divides : is_marker divider dividing ≡ true
  pub closes : is_marker replace_marker closing ≡ true
  pub search : b.search ≡ concat search_lines
  pub replace : b.replace ≡ concat replace_lines

StandsIn-later :
    (front ls : List Text) (b : SearchReplaceBlock) → StandsIn ls b → StandsIn (front ++ ls) b
StandsIn-later front ls b h = record {
  before = front ++ h.before;
  opening = h.opening;
  search_lines = h.search_lines;
  dividing = h.dividing;
  replace_lines = h.replace_lines;
  closing = h.closing;
  after = h.after;
  place = ap (λ t. front ++ t) h.place ∙ sym (append_assoc front h.before _);
  opens = h.opens;
  divides = h.divides;
  closes = h.closes;
  search = h.search;
  replace = h.replace;
}

All-later :
    (front ls : List Text) (bs : List SearchReplaceBlock)
    → All (StandsIn ls) bs
    → All (StandsIn (front ++ ls)) bs
All-later front ls [] h = tt
All-later front ls (b ∷ bs) h = (StandsIn-later front ls b h.0, All-later front ls bs h.1)

after_marker-StandsIn :
    (index : ℕ) (last : ℕ × Text) (l : Text) (ls : List Text) (again : ℕ → List Text → Parsed)
    (found : Option Body)
    → is_marker search_marker l ≡ true
    → scan_search ls ≡ found
    → ((next : ℕ) (rest : List Text) → All (StandsIn rest) (again next rest).0)
    → All (StandsIn (l ∷ ls)) (after_marker index last found again).0
after_marker-StandsIn index last l ls again none opens e h = unfold after_marker in tt
after_marker-StandsIn index last l ls again (some b) opens e h =
    let (d, x, split, divides, closes) = scan_search_sound ls b e in
    unfold after_marker in
    (
      record {
        before = [];
        opening = l;
        search_lines = b.search_lines;
        dividing = d;
        replace_lines = b.replace_lines;
        closing = x;
        after = b.rest;
        place = ap (λ t. l ∷ t) split;
        opens = opens;
        divides = divides;
        closes = closes;
        search = unfold block_of in refl;
        replace = unfold block_of in refl;
      },
      subst (λ t. All (StandsIn t) (again (index + 1 + consumed b) b.rest).0)
          (sym (ap (λ t. l ∷ t) split ∙ simp append_assoc))
          (All-later (l ∷ (b.search_lines ++ d ∷ (b.replace_lines ++ x ∷ []))) b.rest _
            (h (index + 1 + consumed b) b.rest)),
    )

at_marker-StandsIn :
    (index : ℕ) (last : Option (ℕ × Text)) (l : Text) (ls : List Text)
    (again : ℕ → List Text → Parsed)
    → is_marker search_marker l ≡ true
    → ((next : ℕ) (rest : List Text) → All (StandsIn rest) (again next rest).0)
    → All (StandsIn (l ∷ ls)) (at_marker index last ls again).0
unfolding at_marker
at_marker-StandsIn index none l ls again opens h = All-later (l ∷ []) ls _ (h (index + 1) ls)
at_marker-StandsIn index (some last) l ls again opens h =
    after_marker-StandsIn index last l ls again (scan_search ls) opens refl h

parse_from-StandsIn :
    (fuel index : ℕ) (last : Option (ℕ × Text)) (ls : List Text)
    → All (StandsIn ls) (parse_from fuel index last ls).0
parse_from-StandsIn fuel index last [] = unfold parse_from in tt
parse_from-StandsIn zero index last (l ∷ ls) = unfold parse_from in tt
parse_from-StandsIn (suc fuel) index last (l ∷ ls) = elim (Bool-cases (is_marker search_marker l)) [
  | inl opens ↦
      subst (λ t. All (StandsIn (l ∷ ls)) t.0) (sym (parse-marker fuel index last l ls opens))
        (at_marker-StandsIn index last l ls (λ next rest. parse_from fuel next none rest) opens
          (λ next rest. parse_from-StandsIn fuel next none rest))
  | inr plain ↦
      subst (λ t. All (StandsIn (l ∷ ls)) t.0) (sym (parse-plain fuel index last l ls plain))
        (All-later (l ∷ []) ls _ (parse_from-StandsIn fuel (index + 1) _ ls))
]

-- Nothing is invented: the lines of the text hold every block that `parse_search_replace` returns,
-- behind a SEARCH marker, with its SEARCH section up to a divider line and its REPLACE section up
-- to an end marker; and the lines, end to end, are the text itself.
pub parse_search_replace-StandsIn :
    (text : Text)
    → All (StandsIn (lines_keepends text)) (parse_search_replace text).0
      × (concat (lines_keepends text) ≡ text)
unfolding parse_search_replace
parse_search_replace-StandsIn text = (
  parse_from-StandsIn (length (lines_keepends text)) 0 none (lines_keepends text),
  concat-lines_keepends text,
)

scan_replace-shorter :
    (ls section rest : List Text) → scan_replace ls ≡ some (section, rest) → length rest ≤ length ls
scan_replace-shorter ls section rest h =
    let (e, split, ends) = scan_replace_sound ls section rest h in
    omega (arith, ap length split, length-append section (e ∷ rest))

scan_search-shorter :
    (ls : List Text) (b : Body) → scan_search ls ≡ some b → length b.rest ≤ length ls
scan_search-shorter ls b h =
    let (d, e, split, divides, closes) = scan_search_sound ls b h in
    omega (
      arith,
      ap length split,
      length-append b.search_lines (d ∷ (b.replace_lines ++ e ∷ b.rest)),
      length-append b.replace_lines (e ∷ b.rest),
    )

-- Two continuations that agree on shorter texts give the same.
at_marker-agree :
    (index : ℕ) (last : Option (ℕ × Text)) (ls : List Text) (f g : ℕ → List Text → Parsed)
    → ((next : ℕ) (rest : List Text) → length rest ≤ length ls → f next rest ≡ g next rest)
    → at_marker index last ls f ≡ at_marker index last ls g
unfolding at_marker
at_marker-agree index none ls f g h = rw (h (index + 1) ls (le_refl (length ls)))
at_marker-agree index (some last) ls f g h = agree (scan_search ls) refl
  where
    agree :
        (found : Option Body)
        → scan_search ls ≡ found
        → after_marker index last found f ≡ after_marker index last found g
    agree none e = unfold after_marker in refl
    agree (some b) e =
        unfold after_marker in rw (h (index + 1 + consumed b) b.rest (scan_search-shorter ls b e))

-- The loop ends by itself: with as many rounds as there are lines, one more round changes nothing,
-- so the bound on the rounds cuts nothing off.
pub parse_from-enough :
    (fuel index : ℕ) (last : Option (ℕ × Text)) (ls : List Text)
    → length ls ≤ fuel
    → parse_from (suc fuel) index last ls ≡ parse_from fuel index last ls
parse_from-enough fuel index last [] h = unfold parse_from in refl
parse_from-enough zero index last (l ∷ ls) h = absurd (omega arith)
parse_from-enough (suc fuel) index last (l ∷ ls) h = elim (Bool-cases (is_marker search_marker l)) [
  | inl opens ↦
      rw (parse-marker (suc fuel) index last l ls opens, parse-marker fuel index last l ls opens)
        (at_marker-agree index last ls _ _ (λ next rest shorter.
          parse_from-enough fuel next none rest (le_trans shorter (omega arith))))
  | inr plain ↦
      rw (parse-plain (suc fuel) index last l ls plain, parse-plain fuel index last l ls plain)
        (parse_from-enough fuel (index + 1) _ ls (omega arith))
]
