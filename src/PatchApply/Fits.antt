-- ===== src/PatchApply/Fits.antt =====
-- When `match_leading_whitespace` of scripts/a9_patch_apply.py takes lines of a file for the lines
-- searched, and what it returns.
use mathlib.Core.Path.{subst}
use a.Prelude.{
  ◌-◌, ◌≤◌, ◌<◌, ◌≡◌, ◌≢◌, ◌↔◌, ◌⊎◌, refl, ap, sym, inl, inr, true, false, some, List, [], ◌∷◌,
  arith, Bool-cases, length, ==_iff, All,
}
use a.Text.{Text, text_eq_iff, take, strip, lstrip, is_empty}
use a.PatchApply.{same_bodies, offset, offsets, all_equal, single, match_leading_whitespace}

-- What is put in front of the lines of REPLACE for a line of the file and one of SEARCH: where
-- SEARCH is no longer, the line's first characters, as many as it is longer; where SEARCH is longer,
-- by Python's reading of a negative bound, all of the line but as many at its end.
abbrev pub IsLead : Text → Text → Text → Type 0
IsLead w p lead =
    ((length p ≤ length w) × (take (length w - length p) w ≡ lead))
    ⊎ ((length w < length p) × (take (length w - (length p - length w)) w ≡ lead))

-- Some line is not blank.
abbrev pub HasText : List Text → Type 0
HasText [] = ⊥
HasText (w ∷ ws) = (is_empty (strip w) ≡ false) ⊎ HasText ws

offset-IsLead : (w p lead : Text) → (offset w p ≡ lead) ↔ IsLead w p lead
unfolding offset
offset-IsLead w p lead = ground arith

-- Lines of a file fit the lines searched: one for one they are the same behind their indentation,
-- and the lines that are not blank agree on what is put in front.
abbrev pub SameButIndent : Text → List Text → List Text → Type 0
SameButIndent lead [] [] = Unit
SameButIndent lead (w ∷ ws) (p ∷ ps) =
    (lstrip w ≡ lstrip p)
    × ((is_empty (strip w) ≡ false) → IsLead w p lead)
    × SameButIndent lead ws ps
SameButIndent lead _ _ = ⊥

all_equal_sound : (t : Text) (xs : List Text) → all_equal t xs ≡ true → All (λ x. x ≡ t) xs
unfolding all_equal
all_equal_sound t [] h = tt
all_equal_sound t (x ∷ xs) h = ground (arith, text_eq_iff x t, all_equal_sound t xs)

single-All : (xs : List Text) (lead : Text) → single xs ≡ some lead → All (λ x. x ≡ lead) xs
unfolding single
single-All [] lead h = tt
single-All (x ∷ xs) lead h = elim (Bool-cases (all_equal x xs)) [
  | inl same ↦
      let e : x ≡ lead = ground arith in
      (e, subst (λ t. All (λ y. y ≡ t) xs) e (all_equal_sound x xs same))
  | inr other ↦ ground arith
]

module _ (w p : Text) (ws ps : List Text) where
  offsets-blank : is_empty (strip w) ≡ true → offsets (w ∷ ws) (p ∷ ps) ≡ offsets ws ps
  unfolding offsets
  offsets-blank h = rw h refl

  offsets-full : is_empty (strip w) ≡ false → offsets (w ∷ ws) (p ∷ ps) ≡ offset w p ∷ offsets ws ps
  unfolding offsets
  offsets-full h = rw h refl

  same_bodies-cons :
      same_bodies (w ∷ ws) (p ∷ ps) ≡ true → (lstrip w ≡ lstrip p) × (same_bodies ws ps ≡ true)
  unfolding same_bodies
  same_bodies-cons h = ground (arith, text_eq_iff (lstrip w) (lstrip p))

fits :
    (lead : Text) (ws ps : List Text)
    → length ws ≡ length ps
    → same_bodies ws ps ≡ true
    → All (λ x. x ≡ lead) (offsets ws ps)
    → SameButIndent lead ws ps
fits lead [] [] n s o = tt
fits lead (w ∷ ws) [] n s o = absurd (omega arith)
fits lead [] (p ∷ ps) n s o = absurd (omega arith)
fits lead (w ∷ ws) (p ∷ ps) n s o =
    let (body, bodies) = same_bodies-cons w p ws ps s in
    elim (Bool-cases (is_empty (strip w))) [
      | inl blank ↦ (
        body,
        λ full. ground (arith, blank, full),
        fits lead ws ps (omega arith) bodies
            (subst (All (λ x. x ≡ lead)) (offsets-blank w p ws ps blank) o),
      )
      | inr full ↦
          let found = subst (All (λ x. x ≡ lead)) (offsets-full w p ws ps full) o in
          (
            body,
            λ e. (offset-IsLead w p lead).0 found.0,
            fits lead ws ps (omega arith) bodies found.1,
          )
    ]

pub match_leading_whitespace-SameButIndent :
    (ws ps : List Text) (lead : Text)
    → match_leading_whitespace ws ps ≡ some lead
    → SameButIndent lead ws ps
unfolding match_leading_whitespace
match_leading_whitespace-SameButIndent ws ps lead h =
    fits lead ws ps (ground (arith, ==_iff (length ws) (length ps))) (ground arith)
      (single-All (offsets ws ps) lead (ground arith))

-- Lines that fit are found to fit.
bodies_of : (lead : Text) (ws ps : List Text) → SameButIndent lead ws ps → same_bodies ws ps ≡ true
unfolding same_bodies
bodies_of lead [] [] h = refl
bodies_of lead [] (p ∷ ps) h = absurd h
bodies_of lead (w ∷ ws) [] h = absurd h
bodies_of lead (w ∷ ws) (p ∷ ps) h =
    ground (arith, h.0, bodies_of lead ws ps h.2, text_eq_iff (lstrip w) (lstrip p))

pub SameButIndent-length :
    (lead : Text) (ws ps : List Text) → SameButIndent lead ws ps → length ws ≡ length ps
SameButIndent-length lead [] [] h = refl
SameButIndent-length lead [] (p ∷ ps) h = absurd h
SameButIndent-length lead (w ∷ ws) [] h = absurd h
SameButIndent-length lead (w ∷ ws) (p ∷ ps) h = ground (arith, SameButIndent-length lead ws ps h.2)

offsets_of :
    (lead : Text) (ws ps : List Text)
    → SameButIndent lead ws ps
    → All (λ x. x ≡ lead) (offsets ws ps)
offsets_of lead [] [] h = unfold offsets in tt
offsets_of lead [] (p ∷ ps) h = absurd h
offsets_of lead (w ∷ ws) [] h = absurd h
offsets_of lead (w ∷ ws) (p ∷ ps) h = elim (Bool-cases (is_empty (strip w))) [
  | inl blank ↦ rw (offsets-blank w p ws ps blank) (offsets_of lead ws ps h.2)
  | inr full ↦
      rw (offsets-full w p ws ps full)
        ((offset-IsLead w p lead).1 (h.1 full), offsets_of lead ws ps h.2)
]

offsets-HasText : (ws ps : List Text) → length ws ≡ length ps → HasText ws ↔ (offsets ws ps ≢ [])
offsets-HasText [] [] n = (λ h. absurd h, λ h. absurd (h (unfold offsets in refl)))
offsets-HasText [] (p ∷ ps) n = absurd (omega arith)
offsets-HasText (w ∷ ws) [] n = absurd (omega arith)
offsets-HasText (w ∷ ws) (p ∷ ps) n = elim (Bool-cases (is_empty (strip w))) [
  | inl blank ↦
      rw (offsets-blank w p ws ps blank)
        (ground (arith, blank, offsets-HasText ws ps (omega arith)))
  | inr full ↦ rw (offsets-full w p ws ps full) (λ h e. ground (arith, e), λ h. inl full)
]

all_equal_of : (t : Text) (xs : List Text) → All (λ x. x ≡ t) xs → all_equal t xs ≡ true
unfolding all_equal
all_equal_of t [] h = refl
all_equal_of t (x ∷ xs) h = ground (arith, h.0, text_eq_iff x t, all_equal_of t xs h.1)

single_of :
    (lead : Text) (xs : List Text) → xs ≢ [] → All (λ x. x ≡ lead) xs → single xs ≡ some lead
unfolding single
single_of lead [] full h = absurd (full refl)
single_of lead (x ∷ xs) full h =
    rw (all_equal_of x xs (subst (λ t. All (λ y. y ≡ t) xs) (sym h.0) h.1)) (ap some h.0)

single_not_nil : (xs : List Text) (lead : Text) → single xs ≡ some lead → xs ≢ []
unfolding single
single_not_nil [] lead h e = ground (arith, h)
single_not_nil (x ∷ xs) lead h e = ground (arith, e)

pub match_leading_whitespace_of :
    (ws ps : List Text) (lead : Text)
    → SameButIndent lead ws ps
    → HasText ws
    → match_leading_whitespace ws ps ≡ some lead
unfolding match_leading_whitespace
match_leading_whitespace_of ws ps lead h full =
    let same = SameButIndent-length lead ws ps h in
    let found =
      single_of lead (offsets ws ps) ((offsets-HasText ws ps same).0 full)
        (offsets_of lead ws ps h) in
    ground (arith, same, ==_iff (length ws) (length ps), bodies_of lead ws ps h, found)

pub match_leading_whitespace-HasText :
    (ws ps : List Text) (lead : Text) → match_leading_whitespace ws ps ≡ some lead → HasText ws
unfolding match_leading_whitespace
match_leading_whitespace-HasText ws ps lead h =
    (offsets-HasText ws ps (ground (arith, ==_iff (length ws) (length ps)))).1
      (single_not_nil (offsets ws ps) lead (ground arith))
