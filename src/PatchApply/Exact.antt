-- ===== src/PatchApply/Exact.antt =====
-- What `replace_exact` of scripts/a9_patch_apply.py does to a text.
use a.Prelude.{
  sym, ◌∙◌, ℕ, ◌≡◌, ◌≢◌, refl, ap, ◌⊎◌, inl, inr, false, none, some, [], ◌∷◌, ◌++◌, arith,
  append-nil, Bool-cases, length, ==_iff, ◌==◌,
}
use a.Text.{Text, starts_with, drop}
use a.Text.Search.{count, count_from, replace_first}
use a.Text.Affix.{starts_with-drop}
use a.PatchApply.{replace_exact, MatchMeta, exact}

-- One text is the other with one occurrence of `search` replaced.
pub record Swaps (search replace current new : Text) : Type 0 where
  pub before : Text
  pub after : Text
  pub found : current ≡ before ++ search ++ after
  pub replaced : new ≡ before ++ replace ++ after

module _ (d : ℕ) (p r : Text) where
  count_from-miss :
      (c : ℕ) (s : Text)
      → starts_with (c ∷ s) (d ∷ p) ≡ false
      → count_from (d ∷ p) 0 (c ∷ s) ≡ count_from (d ∷ p) 0 s
  unfolding count_from
  count_from-miss c s miss = rw miss refl

  replace_first-Swaps :
      (s : Text) → count_from (d ∷ p) 0 s ≢ 0 → Swaps (d ∷ p) r s (replace_first s (d ∷ p) r)
  unfolding replace_first
  replace_first-Swaps [] h = absurd (h (unfold count_from in refl))
  replace_first-Swaps (c ∷ s) h = elim (Bool-cases (starts_with (c ∷ s) (d ∷ p))) [
    | inl hit ↦ rw hit (record {
      before = [];
      after = drop (length (d ∷ p)) (c ∷ s);
      found = starts_with-drop (c ∷ s) (d ∷ p) hit;
      replaced = refl;
    })
    | inr miss ↦
        let later = replace_first-Swaps s (λ e. h (count_from-miss c s miss ∙ e)) in
        rw miss (record {
          before = c ∷ later.before;
          after = later.after;
          found = ap (λ t. c ∷ t) later.found;
          replaced = ap (λ t. c ∷ t) later.replaced;
        })
  ]

count-Swaps :
    (current search replace : Text)
    → count current search ≡ 1
    → Swaps search replace current (replace_first current search replace)
unfolding count
count-Swaps [] [] replace h = record {
  before = [];
  after = [];
  found = refl;
  replaced = unfold replace_first in unfold starts_with in sym (append-nil replace);
}
count-Swaps (c ∷ s) [] replace h = absurd (omega arith)
count-Swaps current (d ∷ p) replace h =
    replace_first-Swaps d p replace current (λ e. absurd (omega arith))

abbrev pub exact_meta : MatchMeta
exact_meta = record { matches = 1; match_strategy = exact; fuzz_level = 0; unescaped = false }

-- `replace_exact` replaces where `str.count` finds the SEARCH text once, and only there; the new
-- text is then the old one with that occurrence replaced, and nothing else changed.
pub replace_exact_cases :
    (current search replace : Text)
    → ((count current search ≢ 1) × (replace_exact current search replace ≡ none))
      ⊎ ((count current search ≡ 1)
          × (new : Text) × (replace_exact current search replace ≡ some (new, exact_meta))
          × Swaps search replace current new)
unfolding replace_exact
replace_exact_cases current search replace = elim (Bool-cases (count current search == 1)) [
  | inr several ↦ inl (ground (arith, ==_iff (count current search) 1), rw several refl)
  | inl once ↦
      let e = (==_iff (count current search) 1).0 once in
      inr (e, _, rw once refl, count-Swaps current search replace e)
]
