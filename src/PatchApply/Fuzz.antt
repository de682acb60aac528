-- ===== src/PatchApply/Fuzz.antt =====
-- What `replace_with_strategy` of scripts/a9_patch_apply.py returns, and what its "fuzz_level"
-- says of it.
use a.Prelude.{
  ℕ, ◌≡◌, ◌≢◌, refl, sym, ◌∙◌, ◌⊎◌, ◌↔◌, inl, inr, true, false, none, some, List, [], ◌∷◌, arith,
  Option-cases,
}
use mathlib.Core.Path.{subst}
use a.Text.{Text}
use a.Text.Search.{count}
use a.PatchApply.{
  Strategy, MatchMeta, Replacement, exact, leading_whitespace, split_keepends, replace_at,
  replace_lines, replace_leading_whitespace, either, replace_direct, unescape, mark_unescaped,
  replace_with_strategy, find_matches,
}
use a.PatchApply.Exact.{Swaps, exact_meta, replace_exact_cases}
use a.PatchApply.Indent.{Reindents, replace_lines-Reindents}

-- An edit by one of the two ways of matching, as its record says.
abbrev pub Edits : Text → Text → Text → Text → Strategy → Type 0
Edits search replace current new exact =
    (count current search ≡ 1) × Swaps search replace current new
Edits search replace current new leading_whitespace =
    Reindents (split_keepends search) (split_keepends replace) (split_keepends current) new

replace_at-fuzz :
    (whole part replace : List Text) (ms : List (ℕ × Text)) (new : Text) (meta : MatchMeta)
    → replace_at whole part replace ms ≡ some (new, meta)
    → (meta.match_strategy ≡ leading_whitespace) × (meta.fuzz_level ≡ 1) × (meta.unescaped ≡ false)
unfolding replace_at
replace_at-fuzz whole part replace [] new meta h = cc
replace_at-fuzz whole part replace (m ∷ n ∷ ms) new meta h = cc
replace_at-fuzz whole part replace (m ∷ []) new meta h = ground arith

module _ (first second : Replacement) where
  either-none : first ≡ none → either first second ≡ second
  unfolding either
  either-none h = rw h refl

  either-some : (r : Text × MatchMeta) → first ≡ some r → either first second ≡ some r
  unfolding either
  either-some r h = rw h refl

same_result :
    (new found : Text) (meta made : MatchMeta)
    → Path Replacement (some (found, made)) (some (new, meta))
    → (found ≡ new) × (made ≡ meta)
same_result new found meta made h = ground arith

module _ (current sought replace new : Text) (meta : MatchMeta) where
  replace_leading_whitespace-fuzz :
      replace_leading_whitespace current sought replace ≡ some (new, meta)
      → (meta.match_strategy ≡ leading_whitespace)
        × (meta.fuzz_level ≡ 1)
        × (meta.unescaped ≡ false)
  unfolding replace_leading_whitespace replace_lines
  replace_leading_whitespace-fuzz h =
      replace_at-fuzz (split_keepends current) (split_keepends sought) (split_keepends replace)
        (find_matches 0 (split_keepends current) (split_keepends sought)) new meta (ground arith)

  replace_leading_whitespace-Edits :
      replace_leading_whitespace current sought replace ≡ some (new, meta)
      → Edits sought replace current new leading_whitespace
  unfolding replace_leading_whitespace
  replace_leading_whitespace-Edits h =
      replace_lines-Reindents (split_keepends current) (split_keepends sought)
        (split_keepends replace) new meta h

  -- Where the text stands once, that is the edit; else the lines are tried.
  replace_direct_cases :
      replace_direct current sought replace ≡ some (new, meta)
      → ((count current sought ≡ 1) × (meta ≡ exact_meta) × Swaps sought replace current new)
        ⊎ ((count current sought ≢ 1)
            × (replace_leading_whitespace current sought replace ≡ some (new, meta)))
  unfolding replace_direct
  replace_direct_cases h = elim (replace_exact_cases current sought replace) [
    | inl (several, missed) ↦ inr (several, sym (either-none _ _ missed) ∙ h)
    | inr (once, found, e, swaps) ↦
        let (text, record_of) =
          same_result new found meta exact_meta (sym (either-some _ _ _ e) ∙ h) in
        inl (once, sym record_of, subst (λ t. Swaps sought replace current t) text swaps)
  ]

  replace_direct-Edits :
      replace_direct current sought replace ≡ some (new, meta)
      → Edits sought replace current new meta.match_strategy × (meta.unescaped ≡ false)
  replace_direct-Edits h = elim (replace_direct_cases h) [
    | inl (once, is_exact, swaps) ↦ (rw is_exact (once, swaps), rw is_exact refl)
    | inr (several, lines) ↦
        let (strategy, fuzz, plain) = replace_leading_whitespace-fuzz lines in
        (rw strategy (replace_leading_whitespace-Edits lines), plain)
  ]

  -- A record without fuzz is that of the text itself.
  replace_direct-fuzz :
      replace_direct current sought replace ≡ some (new, meta)
      → meta.fuzz_level ≡ 0
      → (count current sought ≡ 1) × Swaps sought replace current new
  replace_direct-fuzz h clean = elim (replace_direct_cases h) [
    | inl (once, is_exact, swaps) ↦ (once, swaps)
    | inr (several, lines) ↦
        let (strategy, fuzz, plain) = replace_leading_whitespace-fuzz lines in absurd (omega arith)
  ]

mark_unescaped-some :
    (r : Replacement) (new : Text) (meta : MatchMeta)
    → mark_unescaped r ≡ some (new, meta)
    → (old : MatchMeta) × (r ≡ some (new, old))
      × (meta.match_strategy ≡ old.match_strategy)
      × (meta.unescaped ≡ true)
      × (meta.fuzz_level ≢ 0)
unfolding mark_unescaped
mark_unescaped-some none new meta h = cc
mark_unescaped-some (some (text, old)) new meta h =
    (old, ground arith, ground arith, ground arith, ground arith)

module _ (current sought replace new : Text) (meta : MatchMeta) where
  -- The second try, on the unescaped sections, is made where the first found nothing.
  replace_with_strategy_cases :
      replace_with_strategy current sought replace ≡ some (new, meta)
      → (replace_direct current sought replace ≡ some (new, meta))
        ⊎ ((replace_direct current sought replace ≡ none)
            × (mark_unescaped (replace_direct current (unescape sought) (unescape replace))
                ≡ some (new, meta)))
  unfolding replace_with_strategy
  replace_with_strategy_cases h = elim (Option-cases (replace_direct current sought replace)) [
    | inr (r, e) ↦ inl (e ∙ sym (either-some _ _ r e) ∙ h)
    | inl missed ↦
        let second = sym (either-none (replace_direct current sought replace) _ missed) ∙ h in
        inr (missed, ground arith)
  ]

  -- What `replace_with_strategy` returns is an edit of the kind that its record names: SEARCH
  -- occurs once, as `str.count` counts, and an occurrence is replaced by REPLACE; or one stretch of
  -- lines is replaced that is SEARCH but for the indentation, the only such stretch with a line that
  -- is not blank; by SEARCH and REPLACE as they came, or by both unescaped, as the record says.
  pub replace_with_strategy-Edits :
      replace_with_strategy current sought replace ≡ some (new, meta)
      → ((meta.unescaped ≡ false) × Edits sought replace current new meta.match_strategy)
        ⊎ ((meta.unescaped ≡ true)
            × Edits (unescape sought) (unescape replace) current new meta.match_strategy)
  replace_with_strategy-Edits h = elim (replace_with_strategy_cases h) [
    | inl direct ↦
        let (edit, plain) = replace_direct-Edits current sought replace new meta direct in
        inl (plain, edit)
    | inr (missed, second) ↦
        let (old, found, strategy, marked, fuzz) = mark_unescaped-some _ new meta second in
        inr (
          marked,
          rw strategy
              (replace_direct-Edits current (unescape sought) (unescape replace) new old found).0,
        )
  ]

-- An edit is without fuzz exactly where the file holds SEARCH once, as `str.count` counts; it is
-- then the file with that occurrence replaced by REPLACE.
pub fuzz_free_iff :
    (current sought replace : Text)
    → (count current sought ≡ 1) ↔ (
        (new : Text) × (meta : MatchMeta) × (replace_with_strategy current sought replace
          ≡ some (new, meta))
        × (meta.fuzz_level ≡ 0)
        × Swaps sought replace current new)
unfolding replace_with_strategy replace_direct
fuzz_free_iff current sought replace = (
  λ once. elim (replace_exact_cases current sought replace) [
    | inl (several, _) ↦ absurd (several once)
    | inr (_, new, e, swaps) ↦
        (new, exact_meta, either-some _ _ _ (either-some _ _ _ e), refl, swaps)
  ],
  λ (new, meta, found, clean, swaps).
      elim (replace_with_strategy_cases current sought replace new meta found) [
        | inl direct ↦ (replace_direct-fuzz current sought replace new meta direct clean).0
        | inr (missed, second) ↦
            let (old, _, _, _, fuzz) = mark_unescaped-some _ new meta second in absurd (fuzz clean)
      ],
)
