-- ===== src/PatchGuard/Verdict.antt =====
-- What the verdict on SEARCH/REPLACE blocks of scripts/a9_patch_guard.py means.
use a.Prelude.{
  zero, suc, suc, length, Bool-cases, ℕ, ◌+◌, false, Option, none, some, List, [], ◌∷◌, ◌≡◌, refl,
  ◌⊎◌, ◌↔◌, inl, inr, arith, or_false_iff, All, Option-cases,
}
use a.Text.{Text, codes, text_eq, text_eq_iff, is_empty}
use a.Text.Lines.{lines_keepends}
use a.Text.Search.{count}
use a.Paths.{pass}
use a.PatchGuard.{
  error, Finding, any_error, SearchReplaceBlock, Node, file, Tree, validate_rel_path,
}
use a.PatchGuard.SafePath.{
  any_error-append, Reaches, validate_rel_path-Reaches, validate_rel_path-clean,
  validate_rel_path-reported, validate_rel_path-ignored,
}
use a.PatchGuard.Steps.{parse-plain, parse-marker}
use a.PatchGuard.Parse.{
  scan_search, consumed, search_marker, after_marker, is_marker, Body, Parsed, parse_from,
  at_marker, parse_search_replace,
}
use a.PatchGuard.Validate.{
  report, when, check_target, check_resolved, check_block, check_blocks, blocks_report,
  no_blocks_report, validate_search_replace,
}

-- A block that can be applied as it stands: its path leads to a file, and the file holds its
-- SEARCH text, which is not empty, exactly once.
pub record Applicable (tree : Tree) (b : SearchReplaceBlock) : Type 0 where
  pub resolved : List Text
  pub reached : Reaches tree b.path resolved
  pub content : Text
  pub is_file : tree.node resolved ≡ some (file content)
  pub searched : is_empty b.search ≡ false
  pub once : count content b.search ≡ 1

check_target_iff :
    (b : SearchReplaceBlock) (n : Option Node)
    → (any_error (check_target b n) ≡ false) ↔ (
        (content : Text) × (n ≡ some (file content))
        × (is_empty b.search ≡ false)
        × (count content b.search ≡ 1))
unfolding check_target when any_error
check_target_iff b n = ground arith

module _ (tree : Tree) (b : SearchReplaceBlock) where
  check_block-reached :
      (resolved : List Text)
      → (validate_rel_path tree b.path).0 ≡ some resolved
      → any_error (check_block tree b) ≡ any_error (check_target b (tree.node resolved))
  unfolding check_block check_resolved
  check_block-reached resolved e =
      rw
        (
          any_error-append (validate_rel_path tree b.path).1 _,
          validate_rel_path-clean tree b.path resolved e,
          e,
        )
        refl

  check_block-nowhere :
      (validate_rel_path tree b.path).0 ≡ none
      → any_error (check_block tree b) ≡ any_error (validate_rel_path tree b.path).1
  unfolding check_block check_resolved any_error
  check_block-nowhere e =
      rw (any_error-append (validate_rel_path tree b.path).1 _, e) (ground arith)

  check_block-Applicable :
      any_error (check_block tree b) ≡ false → (b.path ≡ codes "/dev/null") ⊎ Applicable tree b
  check_block-Applicable h = elim (Option-cases (validate_rel_path tree b.path).0) [
    | inl nowhere ↦ elim (Bool-cases (text_eq b.path (codes "/dev/null"))) [
      | inl null ↦ inl ((text_eq_iff b.path (codes "/dev/null")).0 null)
      | inr named ↦ ground (
        arith,
        check_block-nowhere nowhere,
        validate_rel_path-reported tree b.path nowhere,
        text_eq_iff b.path (codes "/dev/null"),
      )
    ]
    | inr (resolved, e) ↦
        let (content, is_file, searched, once) =
          (check_target_iff b (tree.node resolved)).0 (rw (← check_block-reached resolved e) h) in
        inr (record {
          resolved = resolved;
          reached = (validate_rel_path-Reaches tree b.path resolved).0 e;
          content = content;
          is_file = is_file;
          searched = searched;
          once = once;
        })
  ]

  Applicable-check_block : Applicable tree b → any_error (check_block tree b) ≡ false
  Applicable-check_block a =
      let e = (validate_rel_path-Reaches tree b.path a.resolved).1 a.reached in
      rw (check_block-reached a.resolved e)
        ((check_target_iff b (tree.node a.resolved)).1 (a.content, a.is_file, a.searched, a.once))

  null-check_block : b.path ≡ codes "/dev/null" → any_error (check_block tree b) ≡ false
  unfolding check_block check_resolved any_error
  null-check_block e = rw (validate_rel_path-ignored tree b.path e) refl

  check_block_iff :
      (any_error (check_block tree b) ≡ false) ↔ ((b.path ≡ codes "/dev/null") ⊎ Applicable tree b)
  check_block_iff = (
    check_block-Applicable,
    λ h. elim h [ inl null ↦ null-check_block null | inr a ↦ Applicable-check_block a ],
  )

check_blocks_iff :
    (tree : Tree) (bs : List SearchReplaceBlock)
    → (any_error (check_blocks tree bs) ≡ false)
      ↔ All (λ b. (b.path ≡ codes "/dev/null") ⊎ Applicable tree b) bs
unfolding check_blocks
check_blocks_iff tree [] = (λ h. tt, λ h. unfold any_error in refl)
check_blocks_iff tree (b ∷ bs) = rw (any_error-append (check_block tree b) (check_blocks tree bs)) (
    or_false_iff (any_error (check_block tree b)) (any_error (check_blocks tree bs))
      (check_block_iff tree b) (check_blocks_iff tree bs))

abbrev OnlyErrors : List Finding → Type 0
OnlyErrors = All (λ f. f.level ≡ error)

at_marker-OnlyErrors :
    (index : ℕ) (last : Option (ℕ × Text)) (ls : List Text) (again : ℕ → List Text → Parsed)
    → ((next : ℕ) (rest : List Text) → OnlyErrors (again next rest).1)
    → OnlyErrors (at_marker index last ls again).1
unfolding at_marker
at_marker-OnlyErrors index none ls again h = (refl, h (index + 1) ls)
at_marker-OnlyErrors index (some last) ls again h = behind (scan_search ls)
  where
    behind : (found : Option Body) → OnlyErrors (after_marker index last found again).1
    behind none = unfold after_marker in (refl, tt)
    behind (some b) = unfold after_marker in h (index + 1 + consumed b) b.rest

parse_from-OnlyErrors :
    (fuel index : ℕ) (last : Option (ℕ × Text)) (ls : List Text)
    → OnlyErrors (parse_from fuel index last ls).1
parse_from-OnlyErrors fuel index last [] = unfold parse_from in tt
parse_from-OnlyErrors zero index last (l ∷ ls) = unfold parse_from in tt
parse_from-OnlyErrors (suc fuel) index last (l ∷ ls) =
    elim (Bool-cases (is_marker search_marker l)) [
      | inl opens ↦ rw (parse-marker fuel index last l ls opens) (
          at_marker-OnlyErrors index last ls _
            λ next rest. parse_from-OnlyErrors fuel next none rest)
      | inr plain ↦
          rw (parse-plain fuel index last l ls plain) (parse_from-OnlyErrors fuel (index + 1) _ ls)
    ]

OnlyErrors-none : (fs : List Finding) → OnlyErrors fs → (any_error fs ≡ false) ↔ (fs ≡ [])
unfolding any_error
OnlyErrors-none [] h = (λ e. refl, λ e. refl)
OnlyErrors-none (f ∷ fs) h = ground (arith, h.0)

blocks_report_iff :
    (tree : Tree) (bs : List SearchReplaceBlock) (found : List Finding)
    → OnlyErrors found
    → ((blocks_report tree bs found).status ≡ pass) ↔ (
        (is_empty bs ≡ false)
        × (found ≡ [])
        × All (λ b. (b.path ≡ codes "/dev/null") ⊎ Applicable tree b) bs)
unfolding blocks_report no_blocks_report report any_error
blocks_report_iff tree [] [] o = (λ h. ground arith, λ h. ground arith)
blocks_report_iff tree [] (f ∷ fs) o = (λ h. ground (arith, o.0), λ h. ground arith)
blocks_report_iff tree (b ∷ bs) found o =
    rw (any_error-append found (check_blocks tree (b ∷ bs)))
      (ground (arith, check_blocks_iff tree (b ∷ bs), OnlyErrors-none found o))

-- `validate_search_replace` passes a text exactly when the parser finds a block and reports
-- nothing, and every block can be applied as it stands (its path is safe and leads to a file that
-- holds its SEARCH text, which is not empty, exactly once), save that a block for "/dev/null" is
-- passed over.
pub validate_search_replace_iff :
    (text : Text) (tree : Tree)
    → ((validate_search_replace text tree).status ≡ pass) ↔ (
        (is_empty (parse_search_replace text).0 ≡ false)
        × ((parse_search_replace text).1 ≡ [])
        × All (λ b. (b.path ≡ codes "/dev/null") ⊎ Applicable tree b) (parse_search_replace text).0)
unfolding validate_search_replace
validate_search_replace_iff text tree =
    blocks_report_iff tree (parse_search_replace text).0 (parse_search_replace text).1 errors
  where
    errors : OnlyErrors (parse_search_replace text).1
    errors =
        unfold parse_search_replace in
        parse_from-OnlyErrors (length (lines_keepends text)) 0 none (lines_keepends text)
