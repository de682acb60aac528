-- ===== src/PatchGuard/SafePath.antt =====
-- What `validate_rel_path` of scripts/a9_patch_guard.py lets through.
use a.Prelude.{
  true, false, ◌||◌, none, some, List, [], ◌∷◌, ◌++◌, ◌≡◌, ◌≢◌, refl, ◌↔◌, inl, inr, arith,
  Option-cases,
}
use a.Text.{Text, codes, text_eq, text_eq_iff}
use a.Paths.{is_absolute, member, path_parts, first_blocked, normalize_diff_path}
use a.Paths.Order.{Member, Disjoint, member_iff, first_blocked_iff}
use a.PatchGuard.{blocked_parts, Finding, any_error, Tree, validate_rel_path, unblocked, escaping}

pub any_error-append :
    (fs gs : List Finding) → any_error (fs ++ gs) ≡ (any_error fs || any_error gs)
unfolding any_error
any_error-append [] gs = refl
any_error-append (f ∷ fs) gs = ground (arith, any_error-append fs gs)

-- A path is safe, and leads to a place under the root.
pub record Reaches (tree : Tree) (raw : Text) (resolved : List Text) : Type 0 where
  pub named : raw ≢ codes "/dev/null"
  pub relative : is_absolute (normalize_diff_path raw) ≡ false
  pub no_traversal : ¬ Member (codes "..") (path_parts (normalize_diff_path raw))
  pub unblocked : Disjoint blocked_parts (path_parts (normalize_diff_path raw))
  pub inside : tree.resolve (path_parts (normalize_diff_path raw)) ≡ some resolved

module _ (tree : Tree) (raw : Text) where
  validate_rel_path_tests :
      (resolved : List Text)
      → ((validate_rel_path tree raw).0 ≡ some resolved) ↔ (
          (text_eq raw (codes "/dev/null") ≡ false)
          × (is_absolute (normalize_diff_path raw) ≡ false)
          × (member (codes "..") (path_parts (normalize_diff_path raw)) ≡ false)
          × (first_blocked blocked_parts (path_parts (normalize_diff_path raw)) ≡ none)
          × (tree.resolve (path_parts (normalize_diff_path raw)) ≡ some resolved))
  unfolding validate_rel_path unblocked escaping
  validate_rel_path_tests resolved = ground arith

  pub validate_rel_path-Reaches :
      (resolved : List Text)
      → ((validate_rel_path tree raw).0 ≡ some resolved) ↔ Reaches tree raw resolved
  validate_rel_path-Reaches resolved = (
    λ h.
        let t = (validate_rel_path_tests resolved).0 h in
        record {
          named = ground (arith, text_eq_iff raw (codes "/dev/null"));
          relative = t.1;
          no_traversal =
              ground (arith, member_iff (codes "..") (path_parts (normalize_diff_path raw)));
          unblocked =
              (first_blocked_iff blocked_parts (path_parts (normalize_diff_path raw))).0 t.3;
          inside = t.4;
        },
    λ r. (validate_rel_path_tests resolved).1 (
      ground (arith, text_eq_iff raw (codes "/dev/null"), r.named),
      r.relative,
      ground
          (arith, member_iff (codes "..") (path_parts (normalize_diff_path raw)), r.no_traversal),
      (first_blocked_iff blocked_parts (path_parts (normalize_diff_path raw))).1 r.unblocked,
      r.inside,
    ),
  )

  -- A path that leads somewhere is reported as no error.
  pub validate_rel_path-clean :
      (resolved : List Text)
      → (validate_rel_path tree raw).0 ≡ some resolved
      → any_error (validate_rel_path tree raw).1 ≡ false
  unfolding validate_rel_path unblocked escaping any_error
  validate_rel_path-clean resolved h = ground arith

  -- And one that leads nowhere is reported, but for "/dev/null".
  pub validate_rel_path-reported :
      (validate_rel_path tree raw).0 ≡ none
      → raw ≢ codes "/dev/null"
      → any_error (validate_rel_path tree raw).1 ≡ true
  unfolding validate_rel_path unblocked escaping any_error
  validate_rel_path-reported h named = ground (arith, text_eq_iff raw (codes "/dev/null"))

  pub validate_rel_path-ignored : raw ≡ codes "/dev/null" → validate_rel_path tree raw ≡ (none, [])
  unfolding validate_rel_path
  validate_rel_path-ignored e = ground (arith, text_eq_iff raw (codes "/dev/null"))

  pub clean_iff :
      raw ≢ codes "/dev/null"
      → (any_error (validate_rel_path tree raw).1 ≡ false)
        ↔ ((resolved : List Text) × Reaches tree raw resolved)
  clean_iff named = (
    λ h. elim (Option-cases (validate_rel_path tree raw).0) [
      | inl nowhere ↦ ground (arith, validate_rel_path-reported nowhere named)
      | inr (resolved, e) ↦ (resolved, (validate_rel_path-Reaches resolved).0 e)
    ],
    λ (resolved, r). validate_rel_path-clean resolved ((validate_rel_path-Reaches resolved).1 r),
  )
