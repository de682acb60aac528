-- ===== src/ScopeGuard/Soundness.antt =====
-- What the verdict of scripts/a9_scope_guard.py means.
use a.Prelude.{
  or_false_iff, or_iff, true, false, ◌||◌, none, List, [], ◌∷◌, ◌++◌, ◌≡◌, ◌≢◌, refl, ◌⊎◌, ◌↔◌, inl,
  inr, arith, if◌then◌else◌,
}
use a.Text.{Text, codes, text_eq, text_eq_iff, starts_with, strip, strip_by, is_empty}
use a.Text.Lines.{lines}
use a.Text.Glob.{fnmatch}
use a.Text.Strip.{rstrip-strip}
use a.Text.Affix.{starts_with-drop, starts_with-append}
use a.Paths.{slash, member, is_absolute, path_parts, last_part, first_blocked, pass}
use a.Paths.Order.{
  sorted_set, Member, Member-sorted_set, Member-append, member_iff, Disjoint, any_member_iff,
  first_blocked_iff,
}
use a.ScopeGuard.{
  blocked_parts, sensitive_names, sensitive_parts, Finding, header_paths, drop_dev_null, touched_in,
  changed_files_from_diff, is_slash, has_wildcard, allows, any_allows, is_allowed, is_sensitive,
  validate_path, validate_all, any_error, report, validate_diff, no_files_finding,
}

-- One pattern covers a path (without its outer slashes): the pattern, stripped of blanks and outer
-- slashes, is not empty, and it is a wildcard that matches, the path itself, or a directory above
-- it.
abbrev pub Covers : Text → Text → Type 0
Covers normalized item =
    (is_empty item ≡ false)
    × (((has_wildcard item ≡ true) × (fnmatch normalized item ≡ true))
        ⊎ ((has_wildcard item ≡ false)
            × ((normalized ≡ item)
                ⊎ ((rest : Text) × (normalized ≡ (item ++ slash ∷ []) ++ rest)))))

below_iff :
    (normalized directory : Text)
    → (starts_with normalized directory ≡ true) ↔ ((rest : Text) × (normalized ≡ directory ++ rest))
below_iff normalized directory = (
  λ h. (_, starts_with-drop normalized directory h),
  λ (rest, e). rw e (starts_with-append directory rest),
)

item_iff :
    (normalized item : Text)
    → ((if is_empty item
          then false
          else if has_wildcard item
          then fnmatch normalized item
          else text_eq normalized item || starts_with normalized (item ++ slash ∷ []))
        ≡ true)
      ↔ Covers normalized item
item_iff normalized item =
    ground (arith, text_eq_iff normalized item, below_iff normalized (item ++ slash ∷ []))

allows_iff :
    (normalized pattern : Text)
    → (allows normalized pattern ≡ true) ↔ Covers normalized (strip_by is_slash (strip pattern))
unfolding allows
allows_iff normalized pattern =
    rw (rstrip-strip is_slash (strip pattern))
      (item_iff normalized (strip_by is_slash (strip pattern)))

-- A path is allowed where there are no patterns, or one of them covers it.
abbrev pub AnyCovers : Text → List Text → Type 0
AnyCovers normalized [] = ⊥
AnyCovers normalized (pattern ∷ patterns) =
    Covers normalized (strip_by is_slash (strip pattern)) ⊎ AnyCovers normalized patterns

any_allows_iff :
    (normalized : Text) (patterns : List Text)
    → (any_allows normalized patterns ≡ true) ↔ AnyCovers normalized patterns
unfolding any_allows
any_allows_iff normalized [] = (λ h. cc, λ h. elim h [ ])
any_allows_iff normalized (pattern ∷ patterns) =
    or_iff (allows normalized pattern) (any_allows normalized patterns)
      (allows_iff normalized pattern) (any_allows_iff normalized patterns)

abbrev pub IsAllowed : Text → List Text → Type 0
IsAllowed path [] = Unit
IsAllowed path (pattern ∷ patterns) = AnyCovers (strip_by is_slash path) (pattern ∷ patterns)

is_allowed_iff :
    (path : Text) (patterns : List Text)
    → (is_allowed path patterns ≡ true) ↔ IsAllowed path patterns
unfolding is_allowed
is_allowed_iff path [] = (λ h. tt, λ h. refl)
is_allowed_iff path (pattern ∷ patterns) =
    any_allows_iff (strip_by is_slash path) (pattern ∷ patterns)

-- What the guard asks of a changed path.
pub record InScope (path : Text) (allowed_paths : List Text) : Type 0 where
  pub relative : is_absolute path ≡ false
  pub no_traversal : ¬ Member (codes "..") (path_parts path)
  pub unblocked : Disjoint blocked_parts (path_parts path)
  pub harmless_name : ¬ Member (last_part (path_parts path)) sensitive_names
  pub harmless_parts : Disjoint sensitive_parts (path_parts path)
  pub allowed : IsAllowed path allowed_paths

is_sensitive_iff :
    (parts : List Text)
    → (is_sensitive parts ≡ false)
      ↔ ((¬ Member (last_part parts) sensitive_names) × Disjoint sensitive_parts parts)
unfolding is_sensitive
is_sensitive_iff parts =
    ground
      (arith, member_iff (last_part parts) sensitive_names, any_member_iff sensitive_parts parts)

module _ (path : Text) (allowed_paths : List Text) where
  validate_path_tests : (any_error (validate_path path allowed_paths) ≡ false) ↔ (
      (is_absolute path ≡ false)
      × (member (codes "..") (path_parts path) ≡ false)
      × (first_blocked blocked_parts (path_parts path) ≡ none)
      × (is_sensitive (path_parts path) ≡ false)
      × (is_allowed path allowed_paths ≡ true))
  unfolding validate_path any_error
  validate_path_tests = ground arith

  validate_path_iff :
      (any_error (validate_path path allowed_paths) ≡ false) ↔ InScope path allowed_paths
  validate_path_iff = (
    λ h.
        let t = validate_path_tests.0 h in
        record {
          relative = t.0;
          no_traversal = ground (arith, member_iff (codes "..") (path_parts path));
          unblocked = (first_blocked_iff blocked_parts (path_parts path)).0 t.2;
          harmless_name = ((is_sensitive_iff (path_parts path)).0 t.3).0;
          harmless_parts = ((is_sensitive_iff (path_parts path)).0 t.3).1;
          allowed = (is_allowed_iff path allowed_paths).0 t.4;
        },
    λ s. validate_path_tests.1 (
      s.relative,
      ground (arith, member_iff (codes "..") (path_parts path)),
      (first_blocked_iff blocked_parts (path_parts path)).1 s.unblocked,
      (is_sensitive_iff (path_parts path)).1 (s.harmless_name, s.harmless_parts),
      (is_allowed_iff path allowed_paths).1 s.allowed,
    ),
  )

any_error-append : (fs gs : List Finding) → any_error (fs ++ gs) ≡ (any_error fs || any_error gs)
unfolding any_error
any_error-append [] gs = refl
any_error-append (f ∷ fs) gs = ground (arith, any_error-append fs gs)

-- Every path of the list is in scope.
abbrev AllInScope : List Text → List Text → Type 0
AllInScope paths allowed_paths = (path : Text) → Member path paths → InScope path allowed_paths

validate_all_iff :
    (paths allowed_paths : List Text)
    → (any_error (validate_all paths allowed_paths) ≡ false) ↔ AllInScope paths allowed_paths
unfolding validate_all
validate_all_iff [] allowed_paths = (λ h path m. elim m [ ], λ h. unfold any_error in refl)
validate_all_iff (x ∷ paths) allowed_paths =
    let both =
      or_false_iff (any_error (validate_path x allowed_paths))
        (any_error (validate_all paths allowed_paths)) (validate_path_iff x allowed_paths)
        (validate_all_iff paths allowed_paths) in
    rw (any_error-append (validate_path x allowed_paths) (validate_all paths allowed_paths)) (
      λ h path. elim [ inl e ↦ rw (← e) (both.0 h).0 | inr m ↦ (both.0 h).1 path m ],
      λ all. both.1 (all x (inl refl), λ path m. all path (inr m)),
    )

no_files_harmless : (paths : List Text) → any_error (no_files_finding paths) ≡ false
unfolding no_files_finding any_error
no_files_harmless [] = refl
no_files_harmless (x ∷ xs) = refl

verdict_iff :
    (paths allowed_paths : List Text)
    → ((report paths allowed_paths
          (validate_all paths allowed_paths ++ no_files_finding paths)).status
        ≡ pass)
      ↔ AllInScope paths allowed_paths
unfolding report
verdict_iff paths allowed_paths =
    let found = validate_all_iff paths allowed_paths in
    rw (any_error-append (validate_all paths allowed_paths) (no_files_finding paths)) (
      λ h. found.0 (ground (arith, no_files_harmless paths)),
      λ all. ground (arith, no_files_harmless paths, found.1 all),
    )

Member-drop_dev_null :
    (path : Text) (paths : List Text)
    → Member path (drop_dev_null paths) ↔ (Member path paths × (path ≢ codes "/dev/null"))
unfolding drop_dev_null
Member-drop_dev_null path [] = (λ h. elim h [ ], λ h. h.0)
Member-drop_dev_null path (x ∷ xs) =
    ground (arith, Member-drop_dev_null path xs, text_eq_iff x (codes "/dev/null"))

-- A line of a diff names a path.
abbrev pub NamedBy : Text → Text → Type 0
NamedBy line path = Member path (header_paths line) × (path ≢ codes "/dev/null")

Member-touched_in :
    (path : Text) (ls : List Text)
    → Member path (touched_in ls) ↔ ((line : Text) × Member line ls × NamedBy line path)
unfolding touched_in
Member-touched_in path [] = (λ h. elim h [ ], λ h. h.1)
Member-touched_in path (l ∷ ls) =
    let split = Member-append path (drop_dev_null (header_paths l)) (touched_in ls) in
    let here = Member-drop_dev_null path (header_paths l) in
    let rest = Member-touched_in path ls in
    (
      λ h. elim (split.0 h) [
        | inl m ↦ (l, inl refl, here.0 m)
        | inr m ↦ ((rest.0 m).0, inr (rest.0 m).1, (rest.0 m).2)
      ],
      λ (line, among, named). split.1 (elim among [
        | inl e ↦ inl (here.1 (rw e named))
        | inr m ↦ inr (rest.1 (line, m, named))
      ]),
    )

-- `validate_diff` passes a diff exactly when every path that a header line of it names ("diff
-- --git", "---" or "+++", "/dev/null" excepted) is in scope: relative, with no "..", no blocked
-- component, no credential name or directory, and covered by the allowed paths if there are any.
pub pass_iff :
    (text : Text) (allowed_paths : List Text)
    → ((validate_diff text allowed_paths).status ≡ pass) ↔ (
        (line path : Text)
        → Member line (lines text)
        → NamedBy line path
        → InScope path allowed_paths)
unfolding validate_diff changed_files_from_diff
pass_iff text allowed_paths =
    let verdict = verdict_iff (sorted_set (touched_in (lines text))) allowed_paths in
    (
      λ h line path among named. verdict.0 h path (
          (Member-sorted_set path (touched_in (lines text))).1
            ((Member-touched_in path (lines text)).1 (line, among, named))),
      λ all. verdict.1 λ path m.
          let (line, among, named) =
            (Member-touched_in path (lines text)).0
              ((Member-sorted_set path (touched_in (lines text))).0 m) in
          all line path among named,
    )
