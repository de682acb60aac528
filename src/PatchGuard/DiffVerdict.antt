-- ===== src/PatchGuard/DiffVerdict.antt =====
-- What the verdict on a unified diff of scripts/a9_patch_guard.py means.
use a.Prelude.{false, List, [], ◌∷◌, ◌≡◌, ◌≢◌, refl, ◌↔◌, inl, arith}
use a.Text.{Text, is_empty}
use a.Text.Lines.{lines}
use a.Paths.{pass}
use a.Paths.Order.{Member}
use a.PatchGuard.{any_error, Tree}
use a.PatchGuard.SafePath.{any_error-append, Reaches}
use a.PatchGuard.Validate.{
  report, when, DiffState, read_lines, closing_findings, validate_unified_diff,
}
use a.PatchGuard.DiffLines.{
  Names, OpensHunk, Changes, Some, read_lines-Told, read_lines-touched, read_lines-hunk_count,
  read_lines-change_count,
}

module _ (tree : Tree) where
  closing_findings_iff :
      (s : DiffState)
      → (any_error (closing_findings s) ≡ false)
        ↔ ((is_empty s.touched ≡ false) × (s.hunk_count ≢ 0) × (s.change_count ≢ 0))
  unfolding closing_findings when any_error
  closing_findings_iff s = ground arith

  touched_iff :
      (ls : List Text)
      → (is_empty (read_lines tree ls).touched ≡ false)
        ↔ Some (λ line. (path : Text) × Names line path) ls
  touched_iff ls = (
    λ h.
        let (path, m) = first (read_lines tree ls).touched h in
        let (line, among, named) = (read_lines-touched tree path ls).0 m in
        (line, among, (path, named)),
    λ (line, among, (path, named)).
        filled path (read_lines tree ls).touched
          ((read_lines-touched tree path ls).1 (line, among, named)),
  )
    where
      first : (ps : List Text) → is_empty ps ≡ false → (path : Text) × Member path ps
      first [] h = absurd (ground arith)
      first (p ∷ ps) h = (p, inl refl)

      filled : (path : Text) (ps : List Text) → Member path ps → is_empty ps ≡ false
      filled path [] m = elim m [ ]
      filled path (p ∷ ps) m = refl

-- `validate_unified_diff` passes a diff exactly when a header line names a path, a line opens a
-- hunk and a line adds or removes, and every path that a header names ("/dev/null" excepted) is
-- safe and leads to a place under the root.
pub validate_unified_diff_iff :
    (text : Text) (tree : Tree)
    → ((validate_unified_diff text tree).status ≡ pass) ↔ (
        Some (λ line. (path : Text) × Names line path) (lines text)
        × Some OpensHunk (lines text)
        × Some Changes (lines text)
        × ((line path : Text)
            → Member line (lines text)
            → Names line path
            → (place : List Text) × Reaches tree path place))
unfolding validate_unified_diff report
validate_unified_diff_iff text tree =
    let ls = lines text in
    let s = read_lines tree ls in
    let told = read_lines-Told tree ls in
    let close = closing_findings_iff tree s in
    rw (any_error-append s.findings (closing_findings s)) (
      λ h.
          let parts = close.0 (ground arith) in
          let all = told.0 (ground arith) in
          (
            (touched_iff tree ls).0 parts.0,
            (read_lines-hunk_count tree ls).0 parts.1,
            (read_lines-change_count tree ls).0 parts.2,
            λ line path among named.
                all path ((read_lines-touched tree path ls).1 (line, among, named)),
          ),
      λ (named, opened, changed, all).
          let clean = told.1 λ path m.
            let (line, among, names) = (read_lines-touched tree path ls).0 m in
            all line path among names in
          let closed = close.1 (
            (touched_iff tree ls).1 named,
            (read_lines-hunk_count tree ls).1 opened,
            (read_lines-change_count tree ls).1 changed,
          ) in
          ground arith,
    )
