-- ===== src/PatchGuard/DiffLines.antt =====
-- What the loop of `validate_unified_diff` (scripts/a9_patch_guard.py) gathers.
use a.Prelude.{
  ◌+◌, Bool, true, false, ◌||◌, List, [], ◌∷◌, ◌++◌, ◌≡◌, ◌≢◌, refl, ◌⊎◌, ◌↔◌, inl, inr, arith,
  if◌then◌else◌, Bool-cases,
}
use mathlib.Core.Path.{subst}
use a.Text.{Text, codes, text_eq, text_eq_iff, starts_with, drop}
use a.Paths.{normalize_diff_path}
use a.Paths.Order.{Member}
use a.PatchGuard.{any_error, Tree, validate_rel_path}
use a.PatchGuard.SafePath.{any_error-append, Reaches, clean_iff}
use a.PatchGuard.Validate.{DiffState, touch, touch_all, git_paths, is_change, read_line, read_lines}

-- The paths that a line names in a header.
abbrev pub header_paths : Text → List Text
header_paths line =
    if starts_with line (codes "diff --git ")
    then git_paths line
    else if starts_with line (codes "--- ") || starts_with line (codes "+++ ")
    then normalize_diff_path (drop 4 line) ∷ []
    else []

abbrev is_header : Text → Bool
is_header line =
    starts_with line (codes "diff --git ")
    || starts_with line (codes "--- ")
    || starts_with line (codes "+++ ")

-- A line names a path; "/dev/null" does not count.
abbrev pub Names : Text → Text → Type 0
Names line path = Member path (header_paths line) × (path ≢ codes "/dev/null")

-- A line opens a hunk, or adds or removes in one.
abbrev pub OpensHunk : Text → Type 0
OpensHunk line = (is_header line ≡ false) × (starts_with line (codes "@@ ") ≡ true)

abbrev pub Changes : Text → Type 0
Changes line =
    (is_header line ≡ false) × (starts_with line (codes "@@ ") ≡ false) × (is_change line ≡ true)

-- A round of the loop in two steps: the paths of the line, then the line's count.
gather : Text → DiffState → DiffState
gather line s =
    if is_header line
    then s
    else if starts_with line (codes "@@ ")
    then record s { hunk_count = s.hunk_count + 1 }
    else if is_change line
    then record s { change_count = s.change_count + 1 }
    else s

module _ (line : Text) (s : DiffState) where
  gather-touched : ((gather line s).touched ≡ s.touched) × ((gather line s).findings ≡ s.findings)
  unfolding gather
  gather-touched = ground arith

  gather-hunk_count : ((gather line s).hunk_count ≢ 0) ↔ (OpensHunk line ⊎ (s.hunk_count ≢ 0))
  unfolding gather
  gather-hunk_count = ground arith

  gather-change_count : ((gather line s).change_count ≢ 0) ↔ (Changes line ⊎ (s.change_count ≢ 0))
  unfolding gather
  gather-change_count = ground arith

-- Some line has the property.
abbrev pub Some : (Text → Type 0) → List Text → Type 0
Some P ls = (line : Text) × Member line ls × P line

Some-cons :
    (P : Text → Type 0) (line : Text) (ls : List Text) → Some P (line ∷ ls) ↔ (P line ⊎ Some P ls)
Some-cons P line ls = (
  λ (x, m, p). elim m [ inl e ↦ inl (rw e p) | inr later ↦ inr (x, later, p) ],
  elim [ inl p ↦ (line, inl refl, p) | inr (x, m, p) ↦ (x, inr m, p) ],
)

chain : {A B C D E : Type 0} → A ↔ (B ⊎ C) → C ↔ D → E ↔ (B ⊎ D) → A ↔ E
chain f g h = (
  λ a. h.1 (elim (f.0 a) [ inl b ↦ inl b | inr c ↦ inr (g.0 c) ]),
  λ e. f.1 (elim (h.0 e) [ inl b ↦ inl b | inr d ↦ inr (g.1 d) ]),
)

module _ (tree : Tree) where
  read_line-gather :
      (line : Text) (s : DiffState)
      → read_line tree line s ≡ gather line (touch_all tree (header_paths line) s)
  unfolding read_line gather touch_all
  read_line-gather line s = elim (Bool-cases (starts_with line (codes "diff --git "))) [
    | inl git ↦ rw git refl
    | inr plain ↦
        elim (Bool-cases (starts_with line (codes "--- ") || starts_with line (codes "+++ "))) [
          | inl header ↦ rw (plain, header) refl
          | inr body ↦ rw (plain, body) refl
        ]
  ]

  touch_all-touched :
      (path : Text) (rels : List Text) (s : DiffState)
      → Member path (touch_all tree rels s).touched
        ↔ ((Member path rels × (path ≢ codes "/dev/null")) ⊎ Member path s.touched)
  unfolding touch_all touch
  touch_all-touched path [] s = (λ h. inr h, λ h. ground arith)
  touch_all-touched path (rel ∷ rels) s =
      ground (arith, touch_all-touched path rels s, text_eq_iff rel (codes "/dev/null"))

  touch_all-counts :
      (rels : List Text) (s : DiffState)
      → ((touch_all tree rels s).hunk_count ≡ s.hunk_count)
        × ((touch_all tree rels s).change_count ≡ s.change_count)
  unfolding touch_all touch
  touch_all-counts [] s = (refl, refl)
  touch_all-counts (rel ∷ rels) s = ground (arith, touch_all-counts rels s)

  -- The findings tell of the paths gathered.
  abbrev pub Told : DiffState → Type 0
  Told s =
      (any_error s.findings ≡ false)
      ↔ ((path : Text) → Member path s.touched → (at : List Text) × Reaches tree path at)

  touch-Told :
      (rel : Text) (s : DiffState)
      → rel ≢ codes "/dev/null"
      → Told s
      → Told (record s {
        touched = rel ∷ s.touched;
        findings = (validate_rel_path tree rel).1 ++ s.findings;
      })
  touch-Told rel s named h = rw (any_error-append (validate_rel_path tree rel).1 s.findings) (
    λ e path. elim [
      | inl here ↦ rw (← here) ((clean_iff tree rel named).0 (ground arith))
      | inr later ↦ h.0 (ground arith) path later
    ],
    λ all.
        let first = (clean_iff tree rel named).1 (all rel (inl refl)) in
        let others = h.1 (λ path later. all path (inr later)) in ground arith,
  )

  touch_all-Told : (rels : List Text) (s : DiffState) → Told s → Told (touch_all tree rels s)
  unfolding touch_all touch
  touch_all-Told [] s h = h
  touch_all-Told (rel ∷ rels) s h = elim (Bool-cases (text_eq rel (codes "/dev/null"))) [
    | inl null ↦ rw null (touch_all-Told rels s h)
    | inr named ↦ rw named (
        touch-Told rel (touch_all tree rels s)
          (λ e. ground (arith, text_eq_iff rel (codes "/dev/null"))) (touch_all-Told rels s h))
  ]

  pub read_lines-Told : (ls : List Text) → Told (read_lines tree ls)
  unfolding read_lines
  read_lines-Told [] = (λ h path m. elim m [ ], λ h. unfold any_error in refl)
  read_lines-Told (line ∷ ls) =
      let t = touch_all tree (header_paths line) (read_lines tree ls) in
      let same = gather-touched line t in
      rw (read_line-gather line (read_lines tree ls), same.0, same.1)
        (touch_all-Told (header_paths line) (read_lines tree ls) (read_lines-Told ls))

  read_line-touched :
      (path line : Text) (s : DiffState)
      → Member path (read_line tree line s).touched ↔ (Names line path ⊎ Member path s.touched)
  read_line-touched path line s =
      rw (read_line-gather line s, (gather-touched line (touch_all tree (header_paths line) s)).0)
        (touch_all-touched path (header_paths line) s)

  pub read_lines-touched :
      (path : Text) (ls : List Text)
      → Member path (read_lines tree ls).touched ↔ Some (λ line. Names line path) ls
  unfolding read_lines
  read_lines-touched path [] = (λ h. elim h [ ], λ h. h.1)
  read_lines-touched path (line ∷ ls) =
      chain (read_line-touched path line (read_lines tree ls)) (read_lines-touched path ls)
        (Some-cons (λ l. Names l path) line ls)

  read_line-hunk_count :
      (line : Text) (s : DiffState)
      → ((read_line tree line s).hunk_count ≢ 0) ↔ (OpensHunk line ⊎ (s.hunk_count ≢ 0))
  read_line-hunk_count line s =
      let t = touch_all tree (header_paths line) s in
      rw (read_line-gather line s) (
        subst (λ n. ((gather line t).hunk_count ≢ 0) ↔ (OpensHunk line ⊎ (n ≢ 0)))
          (touch_all-counts (header_paths line) s).0 (gather-hunk_count line t))

  read_line-change_count :
      (line : Text) (s : DiffState)
      → ((read_line tree line s).change_count ≢ 0) ↔ (Changes line ⊎ (s.change_count ≢ 0))
  read_line-change_count line s =
      let t = touch_all tree (header_paths line) s in
      rw (read_line-gather line s) (
        subst (λ n. ((gather line t).change_count ≢ 0) ↔ (Changes line ⊎ (n ≢ 0)))
          (touch_all-counts (header_paths line) s).1 (gather-change_count line t))

  pub read_lines-hunk_count :
      (ls : List Text) → ((read_lines tree ls).hunk_count ≢ 0) ↔ Some OpensHunk ls
  unfolding read_lines
  read_lines-hunk_count [] = (λ h. absurd (h refl), λ h. elim h.1 [ ])
  read_lines-hunk_count (line ∷ ls) =
      chain (read_line-hunk_count line (read_lines tree ls)) (read_lines-hunk_count ls)
        (Some-cons OpensHunk line ls)

  pub read_lines-change_count :
      (ls : List Text) → ((read_lines tree ls).change_count ≢ 0) ↔ Some Changes ls
  unfolding read_lines
  read_lines-change_count [] = (λ h. absurd (h refl), λ h. elim h.1 [ ])
  read_lines-change_count (line ∷ ls) =
      chain (read_line-change_count line (read_lines tree ls)) (read_lines-change_count ls)
        (Some-cons Changes line ls)
