-- ===== src/Supervisor/Trips.antt =====
-- When the guard of the loop over tasks in scripts/a9_supervisor.py stops it.
use mathlib.Core.Path.{subst}
use a.Prelude.{
  ◌==◌, ℕ, zero, suc, ◌+◌, ◌≤◌, ◌<◌, ◌≡◌, ◌≢◌, ◌↔◌, ◌⊎◌, inl, inr, refl, sym, ap, true, false,
  Option, none, some, List, [], ◌∷◌, ◌++◌, if◌then◌else◌, str_eq, eq_iff, arith, Bool-cases, All,
  length, leb,
}
use a.Text.{strip_by, is_space, Text, codes, text_eq}
use a.Supervisor.AutoLoop.{
  Summary, Guard, Setting, auto_loop_failure_limit, auto_loop_guard_mode, auto_loop_failure_kind,
  previous_failures, update_auto_loop_guard, auto_loop_guard_blocks_next,
}

-- A run that the guard counts.
abbrev pub IsFailure : Summary → Type 0
IsFailure s = auto_loop_failure_kind s ≢ ""

-- The guard's file after these runs.
unfoldable pub guard_after : ℕ → Text → List Summary → Option Guard → Option Guard
unfolding update_auto_loop_guard
guard_after limit mode [] file = file
guard_after limit mode (s ∷ ss) file =
    guard_after limit mode ss (some (update_auto_loop_guard limit mode s file))

-- The count behind these runs.
unfoldable counted : List Summary → ℕ → ℕ
counted [] n = n
counted (s ∷ ss) n =
    let failed = counted ss (n + 1) in
    let restarted = counted ss 0 in
    if str_eq (auto_loop_failure_kind s) "" then restarted else failed

-- What the guard's file holds: the mode, the limit, and whether the count is at the limit.
abbrev Holds : ℕ → Text → ℕ → Guard → Type 0
Holds limit mode n guard =
    (guard.mode ≡ mode)
    × (guard.consecutive_failures ≡ n)
    × ((str_eq guard.status "tripped" ≡ true) ↔ (limit ≤ n))

tripped_iff :
    (limit n : ℕ)
    → (str_eq (if leb limit n then "tripped" else "watching") "tripped" ≡ true) ↔ (limit ≤ n)
tripped_iff limit n = elim (Bool-cases (leb limit n)) [
  | inl reached ↦ rw reached ((λ h. ground arith), (λ h. refl))
  | inr below ↦ rw below ((λ h. absurd cc), (λ h. absurd (ground arith)))
]

update-Holds :
    (limit : ℕ) (mode : Text) (s : Summary) (file : Option Guard)
    → 1 ≤ limit
    → Holds limit mode
        (if str_eq (auto_loop_failure_kind s) "" then 0 else previous_failures file + 1)
        (update_auto_loop_guard limit mode s file)
unfolding update_auto_loop_guard
update-Holds limit mode s file h = elim (Bool-cases (str_eq (auto_loop_failure_kind s) "")) [
  | inl passed ↦ rw passed (refl, refl, ((λ e. absurd cc), (λ e. absurd (ground arith))))
  | inr failed ↦ rw failed (refl, refl, tripped_iff limit (previous_failures file + 1))
]

abbrev HoldsFile : ℕ → Text → ℕ → Option Guard → Type 0
HoldsFile limit mode n none = n ≡ 0
HoldsFile limit mode n (some guard) = Holds limit mode n guard

HoldsFile-previous_failures :
    (limit : ℕ) (mode : Text) (n : ℕ) (file : Option Guard)
    → HoldsFile limit mode n file
    → previous_failures file ≡ n
unfolding previous_failures
HoldsFile-previous_failures limit mode n none h = sym h
HoldsFile-previous_failures limit mode n (some guard) h = h.1

counted_next :
    (s : Summary) (ss : List Summary) (n : ℕ)
    → counted ss (if str_eq (auto_loop_failure_kind s) "" then 0 else n + 1) ≡ counted (s ∷ ss) n
unfolding counted
counted_next s ss n = ground arith

guard_after-HoldsFile :
    (limit : ℕ) (mode : Text) (ss : List Summary) (file : Option Guard) (n : ℕ)
    → 1 ≤ limit
    → HoldsFile limit mode n file
    → HoldsFile limit mode (counted ss n) (guard_after limit mode ss file)
unfolding guard_after counted
guard_after-HoldsFile limit mode [] file n h hf = hf
guard_after-HoldsFile limit mode (s ∷ ss) file n h hf =
    let next : Option Guard = some (update_auto_loop_guard limit mode s file) in
    let held =
      subst
        (λ m.
          Holds limit mode (if str_eq (auto_loop_failure_kind s) "" then 0 else m + 1)
            (update_auto_loop_guard limit mode s file))
        (HoldsFile-previous_failures limit mode n file hf) (update-Holds limit mode s file h) in
    subst (λ m. HoldsFile limit mode m (guard_after limit mode ss next)) (counted_next s ss n)
      (guard_after-HoldsFile limit mode ss next
        (if str_eq (auto_loop_failure_kind s) "" then 0 else n + 1) h held)

-- The last runs, so many, were all counted.
abbrev pub LastFailed : ℕ → List Summary → Type 0
LastFailed n ss =
    (older recent : List Summary) × (ss ≡ older ++ recent)
    × (length recent ≡ n)
    × All IsFailure recent

counted-add :
    (recent : List Summary) (n : ℕ) → All IsFailure recent → counted recent n ≡ n + length recent
unfolding counted
counted-add [] n h = omega arith
counted-add (s ∷ recent) n h =
    ground (arith, h.0, eq_iff (auto_loop_failure_kind s) "", counted-add recent (n + 1) h.1)

counted-append :
    (older recent : List Summary) (n : ℕ)
    → counted (older ++ recent) n ≡ counted recent (counted older n)
unfolding counted
counted-append [] recent n = refl
counted-append (s ∷ older) recent n =
    ground (arith, counted-append older recent (n + 1), counted-append older recent 0)

add_older : (k : ℕ) (s : Summary) (ss : List Summary) → LastFailed k ss → LastFailed k (s ∷ ss)
add_older k s ss (older, recent, split, size, failed) =
    (s ∷ older, recent, ap (λ xs. s ∷ xs) split, size, failed)

-- All the runs failed, fewer than so many.
abbrev FailedFewer : ℕ → ℕ → List Summary → Type 0
FailedFewer k n ss = All IsFailure ss × (counted ss n ≡ n + length ss) × (length ss < k)

counted-LastFailed :
    (ss : List Summary) (n k : ℕ) → k ≤ counted ss n → LastFailed k ss ⊎ FailedFewer k n ss
unfolding counted
counted-LastFailed [] n zero h = inl ([], [], refl, refl, tt)
counted-LastFailed [] n (suc k) h = inr (tt, omega arith, omega arith)
counted-LastFailed (s ∷ ss) n k h = elim (Bool-cases (str_eq (auto_loop_failure_kind s) "")) [
  | inl passed ↦ elim (counted-LastFailed ss 0 k (ground arith)) [
    | inl split ↦ inl (add_older k s ss split)
    | inr fewer ↦ absurd (ground (arith, fewer.1, fewer.2))
  ]
  | inr failed ↦
      let fails : IsFailure s =
        λ e. absurd (ground (arith, eq_iff (auto_loop_failure_kind s) "")) in
      elim (counted-LastFailed ss (n + 1) k (ground arith)) [
        | inl split ↦ inl (add_older k s ss split)
        | inr (all, count, less) ↦ elim (Bool-cases (k == suc (length ss))) [
          | inl exact ↦ inl ([], s ∷ ss, refl, ground arith, (fails, all))
          | inr other ↦ inr ((fails, all), ground arith, ground arith)
        ]
      ]
]

LastFailed-iff : (ss : List Summary) (k : ℕ) → (k ≤ counted ss 0) ↔ LastFailed k ss
LastFailed-iff ss k = (
  (λ h. elim (counted-LastFailed ss 0 k h) [
    | inl split ↦ split
    | inr (all, count, less) ↦ absurd (omega (arith, count, less, h))
  ]),
  (λ (older, recent, split, size, failed). rw split (
      rw (counted-append older recent 0)
        (rw (counted-add recent (counted older 0) failed) (omega (arith, size))))),
)

failure_limit_positive : (setting : Setting) → 1 ≤ auto_loop_failure_limit setting
unfolding auto_loop_failure_limit
failure_limit_positive Setting.unset = omega arith
failure_limit_positive Setting.unreadable = omega arith
failure_limit_positive Setting.negative = omega arith
failure_limit_positive (Setting.number value) = ground arith

enforced_or_observed :
    (value : Text)
    → (auto_loop_guard_mode value ≡ codes "enforce")
      ⊎ (auto_loop_guard_mode value ≡ codes "observe")
unfolding auto_loop_guard_mode
enforced_or_observed value = ground arith

blocks_enforced :
    (default : Text) (limit n : ℕ) (file : Option Guard)
    → 1 ≤ limit
    → HoldsFile limit (codes "enforce") n file
    → (auto_loop_guard_blocks_next default file ≡ true) ↔ (limit ≤ n)
unfolding auto_loop_guard_blocks_next text_eq is_space strip_by
blocks_enforced default limit n none h held = ground (arith, held)
blocks_enforced default limit n (some guard) h (mode, count, tripped) = rw mode tripped

blocks_observed :
    (default : Text) (limit n : ℕ) (file : Option Guard)
    → HoldsFile limit (codes "observe") n file
    → auto_loop_guard_blocks_next default file ≡ false
unfolding auto_loop_guard_blocks_next text_eq is_space strip_by
blocks_observed default limit n none held = refl
blocks_observed default limit n (some guard) (mode, count, tripped) = rw mode refl

-- From a loop without a guard's file, the next task is held back exactly where the mode is to
-- enforce and the last runs, as many as the limit of failures, all failed.
pub blocks_next_iff :
    (setting : Setting) (value : Text) (runs : List Summary)
    → (auto_loop_guard_blocks_next
          (auto_loop_guard_mode value)
          (guard_after (auto_loop_failure_limit setting) (auto_loop_guard_mode value) runs none)
        ≡ true)
      ↔ ((auto_loop_guard_mode value ≡ codes "enforce")
          × LastFailed (auto_loop_failure_limit setting) runs)
blocks_next_iff setting value runs =
    let limit = auto_loop_failure_limit setting in
    let positive = failure_limit_positive setting in
    let held = λ (mode : Text). guard_after-HoldsFile limit mode runs none 0 positive refl in
    elim (enforced_or_observed value) [
      | inl enforced ↦ rw enforced (
          ground (
            arith,
            blocks_enforced (codes "enforce") limit _ _ positive (held (codes "enforce")),
            LastFailed-iff runs limit,
          ))
      | inr observed ↦ rw observed (
        (λ h. absurd (
            ground
              (arith, h, blocks_observed (codes "observe") limit _ _ (held (codes "observe"))))),
        (λ h. absurd (ground (arith, h.0))),
      )
    ]
