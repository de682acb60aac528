-- ===== src/Recovery/Loop.antt =====
-- The loop of scripts/a9_recovery_loop.py ends after the cycles it was given, and counts them.
use mathlib.Core.Bool.{false≢true}
use a.Prelude.{
  ℕ, zero, suc, ◌+◌, ◌≤◌, ◌<◌, ◌≡◌, ◌≢◌, ◌↔◌, ◌⊎◌, inl, inr, refl, sym, ◌∙◌, Bool, true, false, not,
  Option, none, some, [], ◌∷◌, if◌then◌else◌, ◌==◌, arith, Bool-cases,
}
use a.Text.{Text, codes, text_eq, text_eq_iff}
use a.Recovery.{or_text, is_fine, answered, unavailable, Reading, State, observed_of}
use a.Recovery.Cycle.{
  Progress, is_degraded, goes_on, recovery_cycle_once, round, loop_from, recovery_loop,
  summary_status,
}

-- What is read in a cycle is in order.
abbrev pub IsFine : Reading → Type 0
IsFine (answered plan cycle) =
    (cycle.status ≡ codes "ok")
    ⊎ ((cycle.status ≡ codes "needs_attention") ⊎ (cycle.status ≡ codes "blocked"))
IsFine (unavailable error) = ⊥

-- The cycles from `n` on, so many of them, are in order.
abbrev pub AreFine : (ℕ → Reading) → ℕ → ℕ → Type 0
AreFine read n zero = Unit
AreFine read n (suc m) = IsFine (read n) × AreFine read (n + 1) m

unknown_not_fine : is_fine (codes "unknown") ≢ true
unfolding text_eq
unknown_not_fine h = false≢true h

is_fine_iff :
    (status : Text)
    → (is_fine (or_text status (codes "unknown")) ≡ true)
      ↔ ((status ≡ codes "ok") ⊎ ((status ≡ codes "needs_attention") ⊎ (status ≡ codes "blocked")))
is_fine_iff [] = ((λ h. absurd (unknown_not_fine h)), (λ h. absurd (ground (arith, h))))
is_fine_iff (c ∷ s) = ground (
  arith,
  text_eq_iff (c ∷ s) (codes "ok"),
  text_eq_iff (c ∷ s) (codes "needs_attention"),
  text_eq_iff (c ∷ s) (codes "blocked"),
)

status_chosen :
    (fine : Bool)
    → (not (text_eq (if fine then codes "ok" else codes "degraded") (codes "ok")) ≡ false)
      ↔ (fine ≡ true)
unfolding text_eq
status_chosen true = ((λ h. refl), (λ h. refl))
status_chosen false = ((λ h. absurd (false≢true (sym h))), (λ h. absurd (false≢true h)))

summary_status_iff : (s : Progress) → (summary_status s ≡ codes "ok") ↔ (s.degraded ≡ 0)
unfolding summary_status
summary_status_iff s = elim (Bool-cases (s.degraded == 0)) [
  | inl none_is ↦ rw none_is ((λ h. ground arith), (λ h. refl))
  | inr some_are ↦ rw some_are ((λ h. absurd (ground (arith, h))), (λ h. absurd (ground arith)))
]

module _ (read : ℕ → Reading) (post : ℕ → Text → Text → Option Text) (now : ℕ → Text)
    (execute : Bool) where
  -- So many rounds.
  abbrev pub rounds : ℕ → Progress → Progress
  rounds zero s = s
  rounds (suc n) s = rounds n (round read post now execute s)

  -- The cycles from `n` on, so many of them, that are not ok.
  abbrev pub count_degraded : ℕ → ℕ → ℕ
  count_degraded n zero = 0
  count_degraded n (suc m) =
      let rest = count_degraded (n + 1) m in
      if is_degraded (observed_of execute (now n) (read n)) then rest + 1 else rest

  loop_from-rounds :
      (fuel left safe_max : ℕ) (s : Progress)
      → 0 < safe_max
      → s.iterations + left ≡ safe_max
      → left ≤ fuel
      → loop_from read post now fuel safe_max execute s ≡ some (rounds left s)
  unfolding loop_from goes_on round
  loop_from-rounds zero zero safe_max s pos h enough = ground arith
  loop_from-rounds zero (suc left) safe_max s pos h enough = absurd (omega (arith, enough))
  loop_from-rounds (suc fuel) zero safe_max s pos h enough = ground arith
  loop_from-rounds (suc fuel) (suc left) safe_max s pos h enough =
      ground (arith, loop_from-rounds fuel left safe_max (round read post now execute s) pos)

  rounds-degraded :
      (left : ℕ) (s : Progress)
      → ((rounds left s).degraded ≡ s.degraded + count_degraded s.iterations left)
        × ((rounds left s).iterations ≡ s.iterations + left)
  unfolding round recovery_cycle_once
  rounds-degraded zero s = (omega arith, omega arith)
  rounds-degraded (suc left) s =
      ground (arith, rounds-degraded left (round read post now execute s))

  endless : (fuel : ℕ) (s : Progress) → loop_from read post now fuel 0 execute s ≡ none
  unfolding loop_from goes_on
  endless zero s = refl
  endless (suc fuel) s = endless fuel (round read post now execute s)

  observed_of-IsFine :
      (at : Text) (r : Reading) → (is_degraded (observed_of execute at r) ≡ false) ↔ IsFine r
  unfolding observed_of
  observed_of-IsFine at (unavailable error) =
      ((λ h. absurd (false≢true ((status_chosen false).0 h))), (λ h. absurd h))
  observed_of-IsFine at (answered plan cycle) =
      let chosen = status_chosen (is_fine (or_text cycle.status (codes "unknown"))) in
      let fine = is_fine_iff cycle.status in
      ((λ h. fine.0 (chosen.0 h)), (λ h. chosen.1 (fine.1 h)))

  count_degraded-AreFine : (n m : ℕ) → (count_degraded n m ≡ 0) ↔ AreFine read n m
  count_degraded-AreFine n zero = ((λ h. tt), (λ h. refl))
  count_degraded-AreFine n (suc m) =
      ground (arith, count_degraded-AreFine (n + 1) m, observed_of-IsFine (now n) (read n))

-- The loop that is given a number of cycles returns, on as much fuel as cycles: it did so many, and
-- its status is "ok" exactly where the controller answered each of them in order.
pub recovery_loop-ends :
    (read : ℕ → Reading) (post : ℕ → Text → Text → Option Text) (now : ℕ → Text) (execute : Bool)
    (fuel safe_max : ℕ) (state : State)
    → 0 < safe_max
    → safe_max ≤ fuel
    → (end : Progress) × ((recovery_loop read post now fuel safe_max execute state ≡ some end)
        × (end.iterations ≡ safe_max)
        × ((summary_status end ≡ codes "ok") ↔ AreFine read 0 safe_max))
unfolding recovery_loop
recovery_loop-ends read post now execute fuel safe_max state pos enough =
    let start : Progress = record { iterations = 0; degraded = 0; state = state } in
    let count = rounds-degraded read post now execute safe_max start in
    (
      rounds read post now execute safe_max start,
      (
        loop_from-rounds read post now execute fuel safe_max safe_max start pos (omega arith)
            enough,
        count.1 ∙ omega arith,
        ground (
          arith,
          summary_status_iff (rounds read post now execute safe_max start),
          count_degraded-AreFine read post now execute 0 safe_max,
          count.0,
        ),
      ),
    )
