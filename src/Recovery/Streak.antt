-- ===== src/Recovery/Streak.antt =====
-- When scripts/a9_recovery_loop.py suggests a repair.
use mathlib.Core.Bool.{false≢true}
use a.Prelude.{
  ℕ, ◌≤◌, ◌≡◌, ◌≢◌, ◌↔◌, inl, inr, refl, sym, ◌∙◌, Bool, true, false, Option, some, List, [], ◌∷◌,
  ◌++◌, leb, arith, Bool-cases,
}
use a.Text.{Text, codes, text_eq, text_eq_iff}
use a.Recovery.{
  Observed, Observation, Suggestion, key_of, needs_review, same_key, recommendation_of,
  communication_observation_update, communication_repair_suggestions_update,
}

-- The file after these results, the latest last.
unfoldable pub observe_all : List Observed → Option Observation → Option Observation
unfolding communication_observation_update
observe_all [] file = file
observe_all (r ∷ results) file =
    observe_all results (some (communication_observation_update r file))

observe_all-append :
    (xs ys : List Observed) (file : Option Observation)
    → observe_all (xs ++ ys) file ≡ observe_all ys (observe_all xs file)
unfolding observe_all
observe_all-append [] ys file = refl
observe_all-append (r ∷ xs) ys file =
    observe_all-append xs ys (some (communication_observation_update r file))

-- The suggestions pending behind a result, where the file held what was observed before it.
abbrev pub pending_after : Observed → Option Observation → List Suggestion
pending_after r file =
    communication_repair_suggestions_update (communication_observation_update r file) r

streak_positive :
    (r : Observed) (file : Option Observation)
    → 1 ≤ (communication_observation_update r file).streak
unfolding communication_observation_update
streak_positive r file = ground arith

key_kept :
    (r : Observed) (file : Option Observation)
    → (communication_observation_update r file).current_key ≡ key_of r
unfolding communication_observation_update
key_kept r file = refl

same_key_iff :
    (key : Text) (r : Observed) (file : Option Observation)
    → (same_key key (some (communication_observation_update r file)) ≡ true) ↔ (key_of r ≡ key)
unfolding same_key communication_observation_update
same_key_iff key r file = text_eq_iff (key_of r) key

pending_iff :
    (review : Bool) (streak : ℕ)
    → (text_eq (recommendation_of review streak) (codes "candidate_for_repair_one") ≡ true)
      ↔ ((review ≡ true) × (2 ≤ streak))
unfolding text_eq
pending_iff false streak = ((λ h. absurd (false≢true h)), (λ h. absurd (false≢true h.0)))
pending_iff true streak = elim (Bool-cases (leb 2 streak)) [
  | inl enough ↦ rw enough ((λ h. (refl, ground arith)), (λ h. refl))
  | inr few ↦ rw few ((λ h. absurd (false≢true h)), (λ h. absurd (ground (arith, h.1))))
]

recommended_iff :
    (r : Observed) (file : Option Observation)
    → (text_eq
          (communication_observation_update r file).recommendation
          (codes "candidate_for_repair_one")
        ≡ true)
      ↔ ((needs_review r ≡ true) × (2 ≤ (communication_observation_update r file).streak))
unfolding communication_observation_update
recommended_iff r file =
    pending_iff (needs_review r) (communication_observation_update r file).streak

streak_iff :
    (r : Observed) (before : Observed) (file : Option Observation)
    → (2
        ≤ (communication_observation_update r
            (some (communication_observation_update before file))).streak)
      ↔ (key_of before ≡ key_of r)
unfolding communication_observation_update
streak_iff r before file =
    let last = communication_observation_update before file in
    let positive = streak_positive before file in
    let same = same_key_iff (key_of r) before file in
    elim (Bool-cases (same_key (key_of r) (some last))) [
      | inl kept ↦ rw kept ((λ h. same.0 kept), (λ h. omega (arith, positive)))
      | inr new ↦
          rw new ((λ h. absurd (omega (arith, h))), (λ h. absurd (false≢true (sym new ∙ same.1 h))))
    ]

suggested_iff :
    (o : Observation) (r : Observed)
    → (communication_repair_suggestions_update o r ≢ [])
      ↔ (text_eq o.recommendation (codes "candidate_for_repair_one") ≡ true)
unfolding communication_repair_suggestions_update
suggested_iff o r =
    elim (Bool-cases (text_eq o.recommendation (codes "candidate_for_repair_one"))) [
      | inl candidate ↦ rw candidate ((λ h. refl), (λ h e. absurd cc))
      | inr other ↦ rw other ((λ h. absurd (h refl)), (λ h. absurd (false≢true h)))
    ]

pending_after_one :
    (before r : Observed) (file : Option Observation)
    → (pending_after r (some (communication_observation_update before file)) ≢ [])
      ↔ ((needs_review r ≡ true) × (key_of before ≡ key_of r))
pending_after_one before r file =
    let last = communication_observation_update before file in
    let o = communication_observation_update r (some last) in
    let suggested = suggested_iff o r in
    let recommended = recommended_iff r (some last) in
    let streak = streak_iff r before file in
    (
      (λ h. let found = recommended.0 (suggested.0 h) in (found.0, streak.0 found.1)),
      (λ h. suggested.1 (recommended.1 (h.0, streak.1 h.1))),
    )

-- A repair is suggested behind a result exactly where the result asks for a review and the result
-- before it, behind whatever results, had the same key: the source, the action and the plan's
-- status.
pub pending_after_iff :
    (older : List Observed) (before r : Observed) (file : Option Observation)
    → (pending_after r (observe_all (older ++ before ∷ []) file) ≢ [])
      ↔ ((needs_review r ≡ true) × (key_of before ≡ key_of r))
unfolding observe_all
pending_after_iff older before r file =
    rw (observe_all-append older (before ∷ []) file)
      (pending_after_one before r (observe_all older file))
