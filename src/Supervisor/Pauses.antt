-- ===== src/Supervisor/Pauses.antt =====
-- When the control of the runtime in scripts/a9_supervisor.py holds the next task back.
use mathlib.Core.Bool.{false≢true}
use a.Prelude.{
  String, ◌≡◌, ◌≢◌, ◌↔◌, ◌⊎◌, inl, inr, refl, sym, ap, ◌∙◌, Bool, true, false, ◌||◌, none, List, [],
  ◌∷◌, ◌++◌, if◌then◌else◌, str_eq, arith, Bool-cases, Option-cases, All,
}
use a.Text.{Text, codes, text_eq}
use a.Flow.{FlowState}
use a.Supervisor.Control.{
  Command, ControlFile, World, runtime_control_state, runtime_control_paused,
  runtime_control_blocks_claim, missing,
}
use a.Supervisor.Effects.{
  Effect, action_of, apply_monitor_intervention_effect, apply_monitor_approval_effect, set_paused,
  queue_task, record_decision, without_contract, or_number,
}

-- What a command asks of the runtime: to pause, to go on, or neither.
abbrev pub switched : Command → Bool → Bool
switched c paused =
    if text_eq (action_of c) (codes "pause")
    then true
    else if text_eq (action_of c) (codes "resume")
    then false
    else paused

abbrev pub IsPause : Command → Type 0
IsPause c = text_eq (action_of c) (codes "pause") ≡ true

abbrev pub IsResume : Command → Type 0
IsResume c = text_eq (action_of c) (codes "resume") ≡ true

abbrev switched_all : List Command → Bool → Bool
switched_all [] paused = paused
switched_all (c ∷ cs) paused = switched_all cs (switched c paused)

abbrev is_paused : Effect × World → Bool
is_paused x = runtime_control_paused x.1.file

chosen_switches :
    (p r a b d paused : Bool) (x1 x2 x3 x4 x5 x6 : Effect × World)
    → is_paused x1 ≡ true
    → is_paused x2 ≡ false
    → is_paused x3 ≡ paused
    → is_paused x4 ≡ paused
    → is_paused x5 ≡ paused
    → is_paused x6 ≡ paused
    → is_paused (
        if p
        then x1
        else if r
        then x2
        else if a
        then x3
        else if b
        then x4
        else if d
        then x5
        else x6)
      ≡ (if p then true else if r then false else paused)
chosen_switches true r a b d paused x1 x2 x3 x4 x5 x6 h1 h2 h3 h4 h5 h6 = h1
chosen_switches false true a b d paused x1 x2 x3 x4 x5 x6 h1 h2 h3 h4 h5 h6 = h2
chosen_switches false false true b d paused x1 x2 x3 x4 x5 x6 h1 h2 h3 h4 h5 h6 = h3
chosen_switches false false false true d paused x1 x2 x3 x4 x5 x6 h1 h2 h3 h4 h5 h6 = h4
chosen_switches false false false false true paused x1 x2 x3 x4 x5 x6 h1 h2 h3 h4 h5 h6 = h5
chosen_switches false false false false false paused x1 x2 x3 x4 x5 x6 h1 h2 h3 h4 h5 h6 = h6

-- A pause behind which the runtime was not told to go on.
abbrev pub IsOnHold : List Command → Type 0
IsOnHold cs =
    (older newer : List Command) × (c : Command) × (cs ≡ older ++ c ∷ newer)
    × IsPause c
    × All (λ d. ¬ IsResume d) newer

stays_paused : (cs : List Command) → All (λ d. ¬ IsResume d) cs → switched_all cs true ≡ true
stays_paused [] h = refl
stays_paused (c ∷ cs) h = elim (Bool-cases (text_eq (action_of c) (codes "pause"))) [
  | inl pause ↦ rw pause (stays_paused cs h.1)
  | inr other ↦ elim (Bool-cases (text_eq (action_of c) (codes "resume"))) [
    | inl resume ↦ absurd (h.0 resume)
    | inr neither ↦ rw other (rw neither (stays_paused cs h.1))
  ]
]

switched_all-append :
    (xs ys : List Command) (paused : Bool)
    → switched_all (xs ++ ys) paused ≡ switched_all ys (switched_all xs paused)
switched_all-append [] ys paused = refl
switched_all-append (c ∷ xs) ys paused = switched_all-append xs ys (switched c paused)

add_older : (c : Command) (cs : List Command) → IsOnHold cs → IsOnHold (c ∷ cs)
add_older c cs (older, newer, d, split, pause, later) =
    (c ∷ older, newer, d, ap (λ xs. c ∷ xs) split, pause, later)

-- Paused behind these commands: one of them was the last pause, or it was paused before.
hold_of :
    (cs : List Command) (paused : Bool)
    → switched_all cs paused ≡ true
    → IsOnHold cs ⊎ ((paused ≡ true) × All (λ d. ¬ IsResume d) cs)
hold_of [] paused h = inr (h, tt)
hold_of (c ∷ cs) paused h = elim (hold_of cs (switched c paused) h) [
  | inl held ↦ inl (add_older c cs held)
  | inr (on, later) ↦ elim (Bool-cases (text_eq (action_of c) (codes "pause"))) [
    | inl pause ↦ inl ([], cs, c, refl, pause, later)
    | inr other ↦ elim (Bool-cases (text_eq (action_of c) (codes "resume"))) [
      | inl resume ↦ absurd (ground (arith, on))
      | inr neither ↦ inr (ground (arith, on), ((λ r. false≢true (sym neither ∙ r)), later))
    ]
  ]
]

module _ (encode : FlowState → Text) (available : Bool) (now : String) where
  -- The commands in order.
  unfoldable pub apply_all : List Command → World → World
  unfolding apply_monitor_intervention_effect
  apply_all [] w = w
  apply_all (c ∷ cs) w = apply_all cs (apply_monitor_intervention_effect encode available now c w).1

  approval_keeps :
      (c : Command) (action : Text) (w : World)
      → runtime_control_paused
          (apply_monitor_approval_effect encode available now c action w).1.file
        ≡ runtime_control_paused w.file
  unfolding apply_monitor_approval_effect without_contract runtime_control_paused
      runtime_control_state
  approval_keeps c action w = elim (Bool-cases (str_eq c.flow_id "")) [
    | inl blank ↦ rw blank refl
    | inr named ↦ elim (Option-cases (or_number c.flow_expected_revision c.expected_revision)) [
      | inl unknown ↦ rw named (rw unknown refl)
      | inr (expected, given) ↦ rw named (rw given refl)
    ]
  ]

  effect_switches :
      (c : Command) (w : World)
      → runtime_control_paused (apply_monitor_intervention_effect encode available now c w).1.file
        ≡ switched c (runtime_control_paused w.file)
  unfolding apply_monitor_intervention_effect set_paused queue_task record_decision
      runtime_control_paused runtime_control_state
  effect_switches c w =
      let action = action_of c in
      chosen_switches (text_eq action (codes "pause")) (text_eq action (codes "resume"))
        (text_eq action (codes "repair")) (text_eq action (codes "route_to_debate"))
        (text_eq action (codes "approve") || text_eq action (codes "reject"))
        (runtime_control_paused w.file) _ _ _ _
        (apply_monitor_approval_effect encode available now c action w) _ refl refl refl refl
        (approval_keeps c action w) refl

  apply_all-switched :
      (cs : List Command) (w : World)
      → runtime_control_paused (apply_all cs w).file
        ≡ switched_all cs (runtime_control_paused w.file)
  unfolding apply_all
  apply_all-switched [] w = refl
  apply_all-switched (c ∷ cs) w =
      apply_all-switched cs (apply_monitor_intervention_effect encode available now c w).1
      ∙ ap (switched_all cs) (effect_switches c w)

blocks_iff :
    (file : ControlFile)
    → (runtime_control_blocks_claim file ≢ none) ↔ (runtime_control_paused file ≡ true)
unfolding runtime_control_blocks_claim runtime_control_paused
blocks_iff file = elim (Bool-cases (runtime_control_state file).paused) [
  | inl on ↦ rw on ((λ h. refl), (λ h e. absurd cc))
  | inr off ↦ rw off ((λ h. absurd (h refl)), (λ h. absurd (false≢true h)))
]

-- From a missing file on, whatever the monitor commands: the next task is held back exactly where a
-- pause was commanded and none of the commands behind it was to resume.
pub blocks_claim_iff :
    (encode : FlowState → Text) (available : Bool) (now : String) (commands : List Command)
    (w : World)
    → w.file ≡ missing
    → (runtime_control_blocks_claim (apply_all encode available now commands w).file ≢ none)
      ↔ IsOnHold commands
unfolding runtime_control_paused runtime_control_state
blocks_claim_iff encode available now commands w fresh =
    let file = (apply_all encode available now commands w).file in
    let start : runtime_control_paused w.file ≡ false = rw fresh refl in
    let run =
      apply_all-switched encode available now commands w ∙ ap (switched_all commands) start in
    let blocked = blocks_iff file in
    (
      (λ h. elim (hold_of commands false (sym run ∙ blocked.0 h)) [
        | inl held ↦ held
        | inr before ↦ absurd (false≢true before.0)
      ]),
      (λ (older, newer, c, split, pause, later). blocked.1 (
          run
          ∙ rw split (
              rw (switched_all-append older (c ∷ newer) false)
                (rw pause (stays_paused newer later))))),
    )
