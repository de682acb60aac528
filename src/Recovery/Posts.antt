-- ===== src/Recovery/Posts.antt =====
-- What scripts/a9_recovery_loop.py sends to the controller.
use a.Prelude.{
  ℕ, zero, suc, ◌≡◌, refl, sym, ◌∙◌, inl, inr, Bool, true, false, Option, List, [], ◌++◌,
  Bool-cases, Option-cases, All, All-append, append-nil, append_assoc, ap,
}
use a.Text.{Text, text_eq, text_eq_iff}
use a.Recovery.{Reading, Observed, repair_one, observed_of}
use a.Recovery.Loop.{rounds}
use a.Recovery.Cycle.{
  Progress, execute_communication_route, execution_of, recovery_cycle_once, round,
}

-- A request for a repair.
abbrev pub IsRepair : Text × Text → Type 0
IsRepair request = request.0 ≡ repair_one

-- What may have been sent behind these requests: nothing where executing is off, else repairs.
abbrev pub MaySend : Bool → List (Text × Text) → List (Text × Text) → Type 0
MaySend false before after = after ≡ before
MaySend true before after =
    (sent : List (Text × Text)) × (after ≡ before ++ sent) × All IsRepair sent

MaySend-refl : (execute : Bool) (posts : List (Text × Text)) → MaySend execute posts posts
MaySend-refl false posts = refl
MaySend-refl true posts = ([], sym (append-nil posts), tt)

module _ (read : ℕ → Reading) (post : ℕ → Text → Text → Option Text) (now : ℕ → Text) where
  execute_communication_route-IsRepair :
      (cycle : ℕ) (r : Observed)
      → All IsRepair (execute_communication_route read post now cycle r).1
  unfolding execute_communication_route
  execute_communication_route-IsRepair cycle r = elim (Bool-cases (text_eq r.endpoint repair_one)) [
    | inl repair ↦
        let same = (text_eq_iff r.endpoint repair_one).0 repair in
        elim (Option-cases (post cycle r.endpoint r.payload)) [
          | inl lost ↦ rw repair (rw lost (same, tt))
          | inr (answer, answered_it) ↦ rw repair (rw answered_it (same, tt))
        ]
    | inr other ↦ rw other tt
  ]

  round-MaySend :
      (execute : Bool) (s : Progress)
      → MaySend execute s.state.posts (round read post now execute s).state.posts
  unfolding round recovery_cycle_once execution_of
  round-MaySend false s = append-nil s.state.posts
  round-MaySend true s =
      let r = observed_of true (now s.iterations) (read s.iterations) in
      (
        (execute_communication_route read post now s.iterations r).1,
        refl,
        execute_communication_route-IsRepair s.iterations r,
      )

  MaySend-MaySend :
      (execute : Bool) (a b c : List (Text × Text))
      → MaySend execute a b
      → MaySend execute b c
      → MaySend execute a c
  MaySend-MaySend false a b c h k = k ∙ h
  MaySend-MaySend true a b c (x, eb, hx) (y, ec, hy) =
      (x ++ y, ec ∙ ap (λ t. t ++ y) eb ∙ append_assoc a x y, All-append IsRepair x y hx hy)

  -- The loop, run from any state, with or without a number of cycles: after any number of cycles it
  -- has sent nothing where executing a repair is off, and else nothing but requests for a repair.
  pub rounds-MaySend :
      (execute : Bool) (n : ℕ) (s : Progress)
      → MaySend execute s.state.posts (rounds read post now execute n s).state.posts
  rounds-MaySend execute zero s = MaySend-refl execute s.state.posts
  rounds-MaySend execute (suc n) s =
      let next = round read post now execute s in
      MaySend-MaySend execute s.state.posts next.state.posts
        (rounds read post now execute n next).state.posts (round-MaySend execute s)
        (rounds-MaySend execute n next)
