-- ===== src/Checkpoint/Renaming.antt =====
-- `copied_checkpoint_id` of scripts/a9_checkpoint.py gives different checkpoints different names.
use a.Prelude.{
  ◌≡◌, refl, ap, sym, ◌∙◌, ◌⊎◌, inl, inr, true, false, [], ◌∷◌, ◌++◌, Bool-cases, arith, length,
}
use a.Text.{Text, codes, starts_with, drop}
use a.Text.Affix.{starts_with-drop}
use a.Checkpoint.Copy.{copied_checkpoint_id}

append_cancel : (p s t : Text) → p ++ s ≡ p ++ t → s ≡ t
append_cancel [] s t h = h
append_cancel (c ∷ p) s t h = append_cancel p s t cc

module _ (source_session_id dest_session_id : Text) where
  copied_prefix :
      (id : Text)
      → starts_with id source_session_id ≡ true
      → copied_checkpoint_id source_session_id dest_session_id id
        ≡ dest_session_id ++ drop (length source_session_id) id
  unfolding copied_checkpoint_id
  copied_prefix id h = ground arith

  copied_other :
      (id : Text)
      → starts_with id source_session_id ≡ false
      → copied_checkpoint_id source_session_id dest_session_id id
        ≡ dest_session_id ++ (codes ":copy:" ++ id)
  unfolding copied_checkpoint_id
  copied_other id h = rw h refl

  -- The first name is the one that the second gets, under the source session.
  abbrev pub IsTaken : Text → Text → Type 0
  IsTaken x y = x ≡ source_session_id ++ (codes ":copy:" ++ y)

  prefix_of :
      (x t : Text)
      → starts_with x source_session_id ≡ true
      → drop (length source_session_id) x ≡ t
      → x ≡ source_session_id ++ t
  prefix_of x t h e = starts_with-drop x source_session_id h ∙ ap (λ r. source_session_id ++ r) e

  -- Two checkpoints get the same name in the copy only where they are the same, or where one is
  -- named after the source session, ":copy:" and the other's name.
  pub copied_checkpoint_id_injective :
      (x y : Text)
      → copied_checkpoint_id source_session_id dest_session_id x
        ≡ copied_checkpoint_id source_session_id dest_session_id y
      → (x ≡ y) ⊎ (IsTaken x y ⊎ IsTaken y x)
  copied_checkpoint_id_injective x y h =
      let cancel = append_cancel dest_session_id in
      let n = length source_session_id in
      let copy = λ (t : Text). codes ":copy:" ++ t in
      elim (Bool-cases (starts_with x source_session_id)) [
        | inl px ↦ elim (Bool-cases (starts_with y source_session_id)) [
          | inl py ↦
              let e =
                cancel (drop n x) (drop n y) (sym (copied_prefix x px) ∙ h ∙ copied_prefix y py) in
              inl (prefix_of x (drop n y) px e ∙ sym (starts_with-drop y source_session_id py))
          | inr oy ↦
              let e =
                cancel (drop n x) (copy y) (sym (copied_prefix x px) ∙ h ∙ copied_other y oy) in
              inr (inl (prefix_of x (copy y) px e))
        ]
        | inr ox ↦ elim (Bool-cases (starts_with y source_session_id)) [
          | inl py ↦
              let e =
                cancel (drop n y) (copy x) (sym (copied_prefix y py) ∙ sym h ∙ copied_other x ox) in
              inr (inr (prefix_of y (copy x) py e))
          | inr oy ↦
              let e = cancel (copy x) (copy y) (sym (copied_other x ox) ∙ h ∙ copied_other y oy) in
              inl (append_cancel (codes ":copy:") x y e)
        ]
      ]
