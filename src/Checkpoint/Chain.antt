-- ===== src/Checkpoint/Chain.antt =====
-- The loop over the parents (scripts/a9_checkpoint.py) ends, and what it collects.
use mathlib.Core.Path.{subst}
use a.Prelude.{
  ℕ, zero, suc, ◌≤◌, ◌<◌, ◌≡◌, refl, ap, sym, ◌⊎◌, inl, inr, true, false, Option, none, some, List,
  [], ◌∷◌, arith, Bool-cases, Option-cases, if◌then◌else◌, length,
}
use a.Text.{Text, text_eq_iff, is_empty}
use a.Paths.{member}
use a.Checkpoint.{Row, find}
use a.Checkpoint.Lineage.{walk, start_of, lineage}

-- The rows whose ids were not seen.
unseen : List Text → List Row → ℕ
unseen seen [] = 0
unseen seen (row ∷ rows) =
    let rest = unseen seen rows in if member row.checkpoint_id seen then rest else suc rest

pub find-id :
    (id : Text) (rows : List Row) (row : Row) → find id rows ≡ some row → row.checkpoint_id ≡ id
unfolding find
find-id id [] row h = cc
find-id id (r ∷ rows) row h = ground (arith, text_eq_iff r.checkpoint_id id, find-id id rows row)

unseen-le-length : (seen : List Text) (rows : List Row) → unseen seen rows ≤ length rows
unfolding unseen
unseen-le-length seen [] = omega arith
unseen-le-length seen (row ∷ rows) = ground (arith, unseen-le-length seen rows)

unseen_grows :
    (id : Text) (seen : List Text) (rows : List Row) → unseen (id ∷ seen) rows ≤ unseen seen rows
unfolding unseen member
unseen_grows id seen [] = omega arith
unseen_grows id seen (row ∷ rows) = ground (arith, unseen_grows id seen rows)

unseen_falls :
    (id : Text) (seen : List Text) (rows : List Row) (row : Row)
    → member id seen ≡ false
    → find id rows ≡ some row
    → unseen (id ∷ seen) rows < unseen seen rows
unfolding unseen member find
unseen_falls id seen [] row new h = cc
unseen_falls id seen (r ∷ rows) row new h = ground (
  arith,
  unseen_falls id seen rows row new,
  unseen_grows id seen rows,
  text_eq_iff r.checkpoint_id id,
  text_eq_iff id r.checkpoint_id,
)

module _ (rows : List Row) where
  walk-stop :
      (fuel : ℕ) (seen : List Text) (id : Text)
      → (is_empty id ≡ true) ⊎ ((member id seen ≡ true) ⊎ (find id rows ≡ none))
      → walk fuel seen (some id) rows ≡ []
  unfolding walk
  walk-stop zero seen id h = refl
  walk-stop (suc fuel) seen id h = ground arith

  pub walk-step :
      (fuel : ℕ) (seen : List Text) (id : Text) (row : Row)
      → is_empty id ≡ false
      → member id seen ≡ false
      → find id rows ≡ some row
      → walk (suc fuel) seen (some id) rows
        ≡ row ∷ walk fuel (id ∷ seen) row.parent_checkpoint_id rows
  unfolding walk
  walk-step fuel seen id row full new found = rw (full, walk) (rw new (rw found refl))

  -- Where the loop stops: there is no id, or it was seen, or there is no such checkpoint.
  abbrev pub Stops : List Text → Option Text → Type 0
  Stops seen none = Unit
  Stops seen (some id) = (is_empty id ≡ true) ⊎ ((member id seen ≡ true) ⊎ (find id rows ≡ none))

  -- A line of checkpoints from an id: each is in the table and was not seen, the first has the id,
  -- each other is the parent of the one before, and the line goes on until the loop must stop.
  abbrev pub IsTrace : List Text → Option Text → List Row → Type 0
  IsTrace seen start [] = Stops seen start
  IsTrace seen start (row ∷ chain) =
      (start ≡ some row.checkpoint_id)
      × (member row.checkpoint_id seen ≡ false)
      × (find row.checkpoint_id rows ≡ some row)
      × IsTrace (row.checkpoint_id ∷ seen) row.parent_checkpoint_id chain

  one_more :
      (seen : List Text) (id : Text)
      → Stops seen (some id)
        ⊎ ((is_empty id ≡ false)
            × (member id seen ≡ false)
            × ((row : Row) × (find id rows ≡ some row)))
  one_more seen id = elim (Option-cases (find id rows)) [
    | inl missing ↦ inl (inr (inr missing))
    | inr (row, found) ↦ elim (Bool-cases (member id seen)) [
      | inl again ↦ inl (inr (inl again))
      | inr new ↦ elim (Bool-cases (is_empty id)) [
        | inl blank ↦ inl (inl blank)
        | inr full ↦ inr (full, new, (row, found))
      ]
    ]
  ]

  Stops-IsTrace :
      (fuel : ℕ) (seen : List Text) (id : Text)
      → Stops seen (some id)
      → IsTrace seen (some id) (walk fuel seen (some id) rows)
  Stops-IsTrace fuel seen id h = rw (walk-stop fuel seen id h) h

  walk-IsTrace :
      (fuel : ℕ) (seen : List Text) (start : Option Text)
      → unseen seen rows ≤ fuel
      → IsTrace seen start (walk fuel seen start rows)
  walk-IsTrace zero seen none h = unfold walk in tt
  walk-IsTrace (suc fuel) seen none h = unfold walk in tt
  walk-IsTrace zero seen (some id) h = elim (one_more seen id) [
    | inl stops ↦ Stops-IsTrace zero seen id stops
    | inr (full, new, (row, found)) ↦
        absurd (omega (arith, unseen_falls id seen rows row new found))
  ]
  walk-IsTrace (suc fuel) seen (some id) h = elim (one_more seen id) [
    | inl stops ↦ Stops-IsTrace (suc fuel) seen id stops
    | inr (full, new, (row, found)) ↦
        let same = find-id id rows row found in
        let later =
          walk-IsTrace fuel (id ∷ seen) row.parent_checkpoint_id
            (omega (arith, unseen_falls id seen rows row new found)) in
        rw (walk-step fuel seen id row full new found) (
          ap some (sym same),
          subst (λ i. member i seen ≡ false) (sym same) new,
          subst (λ i. find i rows ≡ some row) (sym same) found,
          subst
              (λ i.
                IsTrace (i ∷ seen) row.parent_checkpoint_id
                  (walk fuel (id ∷ seen) row.parent_checkpoint_id rows))
              (sym same) later,
        )
  ]

-- `lineage` ends by itself, and prints the whole line from the checkpoint asked for: every row is
-- in the table, no id stands twice, each row is the parent of the one before, and the line stops
-- only at a checkpoint without a parent, or at a parent that is missing or stands in the line.
pub lineage-IsTrace :
    (checkpoint_id session_id : Text) (rows : List Row)
    → IsTrace rows []
        (start_of checkpoint_id session_id rows)
        (lineage checkpoint_id session_id rows)
unfolding lineage
lineage-IsTrace checkpoint_id session_id rows =
    walk-IsTrace rows (length rows) [] (start_of checkpoint_id session_id rows)
      (unseen-le-length [] rows)
