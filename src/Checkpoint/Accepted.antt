-- ===== src/Checkpoint/Accepted.antt =====
-- When the statements of `copy_session` (scripts/a9_checkpoint.py) are all accepted: each row has its
-- parent in the table before it.
use mathlib.Core.Path.{subst}
use a.Prelude.{
  ◌≤◌, ◌<◌, ◌≡◌, refl, sym, ◌∙◌, ◌⊎◌, inl, inr, true, none, some, List, [], ◌∷◌, ◌||◌, arith, All,
  map, Option-cases,
}
use a.Text.{Text, text_eq, text_eq_iff, text_eq_refl}
use a.Paths.Order.{Member}
use a.Checkpoint.{Row, find, is_some, upsert, parent_known}
use a.Checkpoint.Copy.{mapped, or_empty, copied_parent, copy_of, overwrite_copy, insert_all}
use a.Checkpoint.Load.{Reader}
use a.Checkpoint.Inserted.{IsReadable, renamed_id, copy_id, printed, printed-IsRead}
use a.Checkpoint.Ordered.{IsSorted, HasId, All-imp}
use a.Checkpoint.Tables.{find-upsert_same, find-upsert_some, overwrite_copy_id, insert_all-known}

-- Where `other` is the parent of `row`, it has a smaller step, unless the two are one checkpoint.
abbrev pub IsLater : Row → Row → Type 0
IsLater row other =
    other.checkpoint_id ≡ or_empty row.parent_checkpoint_id
    → (other.step < row.step) ⊎ (other.checkpoint_id ≡ row.checkpoint_id)

-- Each row against each of the others.
abbrev pub AreLater : List Row → List Row → Type 0
AreLater rows others = All (λ row. All (IsLater row) others) rows

mapped_value :
    (rename : Text → Text) (id new : Text) (rows : List Row)
    → mapped rename id rows ≡ some new
    → new ≡ rename id
unfolding mapped
mapped_value rename id new [] h = cc
mapped_value rename id new (row ∷ rows) h =
    ground (arith, mapped_value rename id new rows, text_eq_iff row.checkpoint_id id)

pub mapped_cases :
    (rename : Text → Text) (id : Text) (rows : List Row)
    → (HasId id rows × (mapped rename id rows ≡ some (rename id)))
      ⊎ ((¬ HasId id rows) × (mapped rename id rows ≡ none))
unfolding mapped
mapped_cases rename id [] = inr (λ h. h, refl)
mapped_cases rename id (row ∷ rows) =
    ground (arith, mapped_cases rename id rows, text_eq_iff row.checkpoint_id id)

-- Among the rows behind a row, only one with its own id is its parent.
parent_behind :
    (row : Row) (rows : List Row)
    → All (IsLater row) rows
    → All (λ other. row.step ≤ other.step) rows
    → HasId (or_empty row.parent_checkpoint_id) rows
    → or_empty row.parent_checkpoint_id ≡ row.checkpoint_id
parent_behind row [] later sorted h = elim h [ ]
parent_behind row (other ∷ rows) later sorted (inl h) = elim (later.0 h) [
  | inl before ↦ absurd (omega (arith, before, sorted.0))
  | inr same ↦ sym h ∙ same
]
parent_behind row (other ∷ rows) later sorted (inr h) = parent_behind row rows later.1 sorted.1 h

module _ (reader : Reader) (source_session_id dest_session_id source : Text) (all : List Row) where
  copy_known :
      (row read : Row) (table : List Row)
      → (mapped
            (renamed_id source_session_id dest_session_id)
            (or_empty row.parent_checkpoint_id)
            all
          ≡ none)
        ⊎ ((is_some (
                find
                  (renamed_id source_session_id dest_session_id (or_empty row.parent_checkpoint_id))
                  table)
              ≡ true)
            ⊎ (or_empty row.parent_checkpoint_id ≡ row.checkpoint_id))
      → parent_known (copy_of source_session_id dest_session_id source all row read) table ≡ true
  unfolding copy_of copied_parent parent_known
  copy_known row read table h =
      let rename = renamed_id source_session_id dest_session_id in
      let parent = or_empty row.parent_checkpoint_id in
      elim (Option-cases (mapped rename parent all)) [
        | inl missing ↦ rw missing refl
        | inr (new, mapped_to) ↦ rw mapped_to (
            subst (λ n. (text_eq n (rename row.checkpoint_id) || is_some (find n table)) ≡ true)
              (sym (mapped_value rename parent new all mapped_to))
              (elim h [
                | inl missing ↦ absurd (ground (arith, missing, mapped_to))
                | inr (inl found) ↦ ground (arith, found)
                | inr (inr same) ↦ rw same (ground (arith, text_eq_refl (rename row.checkpoint_id)))
              ]))
      ]

  pub insert_all-accepted :
      (done : List Text) (rows table : List Row)
      → All (IsReadable reader) rows
      → IsSorted rows
      → AreLater rows rows
      → ((id : Text)
          → (mapped (renamed_id source_session_id dest_session_id) id all ≡ none)
            ⊎ (Member id done ⊎ HasId id rows))
      → ((id : Text)
          → Member id done
          → is_some (find (renamed_id source_session_id dest_session_id id) table) ≡ true)
      → (insert_all
          (map (printed reader source_session_id dest_session_id source all) rows)
          table).0
        ≡ true
  unfolding insert_all
  insert_all-accepted done [] table readable sorted later there found = refl
  insert_all-accepted done (row ∷ rows) table ((read, e), readable) sorted later there found =
      let rename = renamed_id source_session_id dest_session_id in
      let print = printed reader source_session_id dest_session_id source all in
      let new = copy_of source_session_id dest_session_id source all row read in
      let known = copy_known row read table (elim (there (or_empty row.parent_checkpoint_id)) [
        | inl missing ↦ inl missing
        | inr (inl before) ↦ inr (inl (found (or_empty row.parent_checkpoint_id) before))
        | inr (inr (inl same)) ↦ inr (inr (sym same))
        | inr (inr (inr behind)) ↦ inr (inr (parent_behind row rows later.0.1 sorted.0 behind))
      ]) in
      rw (printed-IsRead reader source_session_id dest_session_id source all row read e) (
        rw (insert_all-known new (map print rows) table known) (
          insert_all-accepted (row.checkpoint_id ∷ done) rows (upsert overwrite_copy new table)
            readable sorted.1
            (All-imp (λ r. All (IsLater r) (row ∷ rows)) (λ r. All (IsLater r) rows) (λ r h. h.1)
              rows later.1)
            (λ id. ground (arith, there id))
            (λ id h. elim h [
              | inl same ↦
                  subst (λ i. is_some (find (rename i) (upsert overwrite_copy new table)) ≡ true)
                    same
                    (subst (λ i. is_some (find i (upsert overwrite_copy new table)) ≡ true)
                      (copy_id source_session_id dest_session_id source all row read)
                      (rw (find-upsert_same overwrite_copy overwrite_copy_id new table) refl))
              | inr before ↦
                  find-upsert_some overwrite_copy overwrite_copy_id new (rename id) table
                    (found id before)
            ])))
