-- ===== src/Checkpoint/Ordered.antt =====
-- ORDER BY step ASC in `copy_session` of scripts/a9_checkpoint.py: the same rows, in order.
use mathlib.Core.Path.{subst}
use a.Prelude.{
  ◌≢◌, ◌≤◌, ◌≡◌, ◌↔◌, ◌⊎◌, refl, ap, sym, ◌∙◌, inl, inr, List, [], ◌∷◌, Bool-cases, arith, length,
  All, leb, suc,
}
use a.Text.{Text}
use a.Checkpoint.{Row}
use a.Checkpoint.Copy.{insert_by_step, by_step}

-- Each step is at most the later ones.
abbrev pub IsSorted : List Row → Type 0
IsSorted [] = Unit
IsSorted (row ∷ rows) = All (λ other. row.step ≤ other.step) rows × IsSorted rows

pub All-insert_by_step {κ} :
    (P : Row → Type κ) (new : Row) (rows : List Row)
    → P new
    → All P rows
    → All P (insert_by_step new rows)
unfolding insert_by_step
All-insert_by_step P new [] hn h = (hn, tt)
All-insert_by_step P new (row ∷ rows) hn h = elim (Bool-cases (leb new.step row.step)) [
  | inl before ↦ rw before (hn, h)
  | inr behind ↦ rw behind (h.0, All-insert_by_step P new rows hn h.1)
]

pub All-by_step {κ} : (P : Row → Type κ) (rows : List Row) → All P rows → All P (by_step rows)
unfolding by_step
All-by_step P [] h = tt
All-by_step P (row ∷ rows) h = All-insert_by_step P row (by_step rows) h.0 (All-by_step P rows h.1)

pub All-imp {κ μ} :
    (P : Row → Type κ) (Q : Row → Type μ) (f : (row : Row) → P row → Q row) (rows : List Row)
    → All P rows
    → All Q rows
All-imp P Q f [] h = tt
All-imp P Q f (row ∷ rows) h = (f row h.0, All-imp P Q f rows h.1)

insert_by_step-IsSorted :
    (new : Row) (rows : List Row) → IsSorted rows → IsSorted (insert_by_step new rows)
unfolding insert_by_step
insert_by_step-IsSorted new [] h = (tt, tt)
insert_by_step-IsSorted new (row ∷ rows) h = elim (Bool-cases (leb new.step row.step)) [
  | inl before ↦
      rw before (
        (ground arith, All-imp _ _ (λ (r : Row) (le : row.step ≤ r.step). ground arith) rows h.0),
        h,
      )
  | inr behind ↦ rw behind (
    All-insert_by_step (λ r. row.step ≤ r.step) new rows (ground arith) h.0,
    insert_by_step-IsSorted new rows h.1,
  )
]

pub by_step-IsSorted : (rows : List Row) → IsSorted (by_step rows)
unfolding by_step
by_step-IsSorted [] = tt
by_step-IsSorted (row ∷ rows) = insert_by_step-IsSorted row (by_step rows) (by_step-IsSorted rows)

length-insert_by_step :
    (new : Row) (rows : List Row) → length (insert_by_step new rows) ≡ suc (length rows)
unfolding insert_by_step
length-insert_by_step new [] = refl
length-insert_by_step new (row ∷ rows) = ground (arith, length-insert_by_step new rows)

pub length-by_step : (rows : List Row) → length (by_step rows) ≡ length rows
unfolding by_step
length-by_step [] = refl
length-by_step (row ∷ rows) =
    length-insert_by_step row (by_step rows) ∙ ap (λ n. suc n) (length-by_step rows)

-- What holds of the rows in order holds of the rows.
insert_by_step-All {κ} :
    (P : Row → Type κ) (new : Row) (rows : List Row)
    → All P (insert_by_step new rows)
    → P new × All P rows
unfolding insert_by_step
insert_by_step-All P new [] h = h
insert_by_step-All P new (row ∷ rows) h = elim (Bool-cases (leb new.step row.step)) [
  | inl before ↦
      let same : insert_by_step new (row ∷ rows) ≡ new ∷ row ∷ rows = rw before refl in
      subst (All P) same h
  | inr behind ↦
      let same : insert_by_step new (row ∷ rows) ≡ row ∷ insert_by_step new rows = rw behind refl in
      let apart : All P (row ∷ insert_by_step new rows) = subst (All P) same h in
      let rest = insert_by_step-All P new rows apart.1 in (rest.0, (apart.0, rest.1))
]

pub by_step-All {κ} : (P : Row → Type κ) (rows : List Row) → All P (by_step rows) → All P rows
unfolding by_step
by_step-All P [] h = tt
by_step-All P (row ∷ rows) h =
    let rest = insert_by_step-All P row (by_step rows) h in (rest.0, by_step-All P rows rest.1)

-- One of the rows has the id.
abbrev pub HasId : Text → List Row → Type 0
HasId id [] = ⊥
HasId id (row ∷ rows) = (row.checkpoint_id ≡ id) ⊎ HasId id rows

insert_by_step-HasId :
    (id : Text) (new : Row) (rows : List Row)
    → HasId id (insert_by_step new rows) ↔ ((new.checkpoint_id ≡ id) ⊎ HasId id rows)
unfolding insert_by_step
insert_by_step-HasId id new [] = ground arith
insert_by_step-HasId id new (row ∷ rows) = ground (arith, insert_by_step-HasId id new rows)

pub by_step-HasId : (id : Text) (rows : List Row) → HasId id (by_step rows) ↔ HasId id rows
unfolding by_step
by_step-HasId id [] = (λ h. h, λ h. h)
by_step-HasId id (row ∷ rows) =
    ground (arith, insert_by_step-HasId id row (by_step rows), by_step-HasId id rows)

module _ (rename : Text → Text) where
  -- No two of the rows get one new id.
  abbrev pub AreApart : List Row → Type 0
  AreApart [] = Unit
  AreApart (row ∷ rows) =
      All (λ other. rename row.checkpoint_id ≢ rename other.checkpoint_id) rows × AreApart rows

  insert_by_step-AreApart :
      (new : Row) (rows : List Row)
      → All (λ other. rename new.checkpoint_id ≢ rename other.checkpoint_id) rows
      → AreApart rows
      → AreApart (insert_by_step new rows)
  unfolding insert_by_step
  insert_by_step-AreApart new [] hn h = (tt, tt)
  insert_by_step-AreApart new (row ∷ rows) hn h = elim (Bool-cases (leb new.step row.step)) [
    | inl before ↦ rw before (hn, h)
    | inr behind ↦ rw behind (
      All-insert_by_step (λ other. rename row.checkpoint_id ≢ rename other.checkpoint_id) new rows
          (λ e. hn.0 (sym e)) h.0,
      insert_by_step-AreApart new rows hn.1 h.1,
    )
  ]

  pub by_step-AreApart : (rows : List Row) → AreApart rows → AreApart (by_step rows)
  unfolding by_step
  by_step-AreApart [] h = tt
  by_step-AreApart (row ∷ rows) h =
      insert_by_step-AreApart row (by_step rows)
        (All-by_step (λ other. rename row.checkpoint_id ≢ rename other.checkpoint_id) rows h.0)
        (by_step-AreApart rows h.1)
