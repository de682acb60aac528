-- ===== src/Checkpoint/Steps.antt =====
-- The steps of scripts/a9_checkpoint.py count up within a session.
use mathlib.Core.Path.{subst}
use a.Prelude.{
  ℕ, ◌+◌, ◌<◌, ◌≤◌, ◌≡◌, refl, ap, sym, ◌∙◌, inl, inr, Option, none, some, List, [], ◌∷◌, ◌++◌,
  arith, Bool-cases, All,
}
use a.Text.{Text, text_eq_refl}
use a.Checkpoint.{
  Row, Database, find, upsert, parent_known, of_session, max_step, next_step, latest_row,
  latest_checkpoint_id,
}
use a.Checkpoint.Put.{
  PutArgs, Outcome, stored, id_of, row_of, step_of, overwrite, write_row, put_parsed, put,
}
use a.Checkpoint.Tables.{write_row-known, write_row-unknown}

-- No step of the rows is above the number.
abbrev pub IsBound : ℕ → List Row → Type 0
IsBound n rows = All (λ row. row.step ≤ n) rows

IsBound-trans : (m n : ℕ) (rows : List Row) → m ≤ n → IsBound m rows → IsBound n rows
IsBound-trans m n [] h b = tt
IsBound-trans m n (row ∷ rows) h b = (omega (arith, b.0), IsBound-trans m n rows h b.1)

max_step-IsBound : (rows : List Row) → IsBound (max_step rows) rows
unfolding max_step
max_step-IsBound [] = tt
max_step-IsBound (row ∷ rows) = (
  ground arith,
  IsBound-trans (max_step rows) (max_step (row ∷ rows)) rows (ground arith) (max_step-IsBound rows),
)

latest_row-IsLatest :
    (new : Row) (rows : List Row)
    → All (λ row. row.step < new.step) rows
    → latest_row (rows ++ new ∷ []) ≡ some new
unfolding latest_row
latest_row-IsLatest new [] h = refl
latest_row-IsLatest new (row ∷ rows) h = rw (latest_row-IsLatest new rows h.1) (ground (arith, h.0))

pub upsert_new :
    (update : Row → Row → Row) (new : Row) (rows : List Row)
    → find new.checkpoint_id rows ≡ none
    → upsert update new rows ≡ rows ++ new ∷ []
unfolding find upsert
upsert_new update new [] h = refl
upsert_new update new (row ∷ rows) h = ground (arith, upsert_new update new rows)

of_session-append :
    (session_id : Text) (xs ys : List Row)
    → of_session session_id (xs ++ ys) ≡ of_session session_id xs ++ of_session session_id ys
unfolding of_session
of_session-append session_id [] ys = refl
of_session-append session_id (row ∷ xs) ys = ground (arith, of_session-append session_id xs ys)

IsBound-add_one : (n : ℕ) (rows : List Row) → IsBound n rows → All (λ row. row.step < n + 1) rows
IsBound-add_one n [] h = tt
IsBound-add_one n (row ∷ rows) h = (omega (arith, h.0), IsBound-add_one n rows h.1)

-- The session's rows behind the statements, when the id is new.
of_session-upsert :
    (row : Row) (rows : List Row)
    → find row.checkpoint_id rows ≡ none
    → of_session row.session_id (upsert overwrite row rows)
      ≡ of_session row.session_id rows ++ row ∷ []
unfolding of_session
of_session-upsert row rows new =
    ap (of_session row.session_id) (upsert_new overwrite row rows new)
    ∙ of_session-append row.session_id rows (row ∷ [])
    ∙ ap (λ xs. of_session row.session_id rows ++ xs) (ground (arith, text_eq_refl row.session_id))

-- A number that is above each step of the session, and what is then the latest.
abbrev pub IsLatestStep : Text → List Row → Row → List Row → Type 0
IsLatestStep session_id rows row rows' =
    All (λ other. other.step < row.step) (of_session session_id rows)
    × (latest_checkpoint_id session_id rows' ≡ some row.checkpoint_id)

pub stored_injective : (x y : Row) → stored x ≡ stored y → x ≡ y
stored_injective x y h = cc

latest_checkpoint_id-upsert :
    (row : Row) (rows : List Row)
    → All (λ old. old.step < row.step) (of_session row.session_id rows)
    → find row.checkpoint_id rows ≡ none
    → latest_checkpoint_id row.session_id (upsert overwrite row rows) ≡ some row.checkpoint_id
unfolding latest_checkpoint_id
latest_checkpoint_id-upsert row rows above new =
    rw (of_session-upsert row rows new, latest_checkpoint_id)
      (rw (latest_row-IsLatest row (of_session row.session_id rows) above) refl)

row_of-step :
    (a : PutArgs) (channels : List (Text × Text)) (token_usage uuid : Text) (rows : List Row)
    → a.step ≡ none
    → (row_of a channels token_usage uuid rows).step ≡ max_step (of_session a.session_id rows) + 1
unfolding row_of step_of next_step
row_of-step a channels token_usage uuid rows counted = ground arith

write_row-IsLatestStep :
    (row other : Row) (db : Database)
    → All (λ old. old.step < row.step) (of_session row.session_id db.checkpoints)
    → find row.checkpoint_id db.checkpoints ≡ none
    → (write_row row db).0 ≡ stored other
    → IsLatestStep row.session_id db.checkpoints other (write_row row db).1.checkpoints
write_row-IsLatestStep row other db above new h =
    elim (Bool-cases (parent_known row db.checkpoints)) [
      | inl known ↦
          let same : row ≡ other =
            stored_injective row other
              (ap (λ (x : Outcome × Database). x.0) (sym (write_row-known row db known)) ∙ h) in
          subst (λ r. IsLatestStep row.session_id db.checkpoints r (write_row row db).1.checkpoints)
            same
            (
              above,
              rw (write_row-known row db known)
                  (latest_checkpoint_id-upsert row db.checkpoints above new),
            )
      | inr unknown ↦ absurd (ground (arith, write_row-unknown row db unknown))
    ]

put_parsed-IsLatestStep :
    (a : PutArgs) (uuid : Text) (channels : Option (List (Text × Text))) (token_usage : Option Text)
    (db : Database) (row : Row)
    → a.step ≡ none
    → find (id_of a uuid) db.checkpoints ≡ none
    → (put_parsed a uuid channels token_usage db).0 ≡ stored row
    → IsLatestStep a.session_id db.checkpoints row
        (put_parsed a uuid channels token_usage db).1.checkpoints
unfolding put_parsed row_of
put_parsed-IsLatestStep a uuid none token_usage db row counted new h = absurd cc
put_parsed-IsLatestStep a uuid (some channels) none db row counted new h = absurd cc
put_parsed-IsLatestStep a uuid (some channels) (some token_usage) db row counted new h =
    let new_row = row_of a channels token_usage uuid db.checkpoints in
    write_row-IsLatestStep new_row row db
      (subst (λ n. All (λ old. old.step < n) (of_session a.session_id db.checkpoints))
        (sym (row_of-step a channels token_usage uuid db.checkpoints counted))
        (IsBound-add_one _ _ (max_step-IsBound (of_session a.session_id db.checkpoints))))
      new h

-- `put` without a step, under an id that is not in the table: where the row is stored, its step is
-- above each step that the session had, so that it is the session's latest checkpoint.
pub put-IsLatestStep :
    (a : PutArgs) (uuid : Text) (db : Database) (row : Row)
    → a.step ≡ none
    → find (id_of a uuid) db.checkpoints ≡ none
    → (put a uuid db).0 ≡ stored row
    → IsLatestStep a.session_id db.checkpoints row (put a uuid db).1.checkpoints
unfolding put
put-IsLatestStep a uuid db row counted new h =
    put_parsed-IsLatestStep a uuid a.channels a.token_usage db row counted new h
