-- ===== src/Checkpoint/Tables.antt =====
-- The tables of scripts/a9_checkpoint.py: a row is found again behind INSERT … ON DUPLICATE KEY
-- UPDATE, and what the two statements of `put` make of a database.
use a.Prelude.{◌≡◌, refl, ◌++◌, true, false, Option, none, some, List, [], ◌∷◌, arith}
use a.Text.{Text, text_eq, text_eq_iff, text_eq_refl}
use a.Checkpoint.{
  Row, Session, Database, find, is_some, upsert, parent_known, insert_checkpoint, upsert_session,
}
use a.Checkpoint.Copy.{overwrite_copy, insert_all}
use a.Checkpoint.Put.{refused, stored, overwrite, commands_of, store_row, write_row}

-- What a row becomes where another with its id may stand.
abbrev pub merged : (Row → Row → Row) → Row → Option Row → Row
merged update new none = new
merged update new (some old) = update old new

module _ (update : Row → Row → Row)
    (same_id : (old new : Row) → (update old new).checkpoint_id ≡ old.checkpoint_id) where
  pub find-upsert_same :
      (new : Row) (rows : List Row)
      → find new.checkpoint_id (upsert update new rows)
        ≡ some (merged update new (find new.checkpoint_id rows))
  unfolding find upsert
  find-upsert_same new [] = ground (arith, text_eq_refl new.checkpoint_id)
  find-upsert_same new (row ∷ rows) = ground (arith, find-upsert_same new rows, same_id row new)

  pub find-upsert_other :
      (new : Row) (id : Text) (rows : List Row)
      → text_eq new.checkpoint_id id ≡ false
      → find id (upsert update new rows) ≡ find id rows
  unfolding find upsert
  find-upsert_other new id [] h = ground arith
  find-upsert_other new id (row ∷ rows) h = ground (
    arith,
    find-upsert_other new id rows h,
    same_id row new,
    text_eq_iff row.checkpoint_id new.checkpoint_id,
  )

  pub find-upsert_some :
      (new : Row) (id : Text) (rows : List Row)
      → is_some (find id rows) ≡ true
      → is_some (find id (upsert update new rows)) ≡ true
  find-upsert_some new id rows h = ground (
    arith,
    find-upsert_same new rows,
    find-upsert_other new id rows,
    text_eq_iff new.checkpoint_id id,
  )

abbrev pub session_of : Row → Session
session_of row = record {
  session_id = row.session_id;
  current_checkpoint_id = row.checkpoint_id;
  source = row.source;
}

-- The database behind the statement on the session.
abbrev pub with_session : Row → Database → Database
with_session row db = record db { sessions = upsert_session (session_of row) db.sessions }

pub write_row-known :
    (row : Row) (db : Database)
    → parent_known row db.checkpoints ≡ true
    → write_row row db ≡ (
      stored row,
      record {
        sessions = upsert_session (session_of row) db.sessions;
        checkpoints = upsert overwrite row db.checkpoints;
        commands = db.commands ++ commands_of row;
      },
    )
unfolding write_row store_row insert_checkpoint
write_row-known row db known = ground arith

pub write_row-unknown :
    (row : Row) (db : Database)
    → parent_known row db.checkpoints ≡ false
    → write_row row db ≡ (refused, with_session row db)
unfolding write_row store_row insert_checkpoint
write_row-unknown row db unknown = ground arith

pub overwrite_id : (old new : Row) → (overwrite old new).checkpoint_id ≡ old.checkpoint_id
unfolding overwrite
overwrite_id old new = refl

pub overwrite_copy_id : (old new : Row) → (overwrite_copy old new).checkpoint_id ≡ old.checkpoint_id
unfolding overwrite_copy
overwrite_copy_id old new = refl

pub insert_all-known :
    (new : Row) (news : List (Option Row)) (rows : List Row)
    → parent_known new rows ≡ true
    → insert_all (some new ∷ news) rows ≡ insert_all news (upsert overwrite_copy new rows)
unfolding insert_all insert_checkpoint
insert_all-known new news rows known = ground arith

pub insert_all-unknown :
    (new : Row) (news : List (Option Row)) (rows : List Row)
    → parent_known new rows ≡ false
    → insert_all (some new ∷ news) rows ≡ (false, rows)
unfolding insert_all insert_checkpoint
insert_all-unknown new news rows unknown = ground arith
