-- ===== src/Checkpoint/Copy.antt =====
-- `copied_checkpoint_id` and `copy_session` of scripts/a9_checkpoint.py. The JSON columns are written
-- back as the client of the database prints them.
use a.Prelude.{
  ℕ, Bool, true, false, Option, none, some, List, [], ◌∷◌, ◌++◌, leb, if◌then◌else◌, length, map,
}
use a.Text.{Text, codes, text_eq, starts_with, drop}
use a.Checkpoint.Load.{Reader, load}
use a.Checkpoint.{
  Row, Session, Command, set_checkpoint, set_session, Database, insert_checkpoint, upsert_session,
  of_session,
}

unfoldable pub copied_checkpoint_id : Text → Text → Text → Text
unfolding starts_with
copied_checkpoint_id source_session_id dest_session_id checkpoint_id =
    if starts_with checkpoint_id source_session_id
    then dest_session_id ++ drop (length source_session_id) checkpoint_id
    else dest_session_id ++ (codes ":copy:" ++ checkpoint_id)

-- ORDER BY step ASC; rows with the same step stay in the table's order, where MySQL leaves it open.
unfoldable pub insert_by_step : Row → List Row → List Row
insert_by_step new [] = new ∷ []
insert_by_step new (row ∷ rows) =
    if leb new.step row.step then new ∷ row ∷ rows else row ∷ insert_by_step new rows

unfoldable pub by_step : List Row → List Row
unfolding insert_by_step
by_step [] = []
by_step (row ∷ rows) = insert_by_step row (by_step rows)

-- id_map.get(…)
unfoldable pub mapped : (Text → Text) → Text → List Row → Option Text
unfolding text_eq
mapped rename id [] = none
mapped rename id (row ∷ rows) =
    if text_eq row.checkpoint_id id then some (rename row.checkpoint_id) else mapped rename id rows

abbrev pub or_empty : Option Text → Text
or_empty none = []
or_empty (some t) = t

module _ (source_session_id dest_session_id source : Text) where
  unfoldable pub copied_parent : List Row → Row → Option Text
  unfolding mapped copied_checkpoint_id
  copied_parent rows row =
      mapped (copied_checkpoint_id source_session_id dest_session_id)
        (or_empty row.parent_checkpoint_id) rows

  -- The copy of a row, with the JSON columns as they are read.
  unfoldable pub copy_of : List Row → Row → Row → Row
  unfolding copied_parent copied_checkpoint_id
  copy_of rows row read = record {
    checkpoint_id = copied_checkpoint_id source_session_id dest_session_id row.checkpoint_id;
    session_id = dest_session_id;
    parent_checkpoint_id = copied_parent rows row;
    step = row.step;
    source = source;
    status = row.status;
    channels = read.channels;
    updated_channels = read.updated_channels;
    token_usage = read.token_usage;
    evidence_ids = read.evidence_ids;
  }

  -- The copy as its statement writes it, `none` where a column is no JSON.
  unfoldable pub printed_copy : Reader → List Row → Row → Option Row
  unfolding copy_of load
  printed_copy reader rows row = elim (load reader row) [
    | none ↦ none
    | some read ↦ some (copy_of rows row read)
  ]

  -- The documents of the copies, each with the row it was copied from. All columns can be read,
  -- since the statements were accepted.
  unfoldable pub copy_commands : Reader → List Row → List Row → List Command
  unfolding printed_copy
  copy_commands reader all [] = []
  copy_commands reader all (row ∷ rows) =
      let rest = copy_commands reader all rows in
      elim (printed_copy reader all row) [
        | none ↦ rest
        | some copy ↦ set_checkpoint copy (some row.checkpoint_id) ∷ rest
      ]

-- What a copy updates of a row that is there: not its session and its step.
unfoldable pub overwrite_copy : Row → Row → Row
overwrite_copy old new = record old {
  parent_checkpoint_id = new.parent_checkpoint_id;
  source = new.source;
  status = new.status;
  channels = new.channels;
  updated_channels = new.updated_channels;
  token_usage = new.token_usage;
  evidence_ids = new.evidence_ids;
}

-- The statements one after the other, as far as they are accepted; whether all were. One with a
-- column that is no JSON is refused.
unfoldable pub insert_all : List (Option Row) → List Row → Bool × List Row
unfolding insert_checkpoint overwrite_copy
insert_all [] rows = (true, rows)
insert_all (none ∷ news) rows = (false, rows)
insert_all (some new ∷ news) rows = elim (insert_checkpoint overwrite_copy new rows) [
  | none ↦ (false, rows)
  | some rows' ↦ insert_all news rows'
]

unfoldable pub last_id : Row → List Row → Text
last_id row [] = row.checkpoint_id
last_id row (next ∷ rows) = last_id next rows

-- Nothing to copy, a statement is refused, or so many rows are copied.
pub data Copied : Type 0 where
  nothing_copied copy_refused : Copied
  copied : (count : ℕ) (current_checkpoint_id : Text) → Copied

-- The replies and documents behind the statements.
unfoldable pub finish_copy :
    Text → Text → List Row → Text → List Command → Bool → Database → Copied × Database
finish_copy source_session_id dest_session_id rows current commands false db = (copy_refused, db)
finish_copy source_session_id dest_session_id rows current commands true db = (
  copied (length rows) current,
  record db {
    commands =
        db.commands
        ++ commands
        ++ set_session dest_session_id current (codes "running") (some source_session_id) ∷ [];
  },
)

unfoldable pub copy_rows :
    Reader → Text → Text → Text → List Row → Text → Database → Copied × Database
unfolding insert_all finish_copy printed_copy copy_commands upsert_session
copy_rows reader source_session_id dest_session_id source rows current db =
    let session : Session = record {
      session_id = dest_session_id;
      current_checkpoint_id = current;
      source = source;
    } in
    let done =
      insert_all (map (printed_copy source_session_id dest_session_id source reader rows) rows)
        db.checkpoints in
    finish_copy source_session_id dest_session_id rows current
      (copy_commands source_session_id dest_session_id source reader rows rows) done.0
      (record db { sessions = upsert_session session db.sessions; checkpoints = done.1 })

unfoldable pub copy_ordered : Reader → Text → Text → Text → List Row → Database → Copied × Database
unfolding copy_rows last_id copied_checkpoint_id
copy_ordered reader source_session_id dest_session_id source [] db = (nothing_copied, db)
copy_ordered reader source_session_id dest_session_id source (row ∷ rows) db =
    copy_rows reader source_session_id dest_session_id source (row ∷ rows)
      (copied_checkpoint_id source_session_id dest_session_id (last_id row rows)) db

unfoldable pub copy_session : Reader → Text → Text → Text → Database → Copied × Database
unfolding copy_ordered by_step of_session
copy_session reader source_session_id dest_session_id source db =
    copy_ordered reader source_session_id dest_session_id source
      (by_step (of_session source_session_id db.checkpoints)) db
