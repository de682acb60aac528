-- ===== src/Checkpoint/Put.antt =====
-- `put` of scripts/a9_checkpoint.py.
use a.Prelude.{
  ℕ, ◌+◌, ◌&&◌, ◌||◌, Option, none, some, List, [], ◌∷◌, ◌++◌, ◌==◌, leb, if◌then◌else◌, map,
}
use a.Text.{Text, codes, text_eq, is_empty}
use a.Paths.Order.{sorted_set}
use a.Checkpoint.{
  Row, Session, Command, set_checkpoint, set_session, add_event, Database, insert_checkpoint,
  upsert_session, next_step, latest_checkpoint_id,
}

-- The arguments; `channels` is `none` where the text is no JSON object, and `token_usage` where it
-- is no JSON.
pub record PutArgs : Type 0 where
  pub session_id : Text
  pub channels : Option (List (Text × Text))
  pub updated_channel : List Text
  pub evidence_id : List Text
  pub token_usage : Option Text
  pub checkpoint_id : Text
  pub parent_checkpoint_id : Text
  pub step : Option ℕ
  pub source : Text
  pub status : Text

-- It raises before anything is written, a statement is refused, or the row is stored.
pub data Outcome : Type 0 where
  raised refused : Outcome
  stored : (payload : Row) → Outcome

abbrev pub lower_char : ℕ → ℕ
lower_char c = if leb b'A' c && leb c b'Z' then c + 32 else c

abbrev pub keys : List (Text × Text) → List Text
keys [] = []
keys ((k, v) ∷ channels) = k ∷ keys channels

-- args.updated_channel or sorted(channels.keys())
unfoldable pub updated_of : List Text → List (Text × Text) → List Text
unfolding sorted_set
updated_of [] channels = sorted_set (keys channels)
updated_of (c ∷ cs) channels = c ∷ cs

unfoldable pub id_of : PutArgs → Text → Text
id_of a uuid =
    if is_empty a.checkpoint_id
    then a.session_id ++ codes ":checkpoint:" ++ uuid
    else a.checkpoint_id

unfoldable pub parent_of : PutArgs → List Row → Option Text
unfolding latest_checkpoint_id text_eq
parent_of a rows =
    let lowered = map lower_char a.parent_checkpoint_id in
    if text_eq lowered (codes "none")
      || text_eq lowered (codes "null")
      || is_empty a.parent_checkpoint_id
    then none
    else if text_eq a.parent_checkpoint_id (codes "latest")
    then latest_checkpoint_id a.session_id rows
    else some a.parent_checkpoint_id

-- args.step or next_step(args.session_id)
unfoldable pub step_of : Option ℕ → Text → List Row → ℕ
unfolding next_step
step_of none session_id rows = next_step session_id rows
step_of (some step) session_id rows = if step == 0 then next_step session_id rows else step

unfoldable pub row_of : PutArgs → List (Text × Text) → Text → Text → List Row → Row
unfolding updated_of id_of parent_of step_of
row_of a channels token_usage uuid rows = record {
  checkpoint_id = id_of a uuid;
  session_id = a.session_id;
  parent_checkpoint_id = parent_of a rows;
  step = step_of a.step a.session_id rows;
  source = a.source;
  status = a.status;
  channels = channels;
  updated_channels = updated_of a.updated_channel channels;
  token_usage = token_usage;
  evidence_ids = a.evidence_id;
}

-- What `put` updates of a row that is there: not its session, its step and its source.
unfoldable pub overwrite : Row → Row → Row
overwrite old new = record old {
  status = new.status;
  parent_checkpoint_id = new.parent_checkpoint_id;
  channels = new.channels;
  updated_channels = new.updated_channels;
  token_usage = new.token_usage;
  evidence_ids = new.evidence_ids;
}

unfoldable pub commands_of : Row → List Command
commands_of row =
    set_checkpoint row none
    ∷ set_session row.session_id row.checkpoint_id row.status none
    ∷ add_event row.session_id row.checkpoint_id row.source
    ∷ []

-- The second statement, behind the one on the session, which stays.
unfoldable pub store_row : Row → Database → Outcome × Database
unfolding insert_checkpoint overwrite commands_of
store_row row db = elim (insert_checkpoint overwrite row db.checkpoints) [
  | none ↦ (refused, db)
  | some rows ↦
      (stored row, record db { checkpoints = rows; commands = db.commands ++ commands_of row })
]

unfoldable pub write_row : Row → Database → Outcome × Database
unfolding store_row upsert_session
write_row row db =
    let session : Session = record {
      session_id = row.session_id;
      current_checkpoint_id = row.checkpoint_id;
      source = row.source;
    } in
    store_row row (record db { sessions = upsert_session session db.sessions })

unfoldable pub put_parsed :
    PutArgs → Text → Option (List (Text × Text)) → Option Text → Database → Outcome × Database
unfolding write_row row_of
put_parsed a uuid none token_usage db = (raised, db)
put_parsed a uuid (some channels) none db = (raised, db)
put_parsed a uuid (some channels) (some token_usage) db =
    write_row (row_of a channels token_usage uuid db.checkpoints) db

unfoldable pub put : PutArgs → Text → Database → Outcome × Database
unfolding put_parsed
put a uuid db = put_parsed a uuid a.channels a.token_usage db
