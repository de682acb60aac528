-- ===== src/Checkpoint.antt =====
-- scripts/a9_checkpoint.py: the rows that it writes and the statements that write them. The tables
-- are those of infra/mysql/initdb/001_session_store.sql: `checkpoint_id` and `session_id` are
-- their primary keys, and the parent of a checkpoint must be in the table. Keys are compared as
-- they are, where MySQL's collation also ignores case and accents; they hold no tab, no line break
-- and no blank at their ends, and none is "NULL", so that the text of a reply hands them on. JSON
-- values and token counts are texts; times, and the columns that are constants, are left out.
pub mod Quote
pub mod Load
pub mod Put
pub mod Tables
pub mod Stored
pub mod Steps
pub mod Lineage
pub mod Chain
pub mod History
pub mod Copy
pub mod Renaming
pub mod Ordered
pub mod Inserted
pub mod Accepted
pub mod Extends
pub mod Copying
mod Tests
use a.Prelude.{
  ℕ, ◌+◌, Bool, true, false, not, ◌&&◌, ◌||◌, Option, none, some, List, [], ◌∷◌, ◌++◌, ltb,
  if◌then◌else◌,
}
use a.Text.{Text, text_eq}

pub record Row : Type 0 where
  pub checkpoint_id : Text
  pub session_id : Text
  pub parent_checkpoint_id : Option Text
  pub step : ℕ
  pub source : Text
  pub status : Text
  pub channels : List (Text × Text)
  pub updated_channels : List Text
  pub token_usage : Text
  pub evidence_ids : List Text

pub record Session : Type 0 where
  pub session_id : Text
  pub current_checkpoint_id : Text
  pub source : Text

-- What is sent to Redis: the document of a checkpoint, with the one it was copied from; the
-- document of a session; an event.
pub data Command : Type 0 where
  set_checkpoint : (payload : Row) (copied_from : Option Text) → Command
  set_session :
      (session_id current_checkpoint_id status : Text) (copied_from : Option Text) → Command
  add_event : (session_id checkpoint_id source : Text) → Command

pub record Database : Type 0 where
  pub sessions : List Session
  pub checkpoints : List Row
  pub commands : List Command

-- SELECT … WHERE checkpoint_id = …
unfoldable pub find : Text → List Row → Option Row
find checkpoint_id [] = none
find checkpoint_id (row ∷ rows) =
    if text_eq row.checkpoint_id checkpoint_id then some row else find checkpoint_id rows

abbrev pub is_some {ℓ} : {A : Type ℓ} → Option A → Bool
is_some none = false
is_some (some _) = true

-- INSERT … ON DUPLICATE KEY UPDATE, where `update` tells what is updated.
unfoldable pub upsert : (Row → Row → Row) → Row → List Row → List Row
upsert update new [] = new ∷ []
upsert update new (row ∷ rows) =
    if text_eq row.checkpoint_id new.checkpoint_id
    then update row new ∷ rows
    else row ∷ upsert update new rows

-- The foreign key: a row may be its own parent.
unfoldable pub parent_known : Row → List Row → Bool
unfolding find
parent_known new rows = elim new.parent_checkpoint_id [
  | none ↦ true
  | some parent ↦ text_eq parent new.checkpoint_id || is_some (find parent rows)
]

-- `none` where the foreign key refuses the row.
unfoldable pub insert_checkpoint : (Row → Row → Row) → Row → List Row → Option (List Row)
unfolding upsert parent_known
insert_checkpoint update new rows =
    if parent_known new rows then some (upsert update new rows) else none

-- A session that is there gets a new current checkpoint, and keeps its source.
unfoldable pub upsert_session : Session → List Session → List Session
upsert_session new [] = new ∷ []
upsert_session new (s ∷ ss) =
    if text_eq s.session_id new.session_id
    then record s { current_checkpoint_id = new.current_checkpoint_id } ∷ ss
    else s ∷ upsert_session new ss

unfoldable pub of_session : Text → List Row → List Row
of_session session_id [] = []
of_session session_id (row ∷ rows) =
    let rest = of_session session_id rows in
    if text_eq row.session_id session_id then row ∷ rest else rest

unfoldable pub max_step : List Row → ℕ
max_step [] = 0
max_step (row ∷ rows) = let rest = max_step rows in if ltb rest row.step then row.step else rest

-- SELECT COALESCE(MAX(step), 0) + 1
unfoldable pub next_step : Text → List Row → ℕ
unfolding of_session max_step
next_step session_id rows = max_step (of_session session_id rows) + 1

-- ORDER BY step DESC LIMIT 1; of two rows with the same step the first in the table is taken, where
-- MySQL leaves the choice open.
unfoldable pub latest_row : List Row → Option Row
latest_row [] = none
latest_row (row ∷ rows) = elim (latest_row rows) [
  | none ↦ some row
  | some other ↦ if ltb row.step other.step then some other else some row
]

unfoldable pub latest_checkpoint_id : Text → List Row → Option Text
unfolding of_session latest_row
latest_checkpoint_id session_id rows = elim (latest_row (of_session session_id rows)) [
  | none ↦ none
  | some row ↦ some row.checkpoint_id
]
