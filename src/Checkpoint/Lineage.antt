-- ===== src/Checkpoint/Lineage.antt =====
-- `lineage` and `get` of scripts/a9_checkpoint.py: from a checkpoint to its parent, as long as the id
-- was not seen. They print the lines that the client of the database prints, unread.
use a.Prelude.{ℕ, zero, suc, ◌&&◌, Option, none, some, List, [], ◌∷◌, if◌then◌else◌, length}
use a.Text.{Text, codes, text_eq, is_empty}
use a.Paths.{member}
use a.Checkpoint.{Row, find, latest_checkpoint_id}

-- `while checkpoint_id and checkpoint_id not in seen`, on fuel: the checkpoints that can still be
-- loaded.
unfoldable pub walk : ℕ → List Text → Option Text → List Row → List Row
unfolding member find
walk fuel seen none rows = []
walk zero seen (some id) rows = []
walk (suc fuel) seen (some id) rows =
    if is_empty id then [] else if member id seen then [] else elim (find id rows) [
      | none ↦ []
      | some row ↦ row ∷ walk fuel (id ∷ seen) row.parent_checkpoint_id rows
    ]

-- `args.checkpoint_id`, or the latest of the session.
unfoldable pub start_of : Text → Text → List Row → Option Text
unfolding text_eq latest_checkpoint_id
start_of checkpoint_id session_id rows =
    if text_eq checkpoint_id (codes "latest")
    then latest_checkpoint_id session_id rows
    else some checkpoint_id

-- The rows that `lineage` prints.
unfoldable pub lineage : Text → Text → List Row → List Row
unfolding walk start_of
lineage checkpoint_id session_id rows =
    walk (length rows) [] (start_of checkpoint_id session_id rows) rows

-- What `get` prints of a checkpoint: nothing where it is missing. `none` where the latest was asked
-- for and there is none, and the program raises.
unfoldable pub get : Text → Text → List Row → Option (Option Row)
unfolding start_of find text_eq
get checkpoint_id session_id rows = elim (start_of checkpoint_id session_id rows) [
  | none ↦ none
  | some id ↦
      if text_eq checkpoint_id (codes "latest") && is_empty id then none else some (find id rows)
]
