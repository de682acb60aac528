-- ===== src/Checkpoint/Copying.antt =====
-- What `copy_session` of scripts/a9_checkpoint.py makes of a whole session.
use a.Prelude.{◌≡◌, ◌⊎◌, none, some, List, length, All}
use a.Text.{Text}
use a.Checkpoint.{Row, Database, find}
use a.Checkpoint.Copy.{Copied, copied_checkpoint_id, or_empty, overwrite_copy, copied}
use a.Checkpoint.Load.{Reader}
use a.Checkpoint.Inserted.{IsRead}
use a.Checkpoint.Ordered.{HasId}
use a.Checkpoint.Stored.{current_of}
use a.Checkpoint.Tables.{merged}

-- The copy of a row among the rows of its session: under its new id in the new session, with the
-- columns as they are read; its parent is the copy of the row's parent, where that is one of them.
pub record IsCopyOf (source_session_id dest_session_id source : Text) (rows : List Row)
    (row read copy : Row) : Type 0 where
  pub new_id :
      copy.checkpoint_id ≡ copied_checkpoint_id source_session_id dest_session_id row.checkpoint_id
  pub new_session : copy.session_id ≡ dest_session_id
  pub new_source : copy.source ≡ source
  pub new_parent :
      (HasId (or_empty row.parent_checkpoint_id) rows
        × (copy.parent_checkpoint_id
            ≡ some (
                copied_checkpoint_id source_session_id dest_session_id
                  (or_empty row.parent_checkpoint_id))))
      ⊎ ((¬ HasId (or_empty row.parent_checkpoint_id) rows) × (copy.parent_checkpoint_id ≡ none))
  pub same_step : copy.step ≡ row.step
  pub same_status : copy.status ≡ row.status
  pub channels : copy.channels ≡ read.channels
  pub updated_channels : copy.updated_channels ≡ read.updated_channels
  pub token_usage : copy.token_usage ≡ read.token_usage
  pub evidence_ids : copy.evidence_ids ≡ read.evidence_ids

module _ (reader : Reader) (source_session_id dest_session_id source : Text) where
  -- The table holds the copy of the row, as what `overwrite_copy` makes of the one that was there.
  abbrev pub HasCopy : List Row → List Row → List Row → Row → Type 0
  HasCopy rows before after row =
      (read copy : Row) × IsRead reader row read
      × IsCopyOf source_session_id dest_session_id source rows row read copy
      × (find copy.checkpoint_id after
          ≡ some (merged overwrite_copy copy (find copy.checkpoint_id before)))

  -- So many rows were copied, the session of the copy stands at the checkpoint that is reported,
  -- and each row has its copy.
  pub record IsCopied (rows before : List Row) (ran : Copied × Database) : Type 0 where
    pub current : Text
    pub outcome : ran.0 ≡ copied (length rows) current
    pub stands : current_of dest_session_id ran.1.sessions ≡ some current
    pub copies : All (HasCopy rows before ran.1.checkpoints) rows
