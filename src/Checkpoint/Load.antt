-- ===== src/Checkpoint/Load.antt =====
-- How scripts/a9_checkpoint.py reads the JSON columns of a checkpoint. The client of the database is
-- called without --raw: it prints a column with each backslash, tab and line break escaped, so that
-- JSON text which holds a backslash is not printed as it is. What the printed text is as JSON, read
-- by `json.loads` or stored again in a JSON column, is a parameter for each kind of column, `none`
-- where it is no JSON.
use a.Prelude.{Option, none, some, List}
use a.Text.{Text}
use a.Checkpoint.{Row}

-- The printed columns, as JSON.
pub record Reader : Type 0 where
  pub read_object : List (Text × Text) → Option (List (Text × Text))
  pub read_array : List Text → Option (List Text)
  pub read_json : Text → Option Text

-- The row with its columns read one after the other; `none` where one is no JSON.
unfoldable pub load : Reader → Row → Option Row
load reader row = elim (reader.read_object row.channels) [
  | none ↦ none
  | some channels ↦ elim (reader.read_array row.updated_channels) [
    | none ↦ none
    | some updated_channels ↦ elim (reader.read_json row.token_usage) [
      | none ↦ none
      | some token_usage ↦ elim (reader.read_array row.evidence_ids) [
        | none ↦ none
        | some evidence_ids ↦ some (record row {
          channels = channels;
          updated_channels = updated_channels;
          token_usage = token_usage;
          evidence_ids = evidence_ids;
        })
      ]
    ]
  ]
]
