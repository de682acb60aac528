-- ===== src/Checkpoint/History.antt =====
-- `channel_history` of scripts/a9_checkpoint.py: the writes to one channel along the line of
-- parents, from the oldest on.
use mathlib.Core.List.{reverse}
use a.Prelude.{
  zero, suc, ◌⊎◌, ℕ, ◌≡◌, Bool, ◌&&◌, Option, none, some, List, [], ◌∷◌, ◌++◌, if◌then◌else◌,
  length,
}
use a.Text.{Text, codes, text_eq, is_empty}
use a.Paths.{member}
use a.Checkpoint.{Row, find, latest_checkpoint_id}
use a.Checkpoint.Load.{Reader, load}
use a.Checkpoint.Lineage.{start_of}

pub record Entry : Type 0 where
  pub checkpoint_id : Text
  pub step : ℕ
  pub source : Text
  pub value : Text

pub record History : Type 0 where
  pub seed : Option Entry
  pub writes : List Entry

unfoldable pub channel_value : Text → List (Text × Text) → Option Text
unfolding text_eq
channel_value channel [] = none
channel_value channel ((k, v) ∷ channels) =
    if text_eq k channel then some v else channel_value channel channels

abbrev pub entry_of : Row → Text → Entry
entry_of row value = record {
  checkpoint_id = row.checkpoint_id;
  step = row.step;
  source = row.source;
  value = value;
}

-- elif seed is None
abbrev pub or_seed : Option Entry → Entry → Option Entry
or_seed none entry = some entry
or_seed (some seed) entry = some seed

-- One round of the loop.
unfoldable pub read_row : Text → Row → History → History
unfolding channel_value member
read_row channel row h = elim (channel_value channel row.channels) [
  | none ↦ h
  | some value ↦
      if member channel row.updated_channels
      then record h { writes = h.writes ++ entry_of row value ∷ [] }
      else record h { seed = or_seed h.seed (entry_of row value) }
]

unfoldable pub read_rows : Text → List Row → History → History
unfolding read_row
read_rows channel [] h = h
read_rows channel (row ∷ rows) h = read_rows channel rows (read_row channel row h)

abbrev pub no_history : History
no_history = record { seed = none; writes = [] }

-- What is made of a checkpoint and of what is read behind it.
abbrev pub in_front : Option Row → Option (List Row) → Option (List Row)
in_front none rest = none
in_front (some row) none = none
in_front (some row) (some rest) = some (row ∷ rest)

module _ (reader : Reader) where
  -- The first loop, on fuel: the checkpoints that can still be loaded. `none` where `load_checkpoint`
  -- raises.
  unfoldable pub chain_of : ℕ → List Text → Option Text → List Row → Option (List Row)
  unfolding member find load
  chain_of fuel seen none rows = some []
  chain_of zero seen (some id) rows = some []
  chain_of (suc fuel) seen (some id) rows =
      if is_empty id then some [] else if member id seen then some [] else elim (find id rows) [
        | none ↦ some []
        | some row ↦
            in_front (load reader row) (chain_of fuel (id ∷ seen) row.parent_checkpoint_id rows)
      ]

  unfoldable pub history_of : Text → Option Text → List Row → Option History
  unfolding read_rows chain_of
  history_of channel start rows = elim (chain_of (length rows) [] start rows) [
    | none ↦ none
    | some chain ↦ some (read_rows channel (reverse chain) no_history)
  ]

  -- `none` where there is no latest checkpoint, or one cannot be read, and the program raises.
  unfoldable pub channel_history : Text → Text → Text → List Row → Option History
  unfolding history_of start_of latest_checkpoint_id text_eq
  channel_history channel checkpoint_id session_id rows =
      elim (start_of checkpoint_id session_id rows) [
        | none ↦ none
        | some id ↦
            if text_eq checkpoint_id (codes "latest") && is_empty id
            then none
            else history_of channel (some id) rows
      ]

-- What the rows hold of the channel, in order: where it counts as written, or where it does not.
abbrev pub entries : Bool → Text → List Row → List Entry
entries written channel [] = []
entries written channel (row ∷ rows) = elim (channel_value channel row.channels) [
  | none ↦ entries written channel rows
  | some value ↦
      if member channel row.updated_channels
      then (if written
          then entry_of row value ∷ entries written channel rows
          else entries written channel rows)
      else (if written
          then entries written channel rows
          else entry_of row value ∷ entries written channel rows)
]

abbrev pub first {ℓ} : {A : Type ℓ} → List A → Option A
first [] = none
first (x ∷ xs) = some x

abbrev pub or_first {ℓ} : {A : Type ℓ} → Option A → List A → Option A
or_first none xs = first xs
or_first (some x) xs = some x

module _ (reader : Reader) where
  -- A checkpoint of the line holds a column that cannot be read.
  abbrev pub SomeUnread : List Row → Type 0
  SomeUnread [] = ⊥
  SomeUnread (row ∷ rows) = (load reader row ≡ none) ⊎ SomeUnread rows

  -- The rows as they are read, one for one.
  abbrev pub AreLoaded : List Row → List Row → Type 0
  AreLoaded [] [] = Unit
  AreLoaded (row ∷ rows) (read ∷ reads) = (load reader row ≡ some read) × AreLoaded rows reads
  AreLoaded _ _ = ⊥

  -- What the line of parents is as it is read, if it can be.
  abbrev pub IsReadOf : List Row → Option (List Row) → Type 0
  IsReadOf line chain =
      (SomeUnread line × (chain ≡ none))
      ⊎ ((reads : List Row) × AreLoaded line reads × (chain ≡ some reads))
