-- ===== src/Checkpoint/Stored.antt =====
-- What `put` of scripts/a9_checkpoint.py stores, and what it leaves alone.
use mathlib.Core.Path.{subst}
use mathlib.Core.Bool.{false≢true}
use a.Prelude.{◌≢◌, ◌↔◌, ◌⊎◌, sym, map, Option-cases}
use a.Prelude.{
  ◌≡◌, refl, inl, inr, ◌++◌, false, Option, none, some, List, [], ◌∷◌, arith, Bool-cases, ◌∙◌,
  if◌then◌else◌,
}
use a.Text.{Text, text_eq, text_eq_refl, text_eq_iff, codes}
use a.Checkpoint.{latest_checkpoint_id, Row, Session, Database, find, parent_known, upsert_session}
use a.Checkpoint.Put.{
  lower_char, parent_of, PutArgs, Outcome, raised, refused, stored, id_of, row_of, overwrite,
  commands_of, write_row, put_parsed, put,
}
use a.Checkpoint.Tables.{
  merged, find-upsert_same, find-upsert_other, session_of, write_row-known, write_row-unknown,
  overwrite_id,
}

-- The session's current checkpoint.
unfoldable pub current_of : Text → List Session → Option Text
current_of session_id [] = none
current_of session_id (s ∷ ss) =
    if text_eq s.session_id session_id
    then some s.current_checkpoint_id
    else current_of session_id ss

pub current_of-upsert_session :
    (new : Session) (ss : List Session)
    → current_of new.session_id (upsert_session new ss) ≡ some new.current_checkpoint_id
unfolding current_of upsert_session
current_of-upsert_session new [] = ground (arith, text_eq_refl new.session_id)
current_of-upsert_session new (s ∷ ss) = ground (arith, current_of-upsert_session new ss)

-- Another session keeps its current checkpoint.
current_of-others :
    (new : Session) (other : Text) (ss : List Session)
    → other ≢ new.session_id
    → current_of other (upsert_session new ss) ≡ current_of other ss
unfolding current_of upsert_session
current_of-others new other [] h = ground (arith, h, text_eq_iff new.session_id other)
current_of-others new other (s ∷ ss) h = ground (
  arith,
  h,
  current_of-others new other ss h,
  text_eq_iff s.session_id new.session_id,
  text_eq_iff s.session_id other,
)

-- The argument asks for no parent, in any case of its letters.
abbrev pub MeansNone : Text → Type 0
MeansNone argument =
    (map lower_char argument ≡ codes "none")
    ⊎ ((map lower_char argument ≡ codes "null") ⊎ (argument ≡ []))

-- The parent that the arguments ask for: none, the latest of the session, or the one named.
abbrev pub IsParent : PutArgs → List Row → Option Text → Type 0
IsParent a rows parent =
    (MeansNone a.parent_checkpoint_id × (parent ≡ none))
    ⊎ (((¬ MeansNone a.parent_checkpoint_id)
          × (a.parent_checkpoint_id ≡ codes "latest")
          × (parent ≡ latest_checkpoint_id a.session_id rows))
        ⊎ ((¬ MeansNone a.parent_checkpoint_id)
            × (a.parent_checkpoint_id ≢ codes "latest")
            × (parent ≡ some a.parent_checkpoint_id)))

-- A parent is asked for, other than the checkpoint itself, and it is not in the table.
abbrev pub IsMissing : List Row → Text → Option Text → Type 0
IsMissing rows checkpoint_id none = ⊥
IsMissing rows checkpoint_id (some parent) = (parent ≢ checkpoint_id) × (find parent rows ≡ none)

parent_of-IsParent : (a : PutArgs) (rows : List Row) → IsParent a rows (parent_of a rows)
unfolding parent_of
parent_of-IsParent a rows = ground (
  arith,
  text_eq_iff (map lower_char a.parent_checkpoint_id) (codes "none"),
  text_eq_iff (map lower_char a.parent_checkpoint_id) (codes "null"),
  text_eq_iff a.parent_checkpoint_id [],
  text_eq_iff a.parent_checkpoint_id (codes "latest"),
)

parent_known-IsMissing :
    (row : Row) (rows : List Row)
    → (parent_known row rows ≡ false) ↔ IsMissing rows row.checkpoint_id row.parent_checkpoint_id
unfolding parent_known
parent_known-IsMissing row rows = elim (Option-cases row.parent_checkpoint_id) [
  | inl rootless ↦ rw rootless (λ h. absurd (false≢true (sym h)), λ h. absurd h)
  | inr (parent, named) ↦ rw named (elim (Option-cases (find parent rows)) [
    | inl lost ↦ rw lost (ground (arith, text_eq_iff parent row.checkpoint_id))
    | inr (other, there) ↦ rw there (ground (arith, text_eq_iff parent row.checkpoint_id))
  ])
]

-- The row that `put` writes: with the identifier, the parent and the texts it is given.
pub record IsRowOf (a : PutArgs) (uuid : Text) (db : Database) (row : Row) : Type 0 where
  pub named : row.checkpoint_id ≡ id_of a uuid
  pub in_session : row.session_id ≡ a.session_id
  pub parent : IsParent a db.checkpoints row.parent_checkpoint_id
  pub channels : a.channels ≡ some row.channels
  pub token_usage : a.token_usage ≡ some row.token_usage

-- The session stands at the checkpoint, and the other sessions stand where they did.
pub record PointsAt (session_id checkpoint_id : Text) (before after : List Session) : Type 0 where
  pub current : current_of session_id after ≡ some checkpoint_id
  pub others :
      (other : Text) → other ≢ session_id → current_of other after ≡ current_of other before

-- The row stands in the table, as what `overwrite` makes of the one that was there, every other
-- checkpoint is as it was, and the documents are sent.
pub record IsStored (row : Row) (before after : Database) : Type 0 where
  pub there :
      find row.checkpoint_id after.checkpoints
      ≡ some (merged overwrite row (find row.checkpoint_id before.checkpoints))
  pub others :
      (id : Text) → row.checkpoint_id ≢ id → find id after.checkpoints ≡ find id before.checkpoints
  pub sent : after.commands ≡ before.commands ++ commands_of row

-- What `put` leaves of a database.
abbrev pub PutLeaves : PutArgs → Text → Database → Outcome → Database → Type 0
PutLeaves a uuid db outcome after =
    (((a.channels ≡ none) ⊎ (a.token_usage ≡ none)) × (outcome ≡ raised) × (after ≡ db))
    ⊎ ((row : Row) × IsRowOf a uuid db row
        × PointsAt a.session_id row.checkpoint_id db.sessions after.sessions
        × ((IsMissing db.checkpoints row.checkpoint_id row.parent_checkpoint_id
              × (outcome ≡ refused)
              × (after.checkpoints ≡ db.checkpoints)
              × (after.commands ≡ db.commands))
            ⊎ ((¬ IsMissing db.checkpoints row.checkpoint_id row.parent_checkpoint_id)
                × (outcome ≡ stored row)
                × IsStored row db after)))

write_row-PutLeaves :
    (a : PutArgs) (uuid : Text) (db : Database) (row : Row)
    → IsRowOf a uuid db row
    → let ran = write_row row db in PutLeaves a uuid db ran.0 ran.1
write_row-PutLeaves a uuid db row is_row =
    let points : PointsAt a.session_id row.checkpoint_id db.sessions
        (upsert_session (session_of row) db.sessions) =
      subst
        (λ i.
          PointsAt i row.checkpoint_id db.sessions (upsert_session (session_of row) db.sessions))
        is_row.in_session
        (record {
          current = current_of-upsert_session (session_of row) db.sessions;
          others = λ other h. current_of-others (session_of row) other db.sessions h;
        }) in
    elim (Bool-cases (parent_known row db.checkpoints)) [
      | inl known ↦ rw (write_row-known row db known) (
          inr (
            row,
            is_row,
            points,
            inr (
              (λ missing.
                  false≢true (sym ((parent_known-IsMissing row db.checkpoints).1 missing) ∙ known)),
              refl,
              record {
                there = find-upsert_same overwrite overwrite_id row db.checkpoints;
                others = λ id other.
                    find-upsert_other overwrite overwrite_id row id db.checkpoints
                      (ground (arith, other, text_eq_iff row.checkpoint_id id));
                sent = refl;
              },
            ),
          ))
      | inr unknown ↦ rw (write_row-unknown row db unknown) (
          inr (
            row,
            is_row,
            points,
            inl ((parent_known-IsMissing row db.checkpoints).0 unknown, refl, refl, refl),
          ))
    ]

put_parsed-PutLeaves :
    (a : PutArgs) (uuid : Text) (channels : Option (List (Text × Text))) (token_usage : Option Text)
    (db : Database)
    → a.channels ≡ channels
    → a.token_usage ≡ token_usage
    → let ran = put_parsed a uuid channels token_usage db in PutLeaves a uuid db ran.0 ran.1
unfolding put_parsed row_of
put_parsed-PutLeaves a uuid none token_usage db parsed counted = inl (inl parsed, refl, refl)
put_parsed-PutLeaves a uuid (some channels) none db parsed counted = inl (inr counted, refl, refl)
put_parsed-PutLeaves a uuid (some channels) (some token_usage) db parsed counted =
    write_row-PutLeaves a uuid db (row_of a channels token_usage uuid db.checkpoints) (record {
      named = refl;
      in_session = refl;
      parent = parent_of-IsParent a db.checkpoints;
      channels = parsed;
      token_usage = counted;
    })

-- What `put` leaves of a database. Where the channels or the token usage do not parse, it raises
-- and leaves all of it. Else the session names the checkpoint, the other sessions keep theirs, and
-- the row that is written has the parent asked for: none, the latest of the session, or the one
-- named. Where that is another checkpoint, and not in the table, the row is refused, and the table
-- and the documents are as they were; else the row is in the table under its id, as what
-- `overwrite` makes of the one that was there, every other checkpoint is as it was, and its
-- documents are sent.
pub put-PutLeaves :
    (a : PutArgs) (uuid : Text) (db : Database)
    → let ran = put a uuid db in PutLeaves a uuid db ran.0 ran.1
unfolding put
put-PutLeaves a uuid db = put_parsed-PutLeaves a uuid a.channels a.token_usage db refl refl
