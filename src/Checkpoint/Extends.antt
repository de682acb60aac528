-- ===== src/Checkpoint/Extends.antt =====
-- What `put` of scripts/a9_checkpoint.py adds to the line of parents of a session.
use mathlib.Core.Path.{subst}
use a.Prelude.{
  ℕ, zero, suc, ◌≡◌, ◌≢◌, refl, ap, sym, ◌∙◌, inl, inr, false, Option, none, some, List, [], ◌∷◌,
  ◌++◌, arith, Bool-cases, Option-cases, All, length,
}
use a.Text.{Text, codes, text_eq, text_eq_iff, is_empty}
use a.Paths.{member}
use a.Checkpoint.{
  ltb, Row, Database, find, upsert, parent_known, of_session, latest_row, latest_checkpoint_id,
}
use a.Checkpoint.Put.{
  PutArgs, Outcome, stored, id_of, row_of, parent_of, overwrite, write_row, put_parsed, put,
}
use a.Checkpoint.Tables.{
  merged, find-upsert_same, find-upsert_other, overwrite_id, write_row-known, write_row-unknown,
}
use a.Checkpoint.Steps.{stored_injective, upsert_new, put-IsLatestStep}
use a.Checkpoint.Lineage.{walk, start_of, lineage}
use a.Checkpoint.Chain.{walk-step}

module _ (P : Row → Type 0) where
  find-All :
      (id : Text) (rows : List Row) (row : Row) → All P rows → find id rows ≡ some row → P row
  unfolding find
  find-All id [] row h e = absurd (ground (arith, e))
  find-All id (r ∷ rows) row h e = elim (Bool-cases (text_eq r.checkpoint_id id)) [
    | inl same ↦ let here : r ≡ row = ground (arith, e) in subst P here h.0
    | inr other ↦ find-All id rows row h.1 (ground (arith, e))
  ]

  All-of_session :
      (session_id : Text) (rows : List Row) → All P rows → All P (of_session session_id rows)
  unfolding of_session
  All-of_session session_id [] h = tt
  All-of_session session_id (row ∷ rows) h = elim (Bool-cases (text_eq row.session_id session_id)) [
    | inl same ↦ rw same (h.0, All-of_session session_id rows h.1)
    | inr other ↦ rw other (All-of_session session_id rows h.1)
  ]

  latest_row-All : (rows : List Row) (row : Row) → All P rows → latest_row rows ≡ some row → P row
  unfolding latest_row
  latest_row-All [] row h e = absurd (ground (arith, e))
  latest_row-All (r ∷ rows) row h e = elim (Option-cases (latest_row rows)) [
    | inl missing ↦ let here : r ≡ row = ground (arith, e) in subst P here h.0
    | inr (other, found) ↦ elim (Bool-cases (ltb r.step other.step)) [
      | inl later ↦
          let here : other ≡ row = ground (arith, e) in
          subst P here (latest_row-All rows other h.1 found)
      | inr first ↦ let here : r ≡ row = ground (arith, e) in subst P here h.0
    ]
  ]

find-ids :
    (id : Text) (rows : List Row) → find id rows ≡ none → All (λ row. row.checkpoint_id ≢ id) rows
unfolding find
find-ids id [] h = tt
find-ids id (row ∷ rows) h = elim (Bool-cases (text_eq row.checkpoint_id id)) [
  | inl same ↦ absurd (ground (arith, h))
  | inr other ↦ (ground (arith, text_eq_iff row.checkpoint_id id), find-ids id rows (ground arith))
]

latest-other :
    (id session_id : Text) (rows : List Row)
    → find id rows ≡ none
    → latest_checkpoint_id session_id rows ≢ some id
unfolding latest_checkpoint_id
latest-other id session_id rows new e =
    elim (Option-cases (latest_row (of_session session_id rows))) [
      | inl missing ↦ ground (arith, e)
      | inr (row, found) ↦
          latest_row-All (λ r. r.checkpoint_id ≢ id) (of_session session_id rows) row
            (All-of_session (λ r. r.checkpoint_id ≢ id) session_id rows (find-ids id rows new))
            found (ground (arith, e))
    ]

member-other :
    (i id : Text) (seen : List Text) → i ≢ id → member i (seen ++ id ∷ []) ≡ member i seen
unfolding member
member-other i id [] h = ground (arith, h, text_eq_iff i id, text_eq_iff id i)
member-other i id (s ∷ seen) h = ground (arith, member-other i id seen h)

module _ (row : Row) (rows : List Row)
    (childless : All (λ r. r.parent_checkpoint_id ≢ some row.checkpoint_id) rows) where
  -- The line from another checkpoint is the same, with the new row in the table.
  walk-new :
      (fuel : ℕ) (seen : List Text) (start : Option Text)
      → start ≢ some row.checkpoint_id
      → walk fuel (seen ++ row.checkpoint_id ∷ []) start (upsert overwrite row rows)
        ≡ walk fuel seen start rows
  unfolding walk
  walk-new zero seen none other = refl
  walk-new (suc fuel) seen none other = refl
  walk-new zero seen (some id) other = refl
  walk-new (suc fuel) seen (some id) other =
      let ne : id ≢ row.checkpoint_id = λ e. other (ap some e) in
      rw (member-other id row.checkpoint_id seen ne) (
        rw
          (find-upsert_other overwrite overwrite_id row id rows
            (ground (arith, ne, text_eq_iff row.checkpoint_id id)))
          (elim (Option-cases (find id rows)) [
            | inl missing ↦ rw missing refl
            | inr (r, found) ↦ rw found (
                rw
                  (walk-new fuel (id ∷ seen) r.parent_checkpoint_id (
                    find-All (λ r. r.parent_checkpoint_id ≢ some row.checkpoint_id) id rows r
                      childless found))
                  refl)
          ]))

-- What is stored is the row of the arguments, under the parent asked for.
abbrev Stores : PutArgs → Text → Database → Row → List Row → Type 0
Stores a uuid db row rows =
    (row.checkpoint_id ≡ id_of a uuid)
    × (row.session_id ≡ a.session_id)
    × (row.parent_checkpoint_id ≡ parent_of a db.checkpoints)
    × (rows ≡ upsert overwrite row db.checkpoints)

write_row-Stores :
    (a : PutArgs) (uuid : Text) (db : Database) (new row : Row)
    → (write_row new db).0 ≡ stored row
    → Stores a uuid db new (upsert overwrite new db.checkpoints)
    → Stores a uuid db row (write_row new db).1.checkpoints
write_row-Stores a uuid db new row h is_row = elim (Bool-cases (parent_known new db.checkpoints)) [
  | inl known ↦
      let same : new ≡ row =
        stored_injective new row
          (ap (λ (x : Outcome × Database). x.0) (sym (write_row-known new db known)) ∙ h) in
      rw (write_row-known new db known)
        (subst (λ r. Stores a uuid db r (upsert overwrite new db.checkpoints)) same is_row)
  | inr unknown ↦ absurd (ground (arith, write_row-unknown new db unknown))
]

put_parsed-Stores :
    (a : PutArgs) (uuid : Text) (channels : Option (List (Text × Text))) (token_usage : Option Text)
    (db : Database) (row : Row)
    → (put_parsed a uuid channels token_usage db).0 ≡ stored row
    → Stores a uuid db row (put_parsed a uuid channels token_usage db).1.checkpoints
unfolding put_parsed row_of
put_parsed-Stores a uuid none token_usage db row h = absurd cc
put_parsed-Stores a uuid (some channels) none db row h = absurd cc
put_parsed-Stores a uuid (some channels) (some token_usage) db row h =
    write_row-Stores a uuid db (row_of a channels token_usage uuid db.checkpoints) row h
      (refl, refl, refl, refl)

put-Stores :
    (a : PutArgs) (uuid : Text) (db : Database) (row : Row)
    → (put a uuid db).0 ≡ stored row
    → Stores a uuid db row (put a uuid db).1.checkpoints
unfolding put
put-Stores a uuid db row h = put_parsed-Stores a uuid a.channels a.token_usage db row h

parent_of-latest :
    (a : PutArgs) (rows : List Row)
    → a.parent_checkpoint_id ≡ codes "latest"
    → parent_of a rows ≡ latest_checkpoint_id a.session_id rows
unfolding parent_of
parent_of-latest a rows h = rw h refl

start_of-latest :
    (session_id : Text) (rows : List Row)
    → start_of (codes "latest") session_id rows ≡ latest_checkpoint_id session_id rows
unfolding start_of
start_of-latest session_id rows = refl

length-upsert_new :
    (row : Row) (rows : List Row)
    → find row.checkpoint_id rows ≡ none
    → length (upsert overwrite row rows) ≡ suc (length rows)
length-upsert_new row rows new = ap length (upsert_new overwrite row rows new) ∙ add_one rows
  where
    add_one : (xs : List Row) → length (xs ++ row ∷ []) ≡ suc (length xs)
    add_one [] = refl
    add_one (x ∷ xs) = ap (λ n. suc n) (add_one xs)

lineage-upsert :
    (row : Row) (rows : List Row)
    → is_empty row.checkpoint_id ≡ false
    → find row.checkpoint_id rows ≡ none
    → All (λ r. r.parent_checkpoint_id ≢ some row.checkpoint_id) rows
    → row.parent_checkpoint_id ≡ latest_checkpoint_id row.session_id rows
    → latest_checkpoint_id row.session_id (upsert overwrite row rows) ≡ some row.checkpoint_id
    → lineage (codes "latest") row.session_id (upsert overwrite row rows)
      ≡ row ∷ lineage (codes "latest") row.session_id rows
unfolding lineage
lineage-upsert row rows full missing childless parent latest =
    let rows' = upsert overwrite row rows in
    let found : find row.checkpoint_id rows' ≡ some row =
      find-upsert_same overwrite overwrite_id row rows
      ∙ ap (λ old. some (merged overwrite row old)) missing in
    let other : row.parent_checkpoint_id ≢ some row.checkpoint_id =
      λ e. latest-other row.checkpoint_id row.session_id rows missing (sym parent ∙ e) in
    ap (λ start. walk (length rows') [] start rows') (start_of-latest row.session_id rows' ∙ latest)
    ∙ ap (λ n. walk n [] (some row.checkpoint_id) rows') (length-upsert_new row rows missing)
    ∙ walk-step rows' (length rows) [] row.checkpoint_id row full (unfold member in refl) found
    ∙ ap (λ rest. row ∷ rest)
        (walk-new row rows childless (length rows) [] row.parent_checkpoint_id other)
    ∙ ap (λ start. row ∷ walk (length rows) [] start rows)
        (parent ∙ sym (start_of-latest row.session_id rows))

-- `put` without a step, with the parent "latest", under an id that is not empty, not in the table
-- and no row's parent: where the row is stored, what `lineage` prints of the session's latest
-- checkpoint is the new row and then all that it printed before.
pub put-extends :
    (a : PutArgs) (uuid : Text) (db : Database) (row : Row)
    → a.parent_checkpoint_id ≡ codes "latest"
    → a.step ≡ none
    → is_empty (id_of a uuid) ≡ false
    → find (id_of a uuid) db.checkpoints ≡ none
    → All (λ r. r.parent_checkpoint_id ≢ some (id_of a uuid)) db.checkpoints
    → (put a uuid db).0 ≡ stored row
    → lineage (codes "latest") a.session_id (put a uuid db).1.checkpoints
      ≡ row ∷ lineage (codes "latest") a.session_id db.checkpoints
put-extends a uuid db row asked counted full new childless h =
    let (named, in_session, parent, same) = put-Stores a uuid db row h in
    let latest = (put-IsLatestStep a uuid db row counted new h).1 in
    subst
      (λ rows.
        lineage (codes "latest") a.session_id rows
        ≡ row ∷ lineage (codes "latest") a.session_id db.checkpoints)
      (sym same)
      (subst
        (λ s.
          lineage (codes "latest") s (upsert overwrite row db.checkpoints)
          ≡ row ∷ lineage (codes "latest") s db.checkpoints)
        in_session
        (lineage-upsert row db.checkpoints (subst (λ i. is_empty i ≡ false) (sym named) full)
          (subst (λ i. find i db.checkpoints ≡ none) (sym named) new)
          (subst (λ i. All (λ r. r.parent_checkpoint_id ≢ some i) db.checkpoints) (sym named)
            childless)
          (parent
            ∙ parent_of-latest a db.checkpoints asked
            ∙ ap (λ s. latest_checkpoint_id s db.checkpoints) (sym in_session))
          (subst
            (λ s.
              latest_checkpoint_id s (upsert overwrite row db.checkpoints) ≡ some row.checkpoint_id)
            (sym in_session)
            (subst (λ rows. latest_checkpoint_id a.session_id rows ≡ some row.checkpoint_id) same
              latest))))
