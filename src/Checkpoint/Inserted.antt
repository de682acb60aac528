-- ===== src/Checkpoint/Inserted.antt =====
-- Which rows stand in the table behind the statements of `copy_session` (scripts/a9_checkpoint.py).
use mathlib.Core.Path.{subst}
use mathlib.Core.Bool.{false≢true}
use a.Prelude.{
  ◌≡◌, ◌≢◌, refl, ap, sym, ◌∙◌, inl, inr, true, false, Option, some, List, [], ◌∷◌, Bool-cases,
  arith, All, map,
}
use a.Text.{Text, text_eq_iff}
use a.Checkpoint.{Row, find, upsert, parent_known}
use a.Checkpoint.Load.{Reader, load}
use a.Checkpoint.Copy.{copied_checkpoint_id, copy_of, printed_copy, overwrite_copy, insert_all}
use a.Checkpoint.Tables.{
  merged, find-upsert_same, find-upsert_other, overwrite_copy_id, insert_all-known,
  insert_all-unknown,
}
use a.Checkpoint.Ordered.{AreApart}

-- The JSON columns of a row are read as those of `read`.
abbrev pub IsRead : Reader → Row → Row → Type 0
IsRead reader row read = load reader row ≡ some read

-- The columns of the row can be read.
abbrev pub IsReadable : Reader → Row → Type 0
IsReadable reader row = (read : Row) × IsRead reader row read

abbrev pub renamed_id : Text → Text → Text → Text
renamed_id = copied_checkpoint_id

-- A copy has the new id.
pub copy_id :
    (source_session_id dest_session_id source : Text) (all : List Row) (row read : Row)
    → (copy_of source_session_id dest_session_id source all row read).checkpoint_id
      ≡ renamed_id source_session_id dest_session_id row.checkpoint_id
unfolding copy_of
copy_id source_session_id dest_session_id source all row read = refl

module _ (reader : Reader) (source_session_id dest_session_id source : Text) (all : List Row) where
  abbrev renamed : Text → Text
  renamed = renamed_id source_session_id dest_session_id

  abbrev pub printed : Row → Option Row
  printed = printed_copy source_session_id dest_session_id source reader all

  abbrev pub copy : Row → Row → Row
  copy = copy_of source_session_id dest_session_id source all

  pub printed-IsRead :
      (row read : Row) → IsRead reader row read → printed row ≡ some (copy row read)
  unfolding printed_copy
  printed-IsRead row read h = rw (h, printed_copy) refl

  -- A row that has none of the new ids stays.
  insert_all-other :
      (id : Text) (rows table : List Row)
      → All (IsReadable reader) rows
      → All (λ row. id ≢ renamed row.checkpoint_id) rows
      → find id (insert_all (map printed rows) table).1 ≡ find id table
  unfolding insert_all
  insert_all-other id [] table readable other = refl
  insert_all-other id (row ∷ rows) table ((read, e), readable) (ne, other) =
      let new = copy row read in
      rw (printed-IsRead row read e) (elim (Bool-cases (parent_known new table)) [
        | inl known ↦ rw (insert_all-known new (map printed rows) table known) (
            insert_all-other id rows (upsert overwrite_copy new table) readable other
            ∙ find-upsert_other overwrite_copy overwrite_copy_id new id table (
                ground (
                  arith,
                  ne,
                  copy_id source_session_id dest_session_id source all row read,
                  text_eq_iff new.checkpoint_id id,
                )))
        | inr unknown ↦ rw (insert_all-unknown new (map printed rows) table unknown) refl
      ])

  -- The copy of a row stands in the table under its new id, as what `overwrite_copy` makes of the
  -- row that was there.
  pub record IsInserted (before after : List Row) (row : Row) : Type 0 where
    pub read : Row
    pub is_read : IsRead reader row read
    pub there :
        find (renamed row.checkpoint_id) after
        ≡ some (merged overwrite_copy (copy row read) (find (renamed row.checkpoint_id) before))

  moved_back :
      (new : Row) (before after rows : List Row)
      → All (λ row. new.checkpoint_id ≢ renamed row.checkpoint_id) rows
      → All (IsInserted (upsert overwrite_copy new before) after) rows
      → All (IsInserted before after) rows
  moved_back new before after [] ne h = tt
  moved_back new before after (row ∷ rows) ne h = (
    record {
      read = h.0.read;
      is_read = h.0.is_read;
      there =
          h.0.there
          ∙ ap (λ old. some (merged overwrite_copy (copy row h.0.read) old))
              (find-upsert_other overwrite_copy overwrite_copy_id new (renamed row.checkpoint_id)
                before
                (ground (arith, ne.0, text_eq_iff new.checkpoint_id (renamed row.checkpoint_id))));
    },
    moved_back new before after rows ne.1 h.1,
  )

  -- Where all statements are accepted and no two of the copies have one id, each copy stands there.
  pub insert_all-IsInserted :
      (rows table : List Row)
      → All (IsReadable reader) rows
      → AreApart renamed rows
      → (insert_all (map printed rows) table).0 ≡ true
      → All (IsInserted table (insert_all (map printed rows) table).1) rows
  unfolding copy_of
  insert_all-IsInserted [] table readable apart accepted = tt
  insert_all-IsInserted (row ∷ rows) table ((read, e), readable) (ne, apart) accepted =
      let new = copy row read in
      elim (Bool-cases (parent_known new table)) [
        | inl known ↦
            let same : insert_all (map printed (row ∷ rows)) table
                ≡ insert_all (map printed rows) (upsert overwrite_copy new table) =
              ap (λ o. insert_all (o ∷ map printed rows) table) (printed-IsRead row read e)
              ∙ insert_all-known new (map printed rows) table known in
            subst (λ ran. All (IsInserted table ran.1) (row ∷ rows)) (sym same)
              (
                record {
                  read = read;
                  is_read = e;
                  there =
                      insert_all-other (renamed row.checkpoint_id) rows
                        (upsert overwrite_copy new table) readable ne
                      ∙ find-upsert_same overwrite_copy overwrite_copy_id new table;
                },
                moved_back new table _ rows ne (
                    insert_all-IsInserted rows (upsert overwrite_copy new table) readable apart
                      (sym (ap (λ ran. ran.0) same) ∙ accepted)),
              )
        | inr unknown ↦
            let same : insert_all (map printed (row ∷ rows)) table ≡ (false, table) =
              ap (λ o. insert_all (o ∷ map printed rows) table) (printed-IsRead row read e)
              ∙ insert_all-unknown new (map printed rows) table unknown in
            absurd (false≢true (sym (ap (λ ran. ran.0) same) ∙ accepted))
      ]
