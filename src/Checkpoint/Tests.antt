-- ===== src/Checkpoint/Tests.antt =====
-- The checkpoints at a concrete database.
use a.Checkpoint.Copy.{copy_session, copied_checkpoint_id}
use a.Prelude.{arith, ◌++◌, ◌≡◌, refl, none, some, if◌then◌else◌, List, [], ◌∷◌, ◌⊎◌}
use a.Text.{contains, text_eq, starts_with, Text, codes}
use a.Checkpoint.{text_eq, find, ℕ, Row, Database}
use a.Checkpoint.Put.{row_of, PutArgs, stored, put}
use a.Checkpoint.Quote.{read_value, sql_quote, read_value-sql_quote}
use a.Checkpoint.Stored.{PutLeaves, put-PutLeaves}
use a.Checkpoint.Steps.{IsLatestStep, put-IsLatestStep}
use a.Checkpoint.Lineage.{start_of, lineage}
use a.Checkpoint.Extends.{put-extends}
use a.Checkpoint.Chain.{IsTrace, lineage-IsTrace}
use a.Checkpoint.Load.{Reader}
use a.Checkpoint.Renaming.{IsTaken, copied_checkpoint_id_injective}

abbrev empty_database : Database
empty_database = record { sessions = []; checkpoints = []; commands = [] }

abbrev plan_args : PutArgs
plan_args = record {
  session_id = codes "s";
  channels = some ((codes "plan", codes "\"a\"") ∷ []);
  updated_channel = [];
  evidence_id = [];
  token_usage = some (codes "{}");
  checkpoint_id = [];
  parent_checkpoint_id = codes "latest";
  step = none;
  source = codes "manual";
  status = codes "running";
}

abbrev two_steps : Database
two_steps = (put plan_args (codes "2") (put plan_args (codes "1") empty_database).1).1

abbrev root_row : Row
root_row = record {
  checkpoint_id = codes "s:checkpoint:1";
  session_id = codes "s";
  parent_checkpoint_id = none;
  step = 1;
  source = codes "manual";
  status = codes "running";
  channels = (codes "plan", codes "\"a\"") ∷ [];
  updated_channels = codes "plan" ∷ [];
  token_usage = codes "{}";
  evidence_ids = [];
}

abbrev second_row : Row
second_row = record root_row {
  checkpoint_id = codes "s:checkpoint:2";
  parent_checkpoint_id = some (codes "s:checkpoint:1");
  step = 2;
}

abbrev table : List Row
table = root_row ∷ second_row ∷ []

two_steps_stored : two_steps.checkpoints ≡ table
unfolding put row_of
two_steps_stored = refl

-- The columns are read as they stand, where they hold no backslash.
abbrev plain_reader : Reader
plain_reader = record {
  read_object = λ channels. some channels;
  read_array = λ names. some names;
  read_json = λ text. if contains text (b'\\' ∷ []) then none else some text;
}

-- The copy has its own line of parents.
copies_linked :
    find
      (codes "t:checkpoint:2")
      (copy_session plain_reader
        (codes "s")
        (codes "t")
        (codes "copy-session")
        two_steps).1.checkpoints
    ≡ some (record second_row {
      checkpoint_id = codes "t:checkpoint:2";
      session_id = codes "t";
      parent_checkpoint_id = some (codes "t:checkpoint:1");
      source = codes "copy-session";
    })
unfolding copy_session put row_of contains
copies_linked = refl

-- A checkpoint put again without a parent of its own becomes its own parent.
own_parent :
    find
      (codes "s:checkpoint:2")
      (put (record plan_args { checkpoint_id = codes "s:checkpoint:2" }) [] two_steps).1.checkpoints
    ≡ some (record second_row { parent_checkpoint_id = some (codes "s:checkpoint:2") })
unfolding put row_of
own_parent = refl

abbrev some_named : ℕ → Text
some_named c = c ∷ []

read_value-sql_quote_example :
    read_value some_named (sql_quote (some (codes "it's \\ ")) ++ codes ", 1")
    ≡ some (some (codes "it's \\ "), codes ", 1")
unfolding starts_with
read_value-sql_quote_example =
    read_value-sql_quote some_named (some (codes "it's \\ ")) (codes ", 1") refl refl

put-PutLeaves_example :
    let ran = put plan_args (codes "1") empty_database in
    PutLeaves plan_args (codes "1") empty_database ran.0 ran.1
put-PutLeaves_example = put-PutLeaves plan_args (codes "1") empty_database

put_first : (put plan_args (codes "1") empty_database).0 ≡ stored root_row
unfolding put row_of
put_first = refl

put-IsLatestStep_example :
    IsLatestStep (codes "s") [] root_row (put plan_args (codes "1") empty_database).1.checkpoints
unfolding find
put-IsLatestStep_example =
    put-IsLatestStep plan_args (codes "1") empty_database root_row refl refl put_first

-- The second checkpoint comes in front of the first.
abbrev after_first : Database
after_first = (put plan_args (codes "1") empty_database).1

put_second : (put plan_args (codes "2") after_first).0 ≡ stored second_row
unfolding put row_of
put_second = refl

put-extends_example :
    lineage (codes "latest") (codes "s") (put plan_args (codes "2") after_first).1.checkpoints
    ≡ second_row ∷ lineage (codes "latest") (codes "s") after_first.checkpoints
unfolding put row_of find
put-extends_example =
    put-extends plan_args (codes "2") after_first second_row refl refl refl refl
      ((λ h. ground (arith, h)), tt) put_second

lineage-IsTrace_example :
    IsTrace table []
      (start_of (codes "latest") (codes "s") table)
      (lineage (codes "latest") (codes "s") table)
lineage-IsTrace_example = lineage-IsTrace (codes "latest") (codes "s") table

-- These two names are the same in the copy.
taken_names :
    copied_checkpoint_id (codes "s") (codes "t") (codes "s:copy:x")
    ≡ copied_checkpoint_id (codes "s") (codes "t") (codes "x")
unfolding copied_checkpoint_id
taken_names = refl

copied_checkpoint_id_injective_example :
    (codes "s:copy:x" ≡ codes "x")
    ⊎ (IsTaken (codes "s") (codes "t") (codes "s:copy:x") (codes "x")
        ⊎ IsTaken (codes "s") (codes "t") (codes "x") (codes "s:copy:x"))
copied_checkpoint_id_injective_example =
    copied_checkpoint_id_injective (codes "s") (codes "t") (codes "s:copy:x") (codes "x")
      taken_names

abbrev copied_from : Database
copied_from = record { sessions = []; checkpoints = table; commands = [] }
