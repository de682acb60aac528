-- ===== src/PatchApply/FileTests.antt =====
-- A file system in memory, with no links, and a run of `apply_search_replace` in it.
use a.Prelude.{
  ◌≡◌, ◌≢◌, ◌↔◌, refl, ap, Bool, true, false, ◌&&◌, Option, none, some, List, [], ◌∷◌, arith,
  if◌then◌else◌, Bool-cases, inl, inr,
}
use a.Text.{Text, codes, text_eq, text_eq_iff}
use a.Paths.{pass, is_absolute, normalize_diff_path, member, path_parts, first_blocked}
use a.PatchGuard.{validate_rel_path, Node, file}
use a.PatchApply.{exact, replace_with_strategy, replace_direct, replace_exact}
use a.PatchApply.Target.{FileSystem}
use a.PatchApply.Apply.{Applied, replaced}
use a.PatchApply.Run.{Report, apply_search_replace}
use a.PatchApply.Frame.{WritesOne, Keeps}
use a.PatchApply.Writes.{apply_search_replace-Keeps}

same_place : List Text → List Text → Bool
unfolding text_eq
same_place [] [] = true
same_place (x ∷ xs) (y ∷ ys) = text_eq x y && same_place xs ys
same_place _ _ = false

same_place_iff : (xs ys : List Text) → (same_place xs ys ≡ true) ↔ (xs ≡ ys)
unfolding same_place
same_place_iff [] [] = (λ h. refl, λ h. refl)
same_place_iff (x ∷ xs) (y ∷ ys) = ground (arith, text_eq_iff x y, same_place_iff xs ys)
same_place_iff [] (y ∷ ys) = ground arith
same_place_iff (x ∷ xs) [] = ground arith

abbrev Files : Type 0
Files = List Text → Option Node

put : List Text → Text → Files → Files
unfolding same_place
put place new s other = if same_place other place then some (file new) else s other

abbrev memory : FileSystem
memory = record {
  State = Files;
  tree = λ s. record { resolve = some; node = s };
  rglob = λ s name. [];
  write = λ place new s. some (put place new s);
}

put_ne :
    (place other : List Text) (new : Text) (s : Files)
    → other ≢ place
    → put place new s other ≡ s other
unfolding put
put_ne place other new s e = elim (Bool-cases (same_place other place)) [
  | inl same ↦ absurd (e ((same_place_iff other place).0 same))
  | inr differs ↦ rw differs refl
]

put_others :
    (place other : List Text) (new content : Text) (s t : Files)
    → Path (Option Files) (some (put place new s)) (some t)
    → other ≢ place
    → (t other ≡ some (file content)) ↔ (s other ≡ some (file content))
put_others place other new content s t h e =
    let same : put place new s other ≡ t other = ap (λ u. u other) (stored h) in
    rw (← same, put_ne place other new s e) (λ k. k, λ k. k)
  where
    stored : Path (Option Files) (some (put place new s)) (some t) → put place new s ≡ t
    stored k = ground arith

memory-WritesOne : WritesOne memory
memory-WritesOne = record { others = put_others; links = λ place new s t parts h. refl }

abbrev files : Files
files = put (codes "a.py" ∷ []) (codes "w\nx\n") (λ place. none)

abbrev patch : Text
patch = codes "a.py\n<<<<<<< SEARCH\nx\n=======\ny\n>>>>>>> REPLACE\n"

abbrev item : Applied
item = record {
  index = 1;
  path = codes "a.py";
  effective_path = codes "a.py";
  line = 1;
  mode = replaced;
  matches = 1;
  replace_matches = 0;
  match_meta =
      some (record { matches = 1; match_strategy = exact; fuzz_level = 0; unescaped = false });
  normalizations = [];
  path_candidates = [];
}

abbrev outcome : Report
outcome = record {
  status = pass;
  dry_run = false;
  applied_count = 1;
  already_applied_count = 0;
  success_count = 1;
  failed_count = 0;
  partial_success = false;
  applied = item ∷ [];
  touched_files = codes "a.py" ∷ [];
  referenced_files = codes "a.py" ∷ [];
  findings = [];
}

ran :
    apply_search_replace memory false patch files
    ≡ some (put (codes "a.py" ∷ []) (codes "w\ny\n") files, outcome)
unfolding apply_search_replace put validate_rel_path is_absolute normalize_diff_path member
    path_parts first_blocked replace_with_strategy replace_direct replace_exact
ran = refl

apply_search_replace-Keeps_example :
    Keeps memory memory-WritesOne files (put (codes "a.py" ∷ []) (codes "w\ny\n") files)
apply_search_replace-Keeps_example =
    apply_search_replace-Keeps memory memory-WritesOne false patch files
      (put (codes "a.py" ∷ []) (codes "w\ny\n") files) outcome ran
