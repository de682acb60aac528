-- ===== src/Paths.antt =====
-- Paths, as `pathlib` reads them on a POSIX system, and the components that
-- scripts/a9_scope_guard.py and scripts/a9_patch_guard.py refuse.
pub mod Order
use a.Prelude.{
  ◌-◌, ℕ, Bool, true, false, not, ◌&&◌, ◌||◌, Option, none, some, List, [], ◌∷◌, ◌++◌, ◌≡◌, refl,
  ◌==◌, map, if◌then◌else◌, length, String,
}
use a.Text.{Text, codes, text_eq, starts_with, ends_with, drop, take, strip, split_on, is_empty}

abbrev pub slash : ℕ
slash = b'/'

-- t in xs
unfoldable pub member : Text → List Text → Bool
member t [] = false
member t (x ∷ xs) = text_eq x t || member t xs

-- Whether any of the names is among the components.
unfoldable pub any_member : List Text → List Text → Bool
unfolding member
any_member [] parts = false
any_member (name ∷ names) parts = member name parts || any_member names parts

-- Path(raw).is_absolute()
unfoldable pub is_absolute : Text → Bool
is_absolute [] = false
is_absolute (c ∷ s) = c == slash

-- Empty components and "." disappear.
keep_parts : List Text → List Text
keep_parts [] = []
keep_parts (x ∷ xs) =
    let rest = keep_parts xs in if is_empty x || text_eq x (codes ".") then rest else x ∷ rest

-- Path(raw).parts, for a relative path.
unfoldable pub path_parts : Text → List Text
unfolding keep_parts split_on text_eq
path_parts raw = keep_parts (split_on slash raw)

-- Path(raw).name, from its parts.
unfoldable pub last_part : List Text → Text
last_part [] = []
last_part (x ∷ []) = x
last_part (x ∷ y ∷ xs) = last_part (y ∷ xs)

-- The first of the names that is among the components, in the order of the names.
unfoldable pub first_blocked : List Text → List Text → Option Text
unfolding member
first_blocked [] parts = none
first_blocked (name ∷ names) parts =
    if member name parts then some name else first_blocked names parts

unquote : Text → Text
unfolding starts_with ends_with
unquote raw =
    if starts_with raw (codes "\"") && ends_with raw (codes "\"")
    then take (length raw - 1 - 1) (drop 1 raw)
    else raw

unprefix : Text → Text
unfolding starts_with
unprefix raw =
    if starts_with raw (codes "a/") || starts_with raw (codes "b/") then drop 2 raw else raw

-- A path as a header of a diff gives it; both guards have this function.
unfoldable pub normalize_diff_path : Text → Text
unfolding unquote unprefix text_eq
normalize_diff_path raw =
    let raw = strip raw in if text_eq raw (codes "/dev/null") then raw else unprefix (unquote raw)

pub data Level : Type 0 where
  error warning info : Level

-- The verdict of a report.
pub data Status : Type 0 where
  pass fail : Status

parts_run : path_parts (codes "./src//a.py") ≡ codes "src" ∷ codes "a.py" ∷ []
unfolding path_parts
parts_run = refl
