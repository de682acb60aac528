-- ===== src/PatchGuard/PathLine.antt =====
-- `normalize_search_replace_path` of scripts/a9_patch_guard.py: the file path in the line before a
-- SEARCH marker, out of whatever markup a model puts round it.
use a.Prelude.{
  ℕ, zero, suc, Bool, true, false, ◌&&◌, ◌||◌, Option, none, some, List, [], ◌∷◌, ◌++◌, ◌≡◌, refl,
  ◌==◌, if◌then◌else◌, length,
}
use a.Text.{
  Text, codes, text_eq, starts_with, ends_with, drop, strip, strip_by, lstrip_by, rstrip_by,
  has_char, is_space,
}
use a.PatchGuard.{
  Normalization, fence_language_prefix, fence_prefix, trailing_colon, leading_hash,
  embedded_inline_path, inline_markup,
}

-- "." in s or "/" in s
unfoldable pub looks_like_path : Text → Bool
unfolding has_char
looks_like_path s = has_char b'.' s || has_char b'/' s

-- The rest behind the first word, without the blanks between: `split(None, 1)[1]`, and nothing
-- where there is one word.
unfoldable pub after_first_word : Text → Text
unfolding is_space lstrip_by
after_first_word [] = []
after_first_word (c ∷ s) = if is_space c then lstrip_by is_space s else after_first_word s

-- A line that opens a fence; `none` where it names no path.
unfoldable pub unfence : Text → Option (Text × List Normalization)
unfolding after_first_word looks_like_path
unfence path =
    let candidate = strip (drop 3 path) in
    let second = after_first_word candidate in
    if looks_like_path second
    then some (strip second, fence_language_prefix ∷ [])
    else if looks_like_path candidate
    then some (candidate, fence_prefix ∷ [])
    else none

abbrev is_backtick : ℕ → Bool
is_backtick c = c == b'`'

-- The characters up to a backtick, and what follows it; `none` at the end of the line.
unfoldable pub up_to_backtick : Text → Option (Text × Text)
up_to_backtick [] = none
up_to_backtick (c ∷ s) =
    if is_backtick c
    then some ([], s)
    else if c == 10
    then none
    else elim (up_to_backtick s) [ none ↦ none | some (inside, rest) ↦ some (c ∷ inside, rest) ]

-- re.findall(r"`([^`\n]+)`", s); `rounds` is a bound on the characters left.
unfoldable pub inline_codes : ℕ → Text → List Text
unfolding up_to_backtick
inline_codes rounds [] = []
inline_codes zero (c ∷ s) = []
inline_codes (suc rounds) (c ∷ s) = elim (is_backtick c) [
  | false ↦ inline_codes rounds s
  | true ↦ elim (up_to_backtick s) [
    | none ↦ inline_codes rounds s
    | some ([], rest) ↦ inline_codes rounds s
    | some (d ∷ inside, rest) ↦ (d ∷ inside) ∷ inline_codes rounds rest
  ]
]

unfoldable pub embedded_paths : List Text → List Text
unfolding looks_like_path
embedded_paths [] = []
embedded_paths (item ∷ items) =
    let rest = embedded_paths items in if looks_like_path item then strip item ∷ rest else rest

unfoldable pub uncolon : Text × List Normalization → Text × List Normalization
unfolding ends_with rstrip_by
uncolon (path, done) =
    if ends_with path (codes ":")
    then (strip (rstrip_by (λ c. c == b':') path), done ++ trailing_colon ∷ [])
    else (path, done)

unfoldable pub unhash : Text × List Normalization → Text × List Normalization
unfolding starts_with lstrip_by
unhash (path, done) =
    if starts_with path (codes "#")
    then (strip (lstrip_by (λ c. c == b'#') path), done ++ leading_hash ∷ [])
    else (path, done)

unfoldable pub only_embedded : List Text → Text × List Normalization → Text × List Normalization
unfolding starts_with ends_with
only_embedded (item ∷ []) (path, done) =
    if starts_with path (codes "`") && ends_with path (codes "`")
    then (path, done)
    else (item, done ++ embedded_inline_path ∷ [])
only_embedded _ (path, done) = (path, done)

unfoldable pub extract : Text × List Normalization → Text × List Normalization
unfolding inline_codes embedded_paths only_embedded
extract (path, done) = only_embedded (embedded_paths (inline_codes (length path) path)) (path, done)

unfoldable pub unmark : Text × List Normalization → Text × List Normalization
unfolding strip_by text_eq
unmark (path, done) =
    let stripped = strip (strip_by (λ c. c == b'*') (strip_by is_backtick path)) in
    if text_eq stripped path then (path, done) else (stripped, done ++ inline_markup ∷ [])

-- The four steps behind the fence.
unfoldable pub tidy : Text × List Normalization → Text × List Normalization
unfolding uncolon unhash extract unmark
tidy p = unmark (extract (unhash (uncolon p)))

unfoldable pub fenced : Text → Option (Text × List Normalization) → Text × List Normalization
unfolding tidy
fenced raw none = (strip raw, [])
fenced raw (some p) = tidy p

unfoldable pub normalize_search_replace_path : Text → Text × List Normalization
unfolding unfence fenced starts_with
normalize_search_replace_path raw =
    let path = strip raw in
    if starts_with path (codes "```") then fenced raw (unfence path) else tidy (path, [])

fence_run :
    normalize_search_replace_path (codes "```python src/a.py")
    ≡ (codes "src/a.py", fence_language_prefix ∷ [])
unfolding normalize_search_replace_path
fence_run = refl

inline_run :
    normalize_search_replace_path (codes "### Edit `docs/a.md` now:")
    ≡ (codes "docs/a.md", trailing_colon ∷ leading_hash ∷ embedded_inline_path ∷ [])
unfolding normalize_search_replace_path
inline_run = refl
