-- ===== src/Text/Search.antt =====
-- `str.count` and `str.replace`.
use a.Prelude.{ℕ, zero, suc, ◌+◌, ◌-◌, ◌≡◌, refl, [], ◌∷◌, ◌++◌, length, if◌then◌else◌}
use a.Text.{Text, codes, starts_with, drop}

-- `skip` characters belong to the occurrence that was counted last: occurrences do not overlap.
unfoldable pub count_from : Text → ℕ → Text → ℕ
unfolding starts_with
count_from p skip [] = 0
count_from p zero (c ∷ s) =
    let hit = starts_with (c ∷ s) p in
    let rest = count_from p (if hit then length p - 1 else 0) s in if hit then rest + 1 else rest
count_from p (suc skip) (c ∷ s) = count_from p skip s

-- s.count(p); the empty text is found before every character and at the end.
unfoldable pub count : Text → Text → ℕ
unfolding count_from
count s [] = length s + 1
count s (d ∷ p) = count_from (d ∷ p) 0 s

-- s.replace(p, r, 1)
unfoldable pub replace_first : Text → Text → Text → Text
unfolding starts_with
replace_first [] p r = if starts_with [] p then r else []
replace_first (c ∷ s) p r =
    if starts_with (c ∷ s) p then r ++ drop (length p) (c ∷ s) else c ∷ replace_first s p r

-- s.replace(p, r), for a text `p` that is not empty.
unfoldable pub replace_from : Text → Text → ℕ → Text → Text
unfolding starts_with
replace_from p r skip [] = []
replace_from p r zero (c ∷ s) =
    let hit = starts_with (c ∷ s) p in
    let rest = replace_from p r (if hit then length p - 1 else 0) s in
    if hit then r ++ rest else c ∷ rest
replace_from p r (suc skip) (c ∷ s) = replace_from p r skip s

unfoldable pub replace_all : Text → Text → Text → Text
unfolding replace_from
replace_all s p r = replace_from p r 0 s

overlaps_count_once : count (codes "aaa") (codes "aa") ≡ 1
unfolding count
overlaps_count_once = refl

replace_all_runs : replace_all (codes "a-b-") (codes "-") (codes "xy") ≡ codes "axybxy"
unfolding replace_all
replace_all_runs = refl
