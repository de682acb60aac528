-- ===== src/Text/Single.antt =====
-- `str.replace` of a single character.
use a.Prelude.{ℕ, ◌≡◌, refl, [], ◌∷◌, ◌++◌, ◌==◌, if◌then◌else◌, arith}
use a.Text.{Text, starts_with}
use a.Text.Search.{replace_all, replace_from}

pub replace_all-nil : (d : ℕ) (r : Text) → replace_all [] (d ∷ []) r ≡ []
unfolding replace_all replace_from
replace_all-nil d r = refl

pub replace_all-cons :
    (c d : ℕ) (s r : Text)
    → replace_all (c ∷ s) (d ∷ []) r
      ≡ (if c == d then r ++ replace_all s (d ∷ []) r else c ∷ replace_all s (d ∷ []) r)
unfolding replace_all replace_from starts_with
replace_all-cons c d s r = ground arith
