-- ===== src/Text/Strip.antt =====
-- Stripping.
use mathlib.Core.List.{reverse, reverse-reverse}
use a.Prelude.{ℕ, Bool, ◌≡◌, refl, [], ◌∷◌, arith, ap}
use a.Text.{Text, lstrip_by, rstrip_by, strip_by}

module _ (p : ℕ → Bool) where
  pub lstrip_by_idem : (s : Text) → lstrip_by p (lstrip_by p s) ≡ lstrip_by p s
  unfolding lstrip_by
  lstrip_by_idem [] = refl
  lstrip_by_idem (c ∷ s) = ground (arith, lstrip_by_idem s)

  pub rstrip_by_idem : (s : Text) → rstrip_by p (rstrip_by p s) ≡ rstrip_by p s
  unfolding rstrip_by
  rstrip_by_idem s =
      rw reverse-reverse (ap reverse (unfold lstrip_by in lstrip_by_idem (reverse s)))

  pub rstrip-strip : (s : Text) → rstrip_by p (strip_by p s) ≡ strip_by p s
  unfolding strip_by
  rstrip-strip s = rstrip_by_idem (lstrip_by p s)
