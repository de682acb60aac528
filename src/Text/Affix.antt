-- ===== src/Text/Affix.antt =====
-- Prefixes.
use a.Prelude.{◌≡◌, refl, true, [], ◌∷◌, ◌++◌, arith, length}
use a.Text.{Text, starts_with, drop}

pub starts_with-drop : (s p : Text) → starts_with s p ≡ true → s ≡ p ++ drop (length p) s
unfolding starts_with
starts_with-drop s [] h = refl
starts_with-drop [] (d ∷ p) h = ground arith
starts_with-drop (c ∷ s) (d ∷ p) h = ground (arith, starts_with-drop s p)

pub starts_with-append : (p s : Text) → starts_with (p ++ s) p ≡ true
unfolding starts_with
starts_with-append [] s = refl
starts_with-append (c ∷ p) s = ground (arith, starts_with-append p s)
