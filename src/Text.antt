-- ===== src/Text.antt =====
-- Python's `str` as a list of code points, and the methods of it that the program calls. These are
-- the language's own, not the program's; the modules below hold what is proved of them.
pub mod Lines
pub mod Search
pub mod Single
pub mod Affix
pub mod Strip
pub mod Glob
use Prim.Native.Char.{code}
use mathlib.Core.List.{reverse}
use a.Prelude.{
  ℕ, zero, suc, ◌+◌, ◌-◌, String, ◌≡◌, refl, ◌↔◌, Bool, true, false, not, ◌&&◌, ◌||◌, List, [], ◌∷◌,
  ◌++◌, arith, ◌==◌, ==_iff, leb, if◌then◌else◌, length, ap, map,
}

abbrev pub Text : Type 0
Text = List ℕ

abbrev pub codes : String → Text
codes (String.◌∷◌ first others) = code first ∷ codes others
codes String.[] = []

-- not s
abbrev pub is_empty {ℓ} : {A : Type ℓ} → List A → Bool
is_empty [] = true
is_empty (_ ∷ _) = false

-- s == t
unfoldable pub text_eq : Text → Text → Bool
text_eq [] t = is_empty t
text_eq (c ∷ s) [] = false
text_eq (c ∷ s) (d ∷ t) = text_eq s t && d == c

pub text_eq_sound : (s t : Text) → text_eq s t ≡ true → s ≡ t
unfolding text_eq
text_eq_sound [] [] h = refl
text_eq_sound (c ∷ s) (d ∷ t) h = ground (arith, text_eq_sound s t)
text_eq_sound [] (d ∷ t) h = ground arith
text_eq_sound (c ∷ s) [] h = ground arith

pub text_eq_refl : (s : Text) → text_eq s s ≡ true
unfolding text_eq
text_eq_refl [] = refl
text_eq_refl (c ∷ s) = ground (arith, text_eq_refl s)

pub text_eq_iff : (s t : Text) → (text_eq s t ≡ true) ↔ (s ≡ t)
text_eq_iff s t = (text_eq_sound s t, λ e. rw e (text_eq_refl t))

-- s.startswith(p)
unfoldable pub starts_with : Text → Text → Bool
starts_with s [] = true
starts_with [] (d ∷ p) = false
starts_with (c ∷ s) (d ∷ p) = c == d && starts_with s p

-- s.endswith(p)
unfoldable pub ends_with : Text → Text → Bool
unfolding starts_with
ends_with s p = starts_with (reverse s) (reverse p)

-- s[n:]
abbrev pub drop {ℓ} : {A : Type ℓ} → ℕ → List A → List A
drop zero xs = xs
drop (suc n) [] = []
drop (suc n) (x ∷ xs) = drop n xs

-- s[:n]
abbrev pub take {ℓ} : {A : Type ℓ} → ℕ → List A → List A
take zero xs = []
take (suc n) [] = []
take (suc n) (x ∷ xs) = x ∷ take n xs

-- c.isspace()
unfoldable pub is_space : ℕ → Bool
is_space c =
    leb 9 c && leb c 13
    || leb 28 c && leb c 32
    || c == 133
    || c == 160
    || c == 5760
    || leb 8192 c && leb c 8202
    || c == 8232
    || c == 8233
    || c == 8239
    || c == 8287
    || c == 12288

module _ (p : ℕ → Bool) where
  -- s.lstrip(chars), where `p` tells the characters to strip
  unfoldable pub lstrip_by : Text → Text
  lstrip_by [] = []
  lstrip_by (c ∷ s) = if p c then lstrip_by s else c ∷ s

  unfoldable pub rstrip_by : Text → Text
  unfolding lstrip_by
  rstrip_by s = reverse (lstrip_by (reverse s))

  unfoldable pub strip_by : Text → Text
  unfolding rstrip_by
  strip_by s = rstrip_by (lstrip_by s)

-- s.lstrip(), s.strip()
abbrev pub lstrip : Text → Text
lstrip = lstrip_by is_space

abbrev pub strip : Text → Text
strip = strip_by is_space

-- p in s
unfoldable pub contains : Text → Text → Bool
unfolding starts_with
contains [] p = starts_with [] p
contains (c ∷ s) p = starts_with (c ∷ s) p || contains s p

-- c in s, for a single character
unfoldable pub has_char : ℕ → Text → Bool
has_char d [] = false
has_char d (c ∷ s) = c == d || has_char d s

-- s.split(d), for a single character
split_from : ℕ → Text → Text → List Text
split_from d part [] = part ∷ []
split_from d part (c ∷ s) = elim (c == d) [
  | true ↦ part ∷ split_from d [] s
  | false ↦ split_from d (part ++ c ∷ []) s
]

unfoldable pub split_on : ℕ → Text → List Text
unfolding split_from
split_on d s = split_from d [] s

-- s.split()
add_word : Text → List Text → List Text
add_word [] ws = ws
add_word (c ∷ s) ws = (c ∷ s) ∷ ws

words_from : Text → Text → List Text
unfolding add_word is_space
words_from word [] = add_word word []
words_from word (c ∷ s) = elim (is_space c) [
  | true ↦ add_word word (words_from [] s)
  | false ↦ words_from (word ++ c ∷ []) s
]

unfoldable pub words : Text → List Text
unfolding words_from
words s = words_from [] s

-- d.join(parts)
unfoldable pub join : Text → List Text → Text
join d [] = []
join d (x ∷ []) = x
join d (x ∷ y ∷ ys) = x ++ d ++ join d (y ∷ ys)

-- "".join(parts)
unfoldable pub concat : List Text → Text
concat [] = []
concat (x ∷ xs) = x ++ concat xs
