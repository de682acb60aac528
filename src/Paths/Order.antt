-- ===== src/Paths/Order.antt =====
-- `sorted` of a set of texts: by code points, each text once.
use a.Prelude.{
  Bool, true, false, ◌&&◌, ◌||◌, List, [], ◌∷◌, ◌++◌, ◌≡◌, refl, ◌⊎◌, ◌↔◌, inr, ltb, ◌==◌,
  if◌then◌else◌, arith,
}
use a.Text.{Text, text_eq, text_eq_iff}
use a.Paths.{none, first_blocked, member, any_member}

unfoldable pub text_lt : Text → Text → Bool
text_lt [] [] = false
text_lt [] (d ∷ t) = true
text_lt (c ∷ s) [] = false
text_lt (c ∷ s) (d ∷ t) = ltb c d || c == d && text_lt s t

unfoldable pub insert_sorted : Text → List Text → List Text
unfolding text_lt text_eq
insert_sorted t [] = t ∷ []
insert_sorted t (x ∷ xs) =
    if text_eq t x then x ∷ xs else if text_lt t x then t ∷ x ∷ xs else x ∷ insert_sorted t xs

-- sorted(set(xs))
unfoldable pub sorted_set : List Text → List Text
unfolding insert_sorted
sorted_set [] = []
sorted_set (x ∷ xs) = insert_sorted x (sorted_set xs)

-- Membership, by recursion.
abbrev pub Member : Text → List Text → Type 0
Member t [] = ⊥
Member t (x ∷ xs) = (x ≡ t) ⊎ Member t xs

module _ (t u : Text) where
  pub Member-insert_sorted :
      (xs : List Text) → Member t (insert_sorted u xs) ↔ ((u ≡ t) ⊎ Member t xs)
  unfolding insert_sorted
  Member-insert_sorted [] = (λ h. h, λ h. h)
  Member-insert_sorted (x ∷ xs) = ground (arith, Member-insert_sorted xs, text_eq_iff u x)

pub Member-sorted_set : (t : Text) (xs : List Text) → Member t (sorted_set xs) ↔ Member t xs
unfolding sorted_set
Member-sorted_set t [] = (λ h. h, λ h. h)
Member-sorted_set t (x ∷ xs) =
    ground (arith, Member-insert_sorted t x (sorted_set xs), Member-sorted_set t xs)

pub Member-append :
    (t : Text) (xs ys : List Text) → Member t (xs ++ ys) ↔ (Member t xs ⊎ Member t ys)
Member-append t [] ys = (λ h. inr h, λ h. ground arith)
Member-append t (x ∷ xs) ys = ground (arith, Member-append t xs ys)

pub member_iff : (t : Text) (xs : List Text) → (member t xs ≡ true) ↔ Member t xs
unfolding member
member_iff t [] = (λ h. cc, λ h. elim h [ ])
member_iff t (x ∷ xs) = ground (arith, member_iff t xs, text_eq_iff x t)

-- No name of the first list is in the second.
abbrev pub Disjoint : List Text → List Text → Type 0
Disjoint [] parts = Unit
Disjoint (name ∷ names) parts = (¬ Member name parts) × Disjoint names parts

pub any_member_iff :
    (names parts : List Text) → (any_member names parts ≡ false) ↔ Disjoint names parts
unfolding any_member
any_member_iff [] parts = (λ h. tt, λ h. refl)
any_member_iff (name ∷ names) parts =
    ground (arith, any_member_iff names parts, member_iff name parts)

pub first_blocked_iff :
    (names parts : List Text) → (first_blocked names parts ≡ none) ↔ Disjoint names parts
unfolding first_blocked
first_blocked_iff [] parts = (λ h. tt, λ h. refl)
first_blocked_iff (name ∷ names) parts =
    ground (arith, first_blocked_iff names parts, member_iff name parts)
