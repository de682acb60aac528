-- ===== src/Prelude/Dict.antt =====
-- A dictionary with text keys, as an association list.
use Prim.Native.String.{String}
use mathlib.Core.Path.{◌≡◌, refl}
use mathlib.Core.Logic.{◌≢◌}
use mathlib.Core.List.{List, [], ◌∷◌}
use mathlib.Core.Option.{Option, none, some}
use native.Mathlib.Omega.{arith}
use text.Mathlib.TextEquality.{eq_iff}
use a.Prelude.Tests.{str_eq, if◌then◌else◌}

module _ {ℓ} {V : Type ℓ} where
  unfoldable pub lookup : String → List (String × V) → Option V
  lookup key [] = none
  lookup key (entry ∷ others) = if str_eq entry.0 key then some entry.1 else lookup key others

  unfoldable pub insert : String → V → List (String × V) → List (String × V)
  insert key value [] = (key, value) ∷ []
  insert key value (entry ∷ others) =
      if str_eq entry.0 key then (key, value) ∷ others else entry ∷ insert key value others

  -- What stands under any key after an insertion.
  pub lookup-insert :
      (asked key : String) (value : V) (entries : List (String × V))
      → lookup asked (insert key value entries)
        ≡ (if str_eq key asked then some value else lookup asked entries)
  unfolding lookup insert
  lookup-insert asked key value [] = refl
  lookup-insert asked key value (entry ∷ others) = ground (
    arith,
    lookup-insert asked key value others,
    eq_iff entry.0 asked,
    eq_iff entry.0 key,
    eq_iff key asked,
  )

  pub lookup-insert_self :
      (key : String) (value : V) (entries : List (String × V))
      → lookup key (insert key value entries) ≡ some value
  lookup-insert_self key value entries =
      ground (arith, eq_iff key key, lookup-insert key key value entries)

  pub lookup-insert_ne :
      (asked key : String) (value : V) (entries : List (String × V))
      → key ≢ asked
      → lookup asked (insert key value entries) ≡ lookup asked entries
  lookup-insert_ne asked key value entries other =
      ground (arith, eq_iff key asked, lookup-insert asked key value entries)
