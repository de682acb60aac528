-- ===== src/Prelude/Text.antt =====
-- Numbers written out in decimal digits, as an f-string writes an `int`.
use Prim.Native.Nat.{ℕ, zero, suc, ◌+◌, ◌/◌, ◌%◌}
use Prim.Native.Char.{Char}
use Prim.Native.String.{String, [], ◌∷◌}
use mathlib.Core.Path.{◌≡◌, refl}
use a.Prelude.Tests.{ltb, ◌==◌, if◌then◌else◌}

digit : ℕ → Char
digit d =
    if d == 0
    then "0"
    else if d == 1
    then "1"
    else if d == 2
    then "2"
    else if d == 3
    then "3"
    else if d == 4
    then "4"
    else if d == 5
    then "5"
    else if d == 6
    then "6"
    else if d == 7
    then "7"
    else if d == 8
    then "8"
    else "9"

-- The digits of `n` before `out`; `n` has at most `n + 1` of them, which bounds the rounds.
digits : ℕ → ℕ → String → String
unfolding digit
digits zero n out = out
digits (suc rounds) n out =
    let rest = digits rounds (n / 10) (digit (n % 10) ∷ out) in
    if ltb n 10 then digit n ∷ out else rest

unfoldable pub decimal : ℕ → String
unfolding digits
decimal n = digits (n + 1) n []

decimal_runs : decimal 1207 ≡ "1207"
unfolding decimal
decimal_runs = refl
