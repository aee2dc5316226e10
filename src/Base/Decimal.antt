-- ===== src/Base/Decimal.antt =====
-- `format!("{}", n)` for an unsigned integer, and the digits of `parse`.
pub mod RoundTrip
use Prim.Native.Nat.{ℕ, zero, suc, ◌+◌, ◌-◌, ◌*◌, ◌/◌, ◌%◌}
use Prim.Native.Char.{code}
use Prim.Native.String.{String, ◌++◌}
use mathlib.Core.Bool.{◌&&◌}
use mathlib.Core.Option.{Option, none, some}
use snerd_rust.Base.Tests.{ltb, leb, ◌==◌, if◌then◌else◌}

unfoldable pub digit : ℕ → String
digit d =
    if d == 0
    then "0"
    else if d == 1
    then "1"
    else if d == 2
    then "2"
    else if d == 3
    then "3"
    else if d == 4
    then "4"
    else if d == 5
    then "5"
    else if d == 6
    then "6"
    else if d == 7
    then "7"
    else if d == 8
    then "8"
    else "9"

-- One digit for each round; `n + 1` rounds are more than `n` has digits.
unfoldable pub digits : ℕ → ℕ → String
digits zero n = ""
digits (suc rounds) n =
    let rest = digits rounds (n / 10) in if ltb n 10 then digit n else rest ++ digit (n % 10)

unfoldable pub decimal : ℕ → String
unfolding digits digit
decimal n = digits (suc n) n

-- Reads digits after the number `n`; none of the numbers on the way may reach `limit`.
unfoldable pub parse_digits : ℕ → ℕ → String → Option ℕ
parse_digits limit n String.[] = some n
parse_digits limit n (String.◌∷◌ ch s) =
    let c = code ch in
    let n' = n * 10 + (c - 48) in
    let rest = parse_digits limit n' s in
    if leb 48 c && leb c 57 && ltb n' limit then rest else none
