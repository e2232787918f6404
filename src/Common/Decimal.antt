-- ===== src/Common/Decimal.antt =====
-- `to_string` of a `u64`: decimal digits, the most significant first.
use Prim.Native.Nat.{ℕ, zero, suc, ◌/◌, ◌%◌}
use Prim.Native.String.{String, ◌++◌}
use melis.Common.Tests.{nat_beq, ltb, if◌then◌else◌}

digit : ℕ → String
digit n =
    if nat_beq n 0
    then "0"
    else if nat_beq n 1
    then "1"
    else if nat_beq n 2
    then "2"
    else if nat_beq n 3
    then "3"
    else if nat_beq n 4
    then "4"
    else if nat_beq n 5
    then "5"
    else if nat_beq n 6
    then "6"
    else if nat_beq n 7
    then "7"
    else if nat_beq n 8
    then "8"
    else "9"

-- Each round takes one digit off the right end.
digits_from : ℕ → ℕ → String → String
digits_from zero n out = out
digits_from (suc fuel) n out =
    let more = digits_from fuel (n / 10) (digit (n % 10) ++ out) in
    if ltb n 10 then digit n ++ out else more

-- A `u64` has at most 20 digits.
unfoldable pub to_string : ℕ → String
unfolding digits_from digit
to_string n = digits_from 20 n ""
