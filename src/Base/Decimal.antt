-- ===== src/Base/Decimal.antt =====
-- Numbers as decimal text, as `strconv.Itoa` and the verb `%d` write them.
use Prim.Native.Nat.{ℕ, zero, suc, ◌/◌, ◌%◌}
use Prim.Native.String.{String, ◌++◌ as str_append}
use symkernel.Base.Tests.{ltb, ◌==◌, if◌then◌else◌}
use symkernel.Base.Int.{ℤ, pos, negsuc}

-- `strconv.Itoa`, on fuel above the number.
abbrev digit : ℕ → String
digit d =
    if d == 0
    then "0"
    else if d == 1
    then "1"
    else if d == 2
    then "2"
    else if d == 3
    then "3"
    else if d == 4
    then "4"
    else if d == 5
    then "5"
    else if d == 6
    then "6"
    else if d == 7
    then "7"
    else if d == 8
    then "8"
    else "9"

itoa_fuel : ℕ → ℕ → String
itoa_fuel zero n = ""
itoa_fuel (suc f) n =
    let rest = str_append (itoa_fuel f (n / 10)) (digit (n % 10)) in
    if ltb n 10 then digit n else rest

unfoldable pub itoa : ℕ → String
unfolding itoa_fuel
itoa n = itoa_fuel (suc n) n

-- `%d` of an int.
unfoldable pub decimal : ℤ → String
unfolding itoa
decimal (pos n) = itoa n
decimal (negsuc n) = str_append "-" (itoa (suc n))
