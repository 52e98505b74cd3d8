-- ===== src/Base/Text.antt =====
-- Numbers as the language's `Display` and `{:#04x}` print them.
use Prim.Native.Nat.{ℕ, zero, suc, ◌+◌, ◌/◌, ◌%◌}
use Prim.Native.String.{String, ◌++◌}
use hokulea.Base.Tests.{◌==◌, ltb, if◌then◌else◌}

-- one digit, to base 16
digit : ℕ → String
digit d =
    if d == 0
    then "0"
    else if d == 1
    then "1"
    else if d == 2
    then "2"
    else if d == 3
    then "3"
    else if d == 4
    then "4"
    else if d == 5
    then "5"
    else if d == 6
    then "6"
    else if d == 7
    then "7"
    else if d == 8
    then "8"
    else if d == 9
    then "9"
    else if d == 10
    then "a"
    else if d == 11
    then "b"
    else if d == 12
    then "c"
    else if d == 13
    then "d"
    else if d == 14
    then "e"
    else "f"

-- `n + 1` rounds are more than the digits of `n`.
digits_of : ℕ → ℕ → String
digits_of zero n = ""
digits_of (suc f) n =
    let front = digits_of f (n / 10) in if ltb n 10 then digit n else front ++ digit (n % 10)

unfoldable pub decimal : ℕ → String
unfolding digits_of digit
decimal n = digits_of (n + 1) n

-- a byte as `0x` and two digits
unfoldable pub hex_byte : ℕ → String
unfolding digit
hex_byte b = "0x" ++ (digit (b / 16) ++ digit (b % 16))
