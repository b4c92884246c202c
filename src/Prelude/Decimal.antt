-- ===== src/Prelude/Decimal.antt =====
-- Numbers in decimal, as `Display` writes them.
use Prim.Native.Char.{Char}
use Prim.Native.String.{[], ◌∷◌}
use code_storm.Prelude.Int.{ℤ, pos, negsuc}
use code_storm.Prelude.{ℕ, zero, suc, ◌/◌, ◌%◌, ◌==◌, ltb, String, if◌then◌else◌}

-- The digit of a number below 10.
abbrev pub digit_char : ℕ → Char
digit_char n =
    if n == 0
    then "0"
    else if n == 1
    then "1"
    else if n == 2
    then "2"
    else if n == 3
    then "3"
    else if n == 4
    then "4"
    else if n == 5
    then "5"
    else if n == 6
    then "6"
    else if n == 7
    then "7"
    else if n == 8
    then "8"
    else "9"

-- The digits of a number in front of a text; as many as the number is enough fuel.
abbrev pub digits : ℕ → ℕ → String → String
digits zero n t = digit_char n ∷ t
digits (suc fuel) n t =
    let rest = digits fuel (n / 10) (digit_char (n % 10) ∷ t) in
    if ltb n 10 then digit_char n ∷ t else rest

abbrev pub decimal : ℕ → String
decimal n = digits n n []

abbrev pub int_decimal : ℤ → String
int_decimal (pos n) = decimal n
int_decimal (negsuc n) = "-" ∷ decimal (suc n)
