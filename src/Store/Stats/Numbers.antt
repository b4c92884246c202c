-- ===== src/Store/Stats/Numbers.antt =====
-- `str::parse::<i64>`, and the division of an `i64` by a constant (matcher/src/store.rs).
pub mod Printed
use Prim.Native.Char.{Char, code}
use Prim.Native.String.{[], ◌∷◌}
use code_storm.Prelude.{
  ℕ, zero, suc, ◌+◌, ◌-◌, ◌*◌, ◌/◌, ◌^◌, ◌&&◌, String, Option, none, some, ltb, leb, ◌==◌,
  if◌then◌else◌, and_then,
}
use code_storm.Prelude.Int.{ℤ, pos, negsuc}

abbrev pub digit_of : Char → Option ℕ
digit_of c = if leb 48 (code c) && leb (code c) 57 then some (code c - 48) else none

abbrev pub push_digit : ℕ → Option ℕ → Option ℕ
push_digit acc none = none
push_digit acc (some d) = some (acc * 10 + d)

abbrev pub digits_from : Option ℕ → String → Option ℕ
digits_from acc [] = acc
digits_from acc (c ∷ s) = digits_from (and_then acc (λ n. push_digit n (digit_of c))) s

-- There has to be a digit.
abbrev pub parse_digits : String → Option ℕ
parse_digits [] = none
parse_digits (c ∷ s) = digits_from (some 0) (c ∷ s)

abbrev pub checked_pos : ℕ → Option ℤ
checked_pos n = if ltb n (2 ^ 63) then some (pos n) else none

abbrev pub checked_neg : ℕ → Option ℤ
checked_neg zero = some (pos 0)
checked_neg (suc n) = if ltb n (2 ^ 63) then some (negsuc n) else none

unfoldable pub parse_i64 : String → Option ℤ
parse_i64 [] = none
parse_i64 (c ∷ s) =
    if code c == 45
    then and_then (parse_digits s) checked_neg
    else if code c == 43
    then and_then (parse_digits s) checked_pos
    else and_then (parse_digits (c ∷ s)) checked_pos

-- Division towards zero.
abbrev pub div_i64 : ℤ → ℕ → ℤ
div_i64 (pos n) d = pos (n / d)
div_i64 (negsuc n) d = elim (suc n / d) [ zero ↦ pos 0 | suc q ↦ negsuc q ]

-- `max(0)`
abbrev pub max_zero : ℤ → ℤ
max_zero (pos n) = pos n
max_zero (negsuc n) = pos 0
