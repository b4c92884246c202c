-- ===== src/Store/Stats/Numbers/Printed.antt =====
-- A number that was written in decimal is read back (matcher/src/store.rs).
use Prim.Native.String.{◌∷◌, []}
use code_storm.Prelude.{
  ℕ, zero, suc, ◌/◌, ◌%◌, ◌<◌, ◌≤◌, ◌≡◌, refl, ap, ◌∙◌, inl, inr, Bool-cases, String, some, ltb,
  ◌==◌, false, arith, [], sym,
}
use code_storm.Prelude.Int.{ℤ, pos, negsuc, IsI64}
use Prim.Native.Char.{code}
use code_storm.Prelude.Decimal.{int_decimal, digit_char, digits, decimal}
use code_storm.Store.Stats.Numbers.{parse_i64, digit_of, push_digit, digits_from, parse_digits}

digit_of-digit_char : (n : ℕ) → n < 10 → digit_of (digit_char n) ≡ some n
digit_of-digit_char zero h = refl
digit_of-digit_char (suc zero) h = refl
digit_of-digit_char (suc (suc zero)) h = refl
digit_of-digit_char (suc (suc (suc zero))) h = refl
digit_of-digit_char (suc (suc (suc (suc zero)))) h = refl
digit_of-digit_char (suc (suc (suc (suc (suc zero))))) h = refl
digit_of-digit_char (suc (suc (suc (suc (suc (suc zero)))))) h = refl
digit_of-digit_char (suc (suc (suc (suc (suc (suc (suc zero))))))) h = refl
digit_of-digit_char (suc (suc (suc (suc (suc (suc (suc (suc zero)))))))) h = refl
digit_of-digit_char (suc (suc (suc (suc (suc (suc (suc (suc (suc zero))))))))) h = refl
digit_of-digit_char (suc (suc (suc (suc (suc (suc (suc (suc (suc (suc n)))))))))) h =
    absurd (omega arith)

digits_from-digits :
    (fuel n : ℕ) (t : String)
    → n ≤ fuel
    → digits_from (some 0) (digits fuel n t) ≡ digits_from (some n) t
digits_from-digits zero n t h = let it : n ≡ 0 = omega arith in rw it refl
digits_from-digits (suc fuel) n t h = elim (Bool-cases (ltb n 10)) [
  | inl small ↦ rw small (
      ap (λ o. digits_from (push_digit 0 o) t) (digit_of-digit_char n (ground arith))
      ∙ ap (λ k. digits_from (some k) t) (omega arith))
  | inr large ↦
      let rest = digits_from-digits fuel (n / 10) (digit_char (n % 10) ∷ t) (ground arith) in
      rw large (
        rest
        ∙ ap (λ o. digits_from (push_digit (n / 10) o) t)
            (digit_of-digit_char (n % 10) (omega arith))
        ∙ ap (λ k. digits_from (some k) t) (omega arith))
]

-- The digits of a number begin with a digit.
digits-first :
    (fuel n : ℕ) (t : String)
    → n ≤ fuel
    → (d : ℕ) × (u : String) × (d < 10) × (digits fuel n t ≡ digit_char d ∷ u)
digits-first zero n t h = (n, t, omega arith, refl)
digits-first (suc fuel) n t h = elim (Bool-cases (ltb n 10)) [
  | inl small ↦ rw small (n, t, ground arith, refl)
  | inr large ↦ rw large (digits-first fuel (n / 10) (digit_char (n % 10) ∷ t) (ground arith))
]

no_sign :
    (d : ℕ) → d < 10 → ((code (digit_char d) == 45) ≡ false) × ((code (digit_char d) == 43) ≡ false)
no_sign zero h = (refl, refl)
no_sign (suc zero) h = (refl, refl)
no_sign (suc (suc zero)) h = (refl, refl)
no_sign (suc (suc (suc zero))) h = (refl, refl)
no_sign (suc (suc (suc (suc zero)))) h = (refl, refl)
no_sign (suc (suc (suc (suc (suc zero))))) h = (refl, refl)
no_sign (suc (suc (suc (suc (suc (suc zero)))))) h = (refl, refl)
no_sign (suc (suc (suc (suc (suc (suc (suc zero))))))) h = (refl, refl)
no_sign (suc (suc (suc (suc (suc (suc (suc (suc zero)))))))) h = (refl, refl)
no_sign (suc (suc (suc (suc (suc (suc (suc (suc (suc zero))))))))) h = (refl, refl)
no_sign (suc (suc (suc (suc (suc (suc (suc (suc (suc (suc n)))))))))) h = absurd (omega arith)

read_digits :
    (d n : ℕ) (u : String) → decimal n ≡ digit_char d ∷ u → parse_digits (digit_char d ∷ u) ≡ some n
read_digits d n u e = ap (digits_from (some 0)) (sym e) ∙ digits_from-digits n n [] (omega arith)

parse_digits-decimal : (n : ℕ) → parse_digits (decimal n) ≡ some n
parse_digits-decimal n =
    let (d, u, small, e) = digits-first n n [] (omega arith) in
    ap parse_digits e ∙ read_digits d n u e

-- An integer of 64 bits is read back.
pub parse_i64-int_decimal : (x : ℤ) → IsI64 x → parse_i64 (int_decimal x) ≡ some x
unfolding parse_i64
parse_i64-int_decimal (pos n) h =
    let (d, u, small, e) = digits-first n n [] (omega arith) in
    let (plain, unsigned) = no_sign d small in
    rw e (rw (plain, unsigned, read_digits d n u e) (ground (arith, h)))
parse_i64-int_decimal (negsuc n) h = rw (parse_digits-decimal (suc n)) (ground (arith, h))
