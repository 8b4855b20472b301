-- ===== src/Common/Number/Decimal.antt =====
-- Printing a number and parsing it.
use Prim.Native.Nat.{ℕ, zero, suc, ◌+◌, ◌/◌, ◌%◌, ◌<◌}
use Prim.Native.Char.{code}
use Prim.Native.String.{String}
use mathlib.Core.Path.{◌≡◌, refl}
use mathlib.Core.Bool.{true}
use native.Mathlib.Omega.{arith}
use microservices_practice.Common.Int.{pos}
use microservices_practice.Common.Number.{
  integer, parse_int, decimal, digits, digit, value, starts_with_digit, trim_start,
}

code-digit : (d : ℕ) → d < 10 → code (digit d) ≡ b'0' + d
code-digit zero h = refl
code-digit (suc zero) h = refl
code-digit (suc (suc zero)) h = refl
code-digit (suc (suc (suc zero))) h = refl
code-digit (suc (suc (suc (suc zero)))) h = refl
code-digit (suc (suc (suc (suc (suc zero))))) h = refl
code-digit (suc (suc (suc (suc (suc (suc zero)))))) h = refl
code-digit (suc (suc (suc (suc (suc (suc (suc zero))))))) h = refl
code-digit (suc (suc (suc (suc (suc (suc (suc (suc zero)))))))) h = refl
code-digit (suc (suc (suc (suc (suc (suc (suc (suc (suc zero))))))))) h = refl
code-digit (suc (suc (suc (suc (suc (suc (suc (suc (suc (suc n)))))))))) h = absurd (omega arith)

value-digits : (fuel n : ℕ) (out : String) → n < fuel → value 0 (digits fuel n out) ≡ value n out
unfolding digits value
value-digits zero n out h = absurd (omega arith)
value-digits (suc fuel) n out h =
    let c = code-digit (n % 10) (omega arith) in
    ground (arith, c, value-digits fuel (n / 10) (String.◌∷◌ (digit (n % 10)) out))

value_empty : (n : ℕ) → value n "" ≡ n
unfolding value
value_empty n = refl

starts_with_digit-digits :
    (fuel n : ℕ) (out : String) → n < fuel → starts_with_digit (digits fuel n out) ≡ true
unfolding digits starts_with_digit
starts_with_digit-digits zero n out h = absurd (omega arith)
starts_with_digit-digits (suc fuel) n out h =
    let c = code-digit (n % 10) (omega arith) in
    ground (arith, c, starts_with_digit-digits fuel (n / 10) (String.◌∷◌ (digit (n % 10)) out))

-- A text that starts with a digit has no white space and no sign in front.
parse_int-digits :
    (s : String) → starts_with_digit s ≡ true → parse_int s ≡ integer (pos (value 0 s))
unfolding parse_int starts_with_digit trim_start
parse_int-digits String.[] h = cc
parse_int-digits (String.◌∷◌ c s) h = ground arith

-- What is printed is read back as the number, for every number.
pub parse_int-decimal : (n : ℕ) → parse_int (decimal n) ≡ integer (pos n)
unfolding decimal
parse_int-decimal n =
    let v = value-digits (suc n) n "" (omega arith) in
    let e =
      parse_int-digits (digits (suc n) n "")
        (starts_with_digit-digits (suc n) n "" (omega arith)) in
    ground (arith, e, v, value_empty n)
