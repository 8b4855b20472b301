-- ===== src/Common/Number.antt =====
-- JavaScript's `parseInt(text, 10)` and `String(n)`, on texts and whole numbers. The numbers are
-- exact; the doubles of JavaScript agree with them below 2 ^ 53.
pub mod Decimal
use Prim.Native.Nat.{ℕ, zero, suc, ◌+◌, ◌-◌, ◌*◌, ◌/◌, ◌%◌}
use Prim.Native.Char.{Char, code}
use Prim.Native.String.{String}
use mathlib.Core.Bool.{Bool, true, false, ◌&&◌, ◌||◌}
use mathlib.Core.Option.{Option, none, some}
use microservices_practice.Common.Tests.{ltb, leb, ◌==◌, if◌then◌else◌}
use microservices_practice.Common.Int.{ℤ, pos, negsuc}

pub data Number : Type 0 where
  nan : Number
  integer : ℤ → Number

abbrev pub is_digit : Char → Bool
is_digit c = leb b'0' (code c) && leb (code c) b'9'

-- White space and line terminators.
abbrev pub is_space : Char → Bool
is_space c =
    (leb 9 (code c) && leb (code c) 13)
    || code c == 32
    || code c == 160
    || code c == 5760
    || (leb 8192 (code c) && leb (code c) 8202)
    || code c == 8232
    || code c == 8233
    || code c == 8239
    || code c == 8287
    || code c == 12288
    || code c == 65279

unfoldable pub trim_start : String → String
trim_start String.[] = ""
trim_start (String.◌∷◌ c s) = let rest = trim_start s in if is_space c then rest else String.◌∷◌ c s

-- The number that the digits at the head of a text spell behind `n`.
unfoldable pub value : ℕ → String → ℕ
value n String.[] = n
value n (String.◌∷◌ c s) =
    let longer = value (n * 10 + (code c - b'0')) s in if is_digit c then longer else n

unfoldable pub starts_with_digit : String → Bool
starts_with_digit String.[] = false
starts_with_digit (String.◌∷◌ c s) = is_digit c

unfoldable pub negate : ℕ → ℤ
negate zero = pos 0
negate (suc n) = negsuc n

abbrev parse_digits : (ℕ → ℤ) → String → Number
parse_digits sign s = if starts_with_digit s then integer (sign (value 0 s)) else nan

abbrev parse_signed : String → Number
parse_signed String.[] = nan
parse_signed (String.◌∷◌ c s) =
    if code c == b'-'
    then parse_digits negate s
    else if code c == b'+'
    then parse_digits pos s
    else parse_digits pos (String.◌∷◌ c s)

unfoldable pub parse_int : String → Number
unfolding trim_start value starts_with_digit negate
parse_int text = parse_signed (trim_start text)

abbrev pub digit : ℕ → Char
digit n =
    if n == 0
    then "0"
    else if n == 1
    then "1"
    else if n == 2
    then "2"
    else if n == 3
    then "3"
    else if n == 4
    then "4"
    else if n == 5
    then "5"
    else if n == 6
    then "6"
    else if n == 7
    then "7"
    else if n == 8
    then "8"
    else "9"

-- The digits of `n` in front of a text, with fuel; more fuel than `n` is enough.
unfoldable pub digits : ℕ → ℕ → String → String
digits zero n out = out
digits (suc fuel) n out =
    let longer = String.◌∷◌ (digit (n % 10)) out in
    let rest = digits fuel (n / 10) longer in if ltb n 10 then longer else rest

-- `String(n)` of a whole number that is not negative, below 2 ^ 53.
unfoldable pub decimal : ℕ → String
unfolding digits
decimal n = digits (suc n) n ""
