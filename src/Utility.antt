-- ===== src/Utility.antt =====
-- src/utility.ts: the functions on strings. The event helpers are in the child `Events`.
pub mod Numerals
pub mod Reading
pub mod Events
pub mod Tests
use celeries.Base.{
  ℕ, zero, suc, ◌+◌, ◌-◌, ◌*◌, Bool, true, false, ◌&&◌, ◌||◌, Option, none, some, List, [], ◌∷◌,
  ◌==◌, if◌then◌else◌, length, ltb, leb, or_else, ◌/◌, ◌^◌, ◌%◌,
}
use celeries.Base.Equality.{nat_eq}
use celeries.Base.Result.{Result, ok, err}
use celeries.Errors.{Thrown, parse_error}
use celeries.Base.Text.{
  Text, codes, is_lower, is_digit, to_upper, to_lower, to_lower_case, is_space, trim, all, text_eq,
  list_beq,
}

pub data Radix : Type 0 where
  binary octal decimal hexadecimal : Radix

unfoldable pub base : Radix → ℕ
base binary = 2
base octal = 8
base decimal = 10
base hexadecimal = 16

is_octal_digit : ℕ → Bool
is_octal_digit c = leb b'0' c && leb c b'7'

is_hex_digit : ℕ → Bool
unfolding is_digit
is_hex_digit c = is_digit c || (leb b'a' c && leb c b'f')

is_binary_digit : ℕ → Bool
is_binary_digit c = (c == b'0') || (c == b'1')

-- The expression's `+`.
some_of : (ℕ → Bool) → Text → Bool
some_of p [] = false
some_of p (c ∷ s) = p c && all p s

-- The four groups of the expression, in the order in which they are tried.
match_octal : Text → Option Text
unfolding is_octal_digit
match_octal [] = none
match_octal (c ∷ s) = if (c == b'0') && all is_octal_digit s then some (c ∷ s) else none

match_prefixed : ℕ → (ℕ → Bool) → Text → Option Text
unfolding some_of
match_prefixed letter p (c ∷ d ∷ s) =
    if (c == b'0') && (d == letter) && some_of p s then some s else none
match_prefixed letter p _ = none

match_decimal : Text → Option Text
unfolding is_digit
match_decimal [] = none
match_decimal (c ∷ s) = if leb b'1' c && leb c b'9' && all is_digit s then some (c ∷ s) else none

abbrev tagged : Radix → Option Text → Option (Radix × Text)
tagged r none = none
tagged r (some s) = some (r, s)

pub match_radix : Text → Option (Radix × Text)
unfolding match_octal match_prefixed match_decimal is_hex_digit is_binary_digit
match_radix s = or_else (tagged octal (match_octal s)) (
    or_else (tagged hexadecimal (match_prefixed b'x' is_hex_digit s)) (
      or_else (tagged binary (match_prefixed b'b' is_binary_digit s))
        (tagged decimal (match_decimal s))))

pub get_radix : Text → Option (Radix × Text)
unfolding match_radix trim to_lower is_space
get_radix maybe_number = match_radix (trim (to_lower_case maybe_number))

-- A digit of a lower-case numeral.
digit_value : ℕ → ℕ
unfolding is_digit
digit_value c = if is_digit c then c - b'0' else c - b'a' + 10

-- The number that a numeral stands for.
pub parse_digits : ℕ → ℕ → Text → ℕ
unfolding digit_value
parse_digits radix n [] = n
parse_digits radix n (c ∷ s) = parse_digits radix (n * radix + digit_value c) s

-- How many binary digits a number has above 53, at most `fuel`.
excess : ℕ → ℕ → ℕ
excess zero n = 0
excess (suc fuel) n = let rest = excess fuel (n / 2) in if ltb n (2 ^ 53) then 0 else suc rest

-- The nearest multiple of `unit`, and of two the even one.
rounded : ℕ → ℕ → ℕ
rounded n unit =
    let q = n / unit in
    let r = n % unit in
    if ltb unit (2 * r) || ((2 * r == unit) && (q % 2 == 1)) then (q + 1) * unit else q * unit

-- The double next to a number. A double below 2^1024 has 971 binary digits above 53 at most; what
-- rounds to 2^1024 or more is `Infinity`, which is left as a number here.
pub to_double : ℕ → ℕ
unfolding excess rounded
to_double n = elim (ltb n (2 ^ 53)) [ true ↦ n | false ↦ rounded n (2 ^ excess 971 n) ]

-- `Number.parseInt` on the digits of the radix.
unfoldable pub parse_integer : Text → Result Thrown ℕ
unfolding get_radix parse_digits base to_double
parse_integer maybe_int = elim (get_radix maybe_int) [
  | none ↦ err (parse_error maybe_int)
  | some (radix, to_parse) ↦ ok (to_double (parse_digits (base radix) 0 to_parse))
]

abbrev one_of : List Text → Text → Bool
one_of [] s = false
one_of (x ∷ xs) s = list_beq x s || one_of xs s

abbrev trues : List Text
trues = codes "true" ∷ codes "1" ∷ codes "on" ∷ codes "yes" ∷ []

abbrev falses : List Text
falses = codes "false" ∷ codes "0" ∷ codes "off" ∷ codes "no" ∷ []

pub parse_boolean : Text → Result Thrown Bool
unfolding trim to_lower is_space
parse_boolean maybe_boolean =
    let s = trim (to_lower_case maybe_boolean) in
    if one_of trues s
    then ok true
    else if one_of falses s
    then ok false
    else err (parse_error maybe_boolean)

-- `toCamelCase`: the expression has no flag `g`, so the first match is replaced.
camel_tail : Text → Option Text
unfolding is_lower to_upper
camel_tail [] = none
camel_tail (c ∷ s) = if is_lower c then some (to_upper c ∷ s) else none

unfoldable pub to_camel_case : Text → Text
unfolding camel_tail
to_camel_case [] = []
to_camel_case (c ∷ s) =
    let rest = to_camel_case s in
    if c == b'_' then (elim (camel_tail s) [ none ↦ c ∷ rest | some t ↦ t ]) else c ∷ rest
