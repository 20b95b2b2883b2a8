-- ===== src/Utility/Numerals.antt =====
-- The expression of `getRadix` on what a number is written as.
use celeries.Base.{
  ℕ, zero, suc, ◌+◌, ◌-◌, ◌*◌, ◌/◌, ◌%◌, ◌≤◌, ◌<◌, ◌≡◌, refl, ap, ◌∙◌, Bool, true, ◌&&◌, some, List,
  [], ◌∷◌, ◌++◌, arith, if◌then◌else◌, leb, ltb, Bool-cases, inl, inr,
}
use native.Mathlib.Nat.{mod-lt, div-add-mod, div-lt_self}
use celeries.Base.Text.{Text, codes, is_digit, all}
use celeries.Utility.{
  Radix, binary, octal, decimal, hexadecimal, base, is_octal_digit, is_hex_digit, is_binary_digit,
  some_of, match_octal, match_prefixed, match_decimal, match_radix, digit_value, parse_digits,
}

-- The digit of a value below 16.
abbrev pub digit : ℕ → ℕ
digit d = if ltb d 10 then b'0' + d else b'a' + (d - 10)

-- A number written to a base, on fuel.
abbrev pub numeral : ℕ → ℕ → ℕ → Text
numeral zero b n = []
numeral (suc fuel) b n =
    if ltb n b then digit n ∷ [] else numeral fuel b (n / b) ++ digit (n % b) ∷ []

-- What stands before the digits.
abbrev pub mark : Radix → Text
mark binary = codes "0b"
mark octal = codes "0"
mark decimal = []
mark hexadecimal = codes "0x"

parse_digits-snoc :
    (b n : ℕ) (s : Text) (c : ℕ)
    → parse_digits b n (s ++ c ∷ []) ≡ parse_digits b n s * b + digit_value c
unfolding parse_digits
parse_digits-snoc b n [] c = refl
parse_digits-snoc b n (d ∷ s) c = parse_digits-snoc b (n * b + digit_value d) s c

parse_digits-one : (b c : ℕ) → parse_digits b 0 (c ∷ []) ≡ digit_value c
unfolding parse_digits
parse_digits-one b c = omega arith

digit_value-digit : (d : ℕ) → d < 16 → digit_value (digit d) ≡ d
unfolding digit_value
digit_value-digit d small = ground arith

divided : (n b : ℕ) → n / b * b + n % b ≡ n
divided n b = omega (arith, div-add-mod n b)

shrinks : (n b : ℕ) → 2 ≤ b → b ≤ n → n / b < n
shrinks n b two large = div-lt_self (omega arith) (omega arith)

grows : (n b : ℕ) → 2 ≤ b → b ≤ n → 0 < n / b
grows n b two large =
    let last : n % b < b = mod-lt n (omega arith) in grind (arith, div-add-mod n b)

parse_digits-numeral :
    (fuel b n : ℕ) → 2 ≤ b → b ≤ 16 → n < fuel → parse_digits b 0 (numeral fuel b n) ≡ n
parse_digits-numeral zero b n two sixteen enough = absurd (omega arith)
parse_digits-numeral (suc fuel) b n two sixteen enough = elim (Bool-cases (ltb n b)) [
  | inl small ↦ rw small (parse_digits-one b (digit n) ∙ digit_value-digit n (ground arith))
  | inr large ↦ rw large (
      parse_digits-snoc b 0 (numeral fuel b (n / b)) (digit (n % b))
      ∙ (let less : n / b < n = shrinks n b two (ground arith) in
          let last : n % b < b = mod-lt n (omega arith) in
          rw
            (
              parse_digits-numeral fuel b (n / b) two sixteen (omega arith),
              digit_value-digit (n % b) (omega arith),
            )
            (divided n b)))
]

-- Every digit satisfies a test that the digits of the base satisfy.
all-snoc :
    {A : Type 0} (p : A → Bool) (xs : List A) (x : A) → all p (xs ++ x ∷ []) ≡ (all p xs && p x)
all-snoc p [] x = ground arith
all-snoc p (y ∷ xs) x = ground (arith, all-snoc p xs x)

pub all-numeral :
    (p : ℕ → Bool) (fuel b n : ℕ)
    → 2 ≤ b
    → ((d : ℕ) → d < b → p (digit d) ≡ true)
    → all p (numeral fuel b n) ≡ true
all-numeral p zero b n two ok_ = refl
all-numeral p (suc fuel) b n two ok_ = elim (Bool-cases (ltb n b)) [
  | inl small ↦ rw small (rw (ok_ n (ground arith)))
  | inr large ↦ rw large (
      all-snoc p (numeral fuel b (n / b)) (digit (n % b))
      ∙ rw (all-numeral p fuel b (n / b) two ok_, ok_ (n % b) (mod-lt n (omega arith))))
]

-- A numeral has a digit, which is not 0 unless the number is.
pub numeral-first :
    (fuel b n : ℕ)
    → 2 ≤ b
    → n < fuel
    → (c : ℕ) × (s : Text) × (numeral fuel b n ≡ c ∷ s)
      × (b ≤ 10 → 0 < n → leb b'1' c && leb c b'9' ≡ true)
numeral-first zero b n two enough = absurd (omega arith)
numeral-first (suc fuel) b n two enough = elim (Bool-cases (ltb n b)) [
  | inl small ↦ (digit n, [], rw small refl, λ ten positive. ground arith)
  | inr large ↦
      let less : n / b < n = shrinks n b two (ground arith) in
      let (c, s, is, nonzero) = numeral-first fuel b (n / b) two (omega arith) in
      (
        c,
        s ++ digit (n % b) ∷ [],
        rw large (rw is),
        λ ten positive. nonzero ten (grows n b two (ground arith)),
      )
]

some_of-all :
    (p : ℕ → Bool) (s : Text) (c : ℕ) (t : Text) → s ≡ c ∷ t → all p s ≡ true → some_of p s ≡ true
unfolding some_of
some_of-all p s c t is every = ground (arith, is, every)

octal_digit : (d : ℕ) → d < 8 → is_octal_digit (digit d) ≡ true
unfolding is_octal_digit
octal_digit d less = ground arith

hex_digit : (d : ℕ) → d < 16 → is_hex_digit (digit d) ≡ true
unfolding is_hex_digit
hex_digit d less = ground arith

binary_digit : (d : ℕ) → d < 2 → is_binary_digit (digit d) ≡ true
unfolding is_binary_digit
binary_digit d less = ground arith

pub decimal_digit : (d : ℕ) → d < 10 → is_digit (digit d) ≡ true
unfolding is_digit
decimal_digit d less = ground arith

leading_zero : (b : ℕ) (s : Text) → parse_digits b 0 (b'0' ∷ s) ≡ parse_digits b 0 s
unfolding parse_digits digit_value
leading_zero b s = ap (λ n. parse_digits b n s) (omega arith)

match_radix-decimal :
    (c : ℕ) (s : Text)
    → leb b'1' c && leb c b'9' ≡ true
    → all is_digit (c ∷ s) ≡ true
    → match_radix (c ∷ s) ≡ some (decimal, c ∷ s)
unfolding match_radix match_octal match_prefixed match_decimal
match_radix-decimal c [] first every = ground (arith, first, every)
match_radix-decimal c (d ∷ s) first every = ground (arith, first, every)

-- The expression on what a number is written as.
pub match_radix-numeral :
    (r : Radix) (fuel n : ℕ)
    → n < fuel
    → (q : Radix) × (s : Text) × (match_radix (mark r ++ numeral fuel (base r) n) ≡ some (q, s))
      × (parse_digits (base q) 0 s ≡ n)
unfolding match_radix base
match_radix-numeral octal fuel n enough =
    let every = all-numeral is_octal_digit fuel 8 n (omega arith) (λ d less. octal_digit d less) in
    let value = parse_digits-numeral fuel 8 n (omega arith) (omega arith) enough in
    (octal, b'0' ∷ numeral fuel 8 n, rw every refl, leading_zero 8 (numeral fuel 8 n) ∙ value)
match_radix-numeral hexadecimal fuel n enough =
    let every = all-numeral is_hex_digit fuel 16 n (omega arith) (λ d less. hex_digit d less) in
    let value = parse_digits-numeral fuel 16 n (omega arith) (omega arith) enough in
    let (c, s, is, _) = numeral-first fuel 16 n (omega arith) enough in
    (
      hexadecimal,
      numeral fuel 16 n,
      rw (some_of-all is_hex_digit (numeral fuel 16 n) c s is every) refl,
      value,
    )
match_radix-numeral binary fuel n enough =
    let every =
      all-numeral is_binary_digit fuel 2 n (omega arith) (λ d less. binary_digit d less) in
    let value = parse_digits-numeral fuel 2 n (omega arith) (omega arith) enough in
    let (c, s, is, _) = numeral-first fuel 2 n (omega arith) enough in
    (
      binary,
      numeral fuel 2 n,
      rw (some_of-all is_binary_digit (numeral fuel 2 n) c s is every) refl,
      value,
    )
match_radix-numeral decimal zero n enough = absurd (omega arith)
match_radix-numeral decimal (suc fuel) zero enough = (
  octal,
  codes "0",
  refl,
  parse_digits-numeral (suc fuel) 8 0 (omega arith) (omega arith) (omega arith),
)
match_radix-numeral decimal (suc fuel) (suc n) enough =
    let every =
      all-numeral is_digit (suc fuel) 10 (suc n) (omega arith) (λ d less. decimal_digit d less) in
    let value = parse_digits-numeral (suc fuel) 10 (suc n) (omega arith) (omega arith) enough in
    let (c, s, is, first) = numeral-first (suc fuel) 10 (suc n) (omega arith) enough in
    (
      decimal,
      c ∷ s,
      ap match_radix is
          ∙ match_radix-decimal c s (first (omega arith) (omega arith)) (rw is at every),
      rw is at value,
    )
