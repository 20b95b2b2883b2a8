-- ===== src/Redis/Uri/Tcp/Database.antt =====
-- The database of a path.
use celeries.Base.{
  ℕ, zero, suc, ◌≡◌, refl, sym, ap, ◌∙◌, Bool, true, not, ◌&&◌, Option, none, some, [], ◌∷◌, ◌++◌,
  arith, leb, append-nil, ◌^◌, ◌<◌,
}
use celeries.Base.Result.{ok}
use celeries.Base.Text.{Text, is_digit, to_lower, to_lower_case, all}
use celeries.Utility.{decimal, base, parse_integer}
use celeries.Utility.Numerals.{numeral, numeral-first, all-numeral, decimal_digit}
use celeries.Utility.Reading.{parse_integer-numeral}
use celeries.Redis.Uri.Tcp.{digits, match_digits, match_db, parse_db}

abbrev pub zeros : ℕ → Text
zeros zero = []
zeros (suc k) = b'0' ∷ zeros k

-- What stands behind a number: nothing, or something else than a digit.
abbrev pub ends : Text → Bool
ends [] = true
ends (c ∷ s) = not (is_digit c)

digits-append : (s rest : Text) → all is_digit s ≡ true → ends rest ≡ true → digits (s ++ rest) ≡ s
unfolding digits
digits-append [] [] h e = refl
digits-append [] (c ∷ rest) h e = ground (arith, e)
digits-append (c ∷ s) rest h e = ground (arith, h, digits-append s rest)

-- After zeros, a number that begins with another digit.
match_digits-zeros :
    (k : ℕ) (last : Option Text) (c : ℕ) (s rest : Text)
    → leb b'1' c && leb c b'9' ≡ true
    → all is_digit (c ∷ s) ≡ true
    → ends rest ≡ true
    → match_digits last (zeros k ++ (c ∷ s ++ rest)) ≡ some (c ∷ s)
unfolding match_digits
match_digits-zeros zero last c s rest first every e =
    ground (arith, first, digits-append (c ∷ s) rest every e)
match_digits-zeros (suc k) last c s rest first every e =
    match_digits-zeros k (some (b'0' ∷ [])) c s rest first every e

match_digits-none :
    (k : ℕ) (rest : Text)
    → ends rest ≡ true
    → match_digits (some (b'0' ∷ [])) (zeros k ++ rest) ≡ some (b'0' ∷ [])
unfolding match_digits digits is_digit
match_digits-none zero [] e = refl
match_digits-none zero (c ∷ rest) e = ground (arith, e)
match_digits-none (suc k) rest e = match_digits-none k rest e

match_digits-last :
    (k : ℕ) (rest : Text)
    → ends rest ≡ true
    → match_digits (some (b'0' ∷ [])) (zeros k ++ (b'0' ∷ rest)) ≡ some (b'0' ∷ [])
unfolding match_digits
match_digits-last zero rest e = match_digits-none zero rest e
match_digits-last (suc k) rest e = match_digits-last k rest e

lower-digits : (s : Text) → all is_digit s ≡ true → to_lower_case s ≡ s
unfolding to_lower is_digit
lower-digits [] h = refl
lower-digits (c ∷ s) h = ground (arith, h, lower-digits s)

decimal-digits : (n : ℕ) → all is_digit (numeral (suc n) 10 n) ≡ true
decimal-digits n = all-numeral is_digit (suc n) 10 n (omega arith) decimal_digit

parse_integer-decimal : (n : ℕ) → n < 2 ^ 53 → parse_integer (numeral (suc n) 10 n) ≡ ok n
unfolding base
parse_integer-decimal n small =
    ap parse_integer (sym (append-nil (numeral (suc n) 10 n)))
    ∙ parse_integer-numeral decimal n [] (numeral (suc n) 10 n) [] small refl refl
        (lower-digits (numeral (suc n) 10 n) (decimal-digits n))

match_db-numeral :
    (k n : ℕ) (rest : Text)
    → ends rest ≡ true
    → match_db (b'/' ∷ (zeros k ++ (numeral (suc n) 10 n ++ rest))) ≡ some (numeral (suc n) 10 n)
unfolding match_db match_digits
match_db-numeral zero zero rest e = match_digits-none zero rest e
match_db-numeral (suc k) zero rest e = match_digits-last k rest e
match_db-numeral k (suc n) rest e =
    let (c, s, is, first) = numeral-first (suc (suc n)) 10 (suc n) (omega arith) (omega arith) in
    ap (λ t. match_digits none (zeros k ++ (t ++ rest))) is
    ∙ match_digits-zeros k none c s rest (first (omega arith) (omega arith))
        (sym (ap (all is_digit) is) ∙ decimal-digits (suc n)) e
    ∙ ap some (sym is)

-- The path of a database number below 2^53 in decimal, with any zeros before it and anything that is
-- no digit behind it, gives this number.
pub parse_db-numeral :
    (k n : ℕ) (rest : Text)
    → n < 2 ^ 53
    → ends rest ≡ true
    → parse_db (b'/' ∷ (zeros k ++ (numeral (suc n) 10 n ++ rest))) ≡ ok n
unfolding parse_db
parse_db-numeral k n rest small e =
    rw (match_db-numeral k n rest e, parse_db) (parse_integer-decimal n small)
