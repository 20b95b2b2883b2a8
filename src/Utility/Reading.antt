-- ===== src/Utility/Reading.antt =====
-- `parseInteger` reads back what a number is written as.
use celeries.Base.{
  ℕ, suc, ◌<◌, ◌≡◌, refl, ap, ◌∙◌, Bool, true, not, ◌&&◌, some, [], ◌∷◌, ◌++◌, arith, map-append,
  ◌^◌, ltb, inl, inr, Bool-cases,
}
use celeries.Base.Result.{ok}
use celeries.Base.Text.{Text, to_lower, to_lower_case, is_space, trim, trim_start, trim_end, all}
use celeries.Utility.{
  Radix, binary, octal, decimal, hexadecimal, base, match_radix, get_radix, parse_integer,
  to_double,
}
use celeries.Utility.Numerals.{
  digit, numeral, mark, all-numeral, numeral-first, match_radix-numeral,
}

abbrev no_space : ℕ → Bool
no_space c = not (is_space c)

trim_start-spaces :
    (before s : Text) → all is_space before ≡ true → trim_start (before ++ s) ≡ trim_start s
unfolding trim_start
trim_start-spaces [] s h = refl
trim_start-spaces (c ∷ before) s h = ground (arith, h, trim_start-spaces before s)

trim_end-spaces : (after : Text) → all is_space after ≡ true → trim_end after ≡ []
unfolding trim_end
trim_end-spaces [] h = refl
trim_end-spaces (c ∷ after) h = ground (arith, h)

trim_end-word :
    (s after : Text) → all no_space s ≡ true → all is_space after ≡ true → trim_end (s ++ after) ≡ s
unfolding trim_end
trim_end-word [] after word h = trim_end-spaces after h
trim_end-word (c ∷ s) after word h = ground (arith, word, trim_end-word s after)

trim_start-word :
    (s after : Text) (c : ℕ) (t : Text)
    → s ≡ c ∷ t
    → all no_space s ≡ true
    → trim_start (s ++ after) ≡ s ++ after
unfolding trim_start
trim_start-word [] after c t is word = ground arith
trim_start-word (d ∷ s) after c t is word = ground (arith, word)

-- A text without spaces is what is left of it between spaces.
trim-word :
    (before s after : Text) (c : ℕ) (t : Text)
    → s ≡ c ∷ t
    → all no_space s ≡ true
    → all is_space before ≡ true
    → all is_space after ≡ true
    → trim (before ++ (s ++ after)) ≡ s
unfolding trim
trim-word before s after c t is word h k =
    ap trim_end (trim_start-spaces before (s ++ after) h ∙ trim_start-word s after c t is word)
    ∙ trim_end-word s after word k

to_lower-space : (c : ℕ) → is_space c ≡ true → is_space (to_lower c) ≡ true
unfolding to_lower is_space
to_lower-space c h = ground (arith, h)

lower-spaces : (s : Text) → all is_space s ≡ true → all is_space (to_lower_case s) ≡ true
lower-spaces [] h = refl
lower-spaces (c ∷ s) h = ground (arith, h, to_lower-space c, lower-spaces s)

digit-no_space : (d : ℕ) → d < 16 → no_space (digit d) ≡ true
unfolding is_space
digit-no_space d less = ground arith

all-append : (p : ℕ → Bool) (xs ys : Text) → all p (xs ++ ys) ≡ (all p xs && all p ys)
all-append p [] ys = refl
all-append p (x ∷ xs) ys = ground (arith, all-append p xs ys)

numeral-no_space : (r : Radix) (n : ℕ) → all no_space (mark r ++ numeral (suc n) (base r) n) ≡ true
unfolding base is_space
numeral-no_space binary n =
    all-numeral no_space (suc n) 2 n (omega arith) (λ d less. digit-no_space d (omega arith))
numeral-no_space octal n =
    all-numeral no_space (suc n) 8 n (omega arith) (λ d less. digit-no_space d (omega arith))
numeral-no_space decimal n =
    all-numeral no_space (suc n) 10 n (omega arith) (λ d less. digit-no_space d (omega arith))
numeral-no_space hexadecimal n = all-numeral no_space (suc n) 16 n (omega arith) digit-no_space

numeral-nonempty :
    (r : Radix) (n : ℕ) → (c : ℕ) × (t : Text) × (mark r ++ numeral (suc n) (base r) n ≡ c ∷ t)
unfolding base
numeral-nonempty binary n = (b'0', b'b' ∷ numeral (suc n) 2 n, refl)
numeral-nonempty octal n = (b'0', numeral (suc n) 8 n, refl)
numeral-nonempty decimal n =
    let (c, t, is, _) = numeral-first (suc n) 10 n (omega arith) (omega arith) in (c, t, is)
numeral-nonempty hexadecimal n = (b'0', b'x' ∷ numeral (suc n) 16 n, refl)

to_double-exact : (n : ℕ) → n < 2 ^ 53 → to_double n ≡ n
unfolding to_double
to_double-exact n small = elim (Bool-cases (ltb n (2 ^ 53))) [
  | inl below ↦ rw (below, to_double) refl
  | inr above ↦ absurd (ground (arith, above))
]

-- `parseInteger` gives back every number below 2^53 from what it is written as in decimal, in octal after a 0,
-- in hexadecimal after 0x and in binary after 0b, in letters of either case, with white space before
-- and behind.
pub parse_integer-numeral :
    (r : Radix) (n : ℕ) (before v after : Text)
    → n < 2 ^ 53
    → all is_space before ≡ true
    → all is_space after ≡ true
    → to_lower_case v ≡ mark r ++ numeral (suc n) (base r) n
    → parse_integer (before ++ (v ++ after)) ≡ ok n
unfolding parse_integer get_radix
parse_integer-numeral r n before v after small h k is =
    let s = mark r ++ numeral (suc n) (base r) n in
    let (q, t, found, value) = match_radix-numeral r (suc n) n (omega arith) in
    let (c, u, nonempty) = numeral-nonempty r n in
    let lowered : to_lower_case (before ++ (v ++ after))
        ≡ to_lower_case before ++ (s ++ to_lower_case after) =
      map-append to_lower before (v ++ after)
      ∙ ap (λ x. to_lower_case before ++ x)
          (map-append to_lower v after ∙ ap (λ x. x ++ to_lower_case after) is) in
    let trimmed =
      trim-word (to_lower_case before) s (to_lower_case after) c u nonempty (numeral-no_space r n)
        (lower-spaces before h) (lower-spaces after k) in
    let radix : get_radix (before ++ (v ++ after)) ≡ some (q, t) =
      ap (λ x. match_radix (trim x)) lowered ∙ ap match_radix trimmed ∙ found in
    rw (radix, parse_integer) (ap (λ x. ok (to_double x)) value ∙ ap ok (to_double-exact n small))
