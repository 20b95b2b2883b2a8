-- ===== src/Uri/Schemes.antt =====
-- Which texts `getScheme` accepts.
use celeries.Base.{
  ℕ, ◌≡◌, refl, sym, ap, ◌∙◌, ◌↔◌, Bool, true, false, ◌&&◌, Option, some, List, [], ◌∷◌, ◌++◌,
  arith, ◌==◌, Option-cases, inl, inr, if-cases,
}
use celeries.Base.Result.{ok}
use celeries.Base.Text.{Text, is_letter, to_lower, to_lower_case, all, text_eq}
use celeries.Uri.{
  Scheme, amqp, amqp_secure, redis, redis_secure, redis_sentinel, redis_sentinel_secure,
  redis_socket, redis_socket_secure, rpc, rpc_secure, name, schemes, find, is_scheme_char,
  up_to_colon, match_scheme, get_scheme,
}

find-name : (s : Scheme) → find (name s) schemes ≡ some s
unfolding find
find-name amqp = refl
find-name amqp_secure = refl
find-name redis = refl
find-name redis_secure = refl
find-name redis_sentinel = refl
find-name redis_sentinel_secure = refl
find-name redis_socket = refl
find-name redis_socket_secure = refl
find-name rpc = refl
find-name rpc_secure = refl

some-injective : {A : Type 0} {a b : A} → ◌≡◌ {A = Option A} (some a) (some b) → a ≡ b
some-injective e = ground arith

find-some : (t : Text) (xs : List Scheme) (s : Scheme) → find t xs ≡ some s → t ≡ name s
unfolding find
find-some t [] s found = ground arith
find-some t (x ∷ xs) s found = elim (if-cases (text_eq.beq (name x) t) found) [
  | inl (same, is) ↦ sym ((text_eq.beq_iff (name x) t).0 same) ∙ ap name (some-injective is)
  | inr (_, later) ↦ find-some t xs s later
]

lower-is_scheme_char : (c : ℕ) → is_scheme_char (to_lower c) ≡ is_scheme_char c
unfolding is_scheme_char to_lower
lower-is_scheme_char c = ground arith

lower-is_letter : (c : ℕ) → is_letter (to_lower c) ≡ is_letter c
unfolding is_letter to_lower
lower-is_letter c = ground arith

-- The tests of the expression on a whole scheme.
abbrev is_word : Text → Bool
is_word [] = false
is_word (c ∷ s) = is_letter c && all is_scheme_char s

all-lower : (v : Text) → all is_scheme_char (to_lower_case v) ≡ all is_scheme_char v
all-lower [] = refl
all-lower (c ∷ v) = ground (arith, lower-is_scheme_char c, all-lower v)

is_word-lower : (v : Text) → is_word (to_lower_case v) ≡ is_word v
is_word-lower [] = refl
is_word-lower (c ∷ v) = ground (arith, lower-is_letter c, all-lower v)

is_word-name : (s : Scheme) → is_word (name s) ≡ true
unfolding is_letter is_scheme_char
is_word-name amqp = refl
is_word-name amqp_secure = refl
is_word-name redis = refl
is_word-name redis_secure = refl
is_word-name redis_sentinel = refl
is_word-name redis_sentinel_secure = refl
is_word-name redis_socket = refl
is_word-name redis_socket_secure = refl
is_word-name rpc = refl
is_word-name rpc_secure = refl

colon-is_scheme_char : (c : ℕ) → is_scheme_char c ≡ true → (c == b':') ≡ false
unfolding is_scheme_char
colon-is_scheme_char c h = ground arith

up_to_colon-word :
    (v rest : Text) → all is_scheme_char v ≡ true → up_to_colon (v ++ b':' ∷ rest) ≡ some v
unfolding up_to_colon
up_to_colon-word [] rest h = refl
up_to_colon-word (c ∷ v) rest h = ground (arith, h, colon-is_scheme_char c, up_to_colon-word v rest)

up_to_colon-some : (t v : Text) → up_to_colon t ≡ some v → (rest : Text) × (t ≡ v ++ b':' ∷ rest)
unfolding up_to_colon
up_to_colon-some [] v found = ground arith
up_to_colon-some (c ∷ t) v found = elim (if-cases (c == b':') found) [
  | inl (colon, is) ↦ let at : c ≡ b':' = ground arith in (t, ground (arith, at, is))
  | inr (_, more) ↦ elim (if-cases (is_scheme_char c) more) [
    | inl (_, is) ↦ elim (Option-cases (up_to_colon t)) [
      | inl gone ↦ ground (arith, gone, is)
      | inr (u, there) ↦
          let (rest, t_is) = up_to_colon-some t u there in (rest, ground (arith, there, is, t_is))
    ]
    | inr (_, is) ↦ ground (arith, is)
  ]
]

match_scheme-word : (v rest : Text) → is_word v ≡ true → match_scheme (v ++ b':' ∷ rest) ≡ some v
unfolding match_scheme
match_scheme-word [] rest h = ground arith
match_scheme-word (c ∷ v) rest h = ground (arith, h, up_to_colon-word v rest)

match_scheme-some : (t v : Text) → match_scheme t ≡ some v → (rest : Text) × (t ≡ v ++ b':' ∷ rest)
unfolding match_scheme
match_scheme-some [] v found = ground arith
match_scheme-some (c ∷ t) v found = elim (if-cases (is_letter c) found) [
  | inl (_, is) ↦ elim (Option-cases (up_to_colon t)) [
    | inl gone ↦ ground (arith, gone, is)
    | inr (u, there) ↦
        let (rest, t_is) = up_to_colon-some t u there in (rest, ground (arith, there, is, t_is))
  ]
  | inr (_, is) ↦ ground (arith, is)
]

get_scheme-name :
    (s : Scheme) (v rest : Text) → to_lower_case v ≡ name s → get_scheme (v ++ b':' ∷ rest) ≡ ok s
unfolding get_scheme
get_scheme-name s v rest is =
    let word : is_word v ≡ true = sym (is_word-lower v) ∙ ap is_word is ∙ is_word-name s in
    rw (match_scheme-word v rest word, get_scheme) (rw is (rw (find-name s) refl))

get_scheme-text :
    (raw_uri : Text) (s : Scheme)
    → get_scheme raw_uri ≡ ok s
    → (v : Text) × (rest : Text) × (raw_uri ≡ v ++ b':' ∷ rest) × (to_lower_case v ≡ name s)
unfolding get_scheme
get_scheme-text raw_uri s found = elim (Option-cases (match_scheme raw_uri)) [
  | inl gone ↦ ground (arith, gone)
  | inr (v, there) ↦ elim (Option-cases (find (to_lower_case v) schemes)) [
    | inl unknown ↦ ground (arith, there, unknown)
    | inr (x, known) ↦
        let (rest, is) = match_scheme-some raw_uri v there in
        let same : x ≡ s = ground (arith, there, known) in
        (v, rest, is, find-some (to_lower_case v) schemes x known ∙ ap name same)
  ]
]

-- `getScheme` gives a scheme exactly for the texts that begin with the scheme's name, in letters of
-- either case, and a colon.
pub get_scheme_iff :
    (raw_uri : Text) (s : Scheme)
    → (get_scheme raw_uri ≡ ok s)
      ↔ ((v : Text) × (rest : Text) × (raw_uri ≡ v ++ b':' ∷ rest) × (to_lower_case v ≡ name s))
get_scheme_iff raw_uri s = (
  get_scheme-text raw_uri s,
  λ (v, rest, is, named). ap get_scheme is ∙ get_scheme-name s v rest named,
)
