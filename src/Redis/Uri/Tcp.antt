-- ===== src/Redis/Uri/Tcp.antt =====
-- src/redis/uri/tcp.ts: the options of a Redis URI.
pub mod Database
pub mod Types
use celeries.Base.{
  ℕ, Bool, true, false, ◌&&◌, Option, none, some, List, [], ◌∷◌, ◌==◌, if◌then◌else◌,
}
use celeries.Base.Dict.{insert, spread}
use celeries.Base.Result.{Result, ok, err, ◌>>=◌}
use celeries.Base.Text.{Text, codes, is_digit, text_eq}
use celeries.Errors.{Thrown, parse_error}
use celeries.Uri.{Scheme, redis, redis_secure, name, get_scheme, Runtime, Uri, Authority, parse_uri}
use celeries.Utility.{parse_integer}
use celeries.Redis.Uri.{Options, OptionValue, number, text, parse_redis_query}

-- The expression's `(\d+)` at the start of a text.
digits : Text → Text
unfolding is_digit
digits [] = []
digits (c ∷ s) = let rest = digits s in if is_digit c then c ∷ rest else []

abbrev or_zero : Text → Option Text → Option Text
or_zero [] last = last
or_zero (c ∷ s) last = some (c ∷ s)

-- The expression from `0*` on. The zeros leave one digit at least for the group: the last zero, when
-- no other digit follows.
match_digits : Option Text → Text → Option Text
unfolding digits
match_digits last [] = last
match_digits last (c ∷ s) =
    let later = match_digits (some (b'0' ∷ [])) s in
    if c == b'0' then later else or_zero (digits (c ∷ s)) last

match_db : Text → Option Text
unfolding match_digits
match_db [] = none
match_db (c ∷ s) = if c == b'/' then match_digits none s else none

pub parse_db : Text → Result Thrown ℕ
unfolding match_db
parse_db maybe_db = elim (match_db maybe_db) [
  | none ↦ err (parse_error maybe_db)
  | some matched ↦ parse_integer matched
]

add_database : Uri → Options → Result Thrown Options
unfolding parse_db
add_database uri iterating =
    if text_eq.beq uri.path (b'/' ∷ [])
    then ok iterating
    else (do db ← parse_db uri.path; ok (insert (codes "db") (number db) iterating))

add_hostname : Authority → Options → Options
add_hostname authority iterating = insert (codes "host") (text authority.host) iterating

add_password : Authority → Options → Options
add_password authority iterating = elim authority.user_info [
  | none ↦ iterating
  | some user_info ↦ elim user_info.pass [
    | none ↦ iterating
    | some pass ↦ insert (codes "password") (text pass) iterating
  ]
]

add_port : Authority → Options → Options
add_port authority iterating = elim authority.port [
  | none ↦ iterating
  | some port ↦ insert (codes "port") (number port) iterating
]

-- In the order of the enumeration: database, host, password, port.
add_options : Uri → Authority → Options → Result Thrown Options
unfolding add_database add_hostname add_password add_port
add_options uri authority options = do
  with_database ← add_database uri options
  ok (add_port authority (add_password authority (add_hostname authority with_database)))

abbrev is_redis : Scheme → Bool
is_redis redis = true
is_redis redis_secure = true
is_redis _ = false

options_of : Text → Scheme → Uri → Result Thrown Options
unfolding add_options spread
options_of raw_uri protocol parsed = elim parsed.authority [
  | none ↦ err (parse_error raw_uri)
  | some authority ↦ do
    raw_options ← add_options parsed authority ((codes "protocol", text (name protocol)) ∷ [])
    query ← parse_redis_query parsed
    ok (spread raw_options query)
]

of_scheme : Runtime → Text → Scheme → Result Thrown Options
unfolding options_of
of_scheme js raw_uri protocol =
    if is_redis protocol
    then (parse_uri js raw_uri >>= options_of raw_uri protocol)
    else err (parse_error (name protocol))

unfoldable pub parse : Runtime → Text → Result Thrown Options
unfolding of_scheme
parse js raw_uri = do protocol ← get_scheme raw_uri; of_scheme js raw_uri protocol
