-- ===== src/Amqp/Uri.antt =====
-- src/amqp/uri.ts: the options of an AMQP or RPC URI, a dictionary of their fields.
pub mod Vhost
pub mod Protocols
pub mod Types
pub mod Tests
use celeries.Base.{
  ℕ, zero, suc, Bool, true, false, not, ◌&&◌, ◌||◌, Option, none, some, List, [], ◌∷◌, ◌==◌,
  if◌then◌else◌,
}
use celeries.Base.Dict.{Dict, insert}
use celeries.Base.Result.{Result, ok, err, ◌>>=◌}
use celeries.Base.Text.{Text, codes, is_letter, is_digit, all, text_eq}
use celeries.Errors.{Thrown, parse_error}
use celeries.QueryParser.{create, parse, QueryDescriptor, create_integer_query_descriptor}
use celeries.Uri.{
  Scheme, amqp, amqp_secure, rpc, rpc_secure, name, get_scheme, Runtime, Uri, Authority, UserInfo,
  parse_uri,
}
use celeries.Uri.QueryString.{Part, scalar}

-- The value of an option: a number, or what a query held.
pub data OptionValue : Type 0 where
  number : ℕ → OptionValue
  part : Part → OptionValue

abbrev pub AmqpOptions : Type 0
AmqpOptions = Dict Text OptionValue

-- A field that is a text.
abbrev pub text : Text → OptionValue
text s = part (scalar s)

abbrev set : Text → OptionValue → AmqpOptions → AmqpOptions
set = insert

pub append_pass : Uri → AmqpOptions → AmqpOptions
append_pass uri options = elim uri.authority [
  | none ↦ options
  | some authority ↦ elim authority.user_info [
    | none ↦ options
    | some user_info ↦ elim user_info.pass [
      | none ↦ options
      | some pass ↦ set (codes "password") (text pass) options
    ]
  ]
]

pub append_port : Uri → AmqpOptions → AmqpOptions
append_port uri options = elim uri.authority [
  | none ↦ options
  | some authority ↦ elim authority.port [
    | none ↦ options
    | some port ↦ set (codes "port") (number port) options
  ]
]

pub append_user : Uri → AmqpOptions → AmqpOptions
append_user uri options = elim uri.authority [
  | none ↦ options
  | some authority ↦ elim authority.user_info [
    | none ↦ options
    | some user_info ↦ set (codes "username") (text user_info.user) options
  ]
]

pub append_options : Uri → AmqpOptions → AmqpOptions
unfolding append_pass append_port append_user
append_options uri appending = append_user uri (append_port uri (append_pass uri appending))

descriptors : List (QueryDescriptor OptionValue)
descriptors =
    create_integer_query_descriptor number (codes "channelMax") none
    ∷ create_integer_query_descriptor number (codes "frameMax") none
    ∷ create_integer_query_descriptor number (codes "heartbeat") none
    ∷ record { parser = none; source = codes "locale"; target = none }
    ∷ []

pub append_queries : Uri → AmqpOptions → Result Thrown AmqpOptions
unfolding descriptors
append_queries uri appending = elim uri.query [
  | none ↦ ok appending
  | some query ↦ parse (create part descriptors) query appending
]

-- The expression's `.` is no line end, and its class is `[\w\d-.~%]`.
is_line_end : ℕ → Bool
is_line_end c = (c == 10) || (c == 13) || (c == 8232) || (c == 8233)

is_vhost_char : ℕ → Bool
unfolding is_letter is_digit
is_vhost_char c =
    is_letter c
    || is_digit c
    || (c == b'_')
    || (c == b'-')
    || (c == b'.')
    || (c == b'~')
    || (c == b'%')

-- The expression from `[^/]*` on.
match_path : Text → Option Text
unfolding is_vhost_char
match_path [] = none
match_path (c ∷ s) =
    let later = match_path s in
    if c == b'/' then (if all is_vhost_char s then some s else none) else later

match_slashes : Text → Option Text
unfolding match_path
match_slashes (c ∷ d ∷ e ∷ s) =
    if (c == b':') && (d == b'/') && (e == b'/') then match_path s else none
match_slashes _ = none

-- The expression on a text, after one character at least. No two places of `://` match.
match_vhost : Text → Option Text
unfolding is_line_end match_slashes
match_vhost [] = none
match_vhost (c ∷ s) =
    let later = match_vhost s in
    if is_line_end c then none else (elim (match_slashes s) [ some v ↦ some v | none ↦ later ])

pub append_vhost : Runtime → Text → AmqpOptions → Result Thrown AmqpOptions
unfolding match_vhost
append_vhost js raw_uri appending = elim (match_vhost raw_uri) [
  | none ↦ ok appending
  | some matched ↦ do
    vhost ← js.decode_uri_component matched
    ok (set (codes "vhost") (text vhost) appending)
]

-- The protocol that a scheme stands for, if it is one of AMQP.
pub protocol_of : Scheme → Option Scheme
protocol_of amqp = some amqp
protocol_of amqp_secure = some amqp_secure
protocol_of rpc = some amqp
protocol_of rpc_secure = some amqp_secure
protocol_of _ = none

options_of : Runtime → Text → Scheme → Uri → Result Thrown AmqpOptions
unfolding append_options append_vhost append_queries
options_of js raw_uri protocol uri = elim uri.authority [
  | none ↦ err (parse_error raw_uri)
  | some authority ↦ do
    let with_options = append_options uri (
        set (codes "protocol") (text (name protocol))
          (set (codes "hostname") (text authority.host) []))
    with_vhost ← append_vhost js raw_uri with_options
    append_queries uri with_vhost
]

pub parse_amqp_uri : Runtime → Text → Result Thrown AmqpOptions
unfolding protocol_of options_of
parse_amqp_uri js raw_uri = do
  scheme ← get_scheme raw_uri
  elim (protocol_of scheme) [
    | none ↦ err (parse_error (name scheme))
    | some protocol ↦ do uri ← parse_uri js raw_uri; options_of js raw_uri protocol uri
  ]
