-- ===== src/Uri.antt =====
-- src/uri.ts: schemes, and the parts of a URI. `URL.parse` and `decodeURIComponent` are parameters.
pub mod QueryString
pub mod Schemes
pub mod Authorities
pub mod Tests
use Prim.Native.String.{String}
use celeries.Base.{
  ℕ, zero, suc, Bool, true, false, not, ◌&&◌, ◌||◌, Option, none, some, List, ◌++◌, [], ◌∷◌, ◌==◌,
  if◌then◌else◌, length, leb,
}
use celeries.Base.Result.{Result, ok, err, ◌>>=◌}
use celeries.Base.Text.{Text, codes, is_digit, is_letter, to_lower, to_lower_case, all, text_eq}
use celeries.Uri.QueryString.{Queries, Part, add_query}
use celeries.Errors.{Thrown, parse_error}

pub data Scheme : Type 0 where
  amqp amqp_secure redis redis_secure redis_sentinel redis_sentinel_secure : Scheme
  redis_socket redis_socket_secure rpc rpc_secure : Scheme

-- The values of the enumeration.
abbrev pub name : Scheme → Text
name amqp = codes "amqp"
name amqp_secure = codes "amqps"
name redis = codes "redis"
name redis_secure = codes "rediss"
name redis_sentinel = codes "sentinel"
name redis_sentinel_secure = codes "sentinels"
name redis_socket = codes "redis+socket"
name redis_socket_secure = codes "rediss+socket"
name rpc = codes "rpc"
name rpc_secure = codes "rpcs"

abbrev pub schemes : List Scheme
schemes =
    amqp ∷ amqp_secure ∷ redis ∷ redis_secure ∷ redis_sentinel ∷ redis_sentinel_secure
    ∷ redis_socket ∷ redis_socket_secure ∷ rpc ∷ rpc_secure ∷ []

-- The scheme of a name, if there is one.
pub find : Text → List Scheme → Option Scheme
find s [] = none
find s (x ∷ xs) = if text_eq.beq (name x) s then some x else find s xs

-- The expression's `[A-Za-z\d+.-]`.
pub is_scheme_char : ℕ → Bool
unfolding is_letter is_digit
is_scheme_char c = is_letter c || is_digit c || (c == b'+') || (c == b'.') || (c == b'-')

-- The characters of a scheme up to the colon.
pub up_to_colon : Text → Option Text
unfolding is_scheme_char
up_to_colon [] = none
up_to_colon (c ∷ s) =
    let rest = up_to_colon s in
    if c == b':'
    then some []
    else if is_scheme_char c
    then (elim rest [ none ↦ none | some t ↦ some (c ∷ t) ])
    else none

pub match_scheme : Text → Option Text
unfolding up_to_colon is_letter
match_scheme [] = none
match_scheme (c ∷ s) =
    if is_letter c then (elim (up_to_colon s) [ none ↦ none | some t ↦ some (c ∷ t) ]) else none

unfoldable pub get_scheme : Text → Result Thrown Scheme
unfolding match_scheme to_lower find
get_scheme raw_uri = elim (match_scheme raw_uri) [
  | none ↦ err (parse_error raw_uri)
  | some matched ↦ elim (find (to_lower_case matched) schemes) [
    | none ↦ err (parse_error (to_lower_case matched))
    | some scheme ↦ ok scheme
  ]
]

-- The fields of a `URL` object that the program reads; `entries` are those of `searchParams`.
pub record Url : Type 0 where
  pub protocol : Text
  pub href : Text
  pub pathname : Text
  pub hostname : Text
  pub username : Text
  pub password : Text
  pub port : Text
  pub search : Text
  pub entries : List (Text × Text)

-- What JavaScript supplies: `URL.parse`, which gives null for a text that is no URL,
-- `decodeURIComponent`, `Number.isNaN` of a text's number, and `Number.parseInt`.
pub record Runtime : Type 0 where
  pub url_parse : Text → Option Url
  pub decode_uri_component : Text → Result Thrown Text
  pub is_nan : Text → Bool
  pub parse_int : Text → ℕ

pub record UserInfo : Type 0 where
  pub user : Text
  pub pass : Option Text

pub record Authority : Type 0 where
  pub user_info : Option UserInfo
  pub host : Text
  pub port : Option ℕ

pub record Uri : Type 0 where
  pub authority : Option Authority
  pub path : Text
  pub query : Option Queries
  pub raw : Text
  pub scheme : Text

pub is_falsy : Text → Bool
is_falsy [] = true
is_falsy (_ ∷ _) = false

is_alphanumeric : ℕ → Bool
unfolding is_letter is_digit
is_alphanumeric c = is_letter c || is_digit c

-- The rest of a label: letters, digits and `-`, the last no `-`.
label_rest : Text → Bool
unfolding is_alphanumeric
label_rest [] = true
label_rest (c ∷ []) = is_alphanumeric c
label_rest (c ∷ d ∷ s) = (is_alphanumeric c || (c == b'-')) && label_rest (d ∷ s)

-- A label has 1 to 63 characters.
is_label : Text → Bool
unfolding is_alphanumeric label_rest
is_label [] = false
is_label (c ∷ s) = is_alphanumeric c && label_rest s && leb (length (c ∷ s)) 63

prepend : ℕ → List Text → List Text
prepend c [] = (c ∷ []) ∷ []
prepend c (s ∷ ss) = (c ∷ s) ∷ ss

-- The parts of a text between separators.
unfoldable pub split : ℕ → Text → List Text
unfolding prepend
split separator [] = [] ∷ []
split separator (c ∷ s) =
    let rest = split separator s in if c == separator then [] ∷ rest else prepend c rest

-- The expression `HOST_REGEX`: labels with dots between them.
pub is_host : Text → Bool
unfolding is_label split
is_host maybe_host = all is_label (split b'.' maybe_host)

pub validate_host : Text → Result Thrown Text
unfolding is_host
validate_host maybe_host =
    if is_host maybe_host then ok maybe_host else err (parse_error maybe_host)

pub add_host : Url → Uri → Result Thrown Uri
unfolding is_falsy validate_host to_lower
add_host uri parsing = if is_falsy uri.hostname then ok parsing else (do
  host ← validate_host uri.hostname
  ok (record parsing {
    authority = some (record { user_info = none; host = to_lower_case host; port = none });
  }))

module _ (js : Runtime) where
  pub with_user : Url → Uri → Option Authority → Result Thrown Uri
  unfolding is_falsy
  with_user uri with_host none = ok with_host
  with_user uri with_host (some authority) = if is_falsy uri.username then ok with_host else (do
    user ← js.decode_uri_component uri.username
    ok (record with_host {
      authority =
          some (record authority { user_info = some (record { user = user; pass = none }) });
    }))

  pub add_host_and_user : Url → Uri → Result Thrown Uri
  unfolding add_host with_user
  add_host_and_user uri parsing = do
    with_host ← add_host uri parsing
    with_user uri with_host with_host.authority

  pub with_pass : Url → Uri → Option Authority → Result Thrown Uri
  unfolding is_falsy
  with_pass uri with_user_ none = ok with_user_
  with_pass uri with_user_ (some authority) = elim authority.user_info [
    | none ↦ if is_falsy uri.password then ok with_user_ else (do
      pass ← js.decode_uri_component uri.password
      ok (record with_user_ {
        authority =
            some (record authority { user_info = some (record { user = []; pass = some pass }) });
      }))
    | some user_info ↦
        if is_falsy uri.password
        then ok with_user_
        else ok (record with_user_ {
          authority = some (record authority {
            user_info = some (record user_info { pass = some uri.password });
          });
        })
  ]

  pub add_host_user_and_pass : Url → Uri → Result Thrown Uri
  unfolding add_host_and_user with_pass
  add_host_user_and_pass uri parsing = do
    with_user_ ← add_host_and_user uri parsing
    with_pass uri with_user_ with_user_.authority

  pub parse_port : Text → Result Thrown ℕ
  parse_port maybe_port =
      if js.is_nan maybe_port then err (parse_error maybe_port) else ok (js.parse_int maybe_port)

  pub with_port : Url → Uri → Option Authority → Result Thrown Uri
  unfolding is_falsy parse_port
  with_port uri with_pass_ none = ok with_pass_
  with_port uri with_pass_ (some authority) = if is_falsy uri.port then ok with_pass_ else (do
    port ← parse_port uri.port
    ok (record with_pass_ { authority = some (record authority { port = some port }) }))

  pub add_host_user_pass_and_port : Url → Uri → Result Thrown Uri
  unfolding add_host_user_and_pass with_port
  add_host_user_pass_and_port uri parsing = do
    with_pass_ ← add_host_user_and_pass uri parsing
    with_port uri with_pass_ with_pass_.authority

  abbrev without_last : Text → Text
  without_last [] = []
  without_last (_ ∷ []) = []
  without_last (c ∷ d ∷ s) = c ∷ without_last (d ∷ s)

  abbrev or_slash : Text → Text
  or_slash [] = b'/' ∷ []
  or_slash (c ∷ s) = c ∷ s

  unfoldable pub parse_uri : Text → Result Thrown Uri
  unfolding add_host_user_pass_and_port to_lower
  parse_uri to_parse = elim (js.url_parse to_parse) [
    | none ↦ err (parse_error to_parse)
    | some parsed ↦ do
      let with_required : Uri = record {
        authority = none;
        path =
            if text_eq.beq parsed.href parsed.protocol
            then parsed.pathname
            else or_slash parsed.pathname;
        query = none;
        raw = to_parse;
        scheme = to_lower_case (without_last parsed.protocol);
      }
      with_authority ← add_host_user_pass_and_port parsed with_required
      query ← add_query parsed.search parsed.entries
      ok (elim query [ none ↦ with_authority | some q ↦ record with_authority { query = some q } ])
  ]
