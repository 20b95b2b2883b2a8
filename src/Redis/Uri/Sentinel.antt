-- ===== src/Redis/Uri/Sentinel.antt =====
-- src/redis/uri/sentinel.ts: the options of a list of sentinel URIs.
pub mod Names
pub mod Nodes
use celeries.Base.{
  ℕ, Bool, true, false, Option, none, some, List, [], ◌∷◌, is_some, if◌then◌else◌, not, ◌&&◌,
}
use celeries.Base.Dict.{Dict, lookup, insert, spread}
use celeries.Base.Result.{Result, ok, err, ◌>>=◌}
use celeries.Base.Text.{Text, codes, text_eq}
use celeries.Errors.{Thrown, parse_error, error}
use celeries.QueryParser.{QueryDescriptor, create, parse, as_scalar}
use celeries.Uri.{
  Scheme, redis_sentinel, redis_sentinel_secure, get_scheme, Runtime, Uri, Authority, parse_uri,
  split,
}
use celeries.Uri.QueryString.{Part}
use celeries.Redis.Uri.{Options, OptionValue, part, text, nodes}

abbrev pub SentinelAuthority : Type 0
SentinelAuthority = Text × ℕ

abbrev pub is_sentinel_scheme : Scheme → Bool
is_sentinel_scheme redis_sentinel = true
is_sentinel_scheme redis_sentinel_secure = true
is_sentinel_scheme _ = false

parse_role : Text → Result Thrown Text
parse_role role =
    if not (text_eq.beq role (codes "master")) && not (text_eq.beq role (codes "slave"))
    then err (parse_error role)
    else ok role

-- `parseRole(asScalar(x))`: without a scalar the role is `undefined`.
role_of : Option Text → Result Thrown OptionValue
unfolding parse_role
role_of none = err (parse_error (codes "undefined"))
role_of (some s) = elim (parse_role s) [ ok role ↦ ok (text role) | err e ↦ err e ]

descriptors : List (QueryDescriptor OptionValue)
unfolding role_of
descriptors =
    record { parser = none; source = codes "name"; target = none }
    ∷ record { parser = some (λ x. role_of (as_scalar x)); source = codes "role"; target = none }
    ∷ []

pub parse_queries : Uri → Result Thrown Options
unfolding descriptors
parse_queries uri = elim uri.query [
  | none ↦ ok []
  | some raw_query ↦ parse (create part descriptors) raw_query []
]

port_of : Text → Authority → Result Thrown SentinelAuthority
port_of raw authority = elim authority.port [
  | none ↦ err (parse_error raw)
  | some port ↦ ok (authority.host, port)
]

authority_of : Uri → Scheme → Result Thrown SentinelAuthority
unfolding port_of
authority_of uri scheme =
    if is_sentinel_scheme scheme
    then (elim uri.authority [
      | none ↦ err (parse_error uri.raw)
      | some authority ↦ port_of uri.raw authority
    ])
    else err (parse_error uri.raw)

parse_authority : Uri → Result Thrown SentinelAuthority
unfolding authority_of
parse_authority uri = get_scheme uri.raw >>= authority_of uri

module _ (js : Runtime) where
  parse_individual : Text → Result Thrown (SentinelAuthority × Options)
  unfolding parse_authority parse_queries
  parse_individual raw_uri = do
    uri ← parse_uri js raw_uri
    authority ← parse_authority uri
    queries ← parse_queries uri
    ok (authority, queries)

  -- `split.map(parseIndividual)`.
  parse_each : List Text → Result Thrown (List (SentinelAuthority × Options))
  unfolding parse_individual
  parse_each [] = ok []
  parse_each (raw_uri ∷ rest) = do
    first ← parse_individual raw_uri
    others ← parse_each rest
    ok (first ∷ others)

abbrev pub authorities : List (SentinelAuthority × Options) → List SentinelAuthority
authorities [] = []
authorities ((sentinel, _) ∷ rest) = sentinel ∷ authorities rest

-- `reduce` with each query spread over those before.
combine : Options → List (SentinelAuthority × Options) → Options
combine options [] = options
combine options ((_, query) ∷ rest) = combine (spread options query) rest

-- `reduce` of an empty array throws; `split` never gives one.
reduced : List (SentinelAuthority × Options) → Result Thrown Options
unfolding combine
reduced [] = err (error "Reduce of empty array with no initial value")
reduced ((_, query) ∷ rest) = ok (combine query rest)

with_sentinels : List (SentinelAuthority × Options) → Options → Result Thrown Options
with_sentinels parsed options =
    if is_some (lookup (codes "name") options)
    then ok (
        insert (codes "sentinels") (nodes (authorities parsed))
          (insert (codes "protocol") (text (codes "sentinel")) options))
    else err (parse_error (codes "sentinel options missing name"))

unfoldable pub parse_sentinel_uri : Runtime → Text → Result Thrown Options
unfolding parse_each reduced with_sentinels
parse_sentinel_uri js raw_uris = do
  parsed ← parse_each js (split b';' raw_uris)
  options ← reduced parsed
  with_sentinels parsed options
