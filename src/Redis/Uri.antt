-- ===== src/Redis/Uri.antt =====
-- src/redis/uri/: the queries that the URIs share, in src/redis/uri/common.ts.
pub mod Tcp
pub mod Socket
pub mod Sentinel
pub mod Tests
use celeries.Base.{ℕ, Bool, Option, none, some, List, [], ◌∷◌}
use celeries.Base.Dict.{Dict}
use celeries.Base.Result.{Result, ok}
use celeries.Base.Text.{Text, codes}
use celeries.Errors.{Thrown}
use celeries.QueryParser.{create, parse, QueryDescriptor, create_boolean_query_descriptor}
use celeries.Uri.{Uri}
use celeries.Uri.QueryString.{Part, scalar}

-- The value of an option.
pub data OptionValue : Type 0 where
  number : ℕ → OptionValue
  flag : Bool → OptionValue
  part : Part → OptionValue
  -- The array `sentinels`: host and port of each node.
  nodes : List (Text × ℕ) → OptionValue
  -- An object that only ioredis reads, such as the settings of TLS.
  settings : OptionValue

abbrev pub Options : Type 0
Options = Dict Text OptionValue

abbrev pub text : Text → OptionValue
text s = part (scalar s)

descriptors : List (QueryDescriptor OptionValue)
descriptors =
    record { parser = none; source = codes "password"; target = none }
    ∷ create_boolean_query_descriptor flag (codes "noDelay") none
    ∷ []

unfoldable pub parse_redis_query : Uri → Result Thrown Options
unfolding descriptors
parse_redis_query uri = elim uri.query [
  | none ↦ ok []
  | some query ↦ parse (create part descriptors) query []
]
