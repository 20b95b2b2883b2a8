-- ===== src/Redis/Options.antt =====
-- src/redis/options.ts: the classes of `RedisOptions` and `createOptions`. What a client is made from
-- stands for the client of ioredis. `redisOptions` of a cluster's options, an object of its own,
-- stands beside the other fields.
pub mod Clients
pub mod Uris
pub mod Tests
use Prim.Native.String.{String}
use celeries.Base.{
  ℕ, suc, Bool, true, false, not, ◌||◌, Option, none, some, List, [], ◌∷◌, ◌++◌, ◌==◌, is_some, map,
  if◌then◌else◌,
}
use celeries.Base.Dict.{Dict, lookup, insert, spread}
use celeries.Base.Result.{Result, ok, err}
use celeries.Base.Text.{Text, codes, text_eq}
use celeries.Errors.{Thrown, unimplemented_error}
use celeries.Uri.QueryString.{Part, scalar, array}
use celeries.Utility.Numerals.{numeral}
use celeries.Redis.Uri.{Options, OptionValue, number, flag, part, nodes, settings, text}

pub append_default_options : Options → Options
append_default_options options = insert (codes "stringNumbers") (flag true) (
    insert (codes "keyPrefix") (text (codes "celery-task-meta-"))
      (insert (codes "dropBufferSupport") (flag true) options))

maybe_override : Options → Option Options → Options
maybe_override options none = options
maybe_override options (some override) = spread options override

-- The classes, by their field `options`.
pub data RedisOptions : Type 0 where
  tcp : Options → RedisOptions
  socket : Options → RedisOptions
  sentinel : Options → RedisOptions
  cluster : Options → Option Options → RedisOptions

-- The constructors of the classes.
pub redis_tcp_options : Options → RedisOptions
unfolding append_default_options
redis_tcp_options options = tcp (append_default_options options)

pub redis_socket_options : Options → RedisOptions
unfolding append_default_options
redis_socket_options options = socket (append_default_options options)

pub redis_sentinel_options : Options → RedisOptions
unfolding append_default_options
redis_sentinel_options options = sentinel (append_default_options options)

redis_cluster_options : Options → Option Options → RedisOptions
unfolding append_default_options
redis_cluster_options options none = cluster options none
redis_cluster_options options (some redis_options) =
    cluster options (some (append_default_options redis_options))

-- `new IoRedis(options)` and `new IoRedis.Cluster(nodes, options)`.
pub data Client : Type 0 where
  single : Options → Client
  of_cluster : Option OptionValue → Options → Option Options → Client

pub create_client : RedisOptions → Option Options → Client
unfolding maybe_override
create_client (tcp options) override = single (maybe_override options override)
create_client (socket options) override = single (maybe_override options override)
create_client (sentinel options) override = single (maybe_override options override)
create_client (cluster options redis_options) override =
    of_cluster (lookup (codes "nodes") options) options redis_options

-- A value in a template literal.
abbrev join : Text → List Text → Text
join s [] = s
join s (t ∷ ts) = s ++ (b',' ∷ join t ts)

abbrev show : OptionValue → Text
show (number n) = numeral (suc n) 10 n
show (flag true) = codes "true"
show (flag false) = codes "false"
show (part (scalar s)) = s
show (part (array [])) = []
show (part (array (s ∷ ss))) = join s ss
show (nodes []) = []
show (nodes (_ ∷ ns)) = join (codes "[object Object]") (map (λ _. codes "[object Object]") ns)
show settings = codes "[object Object]"

-- `typeof value !== "undefined"`.
defined : Text → Options → Bool
defined key options = is_some (lookup key options)

-- A field behind a mark, where it is there.
with_field : Text → Text → Text → Options → Text
with_field before key after options = elim (lookup key options) [
  | none ↦ []
  | some v ↦ before ++ (show v ++ after)
]

secure : Options → Text
unfolding defined
secure options = if defined (codes "tls") options then b's' ∷ [] else []

tcp_host : Options → Text
tcp_host options = elim (lookup (codes "host") options) [
  | none ↦ codes "localhost"
  | some v ↦ show v
]

tcp_authority : Options → Text
unfolding defined tcp_host with_field
tcp_authority options =
    if defined (codes "host") options || defined (codes "password") options
    then tcp_host options ++ with_field (b':' ∷ []) (codes "port") [] options
    else []

tcp_uri : Options → Text
unfolding secure with_field tcp_authority
tcp_uri options =
    codes "redis"
    ++ (secure options
        ++ (codes "://"
            ++ (with_field (b':' ∷ []) (codes "password") (b'@' ∷ []) options
                ++ (tcp_authority options ++ with_field (b'/' ∷ []) (codes "db") [] options))))

-- `undefined` where there is no path.
socket_path : Options → Text
socket_path options = elim (lookup (codes "path") options) [
  | none ↦ codes "undefined"
  | some v ↦ show v
]

socket_uri : Options → Text
unfolding secure with_field socket_path
socket_uri options =
    codes "redis"
    ++ (secure options
        ++ (codes "+socket://"
            ++ (socket_path options
                ++ with_field (codes "?password=") (codes "password") [] options)))

pub create_uri : RedisOptions → Result Thrown Text
unfolding tcp_uri socket_uri
create_uri (tcp options) = ok (tcp_uri options)
create_uri (socket options) = ok (socket_uri options)
create_uri (sentinel options) = err (unimplemented_error "")
create_uri (cluster options redis_options) = err (unimplemented_error "")

pub default_redis_options : RedisOptions
unfolding redis_tcp_options
default_redis_options = redis_tcp_options ((codes "protocol", text (codes "redis")) ∷ [])

-- Whether an `if` takes a value for true.
truthy : Option OptionValue → Bool
truthy none = false
truthy (some (number n)) = not (n == 0)
truthy (some (flag b)) = b
truthy (some (part (scalar []))) = false
truthy (some (part (scalar (c ∷ s)))) = true
truthy (some (part (array ss))) = true
truthy (some (nodes ns)) = true
truthy (some settings) = true

is_cluster : Options → Bool
unfolding defined
is_cluster options = defined (codes "nodes") options

tcp_protocol : Options → Text
unfolding truthy
tcp_protocol options =
    if truthy (lookup (codes "tls") options) then codes "rediss" else codes "redis"

create_options : Options → Option Options → RedisOptions
unfolding is_cluster truthy tcp_protocol redis_cluster_options redis_sentinel_options
    redis_socket_options redis_tcp_options
create_options options redis_options =
    if is_cluster options
    then redis_cluster_options options redis_options
    else if truthy (lookup (codes "sentinels") options)
    then redis_sentinel_options options
    else if truthy (lookup (codes "path") options)
    then redis_socket_options options
    else redis_tcp_options (insert (codes "protocol") (text (tcp_protocol options)) options)
