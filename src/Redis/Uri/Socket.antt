-- ===== src/Redis/Uri/Socket.antt =====
-- src/redis/uri/socket.ts: the options of a Redis socket URI.
use celeries.Base.{Bool, true, false, not, [], ◌∷◌, ◌==◌, if◌then◌else◌}
use celeries.Base.Dict.{spread}
use celeries.Base.Result.{Result, ok, err, ◌>>=◌}
use celeries.Base.Text.{Text, codes, all, text_eq}
use celeries.Errors.{Thrown, parse_error}
use celeries.Uri.{
  Scheme, redis_socket, redis_socket_secure, name, get_scheme, Runtime, Uri, parse_uri,
}
use celeries.Redis.Uri.{Options, text, parse_redis_query}

-- One character at least, and none of them NUL.
is_path : Text → Bool
is_path [] = false
is_path (c ∷ s) = all (λ d. not (d == 0)) (c ∷ s)

validate_path : Text → Result Thrown Text
unfolding is_path
validate_path path = if is_path path then ok path else err (parse_error path)

socket_options : Scheme → Uri → Result Thrown Options
unfolding validate_path
socket_options protocol parsed = do
  path ← validate_path parsed.path
  query ← parse_redis_query parsed
  ok (spread ((codes "path", text path) ∷ (codes "protocol", text (name protocol)) ∷ []) query)

abbrev is_socket : Scheme → Bool
is_socket redis_socket = true
is_socket redis_socket_secure = true
is_socket _ = false

of_scheme : Runtime → Text → Scheme → Result Thrown Options
unfolding socket_options
of_scheme js uri protocol =
    if is_socket protocol
    then (parse_uri js uri >>= socket_options protocol)
    else err (parse_error (name protocol))

pub parse : Runtime → Text → Result Thrown Options
unfolding of_scheme
parse js uri = do protocol ← get_scheme uri; of_scheme js uri protocol
