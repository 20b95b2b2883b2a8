-- ===== src/Redis/Options/Uris.antt =====
-- The schemes of the URIs that the options give.
use celeries.Base.{
  ◌≡◌, refl, ap, ◌∙◌, inl, inr, Option, none, ◌∷◌, ◌++◌, Bool-cases, if◌then◌else◌, is_some,
}
use celeries.Base.Dict.{lookup}
use celeries.Base.Result.{ok}
use celeries.Base.Text.{Text, codes, text_eq, to_lower, to_lower_case}
use celeries.Uri.{
  Scheme, redis, redis_secure, redis_socket, redis_socket_secure, name, get_scheme, Runtime,
}
use celeries.Uri.Schemes.{get_scheme_iff}
use celeries.Redis.Uri.{Options, OptionValue}
use celeries.Redis.Uri.Tcp.{parse}
use celeries.Redis.Uri.Tcp.Types.{parse-tls}
use celeries.Redis.Options.Clients.{append_default_options-lookup}
use celeries.Redis.Options.{
  defined, secure, tcp_uri, socket_uri, create_uri, redis_tcp_options, redis_socket_options,
  append_default_options,
}

scheme_of :
    (s : Scheme) (rest : Text)
    → to_lower_case (name s) ≡ name s
    → get_scheme (name s ++ b':' ∷ rest) ≡ ok s
scheme_of s rest lower = (get_scheme_iff (name s ++ b':' ∷ rest) s).1 (name s, rest, refl, lower)

abbrev pub tcp_scheme : Options → Scheme
tcp_scheme options = if is_some (lookup (codes "tls") options) then redis_secure else redis

abbrev pub socket_scheme : Options → Scheme
socket_scheme options =
    if is_some (lookup (codes "tls") options) then redis_socket_secure else redis_socket

tcp_uri-scheme : (options : Options) → get_scheme (tcp_uri options) ≡ ok (tcp_scheme options)
unfolding tcp_uri secure defined to_lower
tcp_uri-scheme options = elim (Bool-cases (is_some (lookup (codes "tls") options))) [
  | inl tls ↦ rw tls (scheme_of redis_secure _ refl)
  | inr plain ↦ rw plain (scheme_of redis _ refl)
]

socket_uri-scheme :
    (options : Options) → get_scheme (socket_uri options) ≡ ok (socket_scheme options)
unfolding socket_uri secure defined to_lower
socket_uri-scheme options = elim (Bool-cases (is_some (lookup (codes "tls") options))) [
  | inl tls ↦ rw tls (scheme_of redis_socket_secure _ refl)
  | inr plain ↦ rw plain (scheme_of redis_socket _ refl)
]

-- The URI that options for TCP or for a socket give has a scheme that `getScheme` reads: the secure
-- one exactly if the options have `tls`.
pub create_uri-scheme :
    (options : Options)
    → ((uri : Text) × (create_uri (redis_tcp_options options) ≡ ok uri)
        × (get_scheme uri ≡ ok (tcp_scheme options)))
      × ((uri : Text) × (create_uri (redis_socket_options options) ≡ ok uri)
          × (get_scheme uri ≡ ok (socket_scheme options)))
unfolding create_uri redis_tcp_options redis_socket_options
create_uri-scheme options =
    let all = append_default_options options in
    let same : lookup (codes "tls") all ≡ lookup (codes "tls") options =
      append_default_options-lookup options (codes "tls") in
    (
      (
        tcp_uri all,
        refl,
        tcp_uri-scheme all
            ∙ ap (λ (o : Option OptionValue). ok (if is_some o then redis_secure else redis)) same,
      ),
      (
        socket_uri all,
        refl,
        socket_uri-scheme all
            ∙ ap
                (λ (o : Option OptionValue).
                  ok (if is_some o then redis_socket_secure else redis_socket))
                same,
      ),
    )

-- The options that a Redis URI for TCP parses to, with the defaults added, have no `tls`, and the
-- URI that they report has the scheme `redis`, whichever scheme was parsed.
pub parse-create_uri :
    (js : Runtime) (raw : Text) (options : Options)
    → parse js raw ≡ ok options
    → (lookup (codes "tls") (append_default_options options) ≡ none)
      × ((uri : Text) × (create_uri (redis_tcp_options options) ≡ ok uri)
          × (get_scheme uri ≡ ok redis))
parse-create_uri js raw options run =
    let no_tls : lookup (codes "tls") options ≡ none = parse-tls js raw options run in
    let ((uri, made, scheme), _) = create_uri-scheme options in
    (
      append_default_options-lookup options (codes "tls") ∙ no_tls,
      (
        uri,
        made,
        scheme
            ∙ ap (λ (o : Option OptionValue). ok (if is_some o then redis_secure else redis))
                no_tls,
      ),
    )
