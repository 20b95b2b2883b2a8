-- ===== src/Redis/Options/Tests.antt =====
-- The theorem on URIs, at a secure one.
use celeries.Base.{◌≡◌, refl, false, none, some, [], ◌∷◌}
use celeries.Base.Dict.{lookup, insert, spread}
use celeries.Base.Result.{ok}
use celeries.Base.Text.{Text, codes, text_eq, to_lower}
use celeries.Uri.{Url, Runtime, redis, get_scheme, parse_uri, split}
use celeries.Uri.QueryString.{add_query}
use celeries.Redis.Uri.{Options, text, parse_redis_query}
use celeries.Redis.Uri.Tcp
use celeries.Redis.Uri.Tcp.Types.{IsTyped, parse-IsTyped}
use celeries.Redis.Options.{append_default_options, redis_tcp_options, create_uri}
use celeries.Redis.Options.Uris.{parse-create_uri}

abbrev url : Url
url = record {
  protocol = codes "rediss:";
  href = codes "rediss://h/";
  pathname = b'/' ∷ [];
  hostname = codes "h";
  username = [];
  password = [];
  port = [];
  search = [];
  entries = [];
}

abbrev js : Runtime
js = record {
  url_parse = λ _. some url;
  decode_uri_component = λ s. ok s;
  is_nan = λ _. false;
  parse_int = λ _. 0;
}

abbrev options : Options
options = (codes "protocol", text (codes "rediss")) ∷ (codes "host", text (codes "h")) ∷ []

secure_test : Tcp.parse js (codes "rediss://h") ≡ ok options
unfolding Tcp.parse parse_uri get_scheme to_lower insert lookup spread split add_query
    parse_redis_query
secure_test = refl

parse-create_uri_test :
    (lookup (codes "tls") (append_default_options options) ≡ none)
    × ((uri : Text) × (create_uri (redis_tcp_options options) ≡ ok uri)
        × (get_scheme uri ≡ ok redis))
parse-create_uri_test = parse-create_uri js (codes "rediss://h") options secure_test

parse-IsTyped_example : IsTyped options
parse-IsTyped_example = parse-IsTyped js (codes "rediss://h") options secure_test
