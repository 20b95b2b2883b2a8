-- ===== src/Redis/Uri/Tests.antt =====
-- The theorems on database paths and on lists of sentinels, at concrete ones.
use celeries.Base.{◌≡◌, refl, false, some, List, [], ◌∷◌, ◌++◌, arith}
use celeries.Base.Dict.{lookup, insert, spread}
use celeries.Base.Result.{ok}
use celeries.Base.Text.{Text, codes, text_eq, is_digit, to_lower}
use celeries.QueryParser.{create, parse}
use celeries.Uri.{Url, Runtime, parse_uri, get_scheme, split}
use celeries.Uri.QueryString.{add_query, parse_queries}
use celeries.Redis.Uri.{Options, OptionValue, text, nodes}
use celeries.Redis.Uri.Sentinel.{SentinelAuthority, parse_sentinel_uri}
use celeries.Redis.Uri.Sentinel.Nodes.{EachNode, last_name, parse_sentinel_uri-nodes}
use celeries.Utility.Numerals.{numeral}
use celeries.Redis.Uri.Tcp.{parse_db}
use celeries.Redis.Uri.Tcp.Database.{zeros, parse_db-numeral}

parse_db-numeral_test : parse_db (b'/' ∷ (zeros 2 ++ (numeral 13 10 12 ++ codes "?x"))) ≡ ok 12
unfolding is_digit
parse_db-numeral_test = parse_db-numeral 2 12 (codes "?x") (omega arith) refl

abbrev sentinel_url : Url
sentinel_url = record {
  protocol = codes "sentinel:";
  href = codes "sentinel://a:1?name=m";
  pathname = [];
  hostname = codes "a";
  username = [];
  password = [];
  port = codes "1";
  search = codes "?name=m";
  entries = (codes "name", codes "m") ∷ [];
}

abbrev js : Runtime
js = record {
  url_parse = λ _. some sentinel_url;
  decode_uri_component = λ s. ok s;
  is_nan = λ _. false;
  parse_int = λ _. 1;
}

abbrev two_uris : Text
two_uris = codes "sentinel://a:1?name=m;sentinels://a:1?name=m"

abbrev two_options : Options
two_options =
    (codes "name", text (codes "m"))
    ∷ (codes "protocol", text (codes "sentinel"))
    ∷ (codes "sentinels", nodes ((codes "a", 1) ∷ (codes "a", 1) ∷ []))
    ∷ []

two_uris_test : parse_sentinel_uri js two_uris ≡ ok two_options
unfolding parse_sentinel_uri parse_uri get_scheme to_lower split create parse lookup insert spread
    add_query parse_queries
two_uris_test = refl

parse_sentinel_uri-nodes_example :
    ((ns : List SentinelAuthority) × EachNode js (split b';' two_uris) ns
      × (lookup (codes "sentinels") two_options ≡ some (nodes ns)))
    × (lookup (codes "protocol") two_options ≡ some (text (codes "sentinel")))
    × ((v : OptionValue) × (last_name js (split b';' two_uris) ≡ some v)
        × (lookup (codes "name") two_options ≡ some v))
parse_sentinel_uri-nodes_example = parse_sentinel_uri-nodes js two_uris two_options two_uris_test
