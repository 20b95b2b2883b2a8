-- ===== src/Amqp/Uri/Tests.antt =====
-- The theorems at URIs.
use celeries.Base.{◌≡◌, refl, false, some, [], ◌∷◌, ◌++◌}
use celeries.Base.Dict.{lookup, insert}
use celeries.Base.Result.{ok}
use celeries.Base.Text.{Text, codes, text_eq}
use celeries.Uri.{Scheme, get_scheme, Url, Runtime, Uri, Authority, parse_uri}
use celeries.Uri.QueryString.{add_query}
use celeries.Amqp.Uri.{AmqpOptions, text, append_vhost, parse_amqp_uri}
use celeries.Amqp.Uri.Vhost.{append_vhost-question}
use celeries.Amqp.Uri.Types.{IsTyped, parse_amqp_uri-IsTyped}
use celeries.Amqp.Uri.Protocols.{SpeaksAmqp, parse_amqp_uri-protocol}

abbrev parts : Url
parts = record {
  protocol = codes "rpc:";
  href = codes "rpc://h";
  pathname = [];
  hostname = codes "h";
  username = [];
  password = [];
  port = [];
  search = [];
  entries = [];
}

abbrev js : Runtime
js = record {
  url_parse = λ _. some parts;
  decode_uri_component = λ s. ok s;
  is_nan = λ _. false;
  parse_int = λ _. 0;
}

abbrev options : AmqpOptions
options = (codes "hostname", text (codes "h")) ∷ (codes "protocol", text (codes "amqp")) ∷ []

vhost_test : append_vhost js (codes "amqp://h/v") [] ≡ ok ((codes "vhost", text (codes "v")) ∷ [])
unfolding append_vhost insert
vhost_test = refl

append_vhost-question_example :
    append_vhost js (codes "amqp://h/v" ++ b'?' ∷ codes "heartbeat=1") options ≡ ok options
append_vhost-question_example =
    append_vhost-question js (codes "amqp://h/v") (codes "heartbeat=1") options refl

parse_test : parse_amqp_uri js (codes "rpc://h") ≡ ok options
unfolding parse_amqp_uri get_scheme parse_uri add_query insert
parse_test = refl

parse_amqp_uri-protocol_example :
    (scheme : Scheme) × (protocol : Text) × (uri : Uri) × (authority : Authority) × (get_scheme
        (codes "rpc://h")
      ≡ ok scheme)
    × SpeaksAmqp scheme protocol
    × (parse_uri js (codes "rpc://h") ≡ ok uri)
    × (uri.authority ≡ some authority)
    × (lookup (codes "protocol") options ≡ some (text protocol))
    × (lookup (codes "hostname") options ≡ some (text authority.host))
parse_amqp_uri-protocol_example = parse_amqp_uri-protocol js (codes "rpc://h") options parse_test

parse_amqp_uri-IsTyped_example : IsTyped options
parse_amqp_uri-IsTyped_example = parse_amqp_uri-IsTyped js (codes "rpc://h") options parse_test
