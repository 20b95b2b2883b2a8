-- ===== src/Amqp/Uri/Types.antt =====
-- The types of the fields of what `parseAmqpUri` gives, as in src/amqp/options.ts.
use celeries.Base.{◌≡◌, refl, inl, inr, Bool, true, List, [], ◌∷◌, arith, Option-cases}
use celeries.Base.Dict.{insert, lookup, Each, insert-Each, Unique, insert-Unique}
use celeries.Base.Result.{ok, bind-ok, ok-injective}
use celeries.Base.Text.{Text, codes, text_eq, is_among}
use celeries.QueryParser.{create, create_integer_query_descriptor, scalar_parser}
use celeries.QueryParser.Fields.{parse-Unique}
use celeries.QueryParser.Types.{Respects, parse-Each, scalar_parser-ok}
use celeries.Uri.{Scheme, name, get_scheme, Runtime, Uri, parse_uri}
use celeries.Uri.QueryString.{Part, scalar, array}
use celeries.Utility.{parse_integer}
use celeries.Amqp.Uri.{
  AmqpOptions, OptionValue, number, text, part, append_pass, append_port, append_user,
  append_options, descriptors, append_queries, append_vhost, match_vhost, protocol_of, options_of,
  parse_amqp_uri,
}

abbrev pub numbers : List Text
numbers = codes "channelMax" ∷ codes "frameMax" ∷ codes "heartbeat" ∷ codes "port" ∷ []

abbrev pub texts : List Text
texts =
    codes "hostname"
    ∷ codes "locale"
    ∷ codes "password"
    ∷ codes "protocol"
    ∷ codes "username"
    ∷ codes "vhost"
    ∷ []

-- Whether the interface has a field with this name and the type of this value; an array stands for
-- one of texts.
abbrev pub has_type : Text → OptionValue → Bool
has_type key (number n) = is_among numbers key
has_type key (part (scalar s)) = is_among texts key
has_type key (part (array ss)) = text_eq.beq key (codes "locale")

abbrev pub HasType : Text → OptionValue → Type 0
HasType key v = has_type key v ≡ true

-- No field stands twice, and each has its type.
abbrev pub IsTyped : AmqpOptions → Type 0
IsTyped options = Unique options × Each HasType options

set-IsTyped :
    (key : Text) (v : OptionValue) (o : AmqpOptions)
    → has_type key v ≡ true
    → IsTyped o
    → IsTyped (insert key v o)
set-IsTyped key v o typed (u, all) =
    (insert-Unique key v o u, insert-Each HasType key v o typed all)

append_pass-IsTyped : (uri : Uri) (o : AmqpOptions) → IsTyped o → IsTyped (append_pass uri o)
unfolding append_pass
append_pass-IsTyped uri o all = elim (Option-cases uri.authority) [
  | inl gone ↦ rw (gone, append_pass) all
  | inr (a, there) ↦
      rw (there, append_pass)
        (elim (Option-cases a.user_info) [
          | inl nobody ↦ rw nobody all
          | inr (i, user) ↦ rw user (elim (Option-cases i.pass) [
            | inl no_pass ↦ rw no_pass all
            | inr (pass, given) ↦ rw given (set-IsTyped (codes "password") (text pass) o refl all)
          ])
        ])
]

append_port-IsTyped : (uri : Uri) (o : AmqpOptions) → IsTyped o → IsTyped (append_port uri o)
unfolding append_port
append_port-IsTyped uri o all = elim (Option-cases uri.authority) [
  | inl gone ↦ rw (gone, append_port) all
  | inr (a, there) ↦
      rw (there, append_port)
        (elim (Option-cases a.port) [
          | inl no_port ↦ rw no_port all
          | inr (port, given) ↦ rw given (set-IsTyped (codes "port") (number port) o refl all)
        ])
]

append_user-IsTyped : (uri : Uri) (o : AmqpOptions) → IsTyped o → IsTyped (append_user uri o)
unfolding append_user
append_user-IsTyped uri o all = elim (Option-cases uri.authority) [
  | inl gone ↦ rw (gone, append_user) all
  | inr (a, there) ↦
      rw (there, append_user)
        (elim (Option-cases a.user_info) [
          | inl nobody ↦ rw nobody all
          | inr (i, user) ↦ rw user (set-IsTyped (codes "username") (text i.user) o refl all)
        ])
]

append_vhost-IsTyped :
    (js : Runtime) (raw_uri : Text) (o r : AmqpOptions)
    → IsTyped o
    → append_vhost js raw_uri o ≡ ok r
    → IsTyped r
unfolding append_vhost
append_vhost-IsTyped js raw_uri o r all run = elim (Option-cases (match_vhost raw_uri)) [
  | inl gone ↦ rw (← ok-injective (rw (gone, append_vhost) at run)) all
  | inr (matched, there) ↦
      let (vhost, _, set_) =
        bind-ok (js.decode_uri_component matched) _ r (rw (there, append_vhost) at run) in
      rw (← ok-injective set_) (set-IsTyped (codes "vhost") (text vhost) o refl all)
]

integer-HasType :
    (key : Text) (p : Part) (v : OptionValue)
    → is_among numbers key ≡ true
    → scalar_parser number parse_integer p ≡ ok v
    → has_type key v ≡ true
integer-HasType key p v there run =
    let (n, is) = scalar_parser-ok number parse_integer p v run in rw is there

locale-HasType : (p : Part) → has_type (codes "locale") (part p) ≡ true
locale-HasType (scalar s) = refl
locale-HasType (array ss) = refl

descriptors-Respects : Respects HasType (create part descriptors)
unfolding create descriptors create_integer_query_descriptor insert
descriptors-Respects = (
  λ p v run. integer-HasType (codes "channelMax") p v refl run,
  (
    λ p v run. integer-HasType (codes "frameMax") p v refl run,
    (
      λ p v run. integer-HasType (codes "heartbeat") p v refl run,
      (λ p v run. rw (← ok-injective run) (locale-HasType p), tt),
    ),
  ),
)

append_queries-IsTyped :
    (uri : Uri) (o r : AmqpOptions) → IsTyped o → append_queries uri o ≡ ok r → IsTyped r
unfolding append_queries
append_queries-IsTyped uri o r (u, all) run = elim (Option-cases uri.query) [
  | inl no_query ↦ rw (← ok-injective (rw no_query at run)) (u, all)
  | inr (query, there) ↦ (
    parse-Unique (create part descriptors) query o r u (rw there at run),
    parse-Each HasType (create part descriptors) query o r descriptors-Respects all
        (rw there at run),
  )
]

options_of-IsTyped :
    (js : Runtime) (raw_uri : Text) (protocol : Scheme) (uri : Uri) (r : AmqpOptions)
    → options_of js raw_uri protocol uri ≡ ok r
    → IsTyped r
unfolding options_of append_options insert lookup
options_of-IsTyped js raw_uri protocol uri r run = elim (Option-cases uri.authority) [
  | inl gone ↦ ground (arith, gone)
  | inr (authority, there) ↦
      let first : AmqpOptions =
        (codes "hostname", text authority.host) ∷ (codes "protocol", text (name protocol)) ∷ [] in
      let o = append_options uri first in
      let (v, has_vhost, last) =
        bind-ok (append_vhost js raw_uri o) _ r (rw (there, options_of) at run) in
      append_queries-IsTyped uri v r
        (append_vhost-IsTyped js raw_uri o v
          (append_user-IsTyped uri (append_port uri (append_pass uri first)) (
            append_port-IsTyped uri (append_pass uri first)
              (append_pass-IsTyped uri first ((refl, (refl, tt)), (refl, (refl, tt))))))
          has_vhost)
        last
]

-- Where `parseAmqpUri` gives options, no field stands twice in them, and each is a field of the
-- interface `AmqpOptions` with the type that this has there, but that `locale` can also be an array
-- of texts; other queries of the URI give no field.
pub parse_amqp_uri-IsTyped :
    (js : Runtime) (raw_uri : Text) (r : AmqpOptions) → parse_amqp_uri js raw_uri ≡ ok r → IsTyped r
unfolding parse_amqp_uri
parse_amqp_uri-IsTyped js raw_uri r run =
    let (scheme, has_scheme, rest) = bind-ok (get_scheme raw_uri) _ r run in
    elim (Option-cases (protocol_of scheme)) [
      | inl other ↦ ground (arith, rw other at rest)
      | inr (protocol, is) ↦
          let (uri, parsed, more) = bind-ok (parse_uri js raw_uri) _ r (rw is at rest) in
          options_of-IsTyped js raw_uri protocol uri r more
    ]
