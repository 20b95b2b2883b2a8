-- ===== src/Amqp/Uri/Protocols.antt =====
-- What no part of an AMQP URI but its scheme and its authority sets.
use celeries.Base.{
  ◌≡◌, refl, sym, ap, ◌∙◌, ◌⊎◌, inl, inr, false, none, some, [], arith, Option-cases,
}
use celeries.Base.Dict.{lookup, insert, lookup-insert}
use celeries.Base.Result.{ok, bind-ok, ok-injective}
use celeries.Base.Text.{Text, codes, text_eq}
use celeries.QueryParser.{create, create_integer_query_descriptor}
use celeries.QueryParser.Fields.{field, parse-field}
use celeries.Uri.{Scheme, name, get_scheme, Runtime, Uri, Authority, parse_uri}
use celeries.Uri.QueryString.{Queries}
use celeries.Amqp.Uri.{
  AmqpOptions, OptionValue, number, text, part, append_pass, append_port, append_user,
  append_options, descriptors, append_queries, append_vhost, match_vhost, protocol_of, options_of,
  parse_amqp_uri,
}

-- The two fields.
abbrev IsFixed : Text → Type 0
IsFixed key = (key ≡ codes "protocol") ⊎ (key ≡ codes "hostname")

field-IsFixed :
    (query : Queries) (key : Text) → IsFixed key → field query (create part descriptors) key ≡ none
unfolding create descriptors create_integer_query_descriptor insert
field-IsFixed query key (inl is) = rw is refl
field-IsFixed query key (inr is) = rw is refl

append_queries-IsFixed :
    (uri : Uri) (options r : AmqpOptions) (key : Text)
    → IsFixed key
    → append_queries uri options ≡ ok r
    → lookup key r ≡ lookup key options
unfolding append_queries
append_queries-IsFixed uri options r key f run = elim (Option-cases uri.query) [
  | inl no_query ↦ ap (lookup key) (sym (ok-injective (rw no_query at run)))
  | inr (query, there) ↦
      elim (parse-field (create part descriptors) query options r key (rw there at run)) [
        | inl (_, same) ↦ same
        | inr (v, set_, _) ↦ cc (sym (field-IsFixed query key f) ∙ set_)
      ]
]

insert-IsFixed :
    (k : Text) (v : OptionValue) (options : AmqpOptions) (key : Text)
    → text_eq.beq k (codes "protocol") ≡ false
    → text_eq.beq k (codes "hostname") ≡ false
    → IsFixed key
    → lookup key (insert k v options) ≡ lookup key options
insert-IsFixed k v options key p h (inl is) = lookup-insert k key v options ∙ rw is (rw p refl)
insert-IsFixed k v options key p h (inr is) = lookup-insert k key v options ∙ rw is (rw h refl)

append_pass-IsFixed :
    (uri : Uri) (o : AmqpOptions) (key : Text)
    → IsFixed key
    → lookup key (append_pass uri o) ≡ lookup key o
unfolding append_pass
append_pass-IsFixed uri o key f = elim (Option-cases uri.authority) [
  | inl gone ↦ rw (gone, append_pass) refl
  | inr (a, there) ↦
      rw (there, append_pass)
        (elim (Option-cases a.user_info) [
          | inl nobody ↦ rw nobody refl
          | inr (i, user) ↦ rw user (elim (Option-cases i.pass) [
            | inl no_pass ↦ rw no_pass refl
            | inr (pass, given) ↦
                rw given (insert-IsFixed (codes "password") (text pass) o key refl refl f)
          ])
        ])
]

append_port-IsFixed :
    (uri : Uri) (o : AmqpOptions) (key : Text)
    → IsFixed key
    → lookup key (append_port uri o) ≡ lookup key o
unfolding append_port
append_port-IsFixed uri o key f = elim (Option-cases uri.authority) [
  | inl gone ↦ rw (gone, append_port) refl
  | inr (a, there) ↦
      rw (there, append_port)
        (elim (Option-cases a.port) [
          | inl no_port ↦ rw no_port refl
          | inr (port, given) ↦
              rw given (insert-IsFixed (codes "port") (number port) o key refl refl f)
        ])
]

append_user-IsFixed :
    (uri : Uri) (o : AmqpOptions) (key : Text)
    → IsFixed key
    → lookup key (append_user uri o) ≡ lookup key o
unfolding append_user
append_user-IsFixed uri o key f = elim (Option-cases uri.authority) [
  | inl gone ↦ rw (gone, append_user) refl
  | inr (a, there) ↦
      rw (there, append_user)
        (elim (Option-cases a.user_info) [
          | inl nobody ↦ rw nobody refl
          | inr (i, user) ↦
              rw user (insert-IsFixed (codes "username") (text i.user) o key refl refl f)
        ])
]

append_options-IsFixed :
    (uri : Uri) (o : AmqpOptions) (key : Text)
    → IsFixed key
    → lookup key (append_options uri o) ≡ lookup key o
unfolding append_options
append_options-IsFixed uri o key f =
    append_user-IsFixed uri (append_port uri (append_pass uri o)) key f
    ∙ append_port-IsFixed uri (append_pass uri o) key f
    ∙ append_pass-IsFixed uri o key f

append_vhost-IsFixed :
    (js : Runtime) (raw_uri : Text) (o r : AmqpOptions) (key : Text)
    → IsFixed key
    → append_vhost js raw_uri o ≡ ok r
    → lookup key r ≡ lookup key o
unfolding append_vhost
append_vhost-IsFixed js raw_uri o r key f run = elim (Option-cases (match_vhost raw_uri)) [
  | inl gone ↦ ap (lookup key) (sym (ok-injective (rw (gone, append_vhost) at run)))
  | inr (matched, there) ↦
      let (vhost, _, set_) =
        bind-ok (js.decode_uri_component matched) _ r (rw (there, append_vhost) at run) in
      ap (lookup key) (sym (ok-injective set_))
      ∙ insert-IsFixed (codes "vhost") (text vhost) o key refl refl f
]

abbrev first_options : Scheme → Text → AmqpOptions
first_options protocol host =
    insert (codes "protocol") (text (name protocol)) (insert (codes "hostname") (text host) [])

options_of-IsFixed :
    (js : Runtime) (raw_uri : Text) (protocol : Scheme) (uri : Uri) (r : AmqpOptions)
    → options_of js raw_uri protocol uri ≡ ok r
    → (authority : Authority) × (uri.authority ≡ some authority)
      × ((key : Text)
          → IsFixed key
          → lookup key r ≡ lookup key (first_options protocol authority.host))
unfolding options_of
options_of-IsFixed js raw_uri protocol uri r run = elim (Option-cases uri.authority) [
  | inl gone ↦ ground (arith, gone)
  | inr (authority, there) ↦
      let first = first_options protocol authority.host in
      let o = append_options uri first in
      let (v, has_vhost, last) =
        bind-ok (append_vhost js raw_uri o) _ r (rw (there, options_of) at run) in
      (
        authority,
        there,
        λ key f.
            append_queries-IsFixed uri v r key f last
            ∙ append_vhost-IsFixed js raw_uri o v key f has_vhost
            ∙ append_options-IsFixed uri first key f,
      )
]

-- The protocol that amqplib knows a scheme by, for the four schemes of AMQP and RPC.
abbrev pub SpeaksAmqp : Scheme → Text → Type 0
SpeaksAmqp scheme protocol =
    (((scheme ≡ Scheme.amqp) ⊎ (scheme ≡ Scheme.rpc)) × (protocol ≡ codes "amqp"))
    ⊎ (((scheme ≡ Scheme.amqp_secure) ⊎ (scheme ≡ Scheme.rpc_secure)) × (protocol ≡ codes "amqps"))

protocol_of-SpeaksAmqp :
    (scheme protocol : Scheme)
    → protocol_of scheme ≡ some protocol
    → SpeaksAmqp scheme (name protocol)
unfolding protocol_of
protocol_of-SpeaksAmqp Scheme.amqp protocol is =
    let same : Scheme.amqp ≡ protocol = ground (arith, is) in inl (inl refl, ap name (sym same))
protocol_of-SpeaksAmqp Scheme.amqp_secure protocol is =
    let same : Scheme.amqp_secure ≡ protocol = ground (arith, is) in
    inr (inl refl, ap name (sym same))
protocol_of-SpeaksAmqp Scheme.rpc protocol is =
    let same : Scheme.amqp ≡ protocol = ground (arith, is) in inl (inr refl, ap name (sym same))
protocol_of-SpeaksAmqp Scheme.rpc_secure protocol is =
    let same : Scheme.amqp_secure ≡ protocol = ground (arith, is) in
    inr (inr refl, ap name (sym same))
protocol_of-SpeaksAmqp _ protocol is = ground (arith, is)

-- Where `parseAmqpUri` gives options, the URI's scheme is amqp or rpc and the protocol is "amqp", or
-- it is the secure form of one of these and the protocol is "amqps"; the host is that of the URI's
-- authority, and no query, user or virtual host has changed the two.
pub parse_amqp_uri-protocol :
    (js : Runtime) (raw_uri : Text) (r : AmqpOptions)
    → parse_amqp_uri js raw_uri ≡ ok r
    → (scheme : Scheme) × (protocol : Text) × (uri : Uri) × (authority : Authority) × (get_scheme
          raw_uri
        ≡ ok scheme)
      × SpeaksAmqp scheme protocol
      × (parse_uri js raw_uri ≡ ok uri)
      × (uri.authority ≡ some authority)
      × (lookup (codes "protocol") r ≡ some (text protocol))
      × (lookup (codes "hostname") r ≡ some (text authority.host))
unfolding parse_amqp_uri lookup insert
parse_amqp_uri-protocol js raw_uri r run =
    let (scheme, has_scheme, rest) = bind-ok (get_scheme raw_uri) _ r run in
    elim (Option-cases (protocol_of scheme)) [
      | inl other ↦ ground (arith, rw other at rest)
      | inr (protocol, is) ↦
          let (uri, parsed, more) = bind-ok (parse_uri js raw_uri) _ r (rw is at rest) in
          let (authority, there, kept) = options_of-IsFixed js raw_uri protocol uri r more in
          (
            scheme,
            name protocol,
            uri,
            authority,
            has_scheme,
            protocol_of-SpeaksAmqp scheme protocol is,
            parsed,
            there,
            kept (codes "protocol") (inl refl),
            kept (codes "hostname") (inr refl),
          )
    ]
