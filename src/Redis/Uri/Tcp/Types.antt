-- ===== src/Redis/Uri/Tcp/Types.antt =====
-- The types of the fields of what `parse` gives, as in src/redis/basic_options.ts.
use celeries.Base.{
  ◌≡◌, refl, inl, inr, Bool, true, false, none, [], ◌∷◌, arith, Option-cases, if-cases,
}
use celeries.Base.Dict.{
  insert, lookup, Each, insert-Each, spread-Each, Each-lookup, Unique, insert-Unique, spread-Unique,
}
use celeries.Base.Result.{ok, bind-ok, ok-injective}
use celeries.Base.Text.{Text, codes, text_eq, is_among}
use celeries.QueryParser.{
  create, create_boolean_query_descriptor, scalar_parser, assert_parser, assert_target, into_pair,
}
use celeries.QueryParser.Types.{Respects, parse-Each, scalar_parser-ok}
use celeries.Uri.{Scheme, name, get_scheme, Runtime, Uri, Authority, parse_uri}
use celeries.Uri.QueryString.{Part, scalar, array}
use celeries.Utility.{parse_boolean}
use celeries.Redis.Uri.{
  Options, OptionValue, number, flag, part, nodes, settings, text, descriptors, parse_redis_query,
}
use celeries.Redis.Uri.Tcp.{
  is_redis, of_scheme, options_of, add_options, add_database, add_hostname, add_password, add_port,
  parse_db, parse as parse_tcp,
}

-- Whether `BasicRedisTcpOptions` has a field with this name and the type of this value, of the fields
-- that a URI can give; an array stands for one of texts.
abbrev pub has_type : Text → OptionValue → Bool
has_type key (number n) = is_among (codes "db" ∷ codes "port" ∷ []) key
has_type key (flag b) = text_eq.beq key (codes "noDelay")
has_type key (part (scalar s)) =
    is_among (codes "host" ∷ codes "password" ∷ codes "protocol" ∷ []) key
has_type key (part (array ss)) = text_eq.beq key (codes "password")
has_type key (nodes ns) = false
has_type key settings = false

abbrev pub HasType : Text → OptionValue → Type 0
HasType key v = has_type key v ≡ true

-- No field stands twice, and each has its type.
abbrev pub IsTyped : Options → Type 0
IsTyped options = Unique options × Each HasType options

insert-IsTyped :
    (key : Text) (v : OptionValue) (o : Options)
    → has_type key v ≡ true
    → IsTyped o
    → IsTyped (insert key v o)
insert-IsTyped key v o typed (u, all) =
    (insert-Unique key v o u, insert-Each HasType key v o typed all)

add_hostname-IsTyped : (a : Authority) (o : Options) → IsTyped o → IsTyped (add_hostname a o)
unfolding add_hostname
add_hostname-IsTyped a o all = insert-IsTyped (codes "host") (text a.host) o refl all

add_password-IsTyped : (a : Authority) (o : Options) → IsTyped o → IsTyped (add_password a o)
unfolding add_password
add_password-IsTyped a o all = elim (Option-cases a.user_info) [
  | inl gone ↦ rw (gone, add_password) all
  | inr (info, found) ↦
      rw (found, add_password)
        (elim (Option-cases info.pass) [
          | inl gone ↦ rw gone all
          | inr (pass, there) ↦ rw there (insert-IsTyped (codes "password") (text pass) o refl all)
        ])
]

add_port-IsTyped : (a : Authority) (o : Options) → IsTyped o → IsTyped (add_port a o)
unfolding add_port
add_port-IsTyped a o all = elim (Option-cases a.port) [
  | inl gone ↦ rw (gone, add_port) all
  | inr (port, found) ↦
      rw (found, add_port) (insert-IsTyped (codes "port") (number port) o refl all)
]

add_database-IsTyped :
    (uri : Uri) (o r : Options) → IsTyped o → add_database uri o ≡ ok r → IsTyped r
unfolding add_database
add_database-IsTyped uri o r all run = elim (if-cases (text_eq.beq uri.path (b'/' ∷ [])) run) [
  | inl (_, same) ↦ rw (← ok-injective same) all
  | inr (_, chain) ↦
      let (db, _, last) = bind-ok (parse_db uri.path) _ r chain in
      rw (← ok-injective last) (insert-IsTyped (codes "db") (number db) o refl all)
]

add_options-IsTyped :
    (uri : Uri) (a : Authority) (o r : Options) → IsTyped o → add_options uri a o ≡ ok r → IsTyped r
unfolding add_options
add_options-IsTyped uri a o r all run =
    let (d, has_database, last) = bind-ok (add_database uri o) _ r run in
    rw (← ok-injective last) (
      add_port-IsTyped a (add_password a (add_hostname a d)) (
        add_password-IsTyped a (add_hostname a d)
          (add_hostname-IsTyped a d (add_database-IsTyped uri o d all has_database))))

password-HasType : (p : Part) → has_type (codes "password") (part p) ≡ true
password-HasType (scalar s) = refl
password-HasType (array ss) = refl

no_delay-HasType :
    (p : Part) (v : OptionValue)
    → scalar_parser flag parse_boolean p ≡ ok v
    → has_type (codes "noDelay") v ≡ true
no_delay-HasType p v run = let (b, is) = scalar_parser-ok flag parse_boolean p v run in rw is refl

descriptors-Respects : Respects HasType (create part descriptors)
unfolding create assert_parser assert_target into_pair create_boolean_query_descriptor descriptors
    insert
descriptors-Respects = (
  λ p v run. rw (← ok-injective run) (password-HasType p),
  (λ p v run. no_delay-HasType p v run, tt),
)

parse_redis_query-Each : (uri : Uri) (q : Options) → parse_redis_query uri ≡ ok q → Each HasType q
unfolding parse_redis_query
parse_redis_query-Each uri q run = elim (Option-cases uri.query) [
  | inl gone ↦ let empty : [] ≡ q = ok-injective (rw gone at run) in rw (← empty) tt
  | inr (query, found) ↦
      parse-Each HasType (create part descriptors) query [] q descriptors-Respects tt
        (rw found at run)
]

options_of-IsTyped :
    (raw : Text) (s : Scheme) (uri : Uri) (r : Options) → options_of raw s uri ≡ ok r → IsTyped r
unfolding options_of lookup parse_redis_query
options_of-IsTyped raw s uri r run = elim (Option-cases uri.authority) [
  | inl gone ↦ let run' = rw gone at run in ground (arith, run')
  | inr (a, found) ↦
      let first : Options = (codes "protocol", text (name s)) ∷ [] in
      let (o, adds, run1) = bind-ok (add_options uri a first) _ r (rw found at run) in
      let (q, parses, last) = bind-ok (parse_redis_query uri) _ r run1 in
      let (u, all) = add_options-IsTyped uri a first o ((refl, tt), (refl, tt)) adds in
      rw (← ok-injective last)
        (spread-Unique o q u, spread-Each HasType o q all (parse_redis_query-Each uri q parses))
]

-- Where the URI of a Redis server over TCP parses to options, no field stands twice in them, and each
-- is a field of the interface `BasicRedisTcpOptions` with the type that this has there, but that
-- `password` can also be an array of texts; other queries of the URI give no field.
pub parse-IsTyped : (js : Runtime) (raw : Text) (r : Options) → parse_tcp js raw ≡ ok r → IsTyped r
unfolding parse_tcp of_scheme
parse-IsTyped js raw r run =
    let (s, _, run1) = bind-ok (get_scheme raw) _ r run in
    elim (if-cases (is_redis s) run1) [
      | inr (_, refused) ↦ ground (arith, refused)
      | inl (_, chain) ↦
          let (uri, _, last) = bind-ok (parse_uri js raw) _ r chain in
          options_of-IsTyped raw s uri r last
    ]

-- The options of a Redis URI have no `tls`.
pub parse-tls :
    (js : Runtime) (raw : Text) (r : Options)
    → parse_tcp js raw ≡ ok r
    → lookup (codes "tls") r ≡ none
parse-tls js raw r run = elim (Option-cases (lookup (codes "tls") r)) [
  | inl gone ↦ gone
  | inr (v, there) ↦
      not_tls v r (Each-lookup HasType (codes "tls") v r (parse-IsTyped js raw r run).1 there)
]
  where
    not_tls :
        (v : OptionValue) (r : Options) → HasType (codes "tls") v → lookup (codes "tls") r ≡ none
    not_tls (number n) r h = ground (arith, h)
    not_tls (flag b) r h = ground (arith, h)
    not_tls (part (scalar s)) r h = ground (arith, h)
    not_tls (part (array ss)) r h = ground (arith, h)
    not_tls (nodes ns) r h = ground (arith, h)
    not_tls settings r h = ground (arith, h)
