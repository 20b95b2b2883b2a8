-- ===== src/Factories/Schemes.antt =====
-- Which URIs the factories take.
use Prim.Native.String.{String}
use celeries.Base.{
  suc, ◌≡◌, refl, ap, ◌↔◌, Bool, true, false, none, List, [], ◌∷◌, arith, is_some, length,
}
use celeries.Base.Dict.{lookup}
use celeries.Base.Result.{Result, ok, err, bind-ok, ok-injective}
use celeries.Base.Text.{Text, codes, text_eq}
use celeries.Errors.{Thrown, unimplemented_error}
use celeries.Uri.{Scheme, get_scheme, Runtime}
use celeries.Redis.Uri.{Options}
use celeries.Redis.Options.{create_uri, redis_tcp_options, redis_socket_options}
use celeries.Redis.Options.Uris.{create_uri-scheme, tcp_scheme, socket_scheme}
use celeries.Factories.{
  Broker, backend_of, broker_of, caught, of_options, create_backend, create_broker, create_brokers,
}

-- The schemes that a broker or a backend can be made for.
abbrev pub has_backend : Scheme → Bool
has_backend Scheme.redis = true
has_backend Scheme.redis_socket = true
has_backend Scheme.redis_sentinel = true
has_backend Scheme.rpc = true
has_backend Scheme.rpc_secure = true
has_backend _ = false

abbrev pub has_broker : Scheme → Bool
has_broker Scheme.redis = true
has_broker Scheme.redis_socket = true
has_broker Scheme.redis_sentinel = true
has_broker Scheme.amqp = true
has_broker Scheme.amqp_secure = true
has_broker _ = false

of_options-cases :
    {O A : Type 0} (make : O → A) (r : Result Thrown O) (text unsupported : String)
    → (caught text unsupported (of_options make r) ≡ err (unimplemented_error unsupported))
      ↔ (true ≡ false)
unfolding caught
of_options-cases make (ok o) text unsupported = ground arith
of_options-cases make (err x) text unsupported = ground arith

none-cases :
    {A : Type 0} (text unsupported : String)
    → (caught {A = A} text unsupported none ≡ err (unimplemented_error unsupported))
      ↔ (false ≡ false)
unfolding caught
none-cases text unsupported = ground arith

backend_cases :
    (js : Runtime) (id raw_uri : Text) (text unsupported : String) (s : Scheme)
    → (caught text unsupported (backend_of js id raw_uri s) ≡ err (unimplemented_error unsupported))
      ↔ (has_backend s ≡ false)
unfolding backend_of
backend_cases js id raw_uri text unsupported Scheme.redis = of_options-cases _ _ text unsupported
backend_cases js id raw_uri text unsupported Scheme.redis_socket =
    of_options-cases _ _ text unsupported
backend_cases js id raw_uri text unsupported Scheme.redis_sentinel =
    of_options-cases _ _ text unsupported
backend_cases js id raw_uri text unsupported Scheme.rpc = of_options-cases _ _ text unsupported
backend_cases js id raw_uri text unsupported Scheme.rpc_secure =
    of_options-cases _ _ text unsupported
backend_cases js id raw_uri text unsupported _ = none-cases text unsupported

broker_cases :
    (js : Runtime) (raw_uri : Text) (text unsupported : String) (s : Scheme)
    → (caught text unsupported (broker_of js raw_uri s) ≡ err (unimplemented_error unsupported))
      ↔ (has_broker s ≡ false)
unfolding broker_of
broker_cases js raw_uri text unsupported Scheme.redis = of_options-cases _ _ text unsupported
broker_cases js raw_uri text unsupported Scheme.redis_socket = of_options-cases _ _ text unsupported
broker_cases js raw_uri text unsupported Scheme.redis_sentinel =
    of_options-cases _ _ text unsupported
broker_cases js raw_uri text unsupported Scheme.amqp = of_options-cases _ _ text unsupported
broker_cases js raw_uri text unsupported Scheme.amqp_secure = of_options-cases _ _ text unsupported
broker_cases js raw_uri text unsupported _ = none-cases text unsupported

-- A URI with a scheme that `getScheme` reads is refused as not implemented exactly if the scheme is
-- not among those for backends, or for brokers: the secure forms of the Redis schemes are not.
pub create_iff :
    (js : Runtime) (id raw_uri : Text) (s : Scheme)
    → get_scheme raw_uri ≡ ok s
    → ((create_backend js id raw_uri ≡ err (unimplemented_error "Celery.Factory.createBackend"))
        ↔ (has_backend s ≡ false))
      × ((create_broker js raw_uri ≡ err (unimplemented_error "Celery.Factory.createBroker"))
          ↔ (has_broker s ≡ false))
unfolding create_backend create_broker
create_iff js id raw_uri s read =
    rw (read, create_backend, create_broker)
      (backend_cases js id raw_uri _ _ s, broker_cases js raw_uri _ _ s)

create_brokers-length :
    (js : Runtime) (urls : List Text) (brokers : List Broker)
    → create_brokers js urls ≡ ok brokers
    → length brokers ≡ length urls
unfolding create_brokers
create_brokers-length js [] brokers run =
    let same : [] ≡ brokers = ok-injective run in rw (← same) refl
create_brokers-length js (url ∷ rest) brokers run =
    let (first, one, run1) = bind-ok (create_broker js url) _ brokers run in
    let (others, more, run2) = bind-ok (create_brokers js rest) _ brokers run1 in
    let same : first ∷ others ≡ brokers = ok-injective run2 in
    rw (← same) (ap suc (create_brokers-length js rest others more))

-- The URI that a backend or a broker with options for Redis reports, over TCP or over a socket, is
-- refused as not implemented by `createBackend` if the options have `tls`.
create_backend-secure :
    (js : Runtime) (id : Text) (options : Options)
    → is_some (lookup (codes "tls") options) ≡ true
    → ((uri : Text) × (create_uri (redis_tcp_options options) ≡ ok uri)
        × (create_backend js id uri ≡ err (unimplemented_error "Celery.Factory.createBackend")))
      × ((uri : Text) × (create_uri (redis_socket_options options) ≡ ok uri)
          × (create_backend js id uri ≡ err (unimplemented_error "Celery.Factory.createBackend")))
create_backend-secure js id options tls =
    let ((u, made, scheme), (v, made', scheme')) = create_uri-scheme options in
    (
      (u, made, ((create_iff js id u (tcp_scheme options) scheme).0).1 (rw tls refl)),
      (v, made', ((create_iff js id v (socket_scheme options) scheme').0).1 (rw tls refl)),
    )
