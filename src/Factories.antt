-- ===== src/Factories.antt =====
-- src/factories.ts: clients, brokers and backends from URIs. A broker or a backend stands for the
-- object of its class with the options that its constructor gets; the id of `Uuid.v4` is an argument.
pub mod Schemes
pub mod Tests
use Prim.Native.String.{String}
use celeries.Base.{Option, none, some, List, [], ◌∷◌}
use celeries.Base.Result.{Result, ok, err, ◌>>=◌}
use celeries.Base.Text.{Text}
use celeries.Errors.{Thrown, unimplemented_error, error}
use celeries.Client.{Client}
use celeries.Uri.{
  Scheme, amqp, amqp_secure, redis, redis_socket, redis_sentinel, rpc, rpc_secure, get_scheme,
  Runtime,
}
use celeries.Amqp.Uri.{AmqpOptions, parse_amqp_uri}
use celeries.Redis.Uri.Tcp
use celeries.Redis.Uri.Socket
use celeries.Redis.Uri.Sentinel.{parse_sentinel_uri}
use celeries.Redis.Options.{
  RedisOptions, redis_tcp_options, redis_socket_options, redis_sentinel_options,
}

pub data Backend : Type 0 where
  null_backend : Backend
  redis_backend : RedisOptions → Backend
  rpc_backend : Text → AmqpOptions → Backend

pub data Broker : Type 0 where
  redis_broker : RedisOptions → Broker
  amqp_broker : AmqpOptions → Broker

abbrev of_options : {O A : Type 0} → (O → A) → Result Thrown O → Option (Result Thrown A)
of_options make (ok options) = some (ok (make options))
of_options make (err x) = some (err x)

module _ (js : Runtime) where
  -- The `switch` of `createBackend`; `none` where no case has the scheme.
  backend_of : Text → Text → Scheme → Option (Result Thrown Backend)
  backend_of id raw_uri redis =
      of_options (λ o. redis_backend (redis_tcp_options o)) (Tcp.parse js raw_uri)
  backend_of id raw_uri redis_socket =
      of_options (λ o. redis_backend (redis_socket_options o)) (Socket.parse js raw_uri)
  backend_of id raw_uri redis_sentinel =
      of_options (λ o. redis_backend (redis_sentinel_options o)) (parse_sentinel_uri js raw_uri)
  backend_of id raw_uri rpc = of_options (rpc_backend id) (parse_amqp_uri js raw_uri)
  backend_of id raw_uri rpc_secure = of_options (rpc_backend id) (parse_amqp_uri js raw_uri)
  backend_of id raw_uri _ = none

  broker_of : Text → Scheme → Option (Result Thrown Broker)
  broker_of raw_uri redis =
      of_options (λ o. redis_broker (redis_tcp_options o)) (Tcp.parse js raw_uri)
  broker_of raw_uri redis_socket =
      of_options (λ o. redis_broker (redis_socket_options o)) (Socket.parse js raw_uri)
  broker_of raw_uri redis_sentinel =
      of_options (λ o. redis_broker (redis_sentinel_options o)) (parse_sentinel_uri js raw_uri)
  broker_of raw_uri amqp = of_options amqp_broker (parse_amqp_uri js raw_uri)
  broker_of raw_uri amqp_secure = of_options amqp_broker (parse_amqp_uri js raw_uri)
  broker_of raw_uri _ = none

-- The `catch` of the functions: any error becomes an `Error` with this text.
caught : {A : Type 0} → String → String → Option (Result Thrown A) → Result Thrown A
caught text unsupported none = err (unimplemented_error unsupported)
caught text unsupported (some (ok a)) = ok a
caught text unsupported (some (err x)) = err (error text)

module _ (js : Runtime) where
  pub create_backend : Text → Text → Result Thrown Backend
  unfolding backend_of caught
  create_backend id raw_uri = elim (get_scheme raw_uri) [
    | err x ↦ err (error "Celery.Factories.createBackend: could not parse URI")
    | ok scheme ↦
        caught "Celery.Factories.createBackend: could not parse URI" "Celery.Factory.createBackend"
          (backend_of js id raw_uri scheme)
  ]

  pub create_broker : Text → Result Thrown Broker
  unfolding broker_of caught
  create_broker raw_uri = elim (get_scheme raw_uri) [
    | err x ↦ err (error "Celery.Factories.createBroker: could not parse URI")
    | ok scheme ↦
        caught "Celery.Factories.createBroker: could not parse URI" "Celery.Factory.createBroker"
          (broker_of js raw_uri scheme)
  ]

  -- `brokerUrl.map(createBroker)`.
  create_brokers : List Text → Result Thrown (List Broker)
  unfolding create_broker
  create_brokers [] = ok []
  create_brokers (raw_uri ∷ rest) = do
    first ← create_broker raw_uri
    others ← create_brokers rest
    ok (first ∷ others)

  backend_or_null : Text → Option Text → Result Thrown Backend
  unfolding create_backend
  backend_or_null id none = ok null_backend
  backend_or_null id (some result_backend) = create_backend id result_backend

  -- One `brokerUrl` is a list of one. The defaults of the tasks are left to the `Client`.
  pub create_client : Text → List Text → Option Text → Result Thrown (Client Backend Broker)
  unfolding backend_or_null create_brokers
  create_client id broker_url result_backend = do
    backend ← backend_or_null id result_backend
    brokers ← create_brokers broker_url
    ok (record {
      backend = backend;
      brokers = brokers;
      id = id;
      task_defaults = record {
        delivery_mode = none;
        hard_time_limit = none;
        queue = none;
        soft_time_limit = none;
      };
    })
