-- ===== src/Redis/Backend.antt =====
-- src/redis/backend.ts: the class `RedisBackend`, over the map of the results that calls of `get`
-- wait for and the pool of connections. The event loop runs what stands behind each `await` as an
-- operation of its own.
pub mod Uuid
pub mod Ending
pub mod Channels
pub mod History
pub mod Waiting
pub mod Tests
use Prim.Native.String.{String}
use celeries.Base.{
  ℕ, zero, suc, ◌/◌, Bool, true, false, ◌&&◌, ◌||◌, Option, none, some, List, [], ◌∷◌, ◌==◌, leb,
  if◌then◌else◌,
}
use celeries.Base.Equality.{Eq}
use celeries.Base.Result.{Result, ok, err, ◌>>=◌}
use celeries.Base.Text.{Text, codes, text_eq, is_digit}
use celeries.Containers.Fifo.{Fifo}
use celeries.Containers.PromiseMap
use celeries.Containers.PromiseMap.{PromiseMap}
use celeries.Containers.PromiseMap.Promises.{plain, Outcome, value, thrown}
use celeries.Containers.ResourcePool
use celeries.Containers.ResourcePool.{ResourcePool, create_pool}
use celeries.Errors.{Thrown}
use celeries.Messages.{ResultMessage, Status}
use celeries.Utility.Events.{Settling, create_timeout_promise}
use celeries.Redis.Uri.{text}
use celeries.Redis.Options.{RedisOptions, Client, create_client, create_uri}
use celeries.Redis.Connection.{Command, multi, del, psubscribe, punsubscribe, quit, Server, set_log}
use celeries.Redis.Broker.{options_or_default}
use celeries.Redis.Backend.Uuid.{result_prefix, match_channel}

abbrev pub result_timeout : ℕ
result_timeout = 86400000

-- `subscriber` is there once its promise has settled: its connection, or what PSUBSCRIBE failed with.
pub record RedisBackend {T : Type 0} (F : Fifo T) (G : Fifo ℕ) (E : Type 0) : Type 0 where
  pub options : RedisOptions
  pub pool : ResourcePool F G E
  pub results : PromiseMap Text Text E
  pub subscriber : Option (Result E T)
  pub log : T → List Command

pub create :
    {T : Type 0} ⦃e : Eq T⦄ (F : Fifo T) (G : Fifo ℕ) (E : Type 0)
    → Option RedisOptions
    → RedisBackend F G E
create F G E options = record {
  options = options_or_default options;
  pool = ResourcePool.get (create_pool F G E 2);
  results = PromiseMap.create Text Text E (some result_timeout);
  subscriber = none;
  log = λ _. [];
}

-- `JSON`.
pub record Json (M E : Type 0) : Type 0 where
  pub stringify : M → Text
  pub parse : Text → Result E M

-- What the answer to GET comes to: it decides, or `get` listens.
pub data Response (M E : Type 0) : Type 0 where
  settles : Result E M → Response M E
  listens : Response M E

abbrev is_success : Status → Bool
is_success Status.success = true
is_success _ = false

response_of :
    {C M E : Type 0}
    → Json (ResultMessage C M) E
    → Result E (Option Text)
    → Response (ResultMessage C M) E
response_of json (err x) = settles (err x)
response_of json (ok none) = listens
response_of json (ok (some raw)) = elim (json.parse raw) [
  | err x ↦ settles (err x)
  | ok parsed ↦ if is_success parsed.status then settles (ok parsed) else listens
]

module _ {T : Type 0} ⦃e : Eq T⦄ {F : Fifo T} {G : Fifo ℕ} {E : Type 0} where
  -- The options of each connection that the pool creates.
  pub client : RedisBackend F G E → Client
  client b = create_client b.options (some ((codes "keyPrefix", text result_prefix) ∷ []))

  -- A command on a connection. What it is answered comes in later.
  pub send : T → Command → RedisBackend F G E → RedisBackend F G E
  send connection command b = record b {
    log = set_log b.log connection (command ∷ b.log connection);
  }

  -- The connection of the subscriber is there: the constructor goes on up to the `await` of
  -- PSUBSCRIBE.
  pub start_subscriber : T → RedisBackend F G E → RedisBackend F G E
  unfolding send
  start_subscriber connection b =
      send connection (psubscribe (codes "celery-task-meta-*"))
        (record b { pool = ResourcePool.arrive connection b.pool })

  -- PSUBSCRIBE has been answered.
  pub subscribed : Result E (Option Text) → T → RedisBackend F G E → RedisBackend F G E
  subscribed (ok _) connection b = record b { subscriber = some (ok connection) }
  subscribed (err x) connection b = record b { subscriber = some (err x) }

  -- `pool.use` up to the `await` of its connection.
  pub start_use : RedisBackend F G E → RedisBackend F G E
  start_use b = record b { pool = ResourcePool.get b.pool }

  -- The callback of `pool.use` has settled: in `put` and `delete` with what the server answered, in
  -- `get` with what its time limit makes of the response.
  pub finish_use :
      {A : Type 0}
      → (String → E)
      → Result E A
      → T
      → RedisBackend F G E
      → RedisBackend F G E × Result E A
  finish_use error outcome connection b =
      let (pool', outcome') = ResourcePool.use_resource error outcome connection b.pool in
      (record b { pool = pool' }, outcome')

  -- `put` from the arrival of its connection up to the `await` of EXEC.
  pub put :
      {C M : Type 0}
      → Json (ResultMessage C M) E
      → ResultMessage C M
      → T
      → RedisBackend F G E
      → RedisBackend F G E
  unfolding send
  put json message connection b =
      send connection (multi message.task_id (result_timeout / 1000) (json.stringify message))
        (record b { pool = ResourcePool.arrive connection b.pool })

  -- `listen`: the promise that it waits for.
  pub listen : Text → RedisBackend F G E → ℕ × RedisBackend F G E
  listen task_id b =
      let (p, results') = PromiseMap.get task_id b.results in (p, record b { results = results' })

  -- `get` at once: where the map has the task it listens, and no connection is asked for; `none`
  -- where it waits for a connection.
  pub start_get : Text → RedisBackend F G E → Option ℕ × RedisBackend F G E
  unfolding listen start_use
  start_get task_id b =
      if PromiseMap.has task_id b.results
      then (let (p, b') = listen task_id b in (some p, b'))
      else (none, start_use b)

  -- `get` from the arrival of its connection up to the `await` of GET. From here on its time limit
  -- runs.
  pub get : Text → T → RedisBackend F G E → RedisBackend F G E
  unfolding send
  get task_id connection b =
      send connection (Command.get task_id)
        (record b { pool = ResourcePool.arrive connection b.pool })

  -- What the response comes to: a result, or the promise that it listens to.
  answered :
      {C M : Type 0}
      → Text
      → Response (ResultMessage C M) E
      → RedisBackend F G E
      → RedisBackend F G E × (Option (Result E (ResultMessage C M)) × Option ℕ)
  unfolding listen
  answered task_id (settles outcome) b = (b, (some outcome, none))
  answered task_id listens b = let (p, b') = listen task_id b in (b', (none, some p))

  -- GET has been answered, with `reply`. The connection is kept until the time limit or the response
  -- decides.
  pub get_answered :
      {C M : Type 0}
      → Json (ResultMessage C M) E
      → Text
      → Result E (Option Text)
      → RedisBackend F G E
      → RedisBackend F G E × (Option (Result E (ResultMessage C M)) × Option ℕ)
  unfolding response_of answered
  get_answered json task_id reply b = answered task_id (response_of json reply) b

  -- `delete` from the arrival of its connection up to the answer to DEL.
  pub delete : (String → E) → Text → T → RedisBackend F G E → RedisBackend F G E
  unfolding send
  delete error task_id connection b = send connection (del task_id) (record b {
    pool = ResourcePool.arrive connection b.pool;
    results = (PromiseMap.delete error task_id b.results).1;
  })

  -- A publication on a channel that the subscriber receives.
  pub on_message : (String → E) → Text → Text → RedisBackend F G E → Result E (RedisBackend F G E)
  on_message error channel message b = elim (match_channel channel) [
    | none ↦ err (error "channel is not a celery result")
    | some id ↦ ok (record b { results = (PromiseMap.resolve id (plain message) b.results).1 })
  ]

-- `listen` behind its `await`, on a promise that settles with what came in.
pub listened : {M E : Type 0} → Json M E → Settling Text E → Settling M E
listened json none = none
listened json (some (at, thrown x)) = some (at, thrown x)
listened json (some (at, value raw)) = elim (json.parse raw) [
  | err x ↦ some (at, thrown x)
  | ok result ↦ some (at, value result)
]

-- What `get` gives where it listened at once: the time limit is not used.
get_at_once : {M E : Type 0} → Json M E → Option ℕ → Settling Text E → Settling M E
unfolding listened
get_at_once json timeout received = listened json received

-- What `get` gives where its connection arrived at the time `now` and its response is a promise: the
-- time limit counts from then; `first` is as in `race`.
get_on_connection :
    {M E : Type 0} → Bool → (String → E) → ℕ → Option ℕ → Settling M E → Settling M E
get_on_connection first error now timeout response =
    create_timeout_promise first error now response timeout

-- `createUri` of the options.
uri : {T E : Type 0} {F : Fifo T} {G : Fifo ℕ} → RedisBackend F G E → Result Thrown Text
uri b = create_uri b.options
