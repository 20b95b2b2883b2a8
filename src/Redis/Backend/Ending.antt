-- ===== src/Redis/Backend/Ending.antt =====
-- src/redis/backend.ts: `end`, which unsubscribes, and closes the connections.
use Prim.Native.String.{String}
use celeries.Base.{ℕ, Option, none, some, List, [], ◌∷◌}
use celeries.Base.Equality.{Eq}
use celeries.Base.Result.{Result, ok, err, ◌>>=◌}
use celeries.Base.Text.{codes, text_eq}
use celeries.Containers.Fifo.{Fifo}
use celeries.Containers.ResourcePool
use celeries.Containers.ResourcePool.{ResourcePool, create_pool}
use celeries.Redis.Connection.{Command, punsubscribe, quit, Server, set_log}
use celeries.Redis.Backend.{RedisBackend, send}

-- What the closing of the connections comes to: it waits, or it has failed or finished.
abbrev pub Ended : Type 0 → Type 0
Ended E = Option (Result E (Unit {0}))

-- The destructor of the pool, on several connections at once: `quit` on each, and `disconnect` on each
-- that has answered. An answer that fails counts, the first if there are more.
module _ {T : Type 0} ⦃e : Eq T⦄ where
  pub quit_all : List T → (T → List Command) → T → List Command
  quit_all [] log = log
  quit_all (connection ∷ rest) log = quit_all rest (set_log log connection (quit ∷ log connection))

  pub disconnect_all : {E : Type 0} → Server E → List T → (T → List Command) → T → List Command
  disconnect_all server [] log = log
  disconnect_all server (connection ∷ rest) log =
      disconnect_all server rest (elim (server (log connection)) [
        | ok _ ↦ set_log log connection (Command.disconnect ∷ log connection)
        | err x ↦ log
      ])

  pub all_quit : {E : Type 0} → Server E → List T → (T → List Command) → Result E (Unit {0})
  all_quit server [] log = ok tt
  all_quit server (connection ∷ rest) log =
      server (log connection) >>= (λ _. all_quit server rest log)

module _ {T : Type 0} ⦃e : Eq T⦄ {F : Fifo T} {G : Fifo ℕ} {E : Type 0} where
  unfoldable pub closed :
      (T → List Command) → Result E (Unit {0}) → RedisBackend F G E → RedisBackend F G E × Ended E
  closed log' outcome b = (record b { log = log' }, some outcome)

  -- The second half of `destroyAll`, on the connections that it destroys.
  unfoldable pub closing : Server E → List T → RedisBackend F G E → RedisBackend F G E × Ended E
  unfolding closed
  closing server connections b =
      let quitted = quit_all connections b.log in
      closed (disconnect_all server connections quitted) (all_quit server connections quitted) b

  unfoldable pub destroy_connections :
      Server E
      → Option (List T) × ResourcePool F G E
      → RedisBackend F G E
      → RedisBackend F G E × Ended E
  unfolding closing
  destroy_connections server (none, pool') b = (record b { pool = pool' }, none)
  destroy_connections server (some connections, pool') b =
      closing server connections (record b { pool = pool' })

  unfoldable pub return_subscriber :
      Server E → Result E (ResourcePool F G E) → RedisBackend F G E → RedisBackend F G E × Ended E
  unfolding destroy_connections
  return_subscriber server (err x) b = (b, some (err x))
  return_subscriber server (ok pool') b =
      destroy_connections server (ResourcePool.destroy_all pool') b

  -- `none` once PUNSUBSCRIBE has been sent, or while `end` waits for the subscriber.
  unfoldable pub unsubscribe :
      Option (Result E T) → RedisBackend F G E → RedisBackend F G E × Option E
  unfolding send
  unsubscribe none b = (b, none)
  unsubscribe (some (err x)) b = (b, some x)
  unsubscribe (some (ok subscriber)) b =
      (send subscriber (punsubscribe (codes "celery-task-meta-*")) b, none)

  -- `end` up to the `await` of PUNSUBSCRIBE, with what it fails with where it fails.
  unfoldable pub end : RedisBackend F G E → RedisBackend F G E × Option E
  unfolding unsubscribe
  end b = unsubscribe b.subscriber b

  -- `end` once PUNSUBSCRIBE has been answered; `none` where it waits for the event "empty".
  unfoldable pub end_unsubscribed :
      Server E → (String → E) → T → RedisBackend F G E → RedisBackend F G E × Ended E
  unfolding return_subscriber
  end_unsubscribed server error subscriber b =
      return_subscriber server (ResourcePool.return error subscriber b.pool) b

  -- `end` after the event.
  unfoldable pub resume_end : Server E → RedisBackend F G E → RedisBackend F G E × Ended E
  unfolding closing
  resume_end server b =
      let (connections, pool') = ResourcePool.resume b.pool in
      closing server connections (record b { pool = pool' })

  -- An alias of `end`.
  pub disconnect : RedisBackend F G E → RedisBackend F G E × Option E
  unfolding end
  disconnect b = end b
