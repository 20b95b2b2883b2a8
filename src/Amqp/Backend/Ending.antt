-- ===== src/Amqp/Backend/Ending.antt =====
-- src/amqp/backend.ts: `end`, which cancels the consumer, and closes the channels and the connection.
use Prim.Native.String.{String}
use celeries.Base.{ℕ, false, Option, none, some, List, ◌∷◌}
use celeries.Base.Equality.{Eq}
use celeries.Base.Result.{Result, ok, err}
use celeries.Base.Text.{Text, text_eq}
use celeries.Containers.Fifo.{Fifo}
use celeries.Containers.PromiseMap
use celeries.Containers.PromiseMap.{PromiseMap}
use celeries.Containers.ResourcePool
use celeries.Containers.ResourcePool.{ResourcePool, create_pool}
use celeries.Amqp.Channel.{Call, cancel, Server}
use celeries.Amqp.Broker.{set_log, close_all, all_closed}
use celeries.Amqp.Backend.{RpcBackend}

-- What the closing of the channels comes to: it waits, or it has failed or finished.
abbrev pub Ended : Type 0 → Type 0
Ended E = Option (Result E (Unit {0}))

module _ {T : Type 0} ⦃e : Eq T⦄ {F : Fifo T} {G : Fifo ℕ} {E B : Type 0} where
  unfoldable pub closed :
      (T → List (Call B)) → Result E (Unit {0}) → RpcBackend F G E B → RpcBackend F G E B × Ended E
  closed log' (err x) b = (record b { log = log' }, some (err x))
  closed log' (ok _) b = (record b { log = log'; is_open = false }, some (ok tt))

  unfoldable pub closing : Server B E → List T → RpcBackend F G E B → RpcBackend F G E B × Ended E
  unfolding closed
  closing server connections b =
      let log' = close_all connections b.log in closed log' (all_closed server connections log') b

  -- `await this.channels.destroyAll()`, with what its first half has given.
  unfoldable pub destroy_channels :
      Server B E
      → Option (List T) × ResourcePool F G E
      → RpcBackend F G E B
      → RpcBackend F G E B × Ended E
  unfolding closing
  destroy_channels server (none, channels') b = (record b { channels = channels' }, none)
  destroy_channels server (some connections, channels') b =
      closing server connections (record b { channels = channels' })

  -- With what `return` of the consumer has given.
  unfoldable pub return_consumer :
      Server B E → Result E (ResourcePool F G E) → RpcBackend F G E B → RpcBackend F G E B × Ended E
  unfolding destroy_channels
  return_consumer server (err x) b = (b, some (err x))
  return_consumer server (ok channels') b =
      destroy_channels server (ResourcePool.destroy_all channels') b

  -- `rejectAll` and the call of `cancel`, with what its promise comes to.
  unfoldable pub cancel_consumer :
      Server B E → (String → E) → T → Text → RpcBackend F G E B → RpcBackend F G E B × Result E Text
  cancel_consumer server error consumer tag b =
      let log' = cancel tag ∷ b.log consumer in
      (
        record b {
          promises = (PromiseMap.reject_all (error "disconnecting") b.promises).1;
          log = set_log b.log consumer log';
        },
        server.reply log',
      )

  unfoldable pub cancel_if_there :
      Server B E
      → (String → E)
      → Option T
      → Option (Result E Text)
      → RpcBackend F G E B
      → RpcBackend F G E B × Option (Result E Text)
  unfolding cancel_consumer
  cancel_if_there server error (some consumer) (some (ok tag)) b =
      let (b', reply) = cancel_consumer server error consumer tag b in (b', some reply)
  cancel_if_there server error (some consumer) (some (err x)) b = (b, some (err x))
  cancel_if_there server error _ _ b = (b, none)

  -- `end` up to the `await` of `cancel`; `none` while it waits for the consumer or its tag.
  unfoldable pub end :
      Server B E → (String → E) → RpcBackend F G E B → RpcBackend F G E B × Option (Result E Text)
  unfolding cancel_if_there
  end server error b = cancel_if_there server error b.consumer b.consumer_tag b

  -- `end` once the consumer has been cancelled; `none` where it waits for the event "empty".
  unfoldable pub end_cancelled :
      Server B E → (String → E) → T → RpcBackend F G E B → RpcBackend F G E B × Ended E
  unfolding return_consumer
  end_cancelled server error consumer b =
      return_consumer server (ResourcePool.return error consumer b.channels) b

  -- `end` after the event.
  unfoldable pub resume_end : Server B E → RpcBackend F G E B → RpcBackend F G E B × Ended E
  unfolding closing
  resume_end server b =
      let (cs, channels') = ResourcePool.resume b.channels in
      closing server cs (record b { channels = channels' })

  -- An alias of `end`.
  pub disconnect :
      Server B E → (String → E) → RpcBackend F G E B → RpcBackend F G E B × Option (Result E Text)
  unfolding end
  disconnect server error b = end server error b
