-- ===== src/Amqp/Backend.antt =====
-- src/amqp/backend.ts: the class `RpcBackend`, over the map of the promises that `get` waits for and
-- the pool of channels. The event loop runs what stands behind each `await` as an operation of its
-- own; `day` is cosmokit's `Time.day`.
pub mod Ending
pub mod Delivering
pub mod Timers
pub mod History
pub mod Tests
use Prim.Native.String.{String}
use celeries.Base.{ℕ, ◌*◌, Bool, true, false, Option, none, some, List, [], ◌∷◌, if◌then◌else◌}
use celeries.Base.Equality.{Eq}
use celeries.Base.Result.{Result, ok, err}
use celeries.Base.Text.{Text, codes, text_eq}
use celeries.Containers.Fifo.{Fifo}
use celeries.Containers.PromiseMap
use celeries.Containers.PromiseMap.{PromiseMap}
use celeries.Containers.PromiseMap.Promises.{plain, value, thrown, Outcome, Job}
use celeries.Containers.ResourcePool
use celeries.Containers.ResourcePool.{ResourcePool, create_pool}
use celeries.Messages.{ResultMessage, ContentTypeMime, ContentEncodingMime}
use celeries.Utility.Events.{Settling, create_timeout_promise}
use celeries.Amqp.Uri.{AmqpOptions}
use celeries.Amqp.Channel.{
  QueueOptions, PublishOptions, Call, assert_queue, send_to_queue, consume, cancel, close, Server,
  write_until,
}
use celeries.Amqp.Broker.{default_amqp_options, set_log, close_all, all_closed}

-- What the backend reads of a message that amqplib delivers.
pub record Delivery (B : Type 0) : Type 0 where
  pub content : B
  pub correlation_id : Text

-- `Buffer` and `JSON`.
pub record Codec (M B E : Type 0) : Type 0 where
  pub stringify : M → Text
  pub from_utf8 : Text → B
  pub to_utf8 : B → Text
  pub parse : Text → Result E M

-- `consumer` is there once its channel is, and `consumer_tag` once its promise has settled.
pub record RpcBackend {T : Type 0} (F : Fifo T) (G : Fifo ℕ) (E B : Type 0) : Type 0 where
  pub promises : PromiseMap Text (Delivery B) E
  pub channels : ResourcePool F G E
  pub routing_key : Text
  pub options : AmqpOptions
  pub consumer : Option T
  pub consumer_tag : Option (Result E Text)
  pub log : T → List (Call B)
  pub is_open : Bool

pub default_timeout : ℕ → ℕ
default_timeout day = day * 365

pub create :
    {T : Type 0} ⦃e : Eq T⦄ (F : Fifo T) (G : Fifo ℕ) (E B : Type 0)
    → ℕ
    → Text
    → Option AmqpOptions
    → RpcBackend F G E B
unfolding default_timeout
create F G E B day routing_key options = record {
  promises = PromiseMap.create Text (Delivery B) E (some (default_timeout day));
  channels = ResourcePool.get (create_pool F G E 2);
  routing_key = routing_key;
  options = (elim options [ none ↦ default_amqp_options | some o ↦ o ]);
  consumer = none;
  consumer_tag = none;
  log = λ _. [];
  is_open = true;
}

pub create_publish_options : {C M : Type 0} → ResultMessage C M → PublishOptions
create_publish_options message = record {
  content_encoding = ContentEncodingMime.utf8;
  content_type = ContentTypeMime.json;
  correlation_id = message.task_id;
  delivery_mode = none;
  headers = none;
  persistent = some false;
  priority = 0;
  reply_to = none;
}

pub parse_message : {M B E : Type 0} → Codec M B E → Delivery B → Result E M
parse_message codec message = codec.parse (codec.to_utf8 message.content)

pub assertion : {B : Type 0} → ℕ → Text → Call B
assertion day routing_key =
    assert_queue routing_key (some (record { auto_delete = false; durable = false; expires = day }))

-- The call of `assertQueue`.
pub assert_backend_queue : {B : Type 0} → ℕ → Text → List (Call B) → List (Call B)
unfolding assertion
assert_backend_queue day routing_key log = assertion day routing_key ∷ log

-- `sendToQueue`, once the queue has been asserted.
send :
    {B E : Type 0}
    → Server B E
    → Call B
    → ℕ
    → Result E Text
    → List (Call B)
    → Option (Result E Text) × List (Call B)
send server call drains (err x) log = (some (err x), log)
send server call drains (ok _) log = write_until server call drains log

-- `get` behind the `await` of its promise, which settles with what came in, and the time limit; `first` is as
-- in `race`.
pub get_received :
    {M B E : Type 0}
    → Codec M B E
    → Bool
    → (String → E)
    → Option ℕ
    → Settling (Delivery B) E
    → Settling M E
unfolding parse_message
get_received codec first error timeout none = none
get_received codec first error timeout (some (at, thrown x)) = some (at, thrown x)
get_received codec first error timeout (some (at, value raw)) = elim (parse_message codec raw) [
  | err x ↦ some (at, thrown x)
  | ok result ↦ create_timeout_promise first error at (some (at, value result)) timeout
]

module _ {T : Type 0} ⦃e : Eq T⦄ {F : Fifo T} {G : Fifo ℕ} {E B : Type 0} where
  -- The channel of the consumer is there: the constructor goes on up to the `await` of `assertQueue`.
  pub start_consumer : ℕ → T → RpcBackend F G E B → RpcBackend F G E B
  unfolding assert_backend_queue
  start_consumer day channel b = record b {
    channels = ResourcePool.arrive channel b.channels;
    consumer = some channel;
    log = set_log b.log channel (assert_backend_queue day b.routing_key (b.log channel));
  }

  -- `createConsumer`, up to the `await` of `consume`, once `assertQueue` has been answered.
  pub create_consumer : Result E Text → T → RpcBackend F G E B → RpcBackend F G E B
  create_consumer (err x) channel b = record b { consumer_tag = some (err x) }
  create_consumer (ok _) channel b = record b {
    log = set_log b.log channel (consume b.routing_key true ∷ b.log channel);
  }

  -- `consume` has been answered.
  pub consumed : Result E Text → RpcBackend F G E B → RpcBackend F G E B
  consumed reply b = record b { consumer_tag = some reply }

  -- `put` up to the `await` of its channel.
  pub start_put : RpcBackend F G E B → RpcBackend F G E B
  start_put b = record b { channels = ResourcePool.get b.channels }

  -- `put` from the arrival of its channel up to the `await` of `assertQueue`.
  pub put : ℕ → T → RpcBackend F G E B → RpcBackend F G E B
  unfolding assert_backend_queue
  put day channel b = record b {
    channels = ResourcePool.arrive channel b.channels;
    log = set_log b.log channel (assert_backend_queue day b.routing_key (b.log channel));
  }

  -- The callback of `put` has come to a result, and the channel goes back, or it waits.
  abbrev pub returned :
      (String → E)
      → T
      → Option (Result E Text) × List (Call B)
      → RpcBackend F G E B
      → RpcBackend F G E B × Option (Result E Text)
  returned error channel (none, log') b = (record b { log = set_log b.log channel log' }, none)
  returned error channel (some outcome, log') b =
      let (channels', outcome') = ResourcePool.use_resource error outcome channel b.channels in
      (record b { channels = channels'; log = set_log b.log channel log' }, some outcome')

  -- `put` from where `assertQueue` has been answered on, where `drains` events "drain" come.
  pub put_asserted :
      {C M : Type 0}
      → Server B E
      → Codec (ResultMessage C M) B E
      → (String → E)
      → ResultMessage C M
      → ℕ
      → T
      → RpcBackend F G E B
      → RpcBackend F G E B × Option (Result E Text)
  unfolding create_publish_options send
  put_asserted server codec error message drains channel b =
      let to_send = codec.from_utf8 (codec.stringify message) in
      let call = send_to_queue b.routing_key to_send (create_publish_options message) in
      returned error channel
        (send server call drains (server.reply (b.log channel)) (b.log channel)) b

  -- The loop of a `put` that waits goes on: an event "drain" comes, and `drains` more.
  pub put_drained :
      Server B E
      → (String → E)
      → Call B
      → ℕ
      → T
      → RpcBackend F G E B
      → RpcBackend F G E B × Option (Result E Text)
  put_drained server error call drains channel b =
      returned error channel (write_until server call drains (b.log channel)) b

  -- `get` up to the `await` of the promise, which it returns.
  pub get : Text → RpcBackend F G E B → ℕ × RpcBackend F G E B
  get task_id b =
      let (p, promises') = PromiseMap.get task_id b.promises in
      (p, record b { promises = promises' })

  pub delete : (String → E) → Text → RpcBackend F G E B → Text × RpcBackend F G E B
  delete error task_id b =
      let (found, promises') = PromiseMap.delete error task_id b.promises in
      (
        if found then codes "deleted" else codes "no result found",
        record b { promises = promises' },
      )

  -- A delivery, or null where the server has cancelled the consumer.
  pub on_message : (String → E) → Option (Delivery B) → RpcBackend F G E B → RpcBackend F G E B
  on_message error none b = record b {
    promises = (PromiseMap.reject_all (error "RabbitMQ cancelled consumer") b.promises).1;
  }
  on_message error (some message) b = record b {
    promises = (PromiseMap.resolve message.correlation_id (plain message) b.promises).1;
  }

  -- The event loop goes on with a call of the map that waits.
  pub finish_job :
      Job Text (Delivery B) → Outcome (Delivery B) E → RpcBackend F G E B → RpcBackend F G E B
  finish_job j outcome b = record b { promises = PromiseMap.finish_job j outcome b.promises }

-- `unimplemented` makes an `UnimplementedError` of a message.
uri : {E : Type 0} → (String → E) → Result E Text
uri unimplemented = err (unimplemented "Celery.Amqp.Backend.RpcBackend.uri")
