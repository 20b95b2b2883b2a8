-- ===== src/Amqp/Broker.antt =====
-- src/amqp/broker.ts: the class `AmqpBroker`, over the pool of its channels. What has been called on
-- each channel stands in `log`; the connection is open or closed.
pub mod Publishing
pub mod Tests
use Prim.Native.String.{String}
use celeries.Base.{ℕ, Bool, true, false, Option, none, some, List, [], ◌∷◌, if◌then◌else◌}
use celeries.Base.Equality.{Eq, nat_eq}
use celeries.Base.Result.{Result, ok, err, ◌>>=◌}
use celeries.Base.Text.{Text, codes, text_eq}
use celeries.Containers.Fifo.{Fifo}
use celeries.Containers.ResourcePool
use celeries.Containers.ResourcePool.{ResourcePool, create_pool}
use celeries.Messages.{TaskMessage, ContentEncodingMime}
use celeries.Amqp.Uri.{AmqpOptions, text}
use celeries.Amqp.Channel.{
  PublishOptions, Call, assert_queue, assert_exchange, close, Server, write_until,
}

abbrev pub default_amqp_options : AmqpOptions
default_amqp_options =
    (codes "hostname", text (codes "localhost")) ∷ (codes "protocol", text (codes "amqp")) ∷ []

-- `T` are the channels, `B` the buffers and `E` the errors.
pub record AmqpBroker {T : Type 0} (F : Fifo T) (G : Fifo ℕ) (E B : Type 0) : Type 0 where
  pub channels : ResourcePool F G E
  pub options : AmqpOptions
  pub log : T → List (Call B)
  pub is_open : Bool

pub create :
    {T : Type 0} (F : Fifo T) (G : Fifo ℕ) (E B : Type 0) → Option AmqpOptions → AmqpBroker F G E B
create F G E B options = record {
  channels = create_pool F G E 2;
  options = (elim options [ none ↦ default_amqp_options | some o ↦ o ]);
  log = λ _. [];
  is_open = true;
}

-- `from` is `Buffer.from` of a text in an encoding.
pub get_body : {B : Type 0} → (Text → ContentEncodingMime → B) → TaskMessage → B
get_body from message = from message.body message.properties.body_encoding

pub get_publish_options : TaskMessage → PublishOptions
get_publish_options message = record {
  content_encoding = message.content_encoding;
  content_type = message.content_type;
  correlation_id = message.properties.correlation_id;
  delivery_mode = some message.properties.delivery_mode;
  headers = some message.headers;
  persistent = none;
  priority = message.properties.priority;
  reply_to = message.properties.reply_to;
}

-- The calls that `assert` makes, at once.
pub assert : {B : Type 0} → Text → Text → List (Call B) → List (Call B)
assert exchange routing_key log =
    let asserted = assert_queue routing_key none ∷ log in
    if text_eq.beq exchange []
    then asserted
    else assert_exchange exchange (codes "direct") ∷ asserted

module _ {B E : Type 0} (server : Server B E) where
  -- `Promise.all` of two calls, of which the last one made is the first of the list. Of two that fail
  -- the one made first counts, since the server answers in order.
  both_replies : List (Call B) → Result E Text
  both_replies [] = server.reply []
  both_replies (second ∷ first) = server.reply first >>= (λ _. server.reply (second ∷ first))

  -- What the promise of `assert` comes to, from the calls made on its channel.
  assert_reply : Text → List (Call B) → Result E Text
  unfolding both_replies
  assert_reply exchange log = if text_eq.beq exchange [] then server.reply log else both_replies log

  do_publish :
      B → Text → PublishOptions → Text → ℕ → List (Call B) → Option (Result E Text) × List (Call B)
  do_publish body exchange options routing_key drains log =
      write_until server (Call.publish exchange routing_key body options) drains log

  publish_asserted :
      B
      → Text
      → PublishOptions
      → Text
      → ℕ
      → Result E Text × List (Call B)
      → Option (Result E Text) × List (Call B)
  unfolding do_publish
  publish_asserted body exchange options routing_key drains (err x, log) = (some (err x), log)
  publish_asserted body exchange options routing_key drains (ok _, log) =
      do_publish body exchange options routing_key drains log

  -- The callback of `publish`, from where `assert` has been answered on.
  publish_on :
      (Text → ContentEncodingMime → B)
      → TaskMessage
      → ℕ
      → List (Call B)
      → Option (Result E Text) × List (Call B)
  unfolding get_body get_publish_options assert_reply publish_asserted
  publish_on from message drains log =
      let exchange = message.properties.delivery_info.exchange in
      let routing_key = message.properties.delivery_info.routing_key in
      publish_asserted (get_body from message) exchange (get_publish_options message) routing_key
        drains (assert_reply exchange log, log)

abbrev pub set_log :
    {T B : Type 0} ⦃e : Eq T⦄ → (T → List (Call B)) → T → List (Call B) → T → List (Call B)
set_log ⦃e⦄ log channel calls other = if e.beq channel other then calls else log other

module _ {T : Type 0} ⦃e : Eq T⦄ {B : Type 0} where
  -- `destroyAll` calls `close` on each channel before it waits for the answers, of which the first
  -- that fails counts.
  pub close_all : List T → (T → List (Call B)) → T → List (Call B)
  close_all [] log = log
  close_all (channel ∷ rest) log = close_all rest (set_log log channel (close ∷ log channel))

  pub all_closed : {E : Type 0} → Server B E → List T → (T → List (Call B)) → Result E (Unit {0})
  all_closed server [] log = ok tt
  all_closed server (channel ∷ rest) log =
      server.reply (log channel) >>= (λ _. all_closed server rest log)

module _ {T : Type 0} ⦃e : Eq T⦄ {F : Fifo T} {G : Fifo ℕ} {E B : Type 0} where
  -- `publish` up to the `await` of its channel.
  pub start_publish : AmqpBroker F G E B → AmqpBroker F G E B
  start_publish b = record b { channels = ResourcePool.get b.channels }

  -- `publish` from the arrival of its channel up to the `await` of `assert`.
  pub publish : TaskMessage → T → AmqpBroker F G E B → AmqpBroker F G E B
  unfolding assert
  publish message channel b = record b {
    channels = ResourcePool.arrive channel b.channels;
    log = set_log b.log channel (
        assert message.properties.delivery_info.exchange
          message.properties.delivery_info.routing_key (b.log channel));
  }

  -- The callback of `publish` has come to a result, and the channel goes back, or it waits.
  abbrev pub returned :
      (String → E)
      → T
      → Option (Result E Text) × List (Call B)
      → AmqpBroker F G E B
      → AmqpBroker F G E B × Option (Result E Text)
  returned error channel (none, log') b = (record b { log = set_log b.log channel log' }, none)
  returned error channel (some outcome, log') b =
      let (channels', outcome') = ResourcePool.use_resource error outcome channel b.channels in
      (record b { channels = channels'; log = set_log b.log channel log' }, some outcome')

  -- `publish` from where `assert` has been answered on, where `drains` events "drain" come.
  pub publish_confirmed :
      Server B E
      → (Text → ContentEncodingMime → B)
      → (String → E)
      → TaskMessage
      → ℕ
      → T
      → AmqpBroker F G E B
      → AmqpBroker F G E B × Option (Result E Text)
  unfolding publish_on
  publish_confirmed server from error message drains channel b =
      returned error channel (publish_on server from message drains (b.log channel)) b

  -- The loop of a `publish` that waits goes on: an event "drain" comes, and `drains` more.
  publish_drained :
      Server B E
      → (String → E)
      → Call B
      → ℕ
      → T
      → AmqpBroker F G E B
      → AmqpBroker F G E B × Option (Result E Text)
  publish_drained server error call drains channel b =
      returned error channel (write_until server call drains (b.log channel)) b

  closing :
      Server B E → List T → AmqpBroker F G E B → AmqpBroker F G E B × Option (Result E (Unit {0}))
  unfolding close_all all_closed
  closing server connections b =
      let log' = close_all connections b.log in
      elim (all_closed server connections log') [
        | err x ↦ (record b { log = log' }, some (err x))
        | ok _ ↦ (record b { log = log'; is_open = false }, some (ok tt))
      ]

  -- `end` up to where `destroyAll` waits for the event "empty", if it has to; `none` then.
  pub end : Server B E → AmqpBroker F G E B → AmqpBroker F G E B × Option (Result E (Unit {0}))
  unfolding closing
  end server b =
      let (connections, channels') = ResourcePool.destroy_all b.channels in
      let b' = record b { channels = channels' } in
      elim connections [ none ↦ (b', none) | some cs ↦ closing server cs b' ]

  -- `end` after the event.
  pub resume_end :
      Server B E → AmqpBroker F G E B → AmqpBroker F G E B × Option (Result E (Unit {0}))
  unfolding closing
  resume_end server b =
      let (cs, channels') = ResourcePool.resume b.channels in
      closing server cs (record b { channels = channels' })

  -- An alias of `end`.
  pub disconnect :
      Server B E → AmqpBroker F G E B → AmqpBroker F G E B × Option (Result E (Unit {0}))
  unfolding end
  disconnect server b = end server b
