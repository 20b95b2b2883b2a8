-- ===== src/Amqp/Broker/Publishing.antt =====
-- What a call of `publish` does on its channel.
use celeries.Base.Set.{member}
use Prim.Native.String.{String}
use celeries.Base.{
  ℕ, suc, ◌≤◌, ◌≡◌, refl, ap, ◌∙◌, true, none, some, List, [], ◌∷◌, arith, ◌⊎◌, inl, inr,
  if◌then◌else◌,
}
use celeries.Base.Equality.{Eq}
use celeries.Base.Result.{Result, ok}
use celeries.Base.Text.{Text, codes, text_eq}
use celeries.Containers.Fifo.{Fifo}
use celeries.Containers.ResourcePool
use celeries.Containers.ResourcePool.{ResourcePool, return, use_resource}
use celeries.Containers.ResourcePool.Using.{use_resource-member}
use celeries.Messages.{TaskMessage, ContentEncodingMime}
use celeries.Amqp.Channel.{Call, assert_queue, assert_exchange, Server, flushed}
use celeries.Amqp.Channel.Writing.{written, Full, write_until-written}
use celeries.Amqp.Broker.{
  AmqpBroker, get_body, get_publish_options, assert, do_publish, assert_reply, both_replies,
  publish_asserted, publish_on, set_log, returned, publish, publish_confirmed,
}

module _ {B E : Type 0} (server : Server B E) (from : Text → ContentEncodingMime → B) where
  -- The calls that assert the queue and, unless it is the default one, the exchange of a message.
  abbrev pub asserted : TaskMessage → List (Call B) → List (Call B)
  asserted message log =
      let queue = assert_queue message.properties.delivery_info.routing_key none ∷ log in
      if text_eq.beq message.properties.delivery_info.exchange []
      then queue
      else assert_exchange message.properties.delivery_info.exchange (codes "direct") ∷ queue

  -- The server confirms each of these calls.
  abbrev Confirmed : TaskMessage → List (Call B) → Type 0
  Confirmed message log =
      let queue = assert_queue message.properties.delivery_info.routing_key none ∷ log in
      ((x : Text) × (server.reply queue ≡ ok x))
      × ((message.properties.delivery_info.exchange ≡ [])
          ⊎ ((x : Text) × (server.reply (
                  assert_exchange message.properties.delivery_info.exchange (codes "direct")
                  ∷ queue)
                ≡ ok x)))

  -- The call that publishes a message.
  abbrev pub publishing : TaskMessage → Call B
  publishing message =
      Call.publish message.properties.delivery_info.exchange
        message.properties.delivery_info.routing_key (get_body from message)
        (get_publish_options message)

  assert_reply-confirmed :
      (exchange routing_key : Text) (log : List (Call B)) (x : Text)
      → server.reply (assert_queue routing_key none ∷ log) ≡ ok x
      → ((exchange ≡ [])
          ⊎ ((y : Text) × (server.reply
                  (assert_exchange exchange (codes "direct") ∷ assert_queue routing_key none ∷ log)
                ≡ ok y)))
      → (z : Text) × (assert_reply server exchange (assert exchange routing_key log) ≡ ok z)
  unfolding assert assert_reply both_replies
  assert_reply-confirmed [] routing_key log x first second = (x, first)
  assert_reply-confirmed (c ∷ s) routing_key log x first (inl e) = ground (arith, e)
  assert_reply-confirmed (c ∷ s) routing_key log x first (inr (y, second)) =
      (y, rw (first, second) refl)

  publish_on-written :
      (message : TaskMessage) (n drains : ℕ) (log : List (Call B))
      → Confirmed message log
      → Full server (publishing message) n (asserted message log)
      → server.accepts (written server (publishing message) (suc n) (asserted message log))
        ≡ ok true
      → n ≤ drains
      → publish_on server from message drains (asserted message log)
        ≡ (some (ok flushed), written server (publishing message) (suc n) (asserted message log))
  unfolding publish_on publish_asserted do_publish assert
  publish_on-written message n drains log ((x, first), second) full accepted enough =
      let (z, run) =
        assert_reply-confirmed message.properties.delivery_info.exchange
          message.properties.delivery_info.routing_key log x first second in
      rw (run, publish_on)
        (write_until-written server (publishing message) n drains (asserted message log) full
          accepted enough)

module _ {T : Type 0} ⦃e : Eq T⦄ {F : Fifo T} {G : Fifo ℕ} {E B : Type 0} where
  -- A callback that has come to a result: the channel, if it is in use, goes back to the pool, and
  -- the caller gets this result.
  returned-return :
      (error : String → E) (channel : T) (outcome : Result E Text) (log' : List (Call B))
      (b : AmqpBroker F G E B)
      → member channel b.channels.in_use ≡ true
      → (q : ResourcePool F G E) × (return error channel b.channels ≡ ok q)
        × (returned error channel (some outcome, log') b
            ≡ (record b { channels = q; log = set_log b.log channel log' }, some outcome))
  returned-return error channel outcome log' b used =
      let (q, run, _, is) = use_resource-member error outcome channel b.channels used in
      (q, run, rw is refl)

  -- `publish` asserts the queue and, unless it is the default one, the exchange. When this has been
  -- answered, in any state `b'` in which the channel is in use and nothing else has been called on
  -- it, `publish` writes the message until the write buffer is not full. If the server confirms the
  -- assertions, the buffer is full at the first `n` writes and not at the next, and at least `n`
  -- events "drain" come, then the message has been written `n + 1` times when `publish` resolves, and
  -- the channel is back in the pool.
  pub publish-written :
      (server : Server B E) (from : Text → ContentEncodingMime → B) (error : String → E)
      (message : TaskMessage) (n drains : ℕ) (channel : T) (b b' : AmqpBroker F G E B)
      → b'.log channel ≡ (publish message channel b).log channel
      → member channel b'.channels.in_use ≡ true
      → Confirmed server from message (b.log channel)
      → Full server
          (publishing server from message)
          n
          (asserted server from message (b.log channel))
      → server.accepts (
          written server
            (publishing server from message)
            (suc n)
            (asserted server from message (b.log channel)))
        ≡ ok true
      → n ≤ drains
      → ((publish message channel b).log channel ≡ asserted server from message (b.log channel))
        × ((publish message channel b).channels ≡ ResourcePool.arrive channel b.channels)
        × (q : ResourcePool F G E) × (return error channel b'.channels ≡ ok q)
        × (publish_confirmed server from error message drains channel b' ≡ (
          record b' {
            channels = q;
            log = set_log b'.log channel (
                written server
                  (publishing server from message)
                  (suc n)
                  (asserted server from message (b.log channel)));
          },
          some (ok flushed),
        ))
  unfolding publish publish_confirmed assert
  publish-written server from error message n drains channel b b' same used confirmed full accepted
        enough =
      let calls = asserted server from message (b.log channel) in
      let after = written server (publishing server from message) (suc n) calls in
      let made : (publish message channel b).log channel ≡ calls =
        rw ((e.beq_iff channel channel).1 refl) refl in
      let (q, run, is) = returned-return error channel (ok flushed) after b' used in
      (
        made,
        refl,
        q,
        run,
        ap (λ l. returned error channel (publish_on server from message drains l) b') (same ∙ made)
            ∙ ap (λ r. returned error channel r b')
                (publish_on-written server from message n drains (b.log channel) confirmed full
                  accepted enough)
            ∙ is,
      )
