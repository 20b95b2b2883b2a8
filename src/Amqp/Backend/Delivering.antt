-- ===== src/Amqp/Backend/Delivering.antt =====
-- The way of a result from `put` to the `get` that waits for it.
use Prim.Native.String.{String}
use celeries.Base.{
  Bool, ℕ, suc, ◌≤◌, ◌≡◌, refl, sym, ap, ◌∙◌, true, Option, none, some, List, ◌∷◌, arith, inl, inr,
}
use celeries.Base.Equality.{Eq}
use celeries.Base.Dict.{lookup}
use celeries.Base.Set.{member}
use celeries.Base.Result.{Result, ok, Result-cases}
use celeries.Base.Text.{Text, text_eq}
use celeries.Containers.Fifo.{Fifo}
use celeries.Containers.PromiseMap
use celeries.Containers.PromiseMap.{PromiseMap, reject_all}
use celeries.Containers.PromiseMap.Promises.{PromiseState, plain, value, thrown, Job, settled_state}
use celeries.Containers.PromiseMap.Settling.{get-new}
use celeries.Containers.PromiseMap.Waiting.{Waits, get-Waits, Waits-resolve-finish_job}
use celeries.Containers.PromiseMap.RejectAll.{reject_all-rejects}
use celeries.Containers.ResourcePool
use celeries.Containers.ResourcePool.{ResourcePool}
use celeries.Containers.ResourcePool.Using.{use_resource-member}
use celeries.Messages.{ResultMessage}
use celeries.Utility.Events.{Settling, create_timeout_promise, create_timer_promise, timer_delay}
use celeries.Utility.Events.Firsts.{race-early}
use celeries.Amqp.Channel.{Call, send_to_queue, Server, flushed}
use celeries.Amqp.Channel.Writing.{written, Full, write_until-written}
use celeries.Amqp.Broker.{set_log}
use celeries.Amqp.Backend.{
  Delivery, Codec, RpcBackend, create_publish_options, parse_message, assertion,
  assert_backend_queue, send, get_received, returned, put, put_asserted, get, on_message,
  finish_job,
}
use celeries.Amqp.Backend.Ending.{end, cancel_if_there, cancel_consumer}

module _ {M B E : Type 0} (codec : Codec M B E) (first : Bool) (error : String → E) where
  get_received-parsed :
      (timeout : Option ℕ) (at : ℕ) (raw : Delivery B) (m : M)
      → parse_message codec raw ≡ ok m
      → get_received codec first error timeout (some (at, value raw)) ≡ some (at, value m)
  unfolding get_received create_timeout_promise create_timer_promise timer_delay
  get_received-parsed none at raw m parses = rw (parses, get_received) refl
  get_received-parsed (some timeout) at raw m parses =
      rw (parses, get_received)
        (race-early first at (create_timer_promise at timeout) (value m) (error "timed out")
          (ground arith))

  -- The time limit of `get` has no effect: whatever the promise of the message comes to, and when, or
  -- if it never settles, `get` comes to the same, at the same time, with a time limit and without.
  pub get_received-timeout :
      (timeout : ℕ) (received : Settling (Delivery B) E)
      → get_received codec first error (some timeout) received
        ≡ get_received codec first error none received
  unfolding get_received create_timeout_promise create_timer_promise
  get_received-timeout timeout none = refl
  get_received-timeout timeout (some (at, thrown x)) = refl
  get_received-timeout timeout (some (at, value raw)) =
      elim (Result-cases (parse_message codec raw)) [
        | inr (x, fails) ↦ rw (fails, get_received) refl
        | inl (m, parses) ↦
            get_received-parsed (some timeout) at raw m parses
            ∙ sym (get_received-parsed none at raw m parses)
      ]

module _ {C M B : Type 0} where
  -- The call by which `put` sends a message.
  abbrev pub sending :
      {E : Type 0} → Codec (ResultMessage C M) B E → Text → ResultMessage C M → Call B
  sending codec routing_key message =
      send_to_queue routing_key (codec.from_utf8 (codec.stringify message))
        (create_publish_options message)

-- What a consumer of the queue receives for a call, which RabbitMQ passes on as it is.
abbrev delivery_of : {B : Type 0} → Call B → Option (Delivery B)
delivery_of (send_to_queue routing_key content options) =
    some (record { content = content; correlation_id = options.correlation_id })
delivery_of _ = none

module _ {T : Type 0} ⦃e : Eq T⦄ {F : Fifo T} {G : Fifo ℕ} {C M B E : Type 0} (server : Server B E)
    (codec : Codec (ResultMessage C M) B E) (error : String → E) (day : ℕ) where
  -- A callback that has come to a result: the channel, if it is in use, goes back to the pool.
  returned-return :
      (channel : T) (outcome : Result E Text) (log' : List (Call B)) (b : RpcBackend F G E B)
      → member channel b.channels.in_use ≡ true
      → (q : ResourcePool F G E) × (ResourcePool.return error channel b.channels ≡ ok q)
        × (returned error channel (some outcome, log') b
            ≡ (record b { channels = q; log = set_log b.log channel log' }, some outcome))
  returned-return channel outcome log' b used =
      let (q, run, _, is) = use_resource-member error outcome channel b.channels used in
      (q, run, rw is refl)

  -- `put` asserts the queue. When this has been answered, in any state `b'` in which the channel is
  -- in use and nothing else has been called on it, `put` sends the message until the write buffer is
  -- not full: if it is full at the first `n` times and not at the next, and so many events "drain"
  -- come, then the message has been sent `n + 1` times when `put` resolves, and the channel is back
  -- in the pool.
  put-written :
      (message : ResultMessage C M) (n drains : ℕ) (c : T) (b b' : RpcBackend F G E B) (x : Text)
      → let asserted = assertion day b.routing_key ∷ b.log c in
        let call = sending codec b.routing_key message in
        b'.log c ≡ asserted
        → b'.routing_key ≡ b.routing_key
        → member c b'.channels.in_use ≡ true
        → server.reply asserted ≡ ok x
        → Full server call n asserted
        → server.accepts (written server call (suc n) asserted) ≡ ok true
        → n ≤ drains
        → (q : ResourcePool F G E) × (ResourcePool.return error c b'.channels ≡ ok q)
          × (put_asserted server codec error message drains c b' ≡ (
            record b' {
              channels = q;
              log = set_log b'.log c (written server call (suc n) asserted);
            },
            some (ok flushed),
          ))
  unfolding put_asserted send
  put-written message n drains c b b' x same routes used confirmed full accepted enough =
      let asserted = assertion day b.routing_key ∷ b.log c in
      let call = sending codec b.routing_key message in
      let (q, run, is) =
        returned-return c (ok flushed) (written server call (suc n) asserted) b' used in
      (
        q,
        run,
        ap
              (λ k.
                returned error c
                  (send server (sending codec k message) drains (server.reply (b'.log c))
                    (b'.log c))
                  b')
              routes
            ∙ ap (λ l. returned error c (send server call drains (server.reply l) l) b') same
            ∙ ap (λ r. returned error c (send server call drains r asserted) b') confirmed
            ∙ ap (λ r. returned error c r b')
                (write_until-written server call n drains asserted full accepted enough)
            ∙ is,
      )

-- `JSON.parse` reads what `JSON.stringify` wrote, and a buffer what it was made from.
abbrev pub ReadsBack : {M B E : Type 0} → Codec M B E → M → Type 0
ReadsBack codec message =
    codec.parse (codec.to_utf8 (codec.from_utf8 (codec.stringify message))) ≡ ok message

module _ {T : Type 0} ⦃e : Eq T⦄ {F : Fifo T} {G : Fifo ℕ} {C M B E : Type 0}
    (codec : Codec (ResultMessage C M) B E) (error : String → E) where
  -- `put` asserts the queue. When this has been answered, in any state `sender'` in which the channel
  -- is in use and nothing else has been called on it: if the server confirms the queue, the write
  -- buffer is full at the first `n` times and not at the next, and at least `n` events "drain" come,
  -- then `put` has sent the message by the same call `n + 1` times when it resolves. `get` for a task
  -- that the map has not gives a promise that waits for the task. If such a message is delivered in
  -- any later state, `b1`, in which it still waits, then a call of `doResolve` with the delivery
  -- begins, and when this settles, in any still later state, `b2`, in which nothing has decided the
  -- promise in between, the promise of the `get` is fulfilled with the delivery. Under the hypothesis
  -- that the codec reads back what it wrote of this message, the `get` has the message from that,
  -- whatever its time limit.
  pub sending-get :
      (server : Server B E) (day n drains : ℕ) (c : T) (x : Text)
      (sender sender' : RpcBackend F G E B) (message : ResultMessage C M) (d : Delivery B)
      (b b1 b2 : RpcBackend F G E B) (first : Bool) (timeout : Option ℕ) (at : ℕ)
      → let call = sending codec sender.routing_key message in
        let asserted = assertion day sender.routing_key ∷ sender.log c in
        let (p, asked) = get message.task_id b in
        let received = on_message error (some d) b1 in
        let j : Job Text (Delivery B) = record {
          key = message.task_id;
          awaited = plain d;
          promise = b1.promises.next;
        } in
        sender'.log c ≡ (put day c sender).log c
        → sender'.routing_key ≡ sender.routing_key
        → member c sender'.channels.in_use ≡ true
        → server.reply asserted ≡ ok x
        → Full server call n asserted
        → server.accepts (written server call (suc n) asserted) ≡ ok true
        → n ≤ drains
        → ReadsBack codec message
        → delivery_of call ≡ some d
        → lookup message.task_id b.promises.promises ≡ none
        → Waits message.task_id p b1.promises
        → b2.promises.store p ≡ received.promises.store p
        → ((put day c sender).log c ≡ asserted)
          × ((put_asserted server codec error message drains c sender').0.log c
              ≡ written server call (suc n) asserted)
          × ((put_asserted server codec error message drains c sender').1 ≡ some (ok flushed))
          × Waits message.task_id p asked.promises
          × (received.promises.jobs ≡ j ∷ b1.promises.jobs)
          × (settled_state (finish_job j (value d) b2).promises.store p ≡ PromiseState.fulfilled d)
          × (get_received codec first error timeout (some (at, value d)) ≡ some (at, value message))
  unfolding put assert_backend_queue get on_message finish_job create_publish_options parse_message
  sending-get server day n drains c x sender sender' message d b b1 b2 first timeout at kept routes
        used confirmed full accepted enough reads delivered fresh waits undecided =
      let asserted = assertion day sender.routing_key ∷ sender.log c in
      let call = sending codec sender.routing_key message in
      let self : e.beq c c ≡ true = (e.beq_iff c c).1 refl in
      let made : (put day c sender).log c ≡ asserted = rw self refl in
      let (_, _, puts) =
        put-written server codec error day message n drains c sender sender' x (kept ∙ made) routes
          used confirmed full accepted enough in
      let sent : Delivery B = record {
        content = codec.from_utf8 (codec.stringify message);
        correlation_id = message.task_id;
      } in
      let same : sent ≡ d = ground (arith, delivered) in
      let p = (get message.task_id b).0 in
      let (_, jobs, settles) =
        Waits-resolve-finish_job message.task_id (plain d) (value d) p b1.promises b2.promises waits
          (undecided
            ∙ ap
                (λ (s : Delivery B).
                  (PromiseMap.resolve s.correlation_id (plain d) b1.promises).1.store p)
                (sym same)) in
      (
        made,
        ap (λ r. r.0.log c) puts ∙ rw self refl,
        ap (λ r. r.1) puts,
        get-Waits message.task_id b.promises fresh,
        ap (λ (s : Delivery B). (PromiseMap.resolve s.correlation_id (plain d) b1.promises).1.jobs)
              (sym same)
            ∙ jobs,
        settles,
        get_received-parsed codec first error timeout at d message
            (ap (parse_message codec) (sym same) ∙ reads),
      )

  -- The promise of a `get` that waits is rejected when the server cancels the consumer, and when the
  -- backend ends.
  get-cancelled :
      (server : Server B E) (task_id : Text) (consumer : T) (tag : Text) (b : RpcBackend F G E B)
      → lookup task_id b.promises.promises ≡ none
      → b.consumer ≡ some consumer
      → b.consumer_tag ≡ some (ok tag)
      → let (p, b1) = get task_id b in
        ((on_message error none b1).promises.store p
          ≡ PromiseState.rejected (error "RabbitMQ cancelled consumer"))
        × ((end server error b1).0.promises.store p ≡ PromiseState.rejected (error "disconnecting"))
  unfolding get on_message end cancel_if_there cancel_consumer
  get-cancelled server task_id consumer tag b fresh has_consumer has_tag =
      let (p, m) = PromiseMap.get task_id b.promises in
      let (_, entry, _, open_, below, _) = get-new task_id b.promises fresh in
      (
        reject_all-rejects (error "RabbitMQ cancelled consumer") m task_id p entry below open_,
        rw (has_consumer, has_tag)
            (reject_all-rejects (error "disconnecting") m task_id p entry below open_),
      )
