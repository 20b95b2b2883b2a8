-- ===== src/Amqp/Backend/History.antt =====
-- Everything that can happen to an `RpcBackend`, in any order, and what this is to its map and to its
-- pool.
use Prim.Native.String.{String}
use mathlib.Core.List.{Mem}
use celeries.Base.{ℕ, ◌<◌, ◌≡◌, true, Option, none, some, List, inl, inr}
use celeries.Base.Equality.{Eq}
use celeries.Base.Result.{Result, ok, err, Result-cases}
use celeries.Base.Set.{member}
use celeries.Base.Text.{Text, text_eq}
use celeries.Containers.Fifo.{Fifo}
use celeries.Containers.PromiseMap
use celeries.Containers.PromiseMap.Promises.{Job, Timer, Outcome, plain}
use celeries.Containers.PromiseMap.Orphans.History as MapHistory
use celeries.Containers.ResourcePool
use celeries.Containers.ResourcePool.{ResourcePool}
use celeries.Containers.ResourcePool.History as PoolHistory
use celeries.Containers.ResourcePool.Using.{use_resource-Reach}
use celeries.Messages.{ResultMessage}
use celeries.Amqp.Uri.{AmqpOptions}
use celeries.Amqp.Channel.{Call, Server}
use celeries.Amqp.Backend.{
  Delivery, Codec, RpcBackend, default_timeout, create, start_consumer, start_put, put, put_drained,
  get, delete, on_message, finish_job, returned, create_consumer, consumed, put_asserted,
}
use celeries.Amqp.Backend.Ending.{
  end, end_cancelled, resume_end, cancel_consumer, return_consumer, destroy_channels, closing,
  closed, cancel_if_there,
}

module _ {T : Type 0} ⦃e : Eq T⦄ {F : Fifo T} {G : Fifo ℕ} {C M B E : Type 0} (server : Server B E)
    (codec : Codec (ResultMessage C M) B E) (error : String → E) (day : ℕ) where
  -- Each part of a method that the event loop runs is a step, and so is each answer to the
  -- constructor, whatever it is. A resource arrives where the pool is about to deliver it.
  pub data Step : RpcBackend F G E B → RpcBackend F G E B → Type 0 where
    consumes :
        (c : T) (b : RpcBackend F G E B)
        → member c b.channels.arriving ≡ true
        → Step b (start_consumer day c b)
    answers_assert :
        (c : T) (reply : Result E Text) (b : RpcBackend F G E B)
        → Step b (create_consumer reply c b)
    answers_consume : (reply : Result E Text) (b : RpcBackend F G E B) → Step b (consumed reply b)
    starts_put : (b : RpcBackend F G E B) → Step b (start_put b)
    puts :
        (c : T) (b : RpcBackend F G E B)
        → member c b.channels.arriving ≡ true
        → Step b (put day c b)
    answers_put :
        (c : T) (message : ResultMessage C M) (drains : ℕ) (b : RpcBackend F G E B)
        → Step b (put_asserted server codec error message drains c b).0
    drains_put :
        (c : T) (call : Call B) (drains : ℕ) (b : RpcBackend F G E B)
        → Step b (put_drained server error call drains c b).0
    gets : (task_id : Text) (b : RpcBackend F G E B) → Step b (get task_id b).1
    deletes : (task_id : Text) (b : RpcBackend F G E B) → Step b (delete error task_id b).1
    receives :
        (message : Option (Delivery B)) (b : RpcBackend F G E B)
        → Step b (on_message error message b)
    ends : (b : RpcBackend F G E B) → Step b (end server error b).0
    cancelled :
        (c : T) (b : RpcBackend F G E B)
        → b.consumer ≡ some c
        → Step b (end_cancelled server error c b).0
    resumes : (b : RpcBackend F G E B) → 0 < b.channels.resuming → Step b (resume_end server b).0
    opens :
        (c : T) (b : RpcBackend F G E B)
        → 0 < b.channels.creating
        → Step b (record b { channels = ResourcePool.created c b.channels })
    open_fails :
        (b : RpcBackend F G E B)
        → 0 < b.channels.creating
        → Step b (record b { channels = ResourcePool.create_failed b.channels })
    finishes :
        (j : Job Text (Delivery B)) (o : Outcome (Delivery B) E) (b : RpcBackend F G E B)
        → Mem j b.promises.jobs
        → MapHistory.Settles j.awaited o
        → Step b (finish_job j o b)
    fires :
        (t : Timer Text) (b : RpcBackend F G E B)
        → Mem t b.promises.timers
        → Step b (record b { promises = PromiseMap.fire error t b.promises })

  pub data Reach (routing_key : Text) (options : Option AmqpOptions)
      : RpcBackend F G E B → Type 0 where
    new : Reach routing_key options (create F G E B day routing_key options)
    then_ :
        {b b' : RpcBackend F G E B}
        → Reach routing_key options b
        → Step b b'
        → Reach routing_key options b'

module _ {T : Type 0} ⦃e : Eq T⦄ {F : Fifo T} {G : Fifo ℕ} {B E : Type 0} (error : String → E)
    (day : ℕ) where
  abbrev pub Parts : RpcBackend F G E B → Type 0
  Parts b =
      MapHistory.Reach error (some (default_timeout day)) b.promises
      × PoolHistory.Reach error 2 b.channels

  returned-Parts :
      (c : T) (r : Option (Result E Text) × List (Call B)) (b : RpcBackend F G E B)
      → Parts b
      → Parts (returned error c r b).0
  returned-Parts c (none, log) b parts = parts
  returned-Parts c (some outcome, log) b (m, p) =
      (m, use_resource-Reach error 2 outcome c b.channels p)

  create_consumer-Parts :
      (reply : Result E Text) (c : T) (b : RpcBackend F G E B)
      → Parts b
      → Parts (create_consumer reply c b)
  unfolding create_consumer
  create_consumer-Parts (ok _) c b parts = parts
  create_consumer-Parts (err x) c b parts = parts

  closed-Parts :
      (log : T → List (Call B)) (r : Result E (Unit {0})) (b : RpcBackend F G E B)
      → Parts b
      → Parts (closed log r b).0
  unfolding closed
  closed-Parts log (ok _) b parts = parts
  closed-Parts log (err x) b parts = parts

  closing-Parts :
      (server : Server B E) (cs : List T) (b : RpcBackend F G E B)
      → Parts b
      → Parts (closing server cs b).0
  unfolding closing
  closing-Parts server cs b parts = closed-Parts _ _ b parts

  destroy_channels-Parts :
      (server : Server B E) (d : Option (List T) × ResourcePool F G E) (b : RpcBackend F G E B)
      → Parts (record b { channels = d.1 })
      → Parts (destroy_channels server d b).0
  unfolding destroy_channels
  destroy_channels-Parts server (none, channels') b parts = parts
  destroy_channels-Parts server (some cs, channels') b parts =
      closing-Parts server cs (record b { channels = channels' }) parts

  end_cancelled-Parts :
      (server : Server B E) (c : T) (b : RpcBackend F G E B)
      → Parts b
      → Parts (end_cancelled server error c b).0
  unfolding end_cancelled return_consumer
  end_cancelled-Parts server c b (m, p) =
      elim (Result-cases (ResourcePool.return error c b.channels)) [
        | inr (x, run) ↦ rw run (m, p)
        | inl (q, run) ↦ rw run (
            destroy_channels-Parts server (ResourcePool.destroy_all q) b (
              m,
              PoolHistory.then_ (PoolHistory.then_ p (PoolHistory.returns c b.channels q run))
                  (PoolHistory.destroys q),
            ))
      ]

  on_message-Parts :
      (message : Option (Delivery B)) (b : RpcBackend F G E B)
      → Parts b
      → Parts (on_message error message b)
  unfolding on_message
  on_message-Parts none b (m, p) = (MapHistory.then_ m (MapHistory.rejects_all _ b.promises), p)
  on_message-Parts (some d) b (m, p) =
      (MapHistory.then_ m (MapHistory.resolves d.correlation_id (plain d) b.promises), p)

  end-Parts :
      (server : Server B E) (consumer : Option T) (tag : Option (Result E Text))
      (b : RpcBackend F G E B)
      → Parts b
      → Parts (cancel_if_there server error consumer tag b).0
  unfolding cancel_if_there cancel_consumer
  end-Parts server (some c) (some (ok tag)) b (m, p) =
      (MapHistory.then_ m (MapHistory.rejects_all _ b.promises), p)
  end-Parts server (some c) (some (err x)) b parts = parts
  end-Parts server (some c) none b parts = parts
  end-Parts server none tag b parts = parts

module _ {T : Type 0} ⦃e : Eq T⦄ {F : Fifo T} {G : Fifo ℕ} {C M B E : Type 0} (server : Server B E)
    (codec : Codec (ResultMessage C M) B E) (error : String → E) (day : ℕ) where
  Step-Parts :
      {b b' : RpcBackend F G E B}
      → Step server codec error day b b'
      → Parts error day b
      → Parts error day b'
  unfolding start_consumer consumed start_put put put_asserted put_drained get delete end resume_end
      finish_job
  Step-Parts (consumes c b there) (m, p) =
      (m, PoolHistory.then_ p (PoolHistory.arrives c b.channels there))
  Step-Parts (starts_put b) (m, p) = (m, PoolHistory.then_ p (PoolHistory.gets b.channels))
  Step-Parts (answers_assert c reply b) parts = create_consumer-Parts error day reply c b parts
  Step-Parts (answers_consume reply b) parts = parts
  Step-Parts (puts c b there) (m, p) =
      (m, PoolHistory.then_ p (PoolHistory.arrives c b.channels there))
  Step-Parts (answers_put c message drains b) parts = returned-Parts error day c _ b parts
  Step-Parts (drains_put c call drains b) parts = returned-Parts error day c _ b parts
  Step-Parts (gets task_id b) (m, p) = (MapHistory.then_ m (MapHistory.gets task_id b.promises), p)
  Step-Parts (deletes task_id b) (m, p) =
      (MapHistory.then_ m (MapHistory.deletes task_id b.promises), p)
  Step-Parts (receives message b) parts = on_message-Parts error day message b parts
  Step-Parts (ends b) parts = end-Parts error day server b.consumer b.consumer_tag b parts
  Step-Parts (cancelled c b is) parts = end_cancelled-Parts error day server c b parts
  Step-Parts (resumes b waits) (m, p) =
      closing-Parts error day server _ (record b { channels = (ResourcePool.resume b.channels).1 })
        (m, PoolHistory.then_ p (PoolHistory.resumes b.channels waits))
  Step-Parts (opens c b waits) (m, p) =
      (m, PoolHistory.then_ p (PoolHistory.creates c b.channels waits))
  Step-Parts (open_fails b waits) (m, p) =
      (m, PoolHistory.then_ p (PoolHistory.fails b.channels waits))
  Step-Parts (finishes j o b i s) (m, p) =
      (MapHistory.then_ m (MapHistory.finishes j o b.promises i s), p)
  Step-Parts (fires t b i) (m, p) = (MapHistory.then_ m (MapHistory.fires t b.promises i), p)

  -- After any steps of a backend, its map has gone through a history of a `PromiseMap` with the
  -- timeout of the constructor, and its channels through one of a `ResourcePool` of two.
  pub Reach-Parts :
      (routing_key : Text) (options : Option AmqpOptions) (b : RpcBackend F G E B)
      → Reach server codec error day routing_key options b
      → MapHistory.Reach error (some (default_timeout day)) b.promises
        × PoolHistory.Reach error 2 b.channels
  unfolding create
  Reach-Parts routing_key options b new =
      (MapHistory.created, PoolHistory.then_ PoolHistory.new (PoolHistory.gets _))
  Reach-Parts routing_key options b (then_ {b = before} r s) =
      Step-Parts s (Reach-Parts routing_key options before r)
