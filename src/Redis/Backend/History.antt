-- ===== src/Redis/Backend/History.antt =====
-- Everything that can happen to a `RedisBackend`, in any order, and what this is to its map and to
-- its pool.
use Prim.Native.String.{String}
use mathlib.Core.List.{Mem}
use celeries.Base.{
  ℕ, ◌<◌, ◌≡◌, refl, sym, ◌∙◌, true, arith, Bool-cases, Option-cases, Option, none, some, List, inl,
  inr,
}
use celeries.Base.Equality.{Eq}
use celeries.Base.Result.{Result, ok, err, ok-injective}
use celeries.Base.Set.{member}
use celeries.Base.Text.{Text, text_eq}
use celeries.Containers.Fifo.{Fifo}
use celeries.Containers.PromiseMap
use celeries.Containers.PromiseMap.Promises.{Job, Timer, Outcome, plain}
use celeries.Containers.PromiseMap.Orphans.History as MapHistory
use celeries.Containers.ResourcePool
use celeries.Containers.ResourcePool.{ResourcePool}
use celeries.Containers.ResourcePool.History as PoolHistory
use celeries.Containers.ResourcePool.Using.{use_resource-Reach}
use celeries.Messages.{ResultMessage}
use celeries.Redis.Options.{RedisOptions}
use celeries.Redis.Connection.{Server}
use celeries.Redis.Backend.{
  Json, RedisBackend, Response, settles, listens, result_timeout, create, start_subscriber,
  start_use, put, start_get, get, get_answered, delete, on_message, send, subscribed, finish_use,
  answered, listen,
}
use celeries.Redis.Backend.Ending.{
  end, end_unsubscribed, resume_end, closing, closed, destroy_connections, return_subscriber,
  unsubscribe,
}
use celeries.Redis.Backend.Uuid.{match_channel}

module _ {T : Type 0} ⦃e : Eq T⦄ {F : Fifo T} {G : Fifo ℕ} {C M E : Type 0} (server : Server E)
    (json : Json (ResultMessage C M) E) (error : String → E) where
  -- Each part of a method that the event loop runs is a step, and so is each answer, whatever it is.
  -- A resource arrives where the pool is about to deliver it. A publication that throws changes
  -- nothing, so it is no step.
  pub data Step : RedisBackend F G E → RedisBackend F G E → Type 0 where
    subscribes :
        (c : T) (b : RedisBackend F G E)
        → member c b.pool.arriving ≡ true
        → Step b (start_subscriber c b)
    answers_subscribe :
        (c : T) (reply : Result E (Option Text)) (b : RedisBackend F G E)
        → Step b (subscribed reply c b)
    starts_use : (b : RedisBackend F G E) → Step b (start_use b)
    puts :
        (c : T) (message : ResultMessage C M) (b : RedisBackend F G E)
        → member c b.pool.arriving ≡ true
        → Step b (put json message c b)
    starts_get : (task_id : Text) (b : RedisBackend F G E) → Step b (start_get task_id b).1
    gets :
        (c : T) (task_id : Text) (b : RedisBackend F G E)
        → member c b.pool.arriving ≡ true
        → Step b (get task_id c b)
    answers_get :
        (task_id : Text) (reply : Result E (Option Text)) (b : RedisBackend F G E)
        → Step b (get_answered json task_id reply b).0
    finishes_use :
        (c : T) (outcome : Result E (Option Text)) (b : RedisBackend F G E)
        → Step b (finish_use error outcome c b).0
    finishes_get :
        (c : T) (outcome : Result E (ResultMessage C M)) (b : RedisBackend F G E)
        → Step b (finish_use error outcome c b).0
    deletes :
        (c : T) (task_id : Text) (b : RedisBackend F G E)
        → member c b.pool.arriving ≡ true
        → Step b (delete error task_id c b)
    receives :
        (channel message : Text) (b b' : RedisBackend F G E)
        → on_message error channel message b ≡ ok b'
        → Step b b'
    ends : (b : RedisBackend F G E) → Step b (end b).0
    unsubscribed :
        (c : T) (b : RedisBackend F G E)
        → b.subscriber ≡ some (ok c)
        → Step b (end_unsubscribed server error c b).0
    resumes : (b : RedisBackend F G E) → 0 < b.pool.resuming → Step b (resume_end server b).0
    connects :
        (c : T) (b : RedisBackend F G E)
        → 0 < b.pool.creating
        → Step b (record b { pool = ResourcePool.created c b.pool })
    connect_fails :
        (b : RedisBackend F G E)
        → 0 < b.pool.creating
        → Step b (record b { pool = ResourcePool.create_failed b.pool })
    finishes :
        (j : Job Text Text) (o : Outcome Text E) (b : RedisBackend F G E)
        → Mem j b.results.jobs
        → MapHistory.Settles j.awaited o
        → Step b (record b { results = PromiseMap.finish_job j o b.results })
    fires :
        (t : Timer Text) (b : RedisBackend F G E)
        → Mem t b.results.timers
        → Step b (record b { results = PromiseMap.fire error t b.results })

  pub data Reach (options : Option RedisOptions) : RedisBackend F G E → Type 0 where
    new : Reach options (create F G E options)
    then_ : {b b' : RedisBackend F G E} → Reach options b → Step b b' → Reach options b'

module _ {T : Type 0} ⦃e : Eq T⦄ {F : Fifo T} {G : Fifo ℕ} {E : Type 0} (error : String → E) where
  abbrev pub Parts : RedisBackend F G E → Type 0
  Parts b =
      MapHistory.Reach error (some result_timeout) b.results × PoolHistory.Reach error 2 b.pool

  listen-Parts : (task_id : Text) (b : RedisBackend F G E) → Parts b → Parts (listen task_id b).1
  unfolding listen
  listen-Parts task_id b (m, p) = (MapHistory.then_ m (MapHistory.gets task_id b.results), p)

  answered-Parts :
      {C M : Type 0} (task_id : Text) (r : Response (ResultMessage C M) E) (b : RedisBackend F G E)
      → Parts b
      → Parts (answered task_id r b).0
  unfolding answered
  answered-Parts task_id (settles outcome) b parts = parts
  answered-Parts task_id listens b parts = listen-Parts task_id b parts

  subscribed-Parts :
      (reply : Result E (Option Text)) (c : T) (b : RedisBackend F G E)
      → Parts b
      → Parts (subscribed reply c b)
  unfolding subscribed
  subscribed-Parts (ok _) c b parts = parts
  subscribed-Parts (err x) c b parts = parts

  start_get-Parts :
      (task_id : Text) (b : RedisBackend F G E) → Parts b → Parts (start_get task_id b).1
  unfolding start_get start_use
  start_get-Parts task_id b (m, p) = elim (Bool-cases (PromiseMap.has task_id b.results)) [
    | inl there ↦ rw there (listen-Parts task_id b (m, p))
    | inr gone ↦ rw gone (m, PoolHistory.then_ p (PoolHistory.gets b.pool))
  ]

  destroy_connections-Parts :
      (server : Server E) (d : Option (List T) × ResourcePool F G E) (b : RedisBackend F G E)
      → Parts (record b { pool = d.1 })
      → Parts (destroy_connections server d b).0
  unfolding destroy_connections closing closed
  destroy_connections-Parts server (none, pool') b parts = parts
  destroy_connections-Parts server (some cs, pool') b parts = parts

  return_subscriber-Parts :
      (server : Server E) (c : T) (b : RedisBackend F G E) (r : Result E (ResourcePool F G E))
      → ResourcePool.return error c b.pool ≡ r
      → Parts b
      → Parts (return_subscriber server r b).0
  unfolding return_subscriber
  return_subscriber-Parts server c b (err x) run parts = parts
  return_subscriber-Parts server c b (ok q) run (m, p) =
      destroy_connections-Parts server (ResourcePool.destroy_all q) b (
        m,
        PoolHistory.then_ (PoolHistory.then_ p (PoolHistory.returns c b.pool q run))
            (PoolHistory.destroys q),
      )

  on_message-Parts :
      (channel message : Text) (b b' : RedisBackend F G E)
      → on_message error channel message b ≡ ok b'
      → Parts b
      → Parts b'
  unfolding on_message
  on_message-Parts channel message b b' run (m, p) = elim (Option-cases (match_channel channel)) [
    | inl foreign ↦ let run' = rw (foreign, on_message) at run in ground (arith, run')
    | inr (id, found) ↦
        let after = record b { results = (PromiseMap.resolve id (plain message) b.results).1 } in
        let same : after ≡ b' = ok-injective (sym (rw (found, on_message) refl) ∙ run) in
        rw (← same) (MapHistory.then_ m (MapHistory.resolves id (plain message) b.results), p)
  ]

  unsubscribe-Parts :
      (subscriber : Option (Result E T)) (b : RedisBackend F G E)
      → Parts b
      → Parts (unsubscribe subscriber b).0
  unfolding unsubscribe send
  unsubscribe-Parts none b parts = parts
  unsubscribe-Parts (some (ok c)) b parts = parts
  unsubscribe-Parts (some (err x)) b parts = parts

module _ {T : Type 0} ⦃e : Eq T⦄ {F : Fifo T} {G : Fifo ℕ} {C M E : Type 0} (server : Server E)
    (json : Json (ResultMessage C M) E) (error : String → E) where
  Step-Parts :
      {b b' : RedisBackend F G E} → Step server json error b b' → Parts error b → Parts error b'
  unfolding start_subscriber start_use put get get_answered finish_use delete end end_unsubscribed
      resume_end send closing closed
  Step-Parts (subscribes c b there) (m, p) =
      (m, PoolHistory.then_ p (PoolHistory.arrives c b.pool there))
  Step-Parts (answers_subscribe c reply b) parts = subscribed-Parts error reply c b parts
  Step-Parts (starts_use b) (m, p) = (m, PoolHistory.then_ p (PoolHistory.gets b.pool))
  Step-Parts (puts c message b there) (m, p) =
      (m, PoolHistory.then_ p (PoolHistory.arrives c b.pool there))
  Step-Parts (starts_get task_id b) parts = start_get-Parts error task_id b parts
  Step-Parts (gets c task_id b there) (m, p) =
      (m, PoolHistory.then_ p (PoolHistory.arrives c b.pool there))
  Step-Parts (answers_get task_id reply b) parts = answered-Parts error task_id _ b parts
  Step-Parts (finishes_use c outcome b) (m, p) = (m, use_resource-Reach error 2 outcome c b.pool p)
  Step-Parts (finishes_get c outcome b) (m, p) = (m, use_resource-Reach error 2 outcome c b.pool p)
  Step-Parts (deletes c task_id b there) (m, p) = (
    MapHistory.then_ m (MapHistory.deletes task_id b.results),
    PoolHistory.then_ p (PoolHistory.arrives c b.pool there),
  )
  Step-Parts (receives channel message b b' run) parts =
      on_message-Parts error channel message b b' run parts
  Step-Parts (ends b) parts = unsubscribe-Parts error b.subscriber b parts
  Step-Parts (unsubscribed c b is) parts = return_subscriber-Parts error server c b _ refl parts
  Step-Parts (resumes b waits) (m, p) = (m, PoolHistory.then_ p (PoolHistory.resumes b.pool waits))
  Step-Parts (connects c b waits) (m, p) =
      (m, PoolHistory.then_ p (PoolHistory.creates c b.pool waits))
  Step-Parts (connect_fails b waits) (m, p) =
      (m, PoolHistory.then_ p (PoolHistory.fails b.pool waits))
  Step-Parts (finishes j o b i s) (m, p) =
      (MapHistory.then_ m (MapHistory.finishes j o b.results i s), p)
  Step-Parts (fires t b i) (m, p) = (MapHistory.then_ m (MapHistory.fires t b.results i), p)

  -- Whatever happens to a backend, its map goes through a history of a `PromiseMap` with the timeout
  -- of the class, and its connections through one of a `ResourcePool` of two, so that what holds of
  -- every history of these holds in the backend.
  pub Reach-Parts :
      (options : Option RedisOptions) (b : RedisBackend F G E)
      → Reach server json error options b
      → MapHistory.Reach error (some result_timeout) b.results × PoolHistory.Reach error 2 b.pool
  unfolding create
  Reach-Parts options b new =
      (MapHistory.created, PoolHistory.then_ PoolHistory.new (PoolHistory.gets _))
  Reach-Parts options b (then_ {b = before} r s) = Step-Parts s (Reach-Parts options before r)
