-- ===== src/Redis/Backend/Waiting.antt =====
-- Which calls of `get` wait, and what they get.
use Prim.Native.String.{String}
use celeries.Base.{ℕ, ◌≤◌, ◌≡◌, refl, ap, true, Option, none, some, [], ◌∷◌, ◌++◌, length}
use celeries.Base.Equality.{Eq}
use celeries.Base.Dict.{lookup}
use celeries.Base.Result.{ok}
use celeries.Base.Text.{Text, text_eq}
use celeries.Containers.Fifo.{Fifo}
use celeries.Containers.PromiseMap
use celeries.Containers.PromiseMap.Promises.{PromiseState, plain, value, Job, settled_state}
use celeries.Containers.PromiseMap.Waiting.{Waits, get-Waits, Waits-resolve-finish_job}
use celeries.Containers.PromiseQueue
use celeries.Containers.ResourcePool.Bounds.{Reach-full-get}
use celeries.Messages.{ResultMessage}
use celeries.Redis.Options.{RedisOptions}
use celeries.Redis.Connection.{multi, Server}
use celeries.Redis.Backend.{Json, RedisBackend, start_use, put, send, listen, listened, on_message}
use celeries.Redis.Backend.Uuid.{result_prefix, is_uuid}
use celeries.Redis.Backend.Channels.{match_channel_iff}
use celeries.Redis.Backend.History.{Reach, Reach-Parts}

module _ {T : Type 0} ⦃e : Eq T⦄ {F : Fifo T} {G : Fifo ℕ} {C M E : Type 0}
    (json : Json (ResultMessage C M) E) (error : String → E) where
  -- `put` sends the pipeline that stores a result for a day and publishes it, as the text that JSON
  -- makes of it. `listen` for a task that the map has not gives a promise that waits for the task. If
  -- the id of the task is a UUID and this text comes in on the channel of the task in any later
  -- state, `b1`, in which the promise still waits, then a call of `doResolve` with the text begins,
  -- and when this settles, in any still later state, `b2`, in which nothing has decided the promise
  -- in between, the promise is fulfilled with the text. Under the hypothesis that JSON reads back
  -- what it wrote of this message, `listen` comes to the message from that.
  pub listen-on_message :
      (sender : RedisBackend F G E) (c : T) (message : ResultMessage C M)
      (b b1 b2 : RedisBackend F G E) (at : ℕ)
      → let (p, asked) = listen message.task_id b in
        let raw = json.stringify message in
        let resolved = (PromiseMap.resolve message.task_id (plain raw) b1.results).1 in
        let j : Job Text Text = record {
          key = message.task_id;
          awaited = plain raw;
          promise = b1.results.next;
        } in
        is_uuid message.task_id ≡ true
        → json.parse (json.stringify message) ≡ ok message
        → lookup message.task_id b.results.promises ≡ none
        → Waits message.task_id p b1.results
        → b2.results.store p ≡ resolved.store p
        → ((put json message c sender).log c ≡ multi message.task_id 86400 raw ∷ sender.log c)
          × Waits message.task_id p asked.results
          × (on_message error (result_prefix ++ message.task_id) raw b1
              ≡ ok (record b1 { results = resolved }))
          × (resolved.jobs ≡ j ∷ b1.results.jobs)
          × (settled_state (PromiseMap.finish_job j (value raw) b2.results).store p
              ≡ PromiseState.fulfilled raw)
          × (listened json (some (at, value raw)) ≡ some (at, value message))
  unfolding listen on_message listened put send
  listen-on_message sender c message b b1 b2 at uuid reads fresh waits undecided =
      let raw = json.stringify message in
      let p = (PromiseMap.get message.task_id b.results).0 in
      let found =
        (match_channel_iff (result_prefix ++ message.task_id) message.task_id).1 (refl, uuid) in
      let (_, jobs, settles) =
        Waits-resolve-finish_job message.task_id (plain raw) (value raw) p b1.results b2.results
          waits undecided in
      (
        rw ((e.beq_iff c c).1 refl) refl,
        get-Waits message.task_id b.results fresh,
        rw (found, on_message) refl,
        jobs,
        settles,
        rw (reads, listened) refl,
      )

  -- In every state where two connections of the pool are in use, as with the subscriber and one `get`
  -- that listens, none is unused, on its way or in the making, and what `put`, `delete` and a `get`
  -- that needs a connection begin with adds a caller that waits and does nothing else.
  pub Reach-start_use :
      (server : Server E) (options : Option RedisOptions) (b : RedisBackend F G E)
      → Reach server json error options b
      → 2 ≤ length b.pool.in_use
      → (F.items b.pool.unused ≡ [])
        × (b.pool.arriving ≡ [])
        × (b.pool.creating ≡ 0)
        × (start_use b ≡ record b {
          pool = record b.pool { waiting = (PromiseQueue.push G T E b.pool.waiting).1 };
        })
  unfolding start_use
  Reach-start_use server options b r full =
      let (unused, arriving, creating, waits) =
        Reach-full-get error 2 b.pool (Reach-Parts server json error options b r).1 full in
      (unused, arriving, creating, ap (λ p. record b { pool = p }) waits)
