-- ===== src/Redis/Backend/Tests.antt =====
-- A backend whose server confirms everything, and the theorems at it.
use Prim.Native.String.{String}
use celeries.Base.{ℕ, ◌≡◌, refl, none, some, [], ◌∷◌, ◌++◌, arith}
use celeries.Base.Equality.{nat_eq}
use celeries.Base.Dict.{lookup, insert}
use celeries.Base.Result.{ok, err}
use celeries.Base.Set.{add, remove}
use celeries.Base.Text.{Text, codes, text_eq, is_digit}
use celeries.Containers.Fifo.{Fifo, list_fifo}
use celeries.Containers.PromiseMap
use celeries.Containers.PromiseMap.Promises.{PromiseState, decide, plain, value, Job, settled_state}
use celeries.Containers.PromiseMap.Waiting.{Waits}
use celeries.Containers.PromiseQueue
use celeries.Containers.ResourcePool
use celeries.Messages.{ResultMessage, Status}
use celeries.Redis.Connection.{Server, multi}
use celeries.Redis.Backend.{
  Json, RedisBackend, create, start_subscriber, subscribed, start_use, put, start_get, get,
  get_answered, listen, listened, on_message,
}
use celeries.Redis.Backend.Uuid.{result_prefix, is_uuid}
use celeries.Redis.Backend.History.{
  Reach, new, then_, connects, subscribes, answers_subscribe, starts_get, gets, answers_get,
}
use celeries.Redis.Backend.Waiting.{listen-on_message, Reach-start_use}

abbrev F : Fifo ℕ
F = list_fifo

abbrev Message : Type 0
Message = ResultMessage ℕ ℕ

abbrev id : Text
id = codes "0123abCD-0000-1111-2222-0123456789ab"

abbrev sent : Message
sent = record { children = []; result = 7; status = Status.success; task_id = id; traceback = none }

abbrev json : Json Message String
json = record {
  stringify = λ m. m.result ∷ m.task_id;
  parse =
      λ s. elim s [ [] ↦ err "no JSON" | n ∷ id ↦ ok (record sent { result = n; task_id = id }) ];
}

abbrev server : Server String
server log = ok none

abbrev error : String → String
error s = s

abbrev Backend : Type 0
Backend = RedisBackend F F String

abbrev fresh : Backend
fresh = create F F String none

-- The subscriber has its connection, and then a `get` of a task that the server does not know has
-- another.
abbrev connected : Backend
connected = record fresh { pool = ResourcePool.created 1 fresh.pool }

abbrev subscribing : Backend
subscribing = subscribed (ok none) 1 (start_subscriber 1 connected)

abbrev asking : Backend
asking = (start_get (codes "task") subscribing).1

abbrev both : Backend
both = record asking { pool = ResourcePool.created 2 asking.pool }

abbrev listening : Backend
listening = (get_answered json (codes "task") (ok none) (get (codes "task") 2 both)).0

listening-Reach : Reach server json error none listening
unfolding create start_subscriber subscribed start_get get get_answered listen PromiseMap.create
    PromiseMap.has ResourcePool.get ResourcePool.create_pool ResourcePool.created
    ResourcePool.arrive lookup add remove
listening-Reach =
    let known : Reach server json error none subscribing =
      then_ (then_ (then_ new (connects 1 fresh (omega arith))) (subscribes 1 connected refl))
        (answers_subscribe 1 (ok none) (start_subscriber 1 connected)) in
    let connected_twice : Reach server json error none both =
      then_ (then_ known (starts_get (codes "task") subscribing))
        (connects 2 asking (omega arith)) in
    then_ (then_ connected_twice (gets 2 (codes "task") both refl))
      (answers_get (codes "task") (ok none) (get (codes "task") 2 both))

Reach-start_use_example :
    (listening.pool.unused ≡ [])
    × (listening.pool.arriving ≡ [])
    × (listening.pool.creating ≡ 0)
    × (start_use listening ≡ record listening {
      pool = record listening.pool {
        waiting = (PromiseQueue.push F ℕ String listening.pool.waiting).1;
      };
    })
unfolding create start_subscriber subscribed start_get get get_answered listen PromiseMap.create
    PromiseMap.has ResourcePool.get ResourcePool.create_pool ResourcePool.created
    ResourcePool.arrive lookup add remove
Reach-start_use_example =
    Reach-start_use json error server none listening listening-Reach (omega arith)

abbrev listened_to : ℕ × Backend
listened_to = listen id subscribing

-- While the `get` of `id` listens, another one begins, for another task, and a publication for this
-- task comes in before the one for `id`.
abbrev meanwhile : Backend
meanwhile =
    let b = (listen (codes "other") listened_to.1).1 in
    record b { results = (PromiseMap.resolve (codes "other") (plain (codes "x")) b.results).1 }

abbrev resolved : Backend
resolved = record meanwhile {
  results = (PromiseMap.resolve id (plain (7 ∷ id)) meanwhile.results).1;
}

-- The one for the other task settles first.
abbrev other_job : Job Text Text
other_job = record { key = codes "other"; awaited = plain (codes "x"); promise = 2 }

abbrev afterwards : Backend
afterwards = record resolved {
  results = PromiseMap.finish_job other_job (value (codes "x")) resolved.results;
}

abbrev waiting_job : Job Text Text
waiting_job = record { key = id; awaited = plain (7 ∷ id); promise = 3 }

listen-on_message_example :
    ((put json sent 2 fresh).log 2 ≡ multi id 86400 (7 ∷ id) ∷ [])
    × Waits id listened_to.0 listened_to.1.results
    × (on_message error (result_prefix ++ id) (7 ∷ id) meanwhile ≡ ok resolved)
    × (resolved.results.jobs ≡ waiting_job ∷ meanwhile.results.jobs)
    × (settled_state
          (PromiseMap.finish_job waiting_job (value (7 ∷ id)) afterwards.results).store
          listened_to.0
        ≡ PromiseState.fulfilled (7 ∷ id))
    × (listened json (some (9, value (7 ∷ id))) ≡ some (9, value sent))
unfolding create start_subscriber subscribed listen PromiseMap.create PromiseMap.get
    PromiseMap.resolve PromiseMap.finish_job lookup insert decide is_uuid is_digit
listen-on_message_example =
    listen-on_message json error fresh 2 sent subscribing meanwhile afterwards 9 refl refl refl
      (refl, refl, omega arith) refl
