-- ===== src/Result/Waiting.antt =====
-- What waits for a result.
use Prim.Native.String.{String}
use celeries.Base.{ℕ, ◌≤◌, ◌<◌, ◌≡◌, refl, Option, none, some, arith, Bool}
use celeries.Base.Result.{ok}
use celeries.Base.Text.{Text}
use celeries.Containers.PromiseMap.Promises.{value, thrown}
use celeries.Messages.{ResultMessage}
use celeries.NullBackend.{null_backend}
use celeries.ResultBackend.{ResultBackend}
use celeries.Result.{create, get, get_result, delete}
use celeries.Utility.Events.{create_timeout_promise, create_timer_promise, race, timer_delay}
use celeries.Utility.Events.Firsts.{race-early, race-late}

-- Where the backend gives the result's message at some time, `get` gives its `result` at this time if
-- the time limit of this call of `get` is over later, or if there is none, and the error "timed out"
-- at the limit if this is over before. The limit counts from the call of `get`, not from the start of the task.
get-delivered :
    {C T E : Type 0} (first : Bool) (error : String → E) (backend : ResultBackend C T E)
    (task_id : Text) (created now at timeout : ℕ) (message : ResultMessage C T)
    → backend.get created (record { task_id = task_id; timeout = none })
      ≡ ok (some (at, value message))
    → (get first error (create task_id backend created) now none ≡ some (at, value message.result))
      × (at < create_timer_promise now timeout
          → get first error (create task_id backend created) now (some timeout)
            ≡ some (at, value message.result))
      × (create_timer_promise now timeout < at
          → get first error (create task_id backend created) now (some timeout)
            ≡ some (create_timer_promise now timeout, thrown (error "timed out")))
unfolding create get get_result create_timeout_promise
get-delivered first error backend task_id created now at timeout message delivers =
    let limit = create_timer_promise now timeout in
    let delivered : get_result backend task_id created ≡ some (at, value message.result) =
      rw delivers refl in
    (
      delivered,
      λ early.
          rw delivered (race-early first at limit (value message.result) (error "timed out") early),
      λ late.
          rw delivered (race-late first at limit (value message.result) (error "timed out") late),
    )

-- With a null backend `get` fails with its error, whatever the time limit, and `delete`, which the
-- backend throws out of, gives a rejected promise.
null_backend-fails :
    (C T : Type 0) {E : Type 0} (first : Bool) (error : String → E) (task_id : Text)
    (created now : ℕ) (timeout : Option ℕ)
    → created ≤ now
    → (get first error (create task_id (null_backend C T error) created) now timeout
        ≡ some (created, thrown (error "cannot get results from a null backend")))
      × (delete (create task_id (null_backend C T error) created) now
          ≡ some (now, thrown (error "cannot delete results from a null backend")))
unfolding create get delete create_timeout_promise create_timer_promise null_backend race
    timer_delay
null_backend-fails C T first error task_id created now none late = (refl, refl)
null_backend-fails C T first error task_id created now (some timeout) late = (ground arith, refl)
