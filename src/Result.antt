-- ===== src/Result.antt =====
-- src/result.ts: the class `Result`, over a backend. The time of each call is an argument.
pub mod Waiting
use Prim.Native.String.{String}
use celeries.Base.{ℕ, Option, none, some, Bool}
use celeries.Base.Result.{Result as Fallible, ok, err}
use celeries.Base.Text.{Text}
use celeries.Containers.PromiseMap.Promises.{Outcome, value, thrown}
use celeries.Messages.{ResultMessage}
use celeries.ResultBackend.{ResultBackend}
use celeries.Utility.Events.{Settling, create_timeout_promise}

pub record Result (C T E : Type 0) : Type 0 where
  pub backend : ResultBackend C T E
  pub task_id : Text
  pub result : Settling T E

-- In an `async` function an error thrown at once rejects the promise.
abbrev pub awaited : {A E : Type 0} → ℕ → Fallible E (Settling A E) → Settling A E
awaited now (ok promise) = promise
awaited now (err x) = some (now, thrown x)

module _ {C T E : Type 0} where
  abbrev pub result_of : Settling (ResultMessage C T) E → Settling T E
  result_of none = none
  result_of (some (at, value message)) = some (at, value message.result)
  result_of (some (at, thrown x)) = some (at, thrown x)

  get_result : ResultBackend C T E → Text → ℕ → Settling T E
  get_result backend task_id now =
      result_of (awaited now (backend.get now (record { task_id = task_id; timeout = none })))

  -- The constructor.
  pub create : Text → ResultBackend C T E → ℕ → Result C T E
  unfolding get_result
  create task_id backend now = record {
    backend = backend;
    task_id = task_id;
    result = get_result backend task_id now;
  }

  pub delete : Result C T E → ℕ → Settling Text E
  delete r now = awaited now (r.backend.delete now r.task_id)

  -- `first` is as in `race`.
  pub get : Bool → (String → E) → Result C T E → ℕ → Option ℕ → Settling T E
  get first error r now timeout = create_timeout_promise first error now r.result timeout
