-- ===== src/ResultBackend.antt =====
-- src/result_backend.ts: the interface of the result backends. A call at the time `now` gives a
-- promise, which settles at some time or never; what is no `async` function may throw at once.
use celeries.Base.{ℕ, Option}
use celeries.Base.Result.{Result}
use celeries.Base.Text.{Text}
use celeries.Messages.{ResultMessage}
use celeries.Utility.Events.{Settling}

pub record GetOptions : Type 0 where
  pub task_id : Text
  pub timeout : Option ℕ

-- `C` are the children of a result, `T` the result and `E` the errors.
pub record ResultBackend (C T E : Type 0) : Type 0 where
  pub put : ℕ → ResultMessage C T → Result E (Settling Text E)
  pub get : ℕ → GetOptions → Result E (Settling (ResultMessage C T) E)
  pub delete : ℕ → Text → Result E (Settling Text E)
  pub disconnect : ℕ → Result E (Settling (Unit {0}) E)
  pub end : ℕ → Result E (Settling (Unit {0}) E)
  pub uri : Result E Text
