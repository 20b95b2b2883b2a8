-- ===== src/Redis/Connection.antt =====
-- src/redis/: the commands that the broker and the backend send on a connection. The server and
-- ioredis are a parameter, which answers the last command from all those sent on the connection. A
-- list of commands has the last one first.
use celeries.Base.{ℕ, Option, List, if◌then◌else◌}
use celeries.Base.Equality.{Eq}
use celeries.Base.Result.{Result}
use celeries.Base.Text.{Text}

-- `multi` is the pipeline MULTI, SETEX, PUBLISH, EXEC: a key, the seconds that it lives, and a value.
pub data Command : Type 0 where
  get : Text → Command
  multi : Text → ℕ → Text → Command
  del : Text → Command
  lpush : Text → Text → Command
  psubscribe : Text → Command
  punsubscribe : Text → Command
  quit : Command
  disconnect : Command

-- What the promise of a command comes to; `none` stands for null.
abbrev pub Server : Type 0 → Type 0
Server E = List Command → Result E (Option Text)

abbrev pub set_log :
    {T : Type 0} ⦃e : Eq T⦄ → (T → List Command) → T → List Command → T → List Command
set_log ⦃e⦄ log connection commands other = if e.beq connection other then commands else log other
