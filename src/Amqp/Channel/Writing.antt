-- ===== src/Amqp/Channel/Writing.antt =====
-- How often a message is written.
use celeries.Base.{ℕ, zero, suc, ◌≤◌, ◌≡◌, refl, true, false, none, some, List, ◌∷◌, arith}
use celeries.Base.Result.{ok}
use celeries.Amqp.Channel.{Call, Server, flushed, write_until}

module _ {B E : Type 0} (server : Server B E) (call : Call B) where
  -- The log after `n` more of the calls.
  abbrev pub written : ℕ → List (Call B) → List (Call B)
  written zero log = log
  written (suc n) log = written n (call ∷ log)

  -- The write buffer is full at the first `n` of the calls.
  abbrev pub Full : ℕ → List (Call B) → Type 0
  Full zero log = Unit {0}
  Full (suc n) log = (server.accepts (call ∷ log) ≡ ok false) × Full n (call ∷ log)

  -- The loop ends at the first call that does not find the buffer full, if so many events "drain"
  -- come, and it has made the call once more than it found the buffer full.
  pub write_until-written :
      (n drains : ℕ) (log : List (Call B))
      → Full n log
      → server.accepts (written (suc n) log) ≡ ok true
      → n ≤ drains
      → write_until server call drains log ≡ (some (ok flushed), written (suc n) log)
  unfolding write_until
  write_until-written zero zero log full accepted enough = rw (accepted, write_until) refl
  write_until-written zero (suc drains) log full accepted enough = rw (accepted, write_until) refl
  write_until-written (suc n) zero log full accepted enough = absurd (omega arith)
  write_until-written (suc n) (suc drains) log (first, full) accepted enough =
      rw (first, write_until)
        (write_until-written n drains (call ∷ log) full accepted (omega arith))

  -- Without enough of the events the loop waits.
  write_until-waits :
      (drains : ℕ) (log : List (Call B))
      → Full (suc drains) log
      → write_until server call drains log ≡ (none, written (suc drains) log)
  unfolding write_until
  write_until-waits zero log (first, full) = rw (first, write_until) refl
  write_until-waits (suc drains) log (first, full) =
      rw (first, write_until) (write_until-waits drains (call ∷ log) full)
