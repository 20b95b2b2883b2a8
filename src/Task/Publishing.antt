-- ===== src/Task/Publishing.antt =====
-- Which broker publishes a message.
use celeries.Base.{ℕ, zero, suc, ◌<◌, ◌≡◌, refl, some, arith}
use celeries.Base.Result.{Result}
use celeries.Base.Text.{Text}
use celeries.Errors.{Thrown}
use celeries.Messages.{TaskMessage}
use celeries.Task.{
  Task, TaskApplyOptions, Host, Strategy, Published, threw, promised, publish_by, try_publish,
  publish_options, apply_async,
}

module _ {S BE BR : Type 0} (strategy : Strategy S BR) where
  -- The task and the strategy's state after `n` failures.
  abbrev pub after : ℕ → Task BE BR → S → Task BE BR × S
  after zero task s = (task, s)
  after (suc n) task s =
      let (broker, s') = strategy s task.brokers in after n (record task { broker = broker }) s'

  -- The brokers of the first `n` attempts all throw.
  abbrev AllThrow : (BR → TaskMessage → Published) → TaskMessage → ℕ → Task BE BR → S → Type 0
  AllThrow publish message zero task s = Unit {0}
  AllThrow publish message (suc n) task s =
      (publish_by publish task.broker message ≡ threw)
      × (let (broker, s') = strategy s task.brokers in
          AllThrow publish message n (record task { broker = broker }) s')

  try_publish-after :
      (publish : BR → TaskMessage → Published) (message : TaskMessage) (n fuel : ℕ)
      (task : Task BE BR) (s : S) (outcome : Result Thrown Text)
      → AllThrow publish message n task s
      → publish_by publish (after n task s).0.broker message ≡ promised outcome
      → n < fuel
      → try_publish strategy publish fuel message task s
        ≡ some (outcome, (after n task s).0, (after n task s).1)
  unfolding try_publish
  try_publish-after publish message n zero task s outcome all_throw published enough =
      absurd (omega arith)
  try_publish-after publish message zero (suc fuel) task s outcome all_throw published enough =
      rw (published, try_publish) refl
  try_publish-after publish message (suc n) (suc fuel) task s outcome (throws, all_throw) published
        enough =
      let (broker, s') = strategy s task.brokers in
      rw (throws, try_publish)
        (try_publish-after publish message n fuel (record task { broker = broker }) s' outcome
          all_throw published (omega arith))

  -- `applyAsync` publishes the message by the first broker in turn whose `publish` does not throw at
  -- once, and the task keeps this broker; fuel for one attempt more than there are failures is
  -- enough. What this broker's promise comes to is the outcome, a failure too: no other broker is
  -- tried then.
  pub apply_async-after :
      {D B : Type 0} (host : Host D B) (publish : BR → TaskMessage → Published) (n fuel : ℕ)
      (task : Task BE BR) (options : TaskApplyOptions D) (id : Text) (s : S)
      (outcome : Result Thrown Text)
      → AllThrow publish (publish_options host task options id) n task s
      → publish_by publish (after n task s).0.broker (publish_options host task options id)
        ≡ promised outcome
      → n < fuel
      → (apply_async strategy host publish fuel task options id s).1
        ≡ some (outcome, (after n task s).0, (after n task s).1)
  unfolding apply_async
  apply_async-after host publish n fuel task options id s outcome all_throw published enough =
      try_publish-after publish (publish_options host task options id) n fuel task s outcome
        all_throw published enough
