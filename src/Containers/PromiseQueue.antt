-- ===== src/Containers/PromiseQueue.antt =====
-- src/containers/promise_queue.ts: a queue of promises that are settled in turn, over the interface
-- of `List`. A promise is a number, given out in order. What is passed to its `resolve` or `reject`
-- is recorded in `settled`, oldest first.
pub mod Order
pub mod History
pub mod Tests
use celeries.Base.{ℕ, zero, suc, ◌+◌, Bool, true, false, Option, none, some, List, [], ◌∷◌, ◌++◌}
use celeries.Containers.Fifo.{Fifo}

-- The two methods of `PromiseFunctions`, with their argument.
pub data Settlement (V E : Type 0) : Type 0 where
  resolve : V → Settlement V E
  reject : E → Settlement V E

-- Calls `condition` until it returns false, and counts the other calls; `none` when the fuel ends.
count_while {ℓ} : {S : Type ℓ} → ℕ → (S → Bool × S) → ℕ → S → Option (ℕ × S)
count_while zero condition num_true s = none
count_while (suc fuel) condition num_true s =
    let (held, t) = condition s in
    elim held [ true ↦ count_while fuel condition (num_true + 1) t | false ↦ some (num_true, t) ]

pub invoke_while {ℓ} : {S : Type ℓ} → ℕ → (S → Bool × S) → S → Option (ℕ × S)
unfolding count_while
invoke_while fuel condition s = count_while fuel condition 0 s

module _ (F : Fifo ℕ) (V E : Type 0) where
  pub record PromiseQueue : Type 0 where
    pub queue : F.State
    pub next : ℕ
    pub settled : List (ℕ × Settlement V E)

  unfoldable pub create : PromiseQueue
  create = record { queue = F.empty; next = 0; settled = [] }

  unfoldable pub push : PromiseQueue → ℕ × PromiseQueue
  push q = (q.next, record q { queue = F.push q.queue q.next; next = suc q.next })

  settle : Option ℕ → Settlement V E → PromiseQueue → Bool × PromiseQueue
  settle none argument q = (false, q)
  settle (some to_settle) argument q =
      (true, record q { settled = q.settled ++ (to_settle, argument) ∷ [] })

  unfoldable pub settle_one : Settlement V E → PromiseQueue → Bool × PromiseQueue
  unfolding settle
  settle_one argument q =
      let (maybe_head, queue) = F.shift q.queue in
      settle maybe_head argument (record q { queue = queue })

  unfoldable pub resolve_one : V → PromiseQueue → Bool × PromiseQueue
  resolve_one value = settle_one (resolve value)

  pub reject_one : E → PromiseQueue → Bool × PromiseQueue
  reject_one reason = settle_one (reject reason)

  -- One round for each queued promise, and the last call, which returns false.
  pub resolve_all : V → PromiseQueue → Option (ℕ × PromiseQueue)
  resolve_all value q = invoke_while (suc (F.size q.queue)) (resolve_one value) q

  unfoldable pub reject_all : E → PromiseQueue → Option (ℕ × PromiseQueue)
  reject_all reason q = invoke_while (suc (F.size q.queue)) (reject_one reason) q
