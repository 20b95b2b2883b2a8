-- ===== src/Containers/ResourcePool/Tests.antt =====
-- A pool over plain lists, and the theorems at its states.
use Prim.Native.String.{String}
use celeries.Base.{ℕ, ◌≤◌, ◌+◌, ◌≡◌, refl, ◌⊎◌, true, false, some, [], ◌∷◌, ◌++◌, arith}
use celeries.Base.Equality.{nat_eq}
use celeries.Base.Result.{ok, err}
use celeries.Base.Set.{member, add, remove, times}
use celeries.Containers.Fifo.{Fifo, list_fifo}
use celeries.Containers.PromiseQueue
use celeries.Containers.PromiseQueue.{resolve}
use celeries.Containers.PromiseQueue.Order.{waiting}
use celeries.Containers.ResourcePool.{
  ResourcePool, create_pool, num_owned, num_in_use, num_unused, get, created, create_failed, arrive,
  return, return_after, use_resource, destroy_all,
}
use celeries.Containers.ResourcePool.History.{gets, creates, arrives, Reach, new, then_}
use celeries.Containers.ResourcePool.Bounds.{live, Reach-live}
use celeries.Containers.ResourcePool.Ownership.{copies, Reach-copies}
use celeries.Containers.ResourcePool.Fairness.{IsFair, Reach-IsFair, return-oldest}
use celeries.Containers.ResourcePool.Lost.{
  get-create_failed-get, get-destroy_all-arrive, destroy_all-get, After, now,
}
use celeries.Containers.ResourcePool.Using.{
  use_resource-return, return_after-foreign, starts, goes_on,
}

abbrev F : Fifo ℕ
F = list_fifo

abbrev Pool : Type 0
Pool = ResourcePool F F String

abbrev error : String → String
error s = s

-- A pool of one resource, which a caller gets.
abbrev fresh : Pool
fresh = create_pool F F String 1

abbrev in_use_9 : Pool
in_use_9 = arrive 9 (created 9 (get fresh))

in_use_9-Reach : Reach error 1 in_use_9
unfolding create_pool get created
in_use_9-Reach =
    then_ (then_ (then_ new (gets fresh)) (creates 9 (get fresh) (omega arith)))
      (arrives 9 (created 9 (get fresh)) refl)

Reach-live_example :
    (live in_use_9 ≤ num_owned in_use_9)
    × (num_owned in_use_9 ≤ 1)
    × (num_in_use in_use_9 + num_unused in_use_9 ≡ num_owned in_use_9)
Reach-live_example = Reach-live error 1 in_use_9 in_use_9-Reach

Reach-copies_example : copies 9 in_use_9 ≤ 1
unfolding create_pool get created times
Reach-copies_example =
    Reach-copies error 1 in_use_9
      (then_ (then_ (then_ new (gets fresh)) (creates 9 (get fresh) (omega arith)))
        (arrives 9 (created 9 (get fresh)) refl))
      9 ((tt, refl))

Reach-IsFair_example : IsFair in_use_9
Reach-IsFair_example = Reach-IsFair error 1 in_use_9 in_use_9-Reach

-- Another caller begins to wait while the callback has the resource.
use_resource-return_example :
    (member 9 (get in_use_9).in_use ≡ true)
    × (q : Pool) × (return error 9 (get in_use_9) ≡ ok q)
    × (q.in_use ≡ remove 9 (get in_use_9).in_use)
    × (use_resource error {U = ℕ} (err "no") 9 (get in_use_9) ≡ (q, err "no"))
use_resource-return_example =
    use_resource-return error {U = ℕ} (err "no") 9 (created 9 (get fresh)) (get in_use_9)
      (goes_on starts (gets in_use_9) (λ none_. ground (arith, none_)))

return_after-foreign_test :
    return_after error {U = ℕ} (ok 5) 8 in_use_9
    ≡ (in_use_9, err "resource does not belong to this pool")
unfolding create_pool get created arrive add
return_after-foreign_test = return_after-foreign error {U = ℕ} (ok 5) 8 in_use_9 refl

get-create_failed-get_example :
    let q = get (create_failed (get fresh)) in
    (waiting F ℕ String q.waiting ≡ waiting F ℕ String fresh.waiting ++ fresh.waiting.next ∷ [])
    × (q.creating ≡ fresh.creating)
    × (q.in_use ≡ fresh.in_use)
    × (q.arriving ≡ fresh.arriving)
    × (F.items q.unused ≡ [])
unfolding create_pool
get-create_failed-get_example = get-create_failed-get fresh refl refl

-- The same resource, given back.
abbrev stored : Pool
stored = (use_resource error {U = ℕ} (ok 5) 9 (arrive 9 (created 9 (get fresh)))).0

get-destroy_all-arrive_test :
    let (replies, q) = destroy_all (get stored) in
    (replies ≡ some []) × (member 9 q.arriving ≡ true) × (member 9 (arrive 9 q).in_use ≡ true)
unfolding create_pool get created use_resource return_after return arrive add remove
    PromiseQueue.resolve_one PromiseQueue.settle_one PromiseQueue.create
get-destroy_all-arrive_test = get-destroy_all-arrive stored 9 [] refl refl

-- The pool after `destroyAll`, and after one more caller.
abbrev spent : Pool
spent = get (destroy_all stored).1

destroy_all-get_example :
    (num_owned spent ≡ num_owned stored)
    × (num_in_use spent ≡ num_owned stored)
    × (spent.in_use ≡ [])
    × (spent.arriving ≡ [])
    × (waiting F ℕ String (get spent).waiting
        ≡ waiting F ℕ String spent.waiting ++ spent.waiting.next ∷ [])
unfolding create_pool get created use_resource return_after return arrive add remove
    PromiseQueue.resolve_one PromiseQueue.settle_one PromiseQueue.create
destroy_all-get_example =
    destroy_all-get error stored spent refl refl refl (omega arith)
      (After.then_ now (gets (destroy_all stored).1))

return-oldest_example :
    let p = get in_use_9 in
    ((member 9 p.in_use ≡ false)
      × (return error 9 p ≡ err (error "resource does not belong to this pool")))
    ⊎ ((member 9 p.in_use ≡ true)
        × ((q : Pool) × (return error 9 p ≡ ok q)
            × (q.in_use ≡ remove 9 p.in_use)
            × (((w : ℕ) × (waiting F ℕ String p.waiting ≡ w ∷ waiting F ℕ String q.waiting)
                  × (q.waiting.settled ≡ p.waiting.settled ++ (w, resolve 9) ∷ [])
                  × (q.arriving ≡ 9 ∷ p.arriving)
                  × (F.items q.unused ≡ F.items p.unused))
                ⊎ ((waiting F ℕ String p.waiting ≡ [])
                    × (q.waiting ≡ p.waiting)
                    × (q.arriving ≡ p.arriving)
                    × (F.items q.unused ≡ F.items p.unused ++ 9 ∷ [])))))
return-oldest_example = return-oldest error 9 (get in_use_9)
