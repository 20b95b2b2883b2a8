-- ===== src/Containers/PromiseQueue/Tests.antt =====
-- The theorems at a queue over the doubly-linked list.
use Prim.Native.String.{String}
use celeries.Base.{ℕ, ◌≡◌, ◌⊎◌, true, false, List, [], ◌∷◌, ◌++◌}
use celeries.Containers.Fifo.{Fifo, linked_fifo}
use celeries.Containers.PromiseQueue.{
  resolve, reject, PromiseQueue, create, push, settle_one, resolve_all, reject_all,
}
use celeries.Containers.PromiseQueue.Order.{
  waiting, who, given_out, AllSettled, settle_one-first, resolve_all-AllSettled,
  reject_all-AllSettled,
}
use celeries.Containers.PromiseQueue.History.{
  Call, pushes, resolves_one, rejects_all, run, run-create,
}

abbrev F : Fifo ℕ
F = linked_fifo

abbrev two : PromiseQueue F ℕ String
two = (push F ℕ String (push F ℕ String (create F ℕ String)).1).1

settle_one-first_test :
    ((waiting F ℕ String two ≡ []) × (settle_one F ℕ String (resolve 7) two ≡ (false, two)))
    ⊎ ((p : ℕ) × (r : PromiseQueue F ℕ String) × (settle_one F ℕ String (resolve 7) two ≡ (true, r))
        × (waiting F ℕ String two ≡ p ∷ waiting F ℕ String r)
        × (r.settled ≡ two.settled ++ (p, resolve 7) ∷ [])
        × (r.next ≡ two.next))
settle_one-first_test = settle_one-first F ℕ String (resolve 7) two

resolve_all-AllSettled_example :
    AllSettled F ℕ String (resolve 7) two (waiting F ℕ String two) 0 (resolve_all F ℕ String 7 two)
resolve_all-AllSettled_example = resolve_all-AllSettled F ℕ String 7 two

reject_all_test :
    AllSettled F ℕ String
      (reject "no")
      two
      (waiting F ℕ String two)
      0
      (reject_all F ℕ String "no" two)
reject_all_test = reject_all-AllSettled F ℕ String "no" two

abbrev calls : List (Call ℕ String)
calls = pushes ∷ pushes ∷ resolves_one 7 ∷ pushes ∷ rejects_all "no" ∷ []

run-create_example :
    let q = run F ℕ String (create F ℕ String) calls in
    who F ℕ String q.settled ++ waiting F ℕ String q ≡ given_out q.next
run-create_example = run-create F ℕ String calls
