-- ===== src/Containers/PromiseQueue/History.antt =====
-- The order of settlement over a whole history of a queue.
use celeries.Base.{
  ℕ, ◌≡◌, refl, ap, Option, none, some, List, [], ◌∷◌, ◌++◌, map, append-nil, map-append,
}
use celeries.Containers.Fifo.{Fifo}
use celeries.Containers.PromiseQueue.{
  Settlement, resolve, reject, PromiseQueue, create, push, resolve_one, reject_one, resolve_all,
  reject_all,
}
use celeries.Containers.PromiseQueue.Order.{
  waiting, who, given_out, IsOrdered, create-IsOrdered, push-IsOrdered, settle_one-IsOrdered,
  AllSettled, resolve_all-AllSettled, reject_all-AllSettled,
}

pub data Call (V E : Type 0) : Type 0 where
  pushes : Call V E
  resolves_one : V → Call V E
  rejects_one : E → Call V E
  resolves_all : V → Call V E
  rejects_all : E → Call V E

module _ (F : Fifo ℕ) (V E : Type 0) where
  abbrev after : PromiseQueue F V E → Option (ℕ × PromiseQueue F V E) → PromiseQueue F V E
  after q none = q
  after q (some (n, r)) = r

  pub step : PromiseQueue F V E → Call V E → PromiseQueue F V E
  step q pushes = (push F V E q).1
  step q (resolves_one v) = (resolve_one F V E v q).1
  step q (rejects_one x) = (reject_one F V E x q).1
  step q (resolves_all v) = after q (resolve_all F V E v q)
  step q (rejects_all x) = after q (reject_all F V E x q)

  pub run : PromiseQueue F V E → List (Call V E) → PromiseQueue F V E
  run q [] = q
  run q (c ∷ cs) = run (step q c) cs

  who-map : (argument : Settlement V E) (ps : List ℕ) → who F V E (map (λ p. (p, argument)) ps) ≡ ps
  who-map argument [] = refl
  who-map argument (p ∷ ps) = ap (◌∷◌ p) (who-map argument ps)

  all-IsOrdered :
      (argument : Settlement V E) (q : PromiseQueue F V E) (o : Option (ℕ × PromiseQueue F V E))
      → AllSettled F V E argument q (waiting F V E q) 0 o
      → IsOrdered F V E q
      → IsOrdered F V E (after q o)
  all-IsOrdered argument q o (r, is, empty, next, settled) i =
      rw (is, empty, settled, next, append-nil, map-append, who-map argument (waiting F V E q)) i

  step-IsOrdered :
      (q : PromiseQueue F V E) (c : Call V E) → IsOrdered F V E q → IsOrdered F V E (step q c)
  unfolding step resolve_one reject_one
  step-IsOrdered q pushes i = push-IsOrdered F V E q i
  step-IsOrdered q (resolves_one v) i = settle_one-IsOrdered F V E (resolve v) q i
  step-IsOrdered q (rejects_one x) i = settle_one-IsOrdered F V E (reject x) q i
  step-IsOrdered q (resolves_all v) i =
      all-IsOrdered (resolve v) q (resolve_all F V E v q) (resolve_all-AllSettled F V E v q) i
  step-IsOrdered q (rejects_all x) i =
      all-IsOrdered (reject x) q (reject_all F V E x q) (reject_all-AllSettled F V E x q) i

  run-IsOrdered :
      (q : PromiseQueue F V E) (cs : List (Call V E))
      → IsOrdered F V E q
      → IsOrdered F V E (run q cs)
  unfolding run
  run-IsOrdered q [] i = i
  run-IsOrdered q (c ∷ cs) i = run-IsOrdered (step q c) cs (step-IsOrdered q c i)

  -- After any calls on a new queue, the promises that have been settled, in the order in which they
  -- were, and then those that wait, in their order, are exactly the promises that `push` has given
  -- out, in the order in which it did: none is settled twice, lost, or overtaken.
  pub run-create :
      (cs : List (Call V E))
      → let q = run (create F V E) cs in who F V E q.settled ++ waiting F V E q ≡ given_out q.next
  run-create cs = run-IsOrdered (create F V E) cs (create-IsOrdered F V E)
