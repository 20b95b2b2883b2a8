-- ===== src/Containers/PromiseQueue/Order.antt =====
-- The order in which queued promises are settled.
use celeries.Base.{
  ℕ, zero, suc, ◌+◌, ◌<◌, ◌≡◌, refl, sym, ◌∙◌, ◌⊎◌, inl, inr, true, false, Option, some, List, [],
  ◌∷◌, ◌++◌, map, append_assoc, append-nil, map-append, arith, length,
}
use celeries.Containers.Fifo.{Fifo}
use celeries.Containers.PromiseQueue.{
  Settlement, resolve, reject, PromiseQueue, create, push, settle_one, resolve_one, reject_one,
  resolve_all, reject_all, count_while, invoke_while,
}

-- The promises that were given out before the `n`-th, in order.
abbrev pub given_out : ℕ → List ℕ
given_out zero = []
given_out (suc n) = given_out n ++ n ∷ []

module _ (F : Fifo ℕ) (V E : Type 0) where
  abbrev pub waiting : PromiseQueue F V E → List ℕ
  waiting q = F.items q.queue

  abbrev pub who : List (ℕ × Settlement V E) → List ℕ
  who = map (λ s. s.0)

  -- Every promise that was given out is settled once or waits, and both are in the order of `push`.
  abbrev pub IsOrdered : PromiseQueue F V E → Type 0
  IsOrdered q = who q.settled ++ waiting q ≡ given_out q.next

  pub create-IsOrdered : IsOrdered (create F V E)
  unfolding create
  create-IsOrdered = F.items-empty

  -- `push` gives out a new promise and puts it last.
  pub push-IsOrdered : (q : PromiseQueue F V E) → IsOrdered q → IsOrdered (push F V E q).1
  unfolding push
  push-IsOrdered q o = rw (F.items-push q.queue q.next, ← append_assoc, o)

  -- Without a waiting promise nothing happens and the result is false. Otherwise the promise that
  -- has waited longest is settled, with the argument, and the result is true.
  pub settle_one-first :
      (argument : Settlement V E) (q : PromiseQueue F V E)
      → ((waiting q ≡ []) × (settle_one F V E argument q ≡ (false, q)))
        ⊎ ((p : ℕ) × (r : PromiseQueue F V E) × (settle_one F V E argument q ≡ (true, r))
            × (waiting q ≡ p ∷ waiting r)
            × (r.settled ≡ q.settled ++ (p, argument) ∷ [])
            × (r.next ≡ q.next))
  unfolding settle_one
  settle_one-first argument q = elim (F.shift-items q.queue) [
    | inl (e, s) ↦ inl (e, rw (s, settle_one))
    | inr (p, t, e, s) ↦ inr (
      p,
      record { queue = t; next = q.next; settled = q.settled ++ (p, argument) ∷ [] },
      rw s,
      e,
      refl,
      refl,
    )
  ]

  pub settle_one-IsOrdered :
      (argument : Settlement V E) (q : PromiseQueue F V E)
      → IsOrdered q
      → IsOrdered (settle_one F V E argument q).1
  settle_one-IsOrdered argument q o = elim (settle_one-first argument q) [
    | inl (e, s) ↦ rw s o
    | inr (p, r, s, e, l, n) ↦ rw (s, l, n, map-append) (rw append_assoc (rw (← e) o))
  ]

  abbrev pub AllSettled :
      Settlement V E → PromiseQueue F V E → List ℕ → ℕ → Option (ℕ × PromiseQueue F V E) → Type 0
  AllSettled argument q ps n result =
      (r : PromiseQueue F V E) × (result ≡ some (n + length ps, r))
      × (waiting r ≡ [])
      × (r.next ≡ q.next)
      × (r.settled ≡ q.settled ++ map (λ p. (p, argument)) ps)

  count_while-AllSettled :
      (argument : Settlement V E) (ps : List ℕ) (q : PromiseQueue F V E) (fuel n : ℕ)
      → waiting q ≡ ps
      → length ps < fuel
      → AllSettled argument q ps n (count_while fuel (settle_one F V E argument) n q)
  unfolding count_while
  count_while-AllSettled argument ps q zero n w f = absurd (omega arith)
  count_while-AllSettled argument [] q (suc fuel) n w f = elim (settle_one-first argument q) [
    | inl (e, s) ↦ (q, ground (arith, s), w, refl, rw append-nil)
    | inr (p, r, s, e, l, k) ↦ cc (sym w ∙ e)
  ]
  count_while-AllSettled argument (p ∷ ps) q (suc fuel) n w f = elim (settle_one-first argument q) [
    | inl (e, s) ↦ cc (sym w ∙ e)
    | inr (p', r, s, e, l, k) ↦
        let (r', run, w', k', l') =
          count_while-AllSettled argument ps r fuel (n + 1) (ground arith) (omega arith) in
        (
          r',
          ground (arith, s, run),
          w',
          k' ∙ k,
          ground (arith, append_assoc q.settled ((p, argument) ∷ []) (map (λ p. (p, argument)) ps)),
        )
  ]

  -- `resolveAll` ends, settles every waiting promise, in order, with the one value, and returns how
  -- many there were.
  pub resolve_all-AllSettled :
      (value : V) (q : PromiseQueue F V E)
      → AllSettled (resolve value) q (waiting q) 0 (resolve_all F V E value q)
  unfolding resolve_all resolve_one invoke_while
  resolve_all-AllSettled value q =
      count_while-AllSettled (resolve value) (waiting q) q (suc (F.size q.queue)) 0 refl
        (omega (arith, F.size-items q.queue))

  -- `rejectAll` does so with the one reason.
  pub reject_all-AllSettled :
      (reason : E) (q : PromiseQueue F V E)
      → AllSettled (reject reason) q (waiting q) 0 (reject_all F V E reason q)
  unfolding reject_all reject_one invoke_while
  reject_all-AllSettled reason q =
      count_while-AllSettled (reject reason) (waiting q) q (suc (F.size q.queue)) 0 refl
        (omega (arith, F.size-items q.queue))
