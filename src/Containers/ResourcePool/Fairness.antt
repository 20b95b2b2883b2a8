-- ===== src/Containers/ResourcePool/Fairness.antt =====
-- Who gets a resource that comes back.
use Prim.Native.String.{String}
use celeries.Base.{ℕ, ◌≡◌, refl, sym, ap, ◌∙◌, ◌⊎◌, inl, inr, true, false, [], ◌∷◌, ◌++◌}
use celeries.Base.Equality.{Eq}
use celeries.Base.Result.{ok, err}
use celeries.Base.Set.{member, remove}
use celeries.Containers.Fifo.{Fifo}
use celeries.Containers.PromiseQueue.{resolve}
use celeries.Containers.PromiseQueue.Order.{waiting}
use celeries.Containers.ResourcePool.{
  ResourcePool, create_pool, get, created, create_failed, arrive, return, destroy_all, resume,
  destroy_unused,
}
use celeries.Containers.ResourcePool.Cases.{
  get-cases, handing, storing, return-cases, return-ok, destroy_all-cases, ReturnCases, GetCases,
}
use celeries.Containers.ResourcePool.History.{
  Step, gets, creates, fails, arrives, returns, destroys, resumes, Reach, new, then_,
}

module _ {T : Type 0} ⦃e : Eq T⦄ {F : Fifo T} {G : Fifo ℕ} {E : Type 0} where
  -- Nobody waits while a resource is unused.
  abbrev pub IsFair : ResourcePool F G E → Type 0
  IsFair p = (F.items p.unused ≡ []) ⊎ (waiting G T E p.waiting ≡ [])

  get-IsFair : (p q : ResourcePool F G E) → GetCases p q → IsFair p → IsFair q
  get-IsFair p q (inl (a, rest, there, is)) (inl none_left_) = cc (sym there ∙ none_left_)
  get-IsFair p q (inl (a, rest, there, is)) (inr nobody) = rw is (inr nobody)
  get-IsFair p q (inr (inl (empty, room, is))) f = rw is (inl empty)
  get-IsFair p q (inr (inr (empty, full, is))) f = rw is (inl empty)

  return-IsFair : (r : T) (p q : ResourcePool F G E) → ReturnCases r p q → IsFair p → IsFair q
  return-IsFair r p q (inl (w, queue, first, _, is)) (inl empty) = rw is (inl empty)
  return-IsFair r p q (inl (w, queue, first, _, is)) (inr nobody) = cc (sym first ∙ nobody)
  return-IsFair r p q (inr (nobody, is)) f = rw is (inr nobody)

  destroy_all-IsFair : (p : ResourcePool F G E) → IsFair p → IsFair (destroy_all p).1
  destroy_all-IsFair p f = elim (destroy_all-cases p) [
    | inl (_, run) ↦ rw run (inl F.items-empty)
    | inr (_, run) ↦ rw run f
  ]

  Step-IsFair :
      (error : String → E) {p q : ResourcePool F G E} → Step error p q → IsFair p → IsFair q
  unfolding created create_failed arrive resume destroy_unused
  Step-IsFair error (gets p) f = get-IsFair p (get p) (get-cases p) f
  Step-IsFair error (creates r p h) f = f
  Step-IsFair error (fails p h) f = f
  Step-IsFair error (arrives r p h) f = f
  Step-IsFair error (returns r p q run) f = return-IsFair r p q (return-ok error r p q run).1 f
  Step-IsFair error (destroys p) f = destroy_all-IsFair p f
  Step-IsFair error (resumes p h) f = inl F.items-empty

  -- In every state that the pool can reach nobody waits while a resource is unused.
  pub Reach-IsFair :
      (error : String → E) (n : ℕ) (p : ResourcePool F G E) → Reach error n p → IsFair p
  unfolding create_pool
  Reach-IsFair error n p new = inl F.items-empty
  Reach-IsFair error n p (then_ {p = q} r s) = Step-IsFair error s (Reach-IsFair error n q r)

  -- A returned resource goes to the caller that has waited longest, and to the unused ones only if
  -- nobody waits. A resource that is not in use is refused.
  pub return-oldest :
      (error : String → E) (r : T) (p : ResourcePool F G E)
      → ((member r p.in_use ≡ false)
          × (return error r p ≡ err (error "resource does not belong to this pool")))
        ⊎ ((member r p.in_use ≡ true)
            × ((q : ResourcePool F G E) × (return error r p ≡ ok q)
                × (q.in_use ≡ remove r p.in_use)
                × (((w : ℕ) × (waiting G T E p.waiting ≡ w ∷ waiting G T E q.waiting)
                      × (q.waiting.settled ≡ p.waiting.settled ++ (w, resolve r) ∷ [])
                      × (q.arriving ≡ r ∷ p.arriving)
                      × (F.items q.unused ≡ F.items p.unused))
                    ⊎ ((waiting G T E p.waiting ≡ [])
                        × (q.waiting ≡ p.waiting)
                        × (q.arriving ≡ p.arriving)
                        × (F.items q.unused ≡ F.items p.unused ++ r ∷ [])))))
  return-oldest error r p = elim (return-cases error r p) [
    | inl foreign ↦ inl foreign
    | inr (mine, (q, run, inl (w, queue, first, settled, is))) ↦
        inr (mine, (handing r queue p, run ∙ ap ok is, refl, inl (w, first, settled, refl, refl)))
    | inr (mine, (q, run, inr (nobody, is))) ↦ inr (
      mine,
      (storing r p, run ∙ ap ok is, refl, inr (nobody, refl, refl, F.items-push p.unused r)),
    )
  ]
