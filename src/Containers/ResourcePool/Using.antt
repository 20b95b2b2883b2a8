-- ===== src/Containers/ResourcePool/Using.antt =====
-- What `returnAfter` and `use` do with their resource.
use Prim.Native.String.{String}
use celeries.Base.{
  ℕ, ◌≡◌, sym, ap, ◌∙◌, inl, inr, true, false, arith, Option, none, some, Bool-cases, refl,
}
use celeries.Base.Equality.{Eq}
use celeries.Base.Result.{Result, ok, err, Result-cases}
use celeries.Base.Set.{member, remove, member-add, member-of-add, member-of-remove}
use celeries.Containers.Fifo.{Fifo}
use celeries.Containers.ResourcePool.{
  ResourcePool, arrive, return, return_after, return_and_reject, use_resource, get, created,
  create_failed, destroy_all, resume, destroy_unused,
}
use celeries.Containers.ResourcePool.Cases.{return-cases, return-ok, get-cases, destroy_all-cases}
use celeries.Containers.ResourcePool.History.{
  arrives, returns, Reach, then_, Step, gets, creates, fails, destroys, resumes,
}

module _ {T : Type 0} ⦃e : Eq T⦄ {F : Fifo T} {G : Fifo ℕ} {E : Type 0} (error : String → E) where
  return_after-run {ℓ} :
      {U : Type ℓ} (result : Result E U) (r : T) (p q : ResourcePool F G E)
      → return error r p ≡ ok q
      → return_after error result r p ≡ (q, result)
  unfolding return_after return_and_reject
  return_after-run (ok v) r p q run = ground (arith, run)
  return_after-run (err reason) r p q run = ground (arith, run)

  return_after-refused {ℓ} :
      {U : Type ℓ} (result : Result E U) (r : T) (p : ResourcePool F G E) (x : E)
      → return error r p ≡ err x
      → return_after error result r p ≡ (p, err x)
  unfolding return_after return_and_reject
  return_after-refused (ok v) r p x run = ground (arith, run)
  return_after-refused (err reason) r p x run = ground (arith, run)

  -- What a resource that is in use goes back by, and what it leaves.
  return_after-return {ℓ} :
      {U : Type ℓ} (result : Result E U) (r : T) (p : ResourcePool F G E)
      → member r p.in_use ≡ true
      → (q : ResourcePool F G E) × (return error r p ≡ ok q)
        × (q.in_use ≡ remove r p.in_use)
        × (return_after error result r p ≡ (q, result))
  return_after-return result r p used = elim (return-cases error r p) [
    | inl (foreign, _) ↦ cc (sym foreign ∙ used)
    | inr (mine, (q, run, inl (w, queue, first, settled, is))) ↦
        (q, run, ap (λ x. x.in_use) is, return_after-run result r p q run)
    | inr (mine, (q, run, inr (nobody, is))) ↦
        (q, run, ap (λ x. x.in_use) is, return_after-run result r p q run)
  ]

  pub use_resource-member {ℓ} :
      {U : Type ℓ} (result : Result E U) (r : T) (p : ResourcePool F G E)
      → member r p.in_use ≡ true
      → (q : ResourcePool F G E) × (return error r p ≡ ok q)
        × (q.in_use ≡ remove r p.in_use)
        × (use_resource error result r p ≡ (q, result))
  unfolding use_resource
  use_resource-member result r p used = return_after-return result r p used

  -- `returnAfter` of a resource that is not in use changes nothing and fails with the error of
  -- `return`, whatever the promise came to.
  pub return_after-foreign {ℓ} :
      {U : Type ℓ} (result : Result E U) (r : T) (p : ResourcePool F G E)
      → member r p.in_use ≡ false
      → return_after error result r p ≡ (p, err (error "resource does not belong to this pool"))
  return_after-foreign result r p foreign = elim (return-cases error r p) [
    | inl (_, run) ↦ return_after-refused result r p _ run
    | inr (mine, _) ↦ cc (sym foreign ∙ mine)
  ]

  -- It is a part of a history of the pool.
  return_after-Reach {ℓ} :
      {U : Type ℓ} (n : ℕ) (outcome : Result E U) (r : T) (p : ResourcePool F G E)
      → Reach error n p
      → Reach error n (return_after error outcome r p).0
  return_after-Reach n outcome r p reached = elim (Result-cases (return error r p)) [
    | inl (q, run) ↦ rw (return_after-run outcome r p q run) (then_ reached (returns r p q run))
    | inr (x, run) ↦ rw (return_after-refused outcome r p x run) reached
  ]

  pub use_resource-Reach {ℓ} :
      {U : Type ℓ} (n : ℕ) (outcome : Result E U) (r : T) (p : ResourcePool F G E)
      → Reach error n p
      → Reach error n (use_resource error outcome r p).0
  unfolding use_resource
  use_resource-Reach n outcome r p reached = return_after-Reach n outcome r p reached

  -- The resource that a step returns.
  abbrev pub returned : {p q : ResourcePool F G E} → Step error p q → Option T
  returned (returns r p q run) = some r
  returned _ = none

  -- What happens while a callback has the resource, other than that someone returns it.
  pub data During (r : T) (p : ResourcePool F G E) : ResourcePool F G E → Type 0 where
    starts : During r p p
    goes_on :
        {q q' : ResourcePool F G E}
        → During r p q
        → (s : Step error q q') → ¬ (returned s ≡ some r)
        → During r p q'

  get-in_use : (p : ResourcePool F G E) → (get p).in_use ≡ p.in_use
  get-in_use p = elim (get-cases p) [
    | inl (a, rest, _, is) ↦ ap (λ x. x.in_use) is
    | inr (inl (_, _, is)) ↦ ap (λ x. x.in_use) is
    | inr (inr (_, _, is)) ↦ ap (λ x. x.in_use) is
  ]

  destroy_all-in_use : (p : ResourcePool F G E) → (destroy_all p).1.in_use ≡ p.in_use
  destroy_all-in_use p = elim (destroy_all-cases p) [
    | inl (_, run) ↦ rw run refl
    | inr (_, run) ↦ rw run refl
  ]

  return-in_use :
      (r : T) (p q : ResourcePool F G E) → return error r p ≡ ok q → q.in_use ≡ remove r p.in_use
  return-in_use r p q run = elim (return-ok error r p q run).1 [
    | inl (w, queue, first, settled, is) ↦ ap (λ x. x.in_use) is
    | inr (nobody, is) ↦ ap (λ x. x.in_use) is
  ]

  Step-in_use :
      (r : T) {p q : ResourcePool F G E} (s : Step error p q)
      → ¬ (returned s ≡ some r)
      → member r p.in_use ≡ true
      → member r q.in_use ≡ true
  unfolding created create_failed arrive resume destroy_unused
  Step-in_use r (gets p) other used = ap (member r) (get-in_use p) ∙ used
  Step-in_use r (creates c p some_) other used = used
  Step-in_use r (fails p some_) other used = used
  Step-in_use r (arrives c p there) other used = member-of-add r c p.in_use used
  Step-in_use r (returns c p q run) other used =
      let differs : e.beq c r ≡ false = elim (Bool-cases (e.beq c r)) [
        | inl same ↦ absurd (other (ap some ((e.beq_iff c r).0 same)))
        | inr no_ ↦ no_
      ] in
      ap (member r) (return-in_use c p q run) ∙ member-of-remove r c p.in_use differs used
  Step-in_use r (destroys p) other used = ap (member r) (destroy_all-in_use p) ∙ used
  Step-in_use r (resumes p some_) other used = used

  During-in_use :
      (r : T) {p q : ResourcePool F G E}
      → During r p q
      → member r p.in_use ≡ true
      → member r q.in_use ≡ true
  During-in_use r starts used = used
  During-in_use r (goes_on d s other) used = Step-in_use r s other (During-in_use r d used)

  -- The resource of `use` is in use from its arrival until the callback has settled, whatever happens
  -- to the pool meanwhile, but for a return of this resource. Then `use` returns it, whether the
  -- callback has succeeded or failed, and its caller gets what the callback came to.
  pub use_resource-return {ℓ} :
      {U : Type ℓ} (result : Result E U) (r : T) (p q : ResourcePool F G E)
      → During r (arrive r p) q
      → (member r q.in_use ≡ true)
        × (q' : ResourcePool F G E) × (return error r q ≡ ok q')
        × (q'.in_use ≡ remove r q.in_use)
        × (use_resource error result r q ≡ (q', result))
  unfolding use_resource arrive
  use_resource-return result r p q during =
      let used = During-in_use r during (member-add r p.in_use) in
      let (q', run, left, is) = return_after-return result r q used in (used, q', run, left, is)
