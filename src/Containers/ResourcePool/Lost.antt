-- ===== src/Containers/ResourcePool/Lost.antt =====
-- Places that the pool gives to no caller again.
use Prim.Native.String.{String}
use celeries.Base.{
  ℕ, suc, ◌+◌, ◌-◌, ◌≤◌, ◌≡◌, refl, ap, inl, inr, true, some, List, [], ◌∷◌, ◌++◌, length, arith,
}
use celeries.Base.Equality.{Eq}
use celeries.Base.Set.{member, member-add}
use celeries.Containers.Fifo.{Fifo}
use celeries.Containers.PromiseQueue
use celeries.Containers.PromiseQueue.{PromiseQueue, resolve}
use celeries.Containers.PromiseQueue.Order.{waiting}
use celeries.Containers.ResourcePool.{
  ResourcePool, get, created, create_failed, arrive, destroy_all, resume, destroy_unused, num_owned,
  num_in_use,
}
use celeries.Containers.ResourcePool.History.{
  Step, gets, creates, fails, arrives, returns, destroys, resumes,
}
use celeries.Containers.ResourcePool.Cases.{
  taking, creating_one, destroy_all-cases, get-take, get-create, get-queue, return-cases,
}

waiting-push :
    {T E : Type 0} {G : Fifo ℕ} (q : PromiseQueue G T E)
    → waiting G T E (PromiseQueue.push G T E q).1 ≡ waiting G T E q ++ q.next ∷ []
unfolding PromiseQueue.push
waiting-push {G} q = G.items-push q.queue q.next

module _ {T : Type 0} ⦃e : Eq T⦄ {F : Fifo T} {G : Fifo ℕ} {E : Type 0} where
  -- A call of `create` that fails leaves its place taken: when it was the last one, the next caller
  -- waits, though no more is in use, on its way or being created than before.
  pub get-create_failed-get :
      (p : ResourcePool F G E)
      → F.items p.unused ≡ []
      → suc p.resource_count ≡ p.max_resources
      → let q = get (create_failed (get p)) in
        (waiting G T E q.waiting ≡ waiting G T E p.waiting ++ p.waiting.next ∷ [])
        × (q.creating ≡ p.creating)
        × (q.in_use ≡ p.in_use)
        × (q.arriving ≡ p.arriving)
        × (F.items q.unused ≡ [])
  unfolding create_failed
  get-create_failed-get p empty last = rw (get-create p empty (omega arith)) (
      rw (get-queue (record (creating_one p) { creating = p.creating + 1 - 1 }) empty (omega arith))
        (waiting-push p.waiting, omega arith, refl, refl, empty))

  -- `destroyAll` does not wait for a resource that has been given to a caller of `get` and has not
  -- reached it: that one is not destroyed, and reaches its caller afterwards.
  pub get-destroy_all-arrive :
      (p : ResourcePool F G E) (r : T) (rest : List T)
      → p.in_use ≡ []
      → F.items p.unused ≡ r ∷ rest
      → let (replies, q) = destroy_all (get p) in
        (replies ≡ some rest) × (member r q.arriving ≡ true) × (member r (arrive r q).in_use ≡ true)
  unfolding arrive
  get-destroy_all-arrive p r rest idle there =
      let (t, left, taken) = get-take p r rest there in
      elim (destroy_all-cases (taking p r t)) [
        | inl (_, run) ↦
            rw (taken, run) (ap some left, ground (arith, e.beq_iff r r), member-add r p.in_use)
        | inr (busy, _) ↦ absurd (busy idle)
      ]

  -- The pool has nothing that could reach a caller, and no place left.
  record IsSpent (n : ℕ) (p : ResourcePool F G E) : Type 0 where
    none_used : p.in_use ≡ []
    none_arriving : p.arriving ≡ []
    none_creating : p.creating ≡ 0
    none_unused : F.items p.unused ≡ []
    counts : p.resource_count ≡ n
    full : p.max_resources ≤ p.resource_count

-- `error` makes the `Error` of a message.
module _ {T : Type 0} ⦃e : Eq T⦄ {F : Fifo T} {G : Fifo ℕ} {E : Type 0} (error : String → E) where
  -- What can happen to a pool from a state on.
  pub data After (p : ResourcePool F G E) : ResourcePool F G E → Type 0 where
    now : After p p
    then_ : {q r : ResourcePool F G E} → After p q → Step error q r → After p r

  Step-IsSpent : (n : ℕ) {p q : ResourcePool F G E} → Step error p q → IsSpent n p → IsSpent n q
  unfolding created create_failed arrive resume destroy_unused
  Step-IsSpent n (gets p) s = rw (get-queue p s.none_unused s.full) (record {
    none_used = s.none_used;
    none_arriving = s.none_arriving;
    none_creating = s.none_creating;
    none_unused = s.none_unused;
    counts = s.counts;
    full = s.full;
  })
  Step-IsSpent n (creates r p some_) s = absurd (omega (arith, some_, s.none_creating))
  Step-IsSpent n (fails p some_) s = absurd (omega (arith, some_, s.none_creating))
  Step-IsSpent n (arrives r p there) s = absurd (ground (arith, there, s.none_arriving))
  Step-IsSpent n (returns r p q run) s = elim (return-cases error r p) [
    | inl (_, refused) ↦ absurd (ground (arith, refused, run))
    | inr (mine, _) ↦ absurd (ground (arith, mine, s.none_used))
  ]
  Step-IsSpent n (destroys p) s = elim (destroy_all-cases p) [
    | inl (_, run) ↦ rw run (record {
      none_used = s.none_used;
      none_arriving = s.none_arriving;
      none_creating = s.none_creating;
      none_unused = F.items-empty;
      counts = s.counts;
      full = s.full;
    })
    | inr (busy, _) ↦ absurd (busy s.none_used)
  ]
  Step-IsSpent n (resumes p some_) s = record {
    none_used = s.none_used;
    none_arriving = s.none_arriving;
    none_creating = s.none_creating;
    none_unused = F.items-empty;
    counts = s.counts;
    full = s.full;
  }

  After-IsSpent : (n : ℕ) {p q : ResourcePool F G E} → After p q → IsSpent n p → IsSpent n q
  After-IsSpent n now s = s
  After-IsSpent n (then_ a step) s = Step-IsSpent n step (After-IsSpent n a s)

  -- `destroyAll` on a pool at its limit, with nothing in use, on its way or in the making, leaves the
  -- count as it was. Whatever happens afterwards, the pool reports all that it owned as in use, no
  -- resource is in use or on its way, and each further caller is put behind those that wait.
  pub destroy_all-get :
      (p q : ResourcePool F G E)
      → p.in_use ≡ []
      → p.arriving ≡ []
      → p.creating ≡ 0
      → p.max_resources ≤ p.resource_count
      → After (destroy_all p).1 q
      → (num_owned q ≡ num_owned p)
        × (num_in_use q ≡ num_owned p)
        × (q.in_use ≡ [])
        × (q.arriving ≡ [])
        × (waiting G T E (get q).waiting ≡ waiting G T E q.waiting ++ q.waiting.next ∷ [])
  unfolding num_owned num_in_use
  destroy_all-get p q idle quiet none_made full after = elim (destroy_all-cases p) [
    | inr (busy, _) ↦ absurd (busy idle)
    | inl (_, run) ↦
        let first : IsSpent p.resource_count (destroy_all p).1 = rw run (record {
          none_used = idle;
          none_arriving = quiet;
          none_creating = none_made;
          none_unused = F.items-empty;
          counts = refl;
          full = full;
        }) in
        let s = After-IsSpent p.resource_count after first in
        (
          s.counts,
          omega (arith, s.counts, F.size-items q.unused, ap length s.none_unused),
          s.none_used,
          s.none_arriving,
          rw (get-queue q s.none_unused s.full) (waiting-push q.waiting),
        )
  ]
