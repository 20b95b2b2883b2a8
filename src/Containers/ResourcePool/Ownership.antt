-- ===== src/Containers/ResourcePool/Ownership.antt =====
-- A resource is with one owner at a time.
use Prim.Native.String.{String}
use celeries.Base.{ℕ, ◌+◌, ◌≤◌, ◌≡◌, refl, ap, inl, inr, true, [], arith, Bool-cases}
use celeries.Base.Equality.{Eq}
use celeries.Base.Set.{member, times, times-remove, times-add, times-snoc}
use celeries.Containers.Fifo.{Fifo}
use celeries.Containers.ResourcePool.{
  ResourcePool, create_pool, get, created, create_failed, arrive, destroy_all, resume,
  destroy_unused,
}
use celeries.Containers.ResourcePool.Cases.{
  get-cases, return-ok, destroy_all-cases, ReturnCases, GetCases,
}
use celeries.Containers.ResourcePool.History.{
  gets, creates, fails, arrives, returns, destroys, resumes, Reach, new, then_,
}

module _ {T : Type 0} ⦃e : Eq T⦄ {F : Fifo T} {G : Fifo ℕ} {E : Type 0} where
  -- How often the pool has a resource: unused, on its way to a caller, or in use.
  abbrev pub copies : T → ResourcePool F G E → ℕ
  copies r p = times r (F.items p.unused) + times r p.in_use + times r p.arriving

  get-copies : (r : T) (p q : ResourcePool F G E) → GetCases p q → copies r q ≡ copies r p
  unfolding times
  get-copies r p q (inl (a, rest, there, is)) = rw (is, there) (ground arith)
  get-copies r p q (inr (inl (empty, room, is))) = rw is
  get-copies r p q (inr (inr (empty, full, is))) = rw is

  return-copies :
      (r a : T) (p q : ResourcePool F G E)
      → member a p.in_use ≡ true
      → ReturnCases a p q
      → copies r q ≡ copies r p
  unfolding times
  return-copies r a p q mine (inl (w, queue, _, _, is)) =
      rw is (ground (arith, times-remove r a p.in_use mine))
  return-copies r a p q mine (inr (_, is)) = rw is (
      rw (F.items-push p.unused a)
        (ground (arith, times-remove r a p.in_use mine, times-snoc r a (F.items p.unused))))

  arrive-copies :
      (r a : T) (p : ResourcePool F G E)
      → member a p.arriving ≡ true
      → copies r (arrive a p) ≤ copies r p
  unfolding arrive
  arrive-copies r a p here =
      ground (arith, times-remove r a p.arriving here, times-add r a p.in_use)

  emptied-copies :
      (r : T) (p q : ResourcePool F G E)
      → F.items q.unused ≡ []
      → (q.in_use ≡ p.in_use) × (q.arriving ≡ p.arriving)
      → copies r q ≤ copies r p
  unfolding times
  emptied-copies r p q empty (i, a) = rw (empty, i, a) (omega arith)

  destroy_all-copies : (r : T) (p : ResourcePool F G E) → copies r (destroy_all p).1 ≤ copies r p
  destroy_all-copies r p = elim (destroy_all-cases p) [
    | inl (_, run) ↦
        rw run (emptied-copies r p (record p { unused = F.empty }) F.items-empty (refl, refl))
    | inr (_, run) ↦ rw run (omega arith)
  ]

  created-copies :
      (r a : T) (p : ResourcePool F G E)
      → copies a p ≡ 0
      → copies r p ≤ 1
      → copies r (created a p) ≤ 1
  unfolding created times
  created-copies r a p fresh once = elim (Bool-cases (e.beq a r)) [
    | inl same ↦
        let it : a ≡ r = (e.beq_iff a r).0 same in rw same (omega (arith, ap (λ x. copies x p) it))
    | inr other ↦ rw other once
  ]

  -- Each resource that `create` made was not in the pool.
  abbrev AllFresh : {error : String → E} {n : ℕ} {p : ResourcePool F G E} → Reach error n p → Type 0
  AllFresh new = Unit {0}
  AllFresh (then_ r (creates a p h)) = AllFresh r × (copies a p ≡ 0)
  AllFresh (then_ r (gets _)) = AllFresh r
  AllFresh (then_ r (fails _ _)) = AllFresh r
  AllFresh (then_ r (arrives _ _ _)) = AllFresh r
  AllFresh (then_ r (returns _ _ _ _)) = AllFresh r
  AllFresh (then_ r (destroys _)) = AllFresh r
  AllFresh (then_ r (resumes _ _)) = AllFresh r

  -- If `create` makes a new resource each time, no resource is ever with two owners: unused and in
  -- use, delivered to two callers, or unused twice.
  pub Reach-copies :
      (error : String → E) (n : ℕ) (p : ResourcePool F G E) (h : Reach error n p) (r : T)
      → AllFresh h
      → copies r p ≤ 1
  unfolding create_pool created create_failed resume destroy_unused times
  Reach-copies error n p new r f = rw F.items-empty (omega arith)
  Reach-copies error n q (then_ h (gets p)) r f =
      rw (get-copies r p (get p) (get-cases p)) (Reach-copies error n p h r f)
  Reach-copies error n q (then_ h (creates a p k)) r f =
      created-copies r a p f.1 (Reach-copies error n p h r f.0)
  Reach-copies error n q (then_ h (fails p k)) r f = Reach-copies error n p h r f
  Reach-copies error n q (then_ h (arrives a p k)) r f =
      omega (arith, arrive-copies r a p k, Reach-copies error n p h r f)
  Reach-copies error n q (then_ h (returns a p _ run)) r f =
      let (mine, c) = return-ok error a p q run in
      rw (return-copies r a p q mine c) (Reach-copies error n p h r f)
  Reach-copies error n q (then_ h (destroys p)) r f =
      omega (arith, destroy_all-copies r p, Reach-copies error n p h r f)
  Reach-copies error n q (then_ h (resumes p k)) r f = omega (
    arith,
    emptied-copies r p (resume p).1 F.items-empty (refl, refl),
    Reach-copies error n p h r f,
  )
