-- ===== src/Containers/ResourcePool/Bounds.antt =====
-- The pool never has more resources than its limit, whatever its callers do.
use Prim.Native.String.{String}
use celeries.Base.{
  ℕ, ◌+◌, ◌≤◌, ◌≡◌, refl, ap, ◌∙◌, inl, inr, true, List, [], ◌∷◌, length, length-snoc, arith,
}
use celeries.Base.Equality.{Eq}
use celeries.Base.Set.{member, length-remove, length-add}
use celeries.Containers.Fifo.{Fifo}
use celeries.Containers.PromiseQueue
use celeries.Containers.ResourcePool.{
  ResourcePool, create_pool, get, created, create_failed, arrive, destroy_all, resume,
  destroy_unused, num_owned, num_in_use, num_unused,
}
use celeries.Containers.ResourcePool.Cases.{
  get-cases, get-queue, return-ok, destroy_all-cases, ReturnCases, GetCases,
}
use celeries.Containers.ResourcePool.History.{
  Step, gets, creates, fails, arrives, returns, destroys, resumes, Reach, new, then_,
}

empty_of : {A : Type 0} (xs : List A) → length xs ≡ 0 → xs ≡ []
empty_of [] h = refl
empty_of (x ∷ xs) h = absurd (omega arith)

module _ {T : Type 0} ⦃e : Eq T⦄ {F : Fifo T} {G : Fifo ℕ} {E : Type 0} where
  -- Unused, in use, about to be delivered, or being created.
  abbrev pub live : ResourcePool F G E → ℕ
  live p = length (F.items p.unused) + length p.in_use + length p.arriving + p.creating

  record IsBounded (n : ℕ) (p : ResourcePool F G E) : Type 0 where
    counted : live p ≤ p.resource_count
    limited : p.resource_count ≤ n
    pub limit : p.max_resources ≡ n

  get-IsBounded : (n : ℕ) (p q : ResourcePool F G E) → GetCases p q → IsBounded n p → IsBounded n q
  get-IsBounded n p q (inl (a, rest, there, is)) b = rw is (record {
    counted = omega (arith, b.counted, ap length there);
    limited = b.limited;
    limit = b.limit;
  })
  get-IsBounded n p q (inr (inl (empty, room, is))) b = rw is (record {
    counted = omega (arith, b.counted);
    limited = omega (arith, b.limit);
    limit = b.limit;
  })
  get-IsBounded n p q (inr (inr (empty, full, is))) b =
      rw is (record { counted = b.counted; limited = b.limited; limit = b.limit })

  return-IsBounded :
      (n : ℕ) (r : T) (p q : ResourcePool F G E)
      → member r p.in_use ≡ true
      → ReturnCases r p q
      → IsBounded n p
      → IsBounded n q
  return-IsBounded n r p q mine (inl (w, queue, _, _, is)) b = rw is (record {
    counted = omega (arith, b.counted, length-remove r p.in_use mine);
    limited = b.limited;
    limit = b.limit;
  })
  return-IsBounded n r p q mine (inr (_, is)) b = rw is (record {
    counted = omega (
      arith,
      b.counted,
      length-remove r p.in_use mine,
      ap length (F.items-push p.unused r),
      length-snoc (F.items p.unused) r,
    );
    limited = b.limited;
    limit = b.limit;
  })

  emptied-IsBounded :
      (n : ℕ) (p q : ResourcePool F G E)
      → IsBounded n p
      → F.items q.unused ≡ []
      → (q.in_use ≡ p.in_use)
        × (q.arriving ≡ p.arriving)
        × (q.creating ≡ p.creating)
        × (q.resource_count ≡ p.resource_count)
        × (q.max_resources ≡ p.max_resources)
      → IsBounded n q
  emptied-IsBounded n p q b empty (i, a, c, c', m) = record {
    counted = rw (empty, i, a, c, c') (omega (arith, b.counted));
    limited = rw c' b.limited;
    limit = m ∙ b.limit;
  }

  destroy_all-IsBounded :
      (n : ℕ) (p : ResourcePool F G E) → IsBounded n p → IsBounded n (destroy_all p).1
  destroy_all-IsBounded n p b = elim (destroy_all-cases p) [
    | inl (_, run) ↦ rw run (emptied-IsBounded n p _ b F.items-empty (refl, refl, refl, refl, refl))
    | inr (_, run) ↦ rw run (record { counted = b.counted; limited = b.limited; limit = b.limit })
  ]

  Step-IsBounded :
      (error : String → E) (n : ℕ) {p q : ResourcePool F G E}
      → Step error p q
      → IsBounded n p
      → IsBounded n q
  unfolding created create_failed arrive resume destroy_unused
  Step-IsBounded error n (gets p) b = get-IsBounded n p (get p) (get-cases p) b
  Step-IsBounded error n (creates r p h) b = record {
    counted = omega (arith, b.counted);
    limited = b.limited;
    limit = b.limit;
  }
  Step-IsBounded error n (fails p h) b = record {
    counted = omega (arith, b.counted);
    limited = b.limited;
    limit = b.limit;
  }
  Step-IsBounded error n (arrives r p h) b = record {
    counted = omega (arith, b.counted, length-remove r p.arriving h, length-add r p.in_use);
    limited = b.limited;
    limit = b.limit;
  }
  Step-IsBounded error n (returns r p q run) b =
      let (mine, c) = return-ok error r p q run in return-IsBounded n r p q mine c b
  Step-IsBounded error n (destroys p) b = destroy_all-IsBounded n p b
  Step-IsBounded error n (resumes p h) b =
      emptied-IsBounded n p _ b F.items-empty (refl, refl, refl, refl, refl)

  Reach-IsBounded :
      (error : String → E) (n : ℕ) {p : ResourcePool F G E} → Reach error n p → IsBounded n p
  unfolding create_pool
  Reach-IsBounded error n new = record {
    counted = omega (arith, ap length F.items-empty);
    limited = omega arith;
    limit = refl;
  }
  Reach-IsBounded error n (then_ r s) = Step-IsBounded error n s (Reach-IsBounded error n r)

  -- In every state of a pool with the limit `n` the resources that are unused, in use, on their way
  -- to a caller or being created are at most `numOwned()`, which is at most `n`, and `numOwned()` is
  -- the sum of `numInUse()` and `numUnused()`.
  pub Reach-live :
      (error : String → E) (n : ℕ) (p : ResourcePool F G E)
      → Reach error n p
      → (live p ≤ num_owned p) × (num_owned p ≤ n) × (num_in_use p + num_unused p ≡ num_owned p)
  unfolding num_in_use num_unused num_owned
  Reach-live error n p r =
      let b = Reach-IsBounded error n r in
      (b.counted, b.limited, omega (arith, b.counted, F.size-items p.unused))

  -- With all resources in use there is none left, none on its way and none in the making, and a call
  -- of `get` waits.
  pub Reach-full-get :
      (error : String → E) (n : ℕ) (p : ResourcePool F G E)
      → Reach error n p
      → n ≤ length p.in_use
      → (F.items p.unused ≡ [])
        × (p.arriving ≡ [])
        × (p.creating ≡ 0)
        × (get p ≡ record p { waiting = (PromiseQueue.push G T E p.waiting).1 })
  Reach-full-get error n p r full =
      let b = Reach-IsBounded error n r in
      let none_left = empty_of (F.items p.unused) (omega (arith, b.counted, b.limited)) in
      (
        none_left,
        empty_of p.arriving (omega (arith, b.counted, b.limited)),
        omega (arith, b.counted, b.limited),
        get-queue p none_left (omega (arith, b.counted, b.limit)),
      )
