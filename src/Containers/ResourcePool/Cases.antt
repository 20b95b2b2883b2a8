-- ===== src/Containers/ResourcePool/Cases.antt =====
-- The branches of `get`, `return` and `destroyAll`, each with the pool that it leaves.
use Prim.Native.String.{String}
use celeries.Base.{
  ℕ, ◌+◌, ◌≤◌, ◌<◌, ◌≡◌, refl, sym, ap, ◌∙◌, ◌⊎◌, inl, inr, true, false, none, some, List, [], ◌∷◌,
  ◌++◌, ltb, arith, Bool-cases, List-cases, ◌≢◌,
}
use mathlib.Core.Path.{subst}
use celeries.Base.Equality.{Eq}
use celeries.Base.Result.{ok, err}
use celeries.Base.Set.{member, remove}
use celeries.Containers.Fifo.{Fifo}
use celeries.Containers.PromiseQueue
use celeries.Containers.PromiseQueue.{PromiseQueue, resolve, settle_one, resolve_one}
use celeries.Containers.PromiseQueue.Order.{waiting, settle_one-first}
use celeries.Containers.ResourcePool.{
  ResourcePool, get, return, destroy_all, take_unused, create_or_wait, hand_over, store_unused,
  destroy_unused,
}

abbrev none_left : {T : Type 0} → List T → ℕ → ℕ → ℕ
none_left [] a b = a
none_left (_ ∷ _) a b = b

module _ {T : Type 0} ⦃e : Eq T⦄ {F : Fifo T} {G : Fifo ℕ} {E : Type 0} where
  -- The pool after a resource has been taken from the unused ones, after `create` has been called,
  -- and after the caller has been queued.
  abbrev pub taking : ResourcePool F G E → T → F.State → ResourcePool F G E
  taking p a rest = record p { unused = rest; arriving = a ∷ p.arriving }

  abbrev pub creating_one : ResourcePool F G E → ResourcePool F G E
  creating_one p = record p { resource_count = p.resource_count + 1; creating = p.creating + 1 }

  abbrev queueing : ResourcePool F G E → ResourcePool F G E
  queueing p = record p { waiting = (PromiseQueue.push G T E p.waiting).1 }

  abbrev pub GetCases : ResourcePool F G E → ResourcePool F G E → Type 0
  GetCases p q =
      ((a : T) × (rest : F.State) × (F.items p.unused ≡ a ∷ F.items rest) × (q ≡ taking p a rest))
      ⊎ ((F.items p.unused ≡ []) × (p.resource_count < p.max_resources) × (q ≡ creating_one p))
      ⊎ ((F.items p.unused ≡ []) × (p.max_resources ≤ p.resource_count) × (q ≡ queueing p))

  pub get-cases : (p : ResourcePool F G E) → GetCases p (get p)
  unfolding get create_or_wait
  get-cases p = elim (F.shift-items p.unused) [
    | inl (empty, q) ↦ elim (Bool-cases (ltb p.resource_count p.max_resources)) [
      | inl room ↦ inr (inl (empty, ground arith, rw (q, take_unused) (rw room)))
      | inr full ↦ inr (inr (empty, ground arith, rw (q, take_unused) (rw full)))
    ]
    | inr (a, rest, some_left, q) ↦ inl (a, rest, some_left, rw (q, take_unused))
  ]

  -- The pool after a returned resource has gone to the caller that waited longest, and after it has
  -- been put with the unused ones.
  abbrev pub handing : T → PromiseQueue G T E → ResourcePool F G E → ResourcePool F G E
  handing r queue p = record p {
    in_use = remove r p.in_use;
    waiting = queue;
    arriving = r ∷ p.arriving;
  }

  abbrev pub storing : T → ResourcePool F G E → ResourcePool F G E
  storing r p = record p {
    in_use = remove r p.in_use;
    unused = F.push p.unused r;
    listening = none_left (remove r p.in_use) 0 p.listening;
    resuming = none_left (remove r p.in_use) (p.resuming + p.listening) p.resuming;
  }

  abbrev pub ReturnCases : T → ResourcePool F G E → ResourcePool F G E → Type 0
  ReturnCases r p q =
      ((w : ℕ) × (queue : PromiseQueue G T E) × (waiting G T E p.waiting ≡ w ∷ waiting G T E queue)
        × (queue.settled ≡ p.waiting.settled ++ (w, resolve r) ∷ [])
        × (q ≡ handing r queue p))
      ⊎ ((waiting G T E p.waiting ≡ []) × (q ≡ storing r p))

  store_unused-storing :
      (r : T) (xs : List T) (p : ResourcePool F G E)
      → store_unused r (record p { in_use = xs }) ≡ record p {
        in_use = xs;
        unused = F.push p.unused r;
        listening = none_left xs 0 p.listening;
        resuming = none_left xs (p.resuming + p.listening) p.resuming;
      }
  unfolding store_unused
  store_unused-storing r [] p = refl
  store_unused-storing r (_ ∷ _) p = refl

  pub destroy_all-cases :
      (p : ResourcePool F G E)
      → ((p.in_use ≡ [])
          × (destroy_all p ≡ (some (F.items p.unused), record p { unused = F.empty })))
        ⊎ ((p.in_use ≢ []) × (destroy_all p ≡ (none, record p { listening = p.listening + 1 })))
  unfolding destroy_all destroy_unused
  destroy_all-cases p = elim (List-cases p.in_use) [
    | inl empty ↦ inl (empty, ground (arith, empty))
    | inr (x, xs, some_left) ↦ inr (λ empty. cc (sym empty ∙ some_left), ground (arith, some_left))
  ]

  handed :
      (error : String → E) (r : T) (p : ResourcePool F G E)
      → member r p.in_use ≡ true
      → (q : ResourcePool F G E) × (return error r p ≡ ok q) × ReturnCases r p q
  unfolding return hand_over resolve_one
  handed error r p mine = elim (settle_one-first G T E (resolve r) p.waiting) [
    | inl (empty, s) ↦ (
      storing r p,
      rw (mine, s, hand_over) (ap ok (store_unused-storing r (remove r p.in_use) p)),
      inr (empty, refl),
    )
    | inr (w, queue, s, first, settled, _) ↦
        (handing r queue p, rw (mine, s, hand_over), inl (w, queue, first, settled, refl))
  ]

  -- `return` throws on a resource that is not in use, and otherwise has the two cases.
  pub return-cases :
      (error : String → E) (r : T) (p : ResourcePool F G E)
      → ((member r p.in_use ≡ false)
          × (return error r p ≡ err (error "resource does not belong to this pool")))
        ⊎ ((member r p.in_use ≡ true)
            × ((q : ResourcePool F G E) × (return error r p ≡ ok q) × ReturnCases r p q))
  unfolding return
  return-cases error r p = elim (Bool-cases (member r p.in_use)) [
    | inl mine ↦ inr (mine, handed error r p mine)
    | inr foreign ↦ inl (foreign, rw foreign)
  ]

  pub return-ok :
      (error : String → E) (r : T) (p q : ResourcePool F G E)
      → return error r p ≡ ok q
      → (member r p.in_use ≡ true) × ReturnCases r p q
  return-ok error r p q run = elim (return-cases error r p) [
    | inl (foreign, thrown) ↦ cc (sym run ∙ thrown)
    | inr (mine, (q', run', c)) ↦
        let same : q' ≡ q = ground arith in (mine, subst (ReturnCases r p) same c)
  ]

  pub get-take :
      (p : ResourcePool F G E) (a : T) (xs : List T)
      → F.items p.unused ≡ a ∷ xs
      → (rest : F.State) × (F.items rest ≡ xs) × (get p ≡ taking p a rest)
  get-take p a xs there = elim (get-cases p) [
    | inl (b, rest, there', is) ↦
        let same : b ≡ a = ground arith in (rest, ground arith, is ∙ ap (λ c. taking p c rest) same)
    | inr (inl (empty, _, _)) ↦ cc (sym there ∙ empty)
    | inr (inr (empty, _, _)) ↦ cc (sym there ∙ empty)
  ]

  pub get-create :
      (p : ResourcePool F G E)
      → F.items p.unused ≡ []
      → p.resource_count < p.max_resources
      → get p ≡ creating_one p
  get-create p empty room = elim (get-cases p) [
    | inl (a, rest, there, _) ↦ cc (sym there ∙ empty)
    | inr (inl (_, _, is)) ↦ is
    | inr (inr (_, full, _)) ↦ absurd (omega arith)
  ]

  pub get-queue :
      (p : ResourcePool F G E)
      → F.items p.unused ≡ []
      → p.max_resources ≤ p.resource_count
      → get p ≡ queueing p
  get-queue p empty full = elim (get-cases p) [
    | inl (a, rest, there, _) ↦ cc (sym there ∙ empty)
    | inr (inl (_, room, _)) ↦ absurd (omega arith)
    | inr (inr (_, _, is)) ↦ is
  ]
