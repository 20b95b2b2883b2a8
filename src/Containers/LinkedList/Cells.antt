-- ===== src/Containers/LinkedList/Cells.antt =====
-- What each method of `List` does with the nodes of a chain.
use celeries.Base.{
  suc, ◌+◌, ◌≡◌, refl, ◌∙◌, false, Option, none, some, [], ◌∷◌, ◌++◌, arith, length, length-append,
}
use celeries.Containers.LinkedList.{push_one, unshift_one, pop, shift}
use celeries.Containers.LinkedList.Nodes.{
  Ptr, Node, Memory, node, alloc, extend, load, set_next, set_previous,
}
use celeries.Containers.LinkedList.Chain.{
  Cells, Chain, Below, IsChain, handle_of, last_or, has, frame, has-Below, Below-mono, Chain-append,
  Chain-split, Distinct-snoc, Distinct-init, Below-append, Below-init, last_or-snoc,
}
use celeries.Containers.LinkedList.Ends.{
  last_ptr, last_or-last_ptr, set_next-last, set_previous-first, Relinked,
}

module _ {ℓ} {A : Type ℓ} where
  -- A new node at `limit` touches no allocated one.
  extend-frame :
      (m : Memory A) (n : Node A) (before : Option Ptr) (xs : Cells A) (after : Option Ptr)
      → Below m.limit xs
      → Chain m before xs after
      → Chain (extend m n) before xs after
  unfolding extend
  extend-frame m n before xs after b c =
      frame m (extend m n) before xs after c (λ q i. ground (arith, has-Below q m.limit xs b))

  handle_of-snoc :
      (p : Ptr) (b : A) (xs : Cells A) (q : Ptr) (a : A)
      → handle_of (((p, b) ∷ xs) ++ (q, a) ∷ [])
        ≡ record { head = some p; tail = some q; size = suc (length xs) + 1 }
  handle_of-snoc p b xs q a =
      ground (arith, last_or-snoc xs q a (some p), length-append xs ((q, a) ∷ []))

  pub push_one-cells :
      (m : Memory A) (xs : Cells A) (a : A)
      → IsChain m xs
      → (m' : Memory A) × (push_one (handle_of xs) a m
          ≡ some (handle_of (xs ++ (m.limit, a) ∷ []), m'))
        × IsChain m' (xs ++ (m.limit, a) ∷ [])
  unfolding push_one alloc extend
  push_one-cells m [] a k = (
    extend m (node a none none),
    ground arith,
    record { chain = ground arith; distinct = (refl, tt); below = omega arith },
  )
  push_one-cells m ((p, b) ∷ xs) a k = (
    m',
    run,
    record {
      chain = Chain-append m' none ((p, b) ∷ xs) ((m.limit, a) ∷ []) none linked.2.chain (new, tt);
      distinct = Distinct-snoc ((p, b) ∷ xs) m.limit a k.distinct fresh;
      below =
          Below-append m'.limit ((p, b) ∷ xs) ((m.limit, a) ∷ [])
            (Below-mono m.limit m'.limit ((p, b) ∷ xs) (omega (arith, linked.2.limit)) k.below)
            (omega (arith, linked.2.limit), tt);
    },
  )
    where
      fresh : has m.limit ((p, b) ∷ xs) ≡ false
      fresh = has-Below m.limit m.limit ((p, b) ∷ xs) k.below (omega arith)

      m1 : Memory A
      m1 = extend m (node a none (some (last_ptr p xs)))

      linked :
          (m' : Memory A) × (set_next (last_ptr p xs) (some m.limit) m1 ≡ some (tt, m'))
          × Relinked m1 m' none ((p, b) ∷ xs) (some m.limit)
      linked =
          set_next-last m1 none p b xs none (some m.limit)
            (extend-frame m _ none ((p, b) ∷ xs) none k.below k.chain) k.distinct

      m' : Memory A
      m' = linked.0

      new : m'.cell m.limit ≡ some (node a none (last_or xs (some p)))
      new = rw last_or-last_ptr (linked.2.same m.limit fresh ∙ ground arith)

      run :
          push_one (handle_of ((p, b) ∷ xs)) a m
          ≡ some (handle_of (((p, b) ∷ xs) ++ (m.limit, a) ∷ []), m')
      run = ground (arith, last_or-last_ptr p xs, handle_of-snoc p b xs m.limit a, linked.1)

  pub unshift_one-cells :
      (m : Memory A) (xs : Cells A) (a : A)
      → IsChain m xs
      → (m' : Memory A) × (unshift_one (handle_of xs) a m
          ≡ some (handle_of ((m.limit, a) ∷ xs), m'))
        × IsChain m' ((m.limit, a) ∷ xs)
  unfolding unshift_one alloc extend
  unshift_one-cells m [] a k = (
    extend m (node a none none),
    ground arith,
    record { chain = ground arith; distinct = (refl, tt); below = omega arith },
  )
  unshift_one-cells m ((p, b) ∷ xs) a k = (
    m',
    run,
    record {
      chain = (linked.2.same m.limit fresh ∙ ground arith, linked.2.chain);
      distinct = (fresh, k.distinct);
      below = (
        omega (arith, linked.2.limit),
        Below-mono m.limit m'.limit ((p, b) ∷ xs) (omega (arith, linked.2.limit)) k.below,
      );
    },
  )
    where
      fresh : has m.limit ((p, b) ∷ xs) ≡ false
      fresh = has-Below m.limit m.limit ((p, b) ∷ xs) k.below (omega arith)

      m1 : Memory A
      m1 = extend m (node a (some p) none)

      linked :
          (m' : Memory A) × (set_previous p (some m.limit) m1 ≡ some (tt, m'))
          × Relinked m1 m' (some m.limit) ((p, b) ∷ xs) none
      linked =
          set_previous-first m1 none (some m.limit) p b xs none
            (extend-frame m _ none ((p, b) ∷ xs) none k.below k.chain) k.distinct

      m' : Memory A
      m' = linked.0

      run :
          unshift_one (handle_of ((p, b) ∷ xs)) a m
          ≡ some (handle_of ((m.limit, a) ∷ (p, b) ∷ xs), m')
      run = ground (arith, linked.1)

  pub shift-cells :
      (m : Memory A) (p : Ptr) (a : A) (xs : Cells A)
      → IsChain m ((p, a) ∷ xs)
      → (m' : Memory A) × (shift (handle_of ((p, a) ∷ xs)) m ≡ some ((some a, handle_of xs), m'))
        × IsChain m' xs
  unfolding shift load
  shift-cells m p a [] k = (m, ground arith, record { chain = tt; distinct = tt; below = tt })
  shift-cells m p a ((q, b) ∷ xs) k =
      let (m', e, r) = set_previous-first m (some p) none q b xs none k.chain.1 k.distinct.1 in
      (
        m',
        ground (arith, k.chain.0, e),
        record {
          chain = r.chain;
          distinct = k.distinct.1;
          below = Below-mono m.limit m'.limit ((q, b) ∷ xs) (omega (arith, r.limit)) k.below.1;
        },
      )

  pub pop-cells :
      (m : Memory A) (p : Ptr) (a : A) (xs : Cells A)
      → IsChain m (xs ++ (p, a) ∷ [])
      → (m' : Memory A) × (pop (handle_of (xs ++ (p, a) ∷ [])) m
          ≡ some ((some a, handle_of xs), m'))
        × IsChain m' xs
  unfolding pop load
  pop-cells m p a [] k = (m, ground arith, record { chain = tt; distinct = tt; below = tt })
  pop-cells m p a ((q, b) ∷ xs) k =
      let both = Chain-split m none ((q, b) ∷ xs) ((p, a) ∷ []) none k.chain in
      let apart = Distinct-init ((q, b) ∷ xs) p a k.distinct in
      let (m', e, r) = set_next-last m none q b xs (some p) none both.0 apart.0 in
      (
        m',
        ground (arith, handle_of-snoc q b xs p a, both.1.0, last_or-last_ptr q xs, e),
        record {
          chain = r.chain;
          distinct = apart.0;
          below =
              Below-mono m.limit m'.limit ((q, b) ∷ xs) (omega (arith, r.limit))
                (Below-init m.limit ((q, b) ∷ xs) ((p, a) ∷ []) k.below);
        },
      )
