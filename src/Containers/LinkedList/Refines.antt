-- ===== src/Containers/LinkedList/Refines.antt =====
-- The methods of `List` against operations on sequences: on a list object that holds `items` no
-- method faults, and each returns and leaves what the sequence says.
use celeries.Base.{
  ℕ, zero, suc, ◌+◌, ◌≡◌, refl, sym, ◌⊎◌, inl, inr, Option, none, some, List, [], ◌∷◌, ◌++◌,
  append_assoc, append-nil, arith, length, length-append, snoc-cases,
}
use celeries.Containers.LinkedList.{
  LinkedList, empty, push_one, pop, shift, push, push_each, unshift_each, unshift, from, iterate,
  to_array,
}
use celeries.Containers.LinkedList.Nodes.{Ptr, Memory, load}
use celeries.Containers.LinkedList.Chain.{
  Cells, values, Chain, IsChain, handle_of, Holds, first_or, values-append, length-values,
}
use celeries.Containers.LinkedList.Cells.{push_one-cells, unshift_one-cells, shift-cells, pop-cells}

module _ {ℓ} {A : Type ℓ} where
  -- `length` reports the number of items.
  pub Holds-size :
      (m : Memory A) (l : LinkedList) (items : List A) → Holds m l items → l.size ≡ length items
  Holds-size m l items h = rw (h.handle, h.values_are) (sym (length-values h.cells))

  pub Holds-empty : (m : Memory A) → Holds m empty []
  Holds-empty m = record {
    cells = [];
    linked = record { chain = tt; distinct = tt; below = tt };
    handle = refl;
    values_are = refl;
  }

  pub push_one-append :
      (m : Memory A) (l : LinkedList) (items : List A) (a : A)
      → Holds m l items
      → (l' : LinkedList) × (m' : Memory A) × (push_one l a m ≡ some (l', m'))
        × Holds m' l' (items ++ a ∷ [])
  push_one-append m l items a h =
      let (m', e, k) = push_one-cells m h.cells a h.linked in
      (
        handle_of (h.cells ++ (m.limit, a) ∷ []),
        m',
        rw h.handle e,
        record {
          cells = h.cells ++ (m.limit, a) ∷ [];
          linked = k;
          handle = refl;
          values_are = rw (h.values_are, values-append h.cells ((m.limit, a) ∷ []));
        },
      )

  push_each-append :
      (m : Memory A) (l : LinkedList) (items elements : List A)
      → Holds m l items
      → (l' : LinkedList) × (m' : Memory A) × (push_each l elements m ≡ some (l', m'))
        × Holds m' l' (items ++ elements)
  unfolding push_each
  push_each-append m l items [] h = (l, m, refl, rw append-nil h)
  push_each-append m l items (a ∷ elements) h =
      let (l1, m1, e1, h1) = push_one-append m l items a h in
      let (l2, m2, e2, h2) = push_each-append m1 l1 (items ++ a ∷ []) elements h1 in
      (l2, m2, ground (arith, e1, e2), rw append_assoc at h2)

  -- `push` appends its arguments in order at the back and returns the new length.
  pub push-append :
      (m : Memory A) (l : LinkedList) (items elements : List A)
      → Holds m l items
      → (l' : LinkedList) × (m' : Memory A) × (push l elements m
          ≡ some ((length items + length elements, l'), m'))
        × Holds m' l' (items ++ elements)
  unfolding push
  push-append m l items elements h =
      let (l', m', e, k) = push_each-append m l items elements h in
      let n = Holds-size m' l' (items ++ elements) k in
      (l', m', ground (arith, e, n, length-append items elements), k)

  unshift_each-append :
      (m : Memory A) (l : LinkedList) (items elements : List A)
      → Holds m l items
      → (l' : LinkedList) × (m' : Memory A) × (unshift_each l elements m ≡ some (l', m'))
        × Holds m' l' (elements ++ items)
  unfolding unshift_each
  unshift_each-append m l items [] h = (l, m, refl, h)
  unshift_each-append m l items (a ∷ elements) h =
      let (l1, m1, e1, h1) = unshift_each-append m l items elements h in
      let (m2, e2, k) = unshift_one-cells m1 h1.cells a h1.linked in
      (
        handle_of ((m1.limit, a) ∷ h1.cells),
        m2,
        ground (arith, e1, h1.handle, e2),
        record {
          cells = (m1.limit, a) ∷ h1.cells;
          linked = k;
          handle = refl;
          values_are = rw h1.values_are;
        },
      )

  -- `unshift` puts its arguments in order before the front and returns the new length.
  pub unshift-append :
      (m : Memory A) (l : LinkedList) (items elements : List A)
      → Holds m l items
      → (l' : LinkedList) × (m' : Memory A) × (unshift l elements m
          ≡ some ((length elements + length items, l'), m'))
        × Holds m' l' (elements ++ items)
  unfolding unshift
  unshift-append m l items elements h =
      let (l', m', e, k) = unshift_each-append m l items elements h in
      let n = Holds-size m' l' (elements ++ items) k in
      (l', m', ground (arith, e, n, length-append elements items), k)

  abbrev pub Shifts : Memory A → LinkedList → List A → Type ℓ
  Shifts m l items =
      ((items ≡ []) × (shift l m ≡ some ((none, l), m)))
      ⊎ ((a : A) × (rest : List A) × (l' : LinkedList) × (m' : Memory A) × (items ≡ a ∷ rest)
          × (shift l m ≡ some ((some a, l'), m'))
          × Holds m' l' rest)

  Shifts-cells : (m : Memory A) (xs : Cells A) → IsChain m xs → Shifts m (handle_of xs) (values xs)
  unfolding shift
  Shifts-cells m [] k = inl (refl, refl)
  Shifts-cells m ((p, a) ∷ xs) k =
      let (m', e, k') = shift-cells m p a xs k in
      inr (
        a,
        values xs,
        handle_of xs,
        m',
        refl,
        e,
        record { cells = xs; linked = k'; handle = refl; values_are = refl },
      )

  -- `shift` returns `undefined` and changes nothing on an empty list, and otherwise takes the first
  -- item and leaves the rest.
  pub shift-first :
      (m : Memory A) (l : LinkedList) (items : List A)
      → Holds m l items
      → ((items ≡ []) × (shift l m ≡ some ((none, l), m)))
        ⊎ ((a : A) × (rest : List A) × (l' : LinkedList) × (m' : Memory A) × (items ≡ a ∷ rest)
            × (shift l m ≡ some ((some a, l'), m'))
            × Holds m' l' rest)
  shift-first m l items h = rw (h.handle, h.values_are) (Shifts-cells m h.cells h.linked)

  abbrev pub Pops : Memory A → LinkedList → List A → Type ℓ
  Pops m l items =
      ((items ≡ []) × (pop l m ≡ some ((none, l), m)))
      ⊎ ((front : List A) × (a : A) × (l' : LinkedList) × (m' : Memory A) × (items
            ≡ front ++ a ∷ [])
          × (pop l m ≡ some ((some a, l'), m'))
          × Holds m' l' front)

  Pops-cells : (m : Memory A) (xs : Cells A) → IsChain m xs → Pops m (handle_of xs) (values xs)
  unfolding pop
  Pops-cells m xs k = elim (snoc-cases xs) [
    | inl e ↦ rw e (inl (refl, refl))
    | inr (ys, (p, a), e) ↦
        let (m', run, k') = pop-cells m p a ys (rw e at k) in
        rw e (
          inr (
            values ys,
            a,
            handle_of ys,
            m',
            values-append ys ((p, a) ∷ []),
            run,
            record { cells = ys; linked = k'; handle = refl; values_are = refl },
          ))
  ]

  -- `pop` returns `undefined` and changes nothing on an empty list, and otherwise takes the last
  -- item and leaves those before it.
  pub pop-last :
      (m : Memory A) (l : LinkedList) (items : List A)
      → Holds m l items
      → ((items ≡ []) × (pop l m ≡ some ((none, l), m)))
        ⊎ ((front : List A) × (a : A) × (l' : LinkedList) × (m' : Memory A) × (items
              ≡ front ++ a ∷ [])
            × (pop l m ≡ some ((some a, l'), m'))
            × Holds m' l' front)
  pop-last m l items h = rw (h.handle, h.values_are) (Pops-cells m h.cells h.linked)

  iterate-values :
      (m : Memory A) (before : Option Ptr) (xs : Cells A) (fuel : ℕ)
      → Chain m before xs none
      → fuel ≡ length xs
      → iterate fuel (first_or xs none) m ≡ some (values xs, m)
  unfolding iterate load
  iterate-values m before [] fuel c e = refl
  iterate-values m before ((p, a) ∷ xs) zero c e = absurd (omega arith)
  iterate-values m before ((p, a) ∷ xs) (suc fuel) c e =
      ground (arith, c.0, iterate-values m (some p) xs fuel c.1 (omega arith))

  -- Iteration ends, yields every item in order, and changes nothing.
  to_array-items :
      (m : Memory A) (l : LinkedList) (items : List A)
      → Holds m l items
      → to_array l m ≡ some (items, m)
  unfolding to_array
  to_array-items m l items h =
      rw (h.handle, h.values_are) (iterate-values m none h.cells _ h.linked.chain refl)

  -- `List.from` copies a sequence: iteration over the new list yields it again.
  pub to_array-from :
      (m : Memory A) (init : List A)
      → (l : LinkedList) × (m' : Memory A) × (from init m ≡ some (l, m'))
        × (to_array l m' ≡ some (init, m'))
        × (l.size ≡ length init)
  unfolding from
  to_array-from m init =
      let (l, m', e, h) = push_each-append m empty [] init (Holds-empty m) in
      (l, m', e, to_array-items m' l init h, Holds-size m' l init h)

  -- A list that holds a sequence: `push` appends its arguments in order at the back, `unshift` puts
  -- them in order before the front, and both return the new length; `shift` takes the first item and
  -- `pop` the last, or they return `undefined` and change nothing if there is none; iteration yields
  -- the items in order and changes nothing. After each the list holds the new sequence.
  pub Holds-methods :
      (m : Memory A) (l : LinkedList) (items elements : List A)
      → Holds m l items
      → ((l' : LinkedList) × (m' : Memory A) × (push l elements m
            ≡ some ((length items + length elements, l'), m'))
          × Holds m' l' (items ++ elements))
        × ((l' : LinkedList) × (m' : Memory A) × (unshift l elements m
              ≡ some ((length elements + length items, l'), m'))
            × Holds m' l' (elements ++ items))
        × Shifts m l items
        × Pops m l items
        × (to_array l m ≡ some (items, m))
  Holds-methods m l items elements h = (
    push-append m l items elements h,
    unshift-append m l items elements h,
    shift-first m l items h,
    pop-last m l items h,
    to_array-items m l items h,
  )
