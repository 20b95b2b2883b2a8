-- ===== src/Containers/LinkedList/Chain.antt =====
-- What a doubly-linked chain of nodes stands for: the address and the element of each node.
use celeries.Base.{
  ℕ, ◌≤◌, ◌<◌, ◌≡◌, refl, Bool, true, false, ◌||◌, Option, none, some, List, [], ◌∷◌, ◌++◌, arith,
  ◌==◌, length,
}
use celeries.Containers.LinkedList.{LinkedList}
use celeries.Containers.LinkedList.Nodes.{Ptr, Memory, node}

abbrev pub Cells {ℓ} : Type ℓ → Type ℓ
Cells A = List (Ptr × A)

abbrev pub values {ℓ} : {A : Type ℓ} → Cells A → List A
values [] = []
values ((_, a) ∷ xs) = a ∷ values xs

-- The first and the last address, or what stands outside an empty chain.
abbrev pub first_or {ℓ} : {A : Type ℓ} → Cells A → Option Ptr → Option Ptr
first_or [] q = q
first_or ((p, _) ∷ xs) q = some p

abbrev pub last_or {ℓ} : {A : Type ℓ} → Cells A → Option Ptr → Option Ptr
last_or [] q = q
last_or ((p, _) ∷ xs) q = last_or xs (some p)

abbrev pub has {ℓ} : {A : Type ℓ} → Ptr → Cells A → Bool
has q [] = false
has q ((p, _) ∷ xs) = (q == p) || has q xs

abbrev pub Distinct {ℓ} : {A : Type ℓ} → Cells A → Type 0
Distinct [] = Unit {0}
Distinct ((p, _) ∷ xs) = (has p xs ≡ false) × Distinct xs

abbrev pub Below {ℓ} : {A : Type ℓ} → ℕ → Cells A → Type 0
Below n [] = Unit {0}
Below n ((p, _) ∷ xs) = (p < n) × Below n xs

-- From `before` to `after` the nodes are linked both ways.
abbrev pub Chain {ℓ} : {A : Type ℓ} → Memory A → Option Ptr → Cells A → Option Ptr → Type ℓ
Chain m before [] after = Unit
Chain m before ((p, a) ∷ xs) after =
    (m.cell p ≡ some (node a (first_or xs after) before)) × Chain m (some p) xs after

-- `m'` differs from `m` at most at the addresses of `xs`.
abbrev pub SameOutside {ℓ} : {A : Type ℓ} → Cells A → Memory A → Memory A → Type ℓ
SameOutside xs m m' = (q : Ptr) → has q xs ≡ false → m'.cell q ≡ m.cell q

-- The nodes `xs` are allocated, apart from one another, and linked from end to end.
pub record IsChain {ℓ} {A : Type ℓ} (m : Memory A) (xs : Cells A) : Type ℓ where
  pub chain : Chain m none xs none
  pub distinct : Distinct xs
  pub below : Below m.limit xs

abbrev pub handle_of {ℓ} : {A : Type ℓ} → Cells A → LinkedList
handle_of xs = record { head = first_or xs none; tail = last_or xs none; size = length xs }

-- In the store `m` the list object `l` holds `items`, first to last.
pub record Holds {ℓ} {A : Type ℓ} (m : Memory A) (l : LinkedList) (items : List A) : Type ℓ where
  pub cells : Cells A
  pub linked : IsChain m cells
  pub handle : l ≡ handle_of cells
  pub values_are : items ≡ values cells

module _ {ℓ} {A : Type ℓ} where
  pub frame :
      (m m' : Memory A) (before : Option Ptr) (xs : Cells A) (after : Option Ptr)
      → Chain m before xs after
      → ((q : Ptr) → has q xs ≡ true → m'.cell q ≡ m.cell q)
      → Chain m' before xs after
  frame m m' before [] after c same = tt
  frame m m' before ((p, a) ∷ xs) after c same =
      (ground (arith, same p), frame m m' (some p) xs after c.1 (λ q i. same q (ground arith)))

  pub has-Below : (q n : ℕ) (xs : Cells A) → Below n xs → n ≤ q → has q xs ≡ false
  has-Below q n [] b h = refl
  has-Below q n ((p, _) ∷ xs) b h = ground (arith, has-Below q n xs b.1)

  pub Below-mono : (n k : ℕ) (xs : Cells A) → n ≤ k → Below n xs → Below k xs
  Below-mono n k [] h b = tt
  Below-mono n k ((p, _) ∷ xs) h b = (omega arith, Below-mono n k xs h b.1)

  has-snoc :
      (q : Ptr) (xs : Cells A) (p : Ptr) (a : A)
      → has q (xs ++ (p, a) ∷ []) ≡ (has q xs || (q == p))
  has-snoc q [] p a = ground arith
  has-snoc q ((r, _) ∷ xs) p a = ground (arith, has-snoc q xs p a)

  first_or-append :
      (xs ys : Cells A) (q : Option Ptr) → first_or (xs ++ ys) q ≡ first_or xs (first_or ys q)
  first_or-append [] ys q = refl
  first_or-append (_ ∷ xs) ys q = refl

  pub last_or-snoc :
      (xs : Cells A) (p : Ptr) (a : A) (q : Option Ptr) → last_or (xs ++ (p, a) ∷ []) q ≡ some p
  last_or-snoc [] p a q = refl
  last_or-snoc ((r, _) ∷ xs) p a q = last_or-snoc xs p a (some r)

  pub Chain-append :
      (m : Memory A) (before : Option Ptr) (xs ys : Cells A) (after : Option Ptr)
      → Chain m before xs (first_or ys after)
      → Chain m (last_or xs before) ys after
      → Chain m before (xs ++ ys) after
  Chain-append m before [] ys after c d = d
  Chain-append m before ((p, a) ∷ xs) ys after c d =
      (rw (first_or-append xs ys after) c.0, Chain-append m (some p) xs ys after c.1 d)

  pub Chain-split :
      (m : Memory A) (before : Option Ptr) (xs ys : Cells A) (after : Option Ptr)
      → Chain m before (xs ++ ys) after
      → Chain m before xs (first_or ys after) × Chain m (last_or xs before) ys after
  Chain-split m before [] ys after c = (tt, c)
  Chain-split m before ((p, a) ∷ xs) ys after c =
      let rest = Chain-split m (some p) xs ys after c.1 in
      ((rw first_or-append at c.0, rest.0), rest.1)

  pub Distinct-snoc :
      (xs : Cells A) (p : Ptr) (a : A)
      → Distinct xs
      → has p xs ≡ false
      → Distinct (xs ++ (p, a) ∷ [])
  Distinct-snoc [] p a d h = (refl, tt)
  Distinct-snoc ((q, _) ∷ xs) p a d h =
      (ground (arith, has-snoc q xs p a), Distinct-snoc xs p a d.1 (ground arith))

  pub Distinct-init :
      (xs : Cells A) (p : Ptr) (a : A)
      → Distinct (xs ++ (p, a) ∷ [])
      → Distinct xs × (has p xs ≡ false)
  Distinct-init [] p a d = (tt, refl)
  Distinct-init ((q, _) ∷ xs) p a d =
      let rest = Distinct-init xs p a d.1 in
      ((ground (arith, has-snoc q xs p a), rest.0), ground (arith, has-snoc q xs p a))

  pub Below-append : (n : ℕ) (xs ys : Cells A) → Below n xs → Below n ys → Below n (xs ++ ys)
  Below-append n [] ys b c = c
  Below-append n ((p, _) ∷ xs) ys b c = (b.0, Below-append n xs ys b.1 c)

  pub Below-init : (n : ℕ) (xs ys : Cells A) → Below n (xs ++ ys) → Below n xs
  Below-init n [] ys b = tt
  Below-init n ((p, _) ∷ xs) ys b = (b.0, Below-init n xs ys b.1)

  pub values-append : (xs ys : Cells A) → values (xs ++ ys) ≡ values xs ++ values ys
  values-append [] ys = refl
  values-append ((_, a) ∷ xs) ys = rw (values-append xs ys)

  pub length-values : (xs : Cells A) → length (values xs) ≡ length xs
  length-values [] = refl
  length-values (_ ∷ xs) = omega (arith, length-values xs)
