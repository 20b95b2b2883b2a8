-- ===== src/Containers/LinkedList/Ends.antt =====
-- Writes at the two ends of a chain.
use celeries.Base.{◌≡◌, refl, Option, some, [], ◌∷◌, arith}
use celeries.Containers.LinkedList.Nodes.{Ptr, Memory, node, write, set_next, set_previous}
use celeries.Containers.LinkedList.Chain.{
  Cells, Chain, Distinct, SameOutside, first_or, last_or, frame,
}

module _ {ℓ} {A : Type ℓ} where
  -- The last address of a chain that is not empty.
  abbrev pub last_ptr : Ptr → Cells A → Ptr
  last_ptr p [] = p
  last_ptr p ((q, _) ∷ xs) = last_ptr q xs

  pub last_or-last_ptr : (p : Ptr) (xs : Cells A) → last_or xs (some p) ≡ some (last_ptr p xs)
  last_or-last_ptr p [] = refl
  last_or-last_ptr p ((q, _) ∷ xs) = last_or-last_ptr q xs

  pub record Relinked (m m' : Memory A) (before : Option Ptr) (xs : Cells A) (after : Option Ptr)
      : Type ℓ where
    pub chain : Chain m' before xs after
    pub limit : m'.limit ≡ m.limit
    pub same : SameOutside xs m m'

  -- A write of `next` to the last node gives the chain another end.
  pub set_next-last :
      (m : Memory A) (before : Option Ptr) (p : Ptr) (a : A) (xs : Cells A)
      (after after' : Option Ptr)
      → Chain m before ((p, a) ∷ xs) after
      → Distinct ((p, a) ∷ xs)
      → (m' : Memory A) × (set_next (last_ptr p xs) after' m ≡ some (tt, m'))
        × Relinked m m' before ((p, a) ∷ xs) after'
  unfolding set_next write
  set_next-last m before p a [] after after' c d = (
    write m p (node a after' before),
    rw (c.0, set_next),
    record { chain = (ground arith, tt); limit = refl; same = λ q h. ground arith },
  )
  set_next-last m before p a ((q, b) ∷ xs) after after' c d =
      let (m', e, r) = set_next-last m (some p) q b xs after after' c.1 d.1 in
      (
        m',
        e,
        record {
          chain = (ground (arith, r.same p), r.chain);
          limit = r.limit;
          same = λ x h. r.same x (ground arith);
        },
      )

  -- A write of `previous` to the first node gives the chain another beginning.
  pub set_previous-first :
      (m : Memory A) (before before' : Option Ptr) (p : Ptr) (a : A) (xs : Cells A)
      (after : Option Ptr)
      → Chain m before ((p, a) ∷ xs) after
      → Distinct ((p, a) ∷ xs)
      → (m' : Memory A) × (set_previous p before' m ≡ some (tt, m'))
        × Relinked m m' before' ((p, a) ∷ xs) after
  unfolding set_previous write
  set_previous-first m before before' p a xs after c d = (
    m',
    rw (c.0, set_previous),
    record {
      chain = (ground arith, frame m m' (some p) xs after c.1 (λ q i. ground arith));
      limit = refl;
      same = λ q h. ground arith;
    },
  )
    where
      m' : Memory A
      m' = write m p (node a (first_or xs after) before')
