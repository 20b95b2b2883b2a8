-- ===== src/Containers/LinkedList/Nodes.antt =====
-- The store of list nodes and the commands that read and write it.
use celeries.Base.{ℕ, ◌+◌, Option, none, some, ◌==◌, if◌then◌else◌}

abbrev pub Ptr : Type 0
Ptr = ℕ

pub record Node {ℓ} (A : Type ℓ) : Type ℓ where
  pub element : A
  pub next : Option Ptr
  pub previous : Option Ptr

abbrev pub node {ℓ} : {A : Type ℓ} → A → Option Ptr → Option Ptr → Node A
node a q p = record { element = a; next = q; previous = p }

-- Objects are allocated at `limit`, which grows.
pub record Memory {ℓ} (A : Type ℓ) : Type ℓ where
  pub limit : Ptr
  pub cell : Ptr → Option (Node A)

abbrev pub Cmd {ℓ κ} : Type ℓ → Type κ → Type (ℓ ⊔ κ)
Cmd A B = Memory A → Option (B × Memory A)

abbrev update {ℓ} : {A : Type ℓ} → (Ptr → Option (Node A)) → Ptr → Node A → Ptr → Option (Node A)
update f p n q = if q == p then some n else f q

module _ {ℓ} {A : Type ℓ} where
  abbrev pub pure {κ} : {B : Type κ} → B → Cmd A B
  pure b m = some (b, m)

  infixl 5 ◌>>=◌ ◌>>◌
  abbrev pub ◌>>=◌ {κ μ} : {B : Type κ} {C : Type μ} → Cmd A B → (B → Cmd A C) → Cmd A C
  ◌>>=◌ c f m = elim (c m) [ none ↦ none | some (b, m') ↦ f b m' ]

  abbrev pub ◌>>◌ {κ} : {C : Type κ} → Cmd A (Unit {0}) → Cmd A C → Cmd A C
  c >> k = c >>= λ _. k

  unfoldable pub write : Memory A → Ptr → Node A → Memory A
  write m p n = record m { cell = update m.cell p n }

  unfoldable pub extend : Memory A → Node A → Memory A
  extend m n = record { limit = m.limit + 1; cell = update m.cell m.limit n }

  unfoldable pub alloc : Node A → Cmd A Ptr
  alloc n m = some (m.limit, extend m n)

  unfoldable pub load : Ptr → Cmd A (Node A)
  load p m = elim (m.cell p) [ none ↦ none | some n ↦ some (n, m) ]

  unfoldable pub set_next : Ptr → Option Ptr → Cmd A (Unit {0})
  unfolding write
  set_next p q m = elim (m.cell p) [
    | none ↦ none
    | some n ↦ some (tt, write m p (record n { next = q }))
  ]

  unfoldable pub set_previous : Ptr → Option Ptr → Cmd A (Unit {0})
  unfolding write
  set_previous p q m = elim (m.cell p) [
    | none ↦ none
    | some n ↦ some (tt, write m p (record n { previous = q }))
  ]
