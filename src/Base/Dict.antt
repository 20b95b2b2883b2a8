-- ===== src/Base/Dict.antt =====
-- A JavaScript Map, or the keys of an object, as an association list in insertion order, over any
-- type of keys with an equality test.
use celeries.Base.Equality.{Eq}
use celeries.Base.Tests.{if◌then◌else◌, or_else, Bool-cases}
use mathlib.Core.Path.{◌≡◌, refl, ◌∙◌}
use mathlib.Core.Logic.{inl, inr}
use mathlib.Core.Option.{Option, none, some}
use mathlib.Core.List.{List, [], ◌∷◌}
use native.Mathlib.Omega.{arith}

abbrev pub Dict {ℓ κ} : Type ℓ → Type κ → Type (ℓ ⊔ κ)
Dict K V = List (K × V)

module _ {ℓ κ} {K : Type ℓ} {V : Type κ} where
  abbrev pub keys : Dict K V → List K
  keys [] = []
  keys ((k, _) ∷ m) = k ∷ keys m

module _ {ℓ κ} {K : Type ℓ} {V : Type κ} ⦃e : Eq K⦄ where
  unfoldable pub lookup : K → Dict K V → Option V
  lookup k [] = none
  lookup k ((j, v) ∷ m) = if e.beq j k then some v else lookup k m

  -- A key that is there keeps its place.
  unfoldable pub insert : K → V → Dict K V → Dict K V
  insert k v [] = (k, v) ∷ []
  insert k v ((j, w) ∷ m) = if e.beq j k then (j, v) ∷ m else (j, w) ∷ insert k v m

  unfoldable pub erase : K → Dict K V → Dict K V
  erase k [] = []
  erase k ((j, w) ∷ m) = if e.beq j k then erase k m else (j, w) ∷ erase k m

  pub lookup-insert :
      (k j : K) (v : V) (m : Dict K V)
      → lookup j (insert k v m) ≡ (if e.beq k j then some v else lookup j m)
  unfolding lookup insert
  lookup-insert k j v [] = refl
  lookup-insert k j v ((i, w) ∷ m) =
      ground (arith, e.beq_iff k j, e.beq_iff i k, e.beq_iff i j, lookup-insert k j v m)

  pub lookup-erase :
      (k j : K) (m : Dict K V) → lookup j (erase k m) ≡ (if e.beq k j then none else lookup j m)
  unfolding lookup erase
  lookup-erase k j [] = ground arith
  lookup-erase k j ((i, w) ∷ m) =
      ground (arith, e.beq_iff k j, e.beq_iff i k, e.beq_iff i j, lookup-erase k j m)

-- Objects of which one is spread over the other, `{ ...m, ...n }`.
module _ {ℓ κ} {K : Type ℓ} {V : Type κ} ⦃e : Eq K⦄ where
  unfoldable pub spread : Dict K V → Dict K V → Dict K V
  spread m [] = m
  spread m ((k, v) ∷ n) = spread (insert k v m) n

  -- No key stands twice.
  abbrev pub Unique : Dict K V → Type κ
  Unique [] = Unit
  Unique ((k, v) ∷ m) = (lookup k m ≡ none) × Unique m

  pub insert-Unique : (k : K) (v : V) (m : Dict K V) → Unique m → Unique (insert k v m)
  unfolding insert lookup
  insert-Unique k v [] u = (refl, tt)
  insert-Unique k v ((j, w) ∷ m) (fresh, u) = elim (Bool-cases (e.beq j k)) [
    | inl same ↦ rw same (fresh, u)
    | inr other ↦ rw other (
      lookup-insert k j v m ∙ ground (arith, e.beq_iff j k, e.beq_iff k j),
      insert-Unique k v m u,
    )
  ]

  pub spread-Unique : (m n : Dict K V) → Unique m → Unique (spread m n)
  unfolding spread
  spread-Unique m [] u = u
  spread-Unique m ((k, v) ∷ n) u = spread-Unique (insert k v m) n (insert-Unique k v m u)

  -- What is spread wins.
  pub lookup-spread :
      (t : K) (m n : Dict K V)
      → Unique n
      → lookup t (spread m n) ≡ or_else (lookup t n) (lookup t m)
  unfolding spread lookup
  lookup-spread t m [] u = refl
  lookup-spread t m ((k, v) ∷ n) (fresh, u) =
      lookup-spread t (insert k v m) n u
      ∙ ground (arith, lookup-insert k t v m, fresh, e.beq_iff k t)

-- A predicate of every field.
module _ {ℓ κ ρ} {K : Type ℓ} {V : Type κ} (P : K → V → Type ρ) where
  abbrev pub Each : Dict K V → Type ρ
  Each [] = Unit
  Each ((k, v) ∷ m) = P k v × Each m

  module _ ⦃e : Eq K⦄ where
    pub insert-Each : (k : K) (v : V) (m : Dict K V) → P k v → Each m → Each (insert k v m)
    unfolding insert
    insert-Each k v [] here all = (here, tt)
    insert-Each k v ((j, w) ∷ m) here (first, all) = elim (Bool-cases (e.beq j k)) [
      | inl same ↦ rw same (rw ((e.beq_iff j k).0 same) here, all)
      | inr other ↦ rw other (first, insert-Each k v m here all)
    ]

    pub spread-Each : (m n : Dict K V) → Each m → Each n → Each (spread m n)
    unfolding spread
    spread-Each m [] all under = all
    spread-Each m ((k, v) ∷ n) all (here, under) =
        spread-Each (insert k v m) n (insert-Each k v m here all) under

    pub Each-lookup : (k : K) (v : V) (m : Dict K V) → Each m → lookup k m ≡ some v → P k v
    unfolding lookup
    Each-lookup k v [] all there = ground (arith, there)
    Each-lookup k v ((j, w) ∷ m) (first, all) there = elim (Bool-cases (e.beq j k)) [
      | inl same ↦
          let is : w ≡ v = ground (arith, rw same at there) in
          rw (← is) (rw (← (e.beq_iff j k).0 same) first)
      | inr other ↦ Each-lookup k v m all (rw other at there)
    ]
