-- ===== src/Base/Set.antt =====
-- A JavaScript Set as a list in insertion order.
use celeries.Base.Equality.{Eq}
use celeries.Base.Tests.{if◌then◌else◌}
use Prim.Native.Nat.{ℕ, suc, ◌+◌, ◌≤◌}
use mathlib.Core.Path.{◌≡◌, refl}
use mathlib.Core.Bool.{Bool, true, false, ◌||◌}
use mathlib.Core.List.{List, [], ◌∷◌, ◌++◌}
use native.Mathlib.Omega.{arith}
use celeries.Base.Lists.{length, length-snoc}

module _ {ℓ} {A : Type ℓ} ⦃e : Eq A⦄ where
  abbrev pub member : A → List A → Bool
  member a [] = false
  member a (x ∷ xs) = e.beq x a || member a xs

  unfoldable pub add : A → List A → List A
  add a xs = if member a xs then xs else xs ++ a ∷ []

  unfoldable pub remove : A → List A → List A
  remove a [] = []
  remove a (x ∷ xs) = if e.beq x a then xs else x ∷ remove a xs

  -- How often an item occurs.
  unfoldable pub times : A → List A → ℕ
  times a [] = 0
  times a (x ∷ xs) = if e.beq x a then suc (times a xs) else times a xs

  times-append : (a : A) (xs ys : List A) → times a (xs ++ ys) ≡ times a xs + times a ys
  unfolding times
  times-append a [] ys = omega arith
  times-append a (x ∷ xs) ys = ground (arith, times-append a xs ys)

  pub times-snoc :
      (a b : A) (xs : List A)
      → times a (xs ++ b ∷ []) ≡ (if e.beq b a then suc (times a xs) else times a xs)
  unfolding times
  times-snoc a b [] = refl
  times-snoc a b (x ∷ xs) = ground (arith, times-snoc a b xs)

  pub times-remove :
      (a b : A) (xs : List A)
      → member b xs ≡ true
      → times a xs ≡ (if e.beq b a then suc (times a (remove b xs)) else times a (remove b xs))
  unfolding times remove
  times-remove a b [] here = ground arith
  times-remove a b (x ∷ xs) here =
      ground (arith, e.beq_iff x b, e.beq_iff x a, e.beq_iff b a, times-remove a b xs)

  pub times-add :
      (a b : A) (xs : List A)
      → times a (add b xs) ≤ (if e.beq b a then suc (times a xs) else times a xs)
  unfolding add
  times-add a b xs = ground (arith, times-snoc a b xs)

  pub length-remove :
      (b : A) (xs : List A) → member b xs ≡ true → length xs ≡ suc (length (remove b xs))
  unfolding remove
  length-remove b [] here = ground arith
  length-remove b (x ∷ xs) here = ground (arith, length-remove b xs)

  pub length-add : (b : A) (xs : List A) → length (add b xs) ≤ suc (length xs)
  unfolding add
  length-add b xs = ground (arith, length-snoc xs b)

  member-snoc : (a : A) (xs : List A) → member a (xs ++ a ∷ []) ≡ true
  member-snoc a [] = ground (arith, e.beq_iff a a)
  member-snoc a (x ∷ xs) = ground (arith, member-snoc a xs)

  pub member-add : (a : A) (xs : List A) → member a (add a xs) ≡ true
  unfolding add
  member-add a xs = ground (arith, member-snoc a xs)

  member-of-snoc : (a b : A) (xs : List A) → member a xs ≡ true → member a (xs ++ b ∷ []) ≡ true
  member-of-snoc a b [] h = ground (arith, h)
  member-of-snoc a b (x ∷ xs) h = ground (arith, h, member-of-snoc a b xs)

  -- What is in a set stays there when another is added, or another is removed.
  pub member-of-add : (a b : A) (xs : List A) → member a xs ≡ true → member a (add b xs) ≡ true
  unfolding add
  member-of-add a b xs h = ground (arith, h, member-of-snoc a b xs)

  pub member-of-remove :
      (a b : A) (xs : List A)
      → e.beq b a ≡ false
      → member a xs ≡ true
      → member a (remove b xs) ≡ true
  unfolding remove
  member-of-remove a b [] other h = ground (arith, h)
  member-of-remove a b (x ∷ xs) other h =
      ground (arith, e.beq_iff x b, e.beq_iff x a, e.beq_iff b a, other, h, member-of-remove a b xs)
