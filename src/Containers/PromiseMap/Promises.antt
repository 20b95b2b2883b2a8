-- ===== src/Containers/PromiseMap/Promises.antt =====
-- The promises, the timers and the suspended calls that a `PromiseMap` works with. A promise is a
-- number with a state, and the functions that settle it are named by it.
use celeries.Base.{ℕ, List, [], ◌∷◌, Bool, false, ◌||◌, ◌==◌, if◌then◌else◌}

pub data PromiseState (V E : Type 0) : Type 0 where
  pending : PromiseState V E
  follows : ℕ → PromiseState V E
  fulfilled : V → PromiseState V E
  rejected : E → PromiseState V E

-- What is passed to `resolve`: a plain value, or a promise of someone else, which settles some time.
pub data Awaited (V : Type 0) : Type 0 where
  plain : V → Awaited V
  promise_like : ℕ → Awaited V

-- How an awaited value settled.
pub data Outcome (V E : Type 0) : Type 0 where
  value : V → Outcome V E
  thrown : E → Outcome V E

-- A call of `doResolve` that waits at `await value`, and the promise that it returned.
pub record Job (K V : Type 0) : Type 0 where
  pub key : K
  pub awaited : Awaited V
  pub promise : ℕ

pub record Timer (K : Type 0) : Type 0 where
  pub id : ℕ
  pub key : K

abbrev pub Store : Type 0 → Type 0 → Type 0
Store V E = ℕ → PromiseState V E

module _ {V E : Type 0} where
  abbrev pub put : Store V E → ℕ → PromiseState V E → Store V E
  put s p x q = if p == q then x else s q

  -- The first call of `resolve` or `reject` decides; a later one does nothing.
  unfoldable pub decide : PromiseState V E → Store V E → ℕ → Store V E
  decide x s p = elim (s p) [ pending ↦ put s p x | _ ↦ s ]

  -- The state that a promise shows once it has caught up with the promise that it follows.
  unfoldable pub settled_state : Store V E → ℕ → PromiseState V E
  settled_state s p = elim (s p) [ follows q ↦ s q | x ↦ x ]

  abbrev pub of_outcome : Outcome V E → PromiseState V E
  of_outcome (value v) = fulfilled v
  of_outcome (thrown e) = rejected e

module _ {K V : Type 0} where
  abbrev pub awaits : ℕ → List (Job K V) → Bool
  awaits p [] = false
  awaits p (j ∷ js) = (j.promise == p) || awaits p js

  unfoldable pub finish : ℕ → List (Job K V) → List (Job K V)
  finish p [] = []
  finish p (j ∷ js) = if j.promise == p then finish p js else j ∷ finish p js

module _ {K : Type 0} where
  pub clear_timer : ℕ → List (Timer K) → List (Timer K)
  clear_timer t [] = []
  clear_timer t (x ∷ xs) = if x.id == t then clear_timer t xs else x ∷ clear_timer t xs
