-- ===== src/Containers/PromiseMap/RejectAll.antt =====
-- What `rejectAll` rejects, and what it leaves.
use celeries.Base.{
  ℕ, suc, ◌+◌, ◌<◌, ◌≡◌, refl, ap, ◌∙◌, Bool, true, false, Option, none, some, List, [], ◌∷◌,
  is_some, arith, if◌then◌else◌, ◌⊎◌, inl, inr, Option-cases, Bool-cases, ◌||◌, ◌&&◌,
}
use celeries.Base.Equality.{Eq}
use celeries.Base.Dict.{Dict, keys, lookup}
use celeries.Containers.PromiseMap.Promises.{PromiseState, decide}
use celeries.Containers.PromiseMap.{
  State, MapData, PromiseMap, is_state, reject, reject_all, reject_keys, settle, reject_existing,
  reject_new, store_new, store_existing, rejectable,
}
use celeries.Containers.PromiseMap.Settling.{reject-store, functions_of-core}
use celeries.Containers.PromiseMap.Lookups.{set_timeout-Alike, core, reject-core}

-- A key is among the keys of a loop.
abbrev listed : {K : Type 0} ⦃e : Eq K⦄ → K → List K → Bool
listed k [] = false
listed ⦃e⦄ k (i ∷ ks) = e.beq i k || listed k ks

abbrev pub Distinct : {K : Type 0} ⦃e : Eq K⦄ → List K → Type 0
Distinct [] = Unit {0}
Distinct (i ∷ ks) = (listed i ks ≡ false) × Distinct ks

abbrev rejectable_core : Option (Option ℕ × State) → Bool
rejectable_core none = false
rejectable_core (some (f, s)) = is_state State.pending s && is_some f

rejectable-core : (o : Option MapData) → rejectable o ≡ rejectable_core (core o)
rejectable-core none = refl
rejectable-core (some d) = refl

lookup-keys :
    {K : Type 0} ⦃e : Eq K⦄ (k : K) (es : Dict K MapData)
    → listed k (keys es) ≡ false
    → lookup k es ≡ none
unfolding lookup
lookup-keys k [] missing = refl
lookup-keys k ((i, d) ∷ es) missing = ground (arith, lookup-keys k es)

module _ {K V E : Type 0} ⦃e : Eq K⦄ where
  -- No entry becomes rejectable by a call of `reject`, and the key's own is not rejectable after it.
  pub rejectable-reject :
      (key k : K) (reason : E) (m : PromiseMap K V E)
      → rejectable (lookup k (reject key reason m).1.control)
        ≡ (if e.beq key k then false else rejectable (lookup k m.control))
  rejectable-reject key k reason m =
      rw (rejectable-core (lookup k (reject key reason m).1.control), reject-core key k reason m)
        (ground (arith, rejectable-core (lookup k m.control)))

  reject_keys-rejectable :
      (reason : E) (ks : List K) (n : ℕ) (m : PromiseMap K V E) (k : K)
      → rejectable (lookup k (reject_keys reason ks n m).1.control)
        ≡ (if listed k ks then false else rejectable (lookup k m.control))
  unfolding reject_keys
  reject_keys-rejectable reason [] n m k = refl
  reject_keys-rejectable reason (i ∷ ks) n m k =
      elim (Bool-cases (rejectable (lookup i m.control))) [
        | inl here ↦
            rw (here, reject_keys)
              (ground (
                arith,
                reject_keys-rejectable reason ks (n + 1) (reject i reason m).1 k,
                rejectable-reject i k reason m,
              ))
        | inr not_here ↦
            rw (not_here, reject_keys)
              (ground (arith, e.beq_iff i k, not_here, reject_keys-rejectable reason ks n m k))
      ]

  -- After `rejectAll` no entry is pending and keeps its functions.
  reject_all-rejectable :
      (reason : E) (m : PromiseMap K V E) (k : K)
      → rejectable (lookup k (reject_all reason m).1.control) ≡ false
  unfolding reject_all
  reject_all-rejectable reason m k =
      ground (arith, reject_keys-rejectable reason (keys m.control) 0 m k, lookup-keys k m.control)

  abbrev pub number_rejectable : PromiseMap K V E → List K → ℕ
  number_rejectable m [] = 0
  number_rejectable m (i ∷ ks) =
      if rejectable (lookup i m.control)
      then suc (number_rejectable m ks)
      else number_rejectable m ks

  -- `reject` decides a pending promise with its reason or leaves it.
  pub reject-decides :
      (i : K) (reason : E) (m : PromiseMap K V E) (p : ℕ)
      → p < m.next
      → let m' = (reject i reason m).1 in
        (p < m'.next)
        × ((m'.store p ≡ m.store p)
            ⊎ ((m.store p ≡ PromiseState.pending) × (m'.store p ≡ PromiseState.rejected reason)))
  unfolding reject settle reject_existing reject_new store_existing store_new decide
  reject-decides i reason m p below = elim (Option-cases (lookup i m.control)) [
    | inl gone ↦
        let a = set_timeout-Alike i (store_new i (reject_new reason m)) in
        rw (gone, settle) (rw a.next (omega arith), inl (ap (λ s. s p) a.store ∙ ground arith))
    | inr (d, found) ↦
        let m1 = store_existing i (reject_existing i d reason m) in
        let a = set_timeout-Alike i m1 in
        let decided : (m1.store p ≡ m.store p)
            ⊎ ((m.store p ≡ PromiseState.pending) × (m1.store p ≡ PromiseState.rejected reason)) =
          ground arith in
        rw (found, settle)
          (
            rw a.next (ground arith),
            elim decided [
              | inl same ↦ inl (ap (λ s. s p) a.store ∙ same)
              | inr (was, is) ↦ inr (was, ap (λ s. s p) a.store ∙ is)
            ],
          )
  ]

  reject-own :
      (i : K) (reason : E) (m : PromiseMap K V E) (p : ℕ)
      → core (lookup i m.control) ≡ some (some p, State.pending)
      → p < m.next
      → (m.store p ≡ PromiseState.pending) ⊎ (m.store p ≡ PromiseState.rejected reason)
      → (reject i reason m).1.store p ≡ PromiseState.rejected reason
  reject-own i reason m p c below (inl open_) =
      (reject-store i reason m p (functions_of-core i m p _ c) open_).1
  reject-own i reason m p c below (inr done) =
      let (_, then_) = reject-decides i reason m p below in ground arith

  reject_keys-keeps :
      (reason : E) (ks : List K) (n : ℕ) (m : PromiseMap K V E) (p : ℕ)
      → p < m.next
      → m.store p ≡ PromiseState.rejected reason
      → (reject_keys reason ks n m).1.store p ≡ PromiseState.rejected reason
  unfolding reject_keys
  reject_keys-keeps reason [] n m p below is = is
  reject_keys-keeps reason (i ∷ ks) n m p below is =
      elim (Bool-cases (rejectable (lookup i m.control))) [
        | inl here ↦
            let (below', then_) = reject-decides i reason m p below in
            rw (here, reject_keys)
              (reject_keys-keeps reason ks (n + 1) (reject i reason m).1 p below' (ground arith))
        | inr not_here ↦ rw (not_here, reject_keys) (reject_keys-keeps reason ks n m p below is)
      ]

  reject_keys-rejects :
      (reason : E) (ks : List K) (n : ℕ) (m : PromiseMap K V E) (k : K) (p : ℕ)
      → listed k ks ≡ true
      → core (lookup k m.control) ≡ some (some p, State.pending)
      → p < m.next
      → (m.store p ≡ PromiseState.pending) ⊎ (m.store p ≡ PromiseState.rejected reason)
      → (reject_keys reason ks n m).1.store p ≡ PromiseState.rejected reason
  unfolding reject_keys
  reject_keys-rejects reason [] n m k p here c below is = cc
  reject_keys-rejects reason (i ∷ ks) n m k p here c below is =
      elim (Bool-cases (rejectable (lookup i m.control))) [
        | inr not_here ↦
            rw (not_here, reject_keys)
              (reject_keys-rejects reason ks n m k p
                (ground (arith, e.beq_iff i k, rejectable-core (lookup i m.control), not_here)) c
                below is)
        | inl turn ↦
            let m' = (reject i reason m).1 in
            let (below', then_) = reject-decides i reason m p below in
            rw (turn, reject_keys)
              (elim (Bool-cases (e.beq i k)) [
                | inl self ↦
                    reject_keys-keeps reason ks (n + 1) m' p below'
                      (reject-own i reason m p (ground (arith, e.beq_iff i k)) below is)
                | inr other ↦
                    reject_keys-rejects reason ks (n + 1) m' k p (ground arith)
                      (reject-core i k reason m ∙ ground arith) below' (ground arith)
              ])
      ]

  -- `rejectAll` rejects, with the reason, every undecided promise that the map has made and whose
  -- functions a pending entry keeps.
  pub reject_all-rejects :
      (reason : E) (m : PromiseMap K V E) (k : K) (p : ℕ)
      → core (lookup k m.control) ≡ some (some p, State.pending)
      → p < m.next
      → m.store p ≡ PromiseState.pending
      → (reject_all reason m).1.store p ≡ PromiseState.rejected reason
  unfolding reject_all
  reject_all-rejects reason m k p c below open_ =
      reject_keys-rejects reason (keys m.control) 0 m k p (ground (arith, lookup-keys k m.control))
        c below (inl open_)
