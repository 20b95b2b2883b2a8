-- ===== src/Containers/PromiseMap/Passing.antt =====
-- The promises that `rejectAll` passes over.
use celeries.Base.{
  ℕ, ◌+◌, ◌<◌, ◌≡◌, refl, sym, ap, ◌∙◌, false, some, List, [], ◌∷◌, arith, inl, inr, Option-cases,
  Bool-cases,
}
use celeries.Base.Equality.{Eq}
use celeries.Base.Dict.{keys, lookup}
use celeries.Containers.PromiseMap.Promises.{PromiseState, decide}
use celeries.Containers.PromiseMap.{
  PromiseMap, reject, reject_all, reject_keys, settle, reject_existing, reject_new, store_new,
  store_existing, rejectable,
}
use celeries.Containers.PromiseMap.RejectAll.{rejectable-reject, reject-decides}
use celeries.Containers.PromiseMap.Lookups.{
  functions_of, functions_of-same, set_timeout-Alike, reject-core,
}

module _ {K V E : Type 0} ⦃e : Eq K⦄ where
  functions_of-reject :
      (i k : K) (reason : E) (m : PromiseMap K V E)
      → e.beq i k ≡ false
      → functions_of (lookup k m.control) ≡ functions_of (lookup k (reject i reason m).1.control)
  functions_of-reject i k reason m other =
      functions_of-same (lookup k m.control) (lookup k (reject i reason m).1.control)
        (sym (reject-core i k reason m ∙ rw other refl))

  -- It leaves a pending promise whose functions the key does not keep.
  reject-leaves :
      (i : K) (reason : E) (m : PromiseMap K V E) (p : ℕ)
      → ¬ (functions_of (lookup i m.control) ≡ some p)
      → p < m.next
      → m.store p ≡ PromiseState.pending
      → (reject i reason m).1.store p ≡ PromiseState.pending
  unfolding reject settle reject_existing reject_new store_existing store_new decide
  reject-leaves i reason m p other below open_ = elim (Option-cases (lookup i m.control)) [
    | inl gone ↦
        rw (gone, settle)
          (ap (λ s. s p) (set_timeout-Alike i (store_new i (reject_new reason m))).store
            ∙ ground arith)
    | inr (d, found) ↦
        let differs : ¬ (d.functions ≡ some p) = λ f. other (rw found f) in
        rw (found, settle)
          (ap (λ s. s p)
              (set_timeout-Alike i (store_existing i (reject_existing i d reason m))).store
            ∙ ground arith)
  ]

  -- The loop leaves a pending promise whose functions no rejectable entry keeps.
  reject_keys-leaves :
      (reason : E) (ks : List K) (n : ℕ) (m : PromiseMap K V E) (p : ℕ)
      → ((k : K)
          → functions_of (lookup k m.control) ≡ some p
          → rejectable (lookup k m.control) ≡ false)
      → p < m.next
      → m.store p ≡ PromiseState.pending
      → (reject_keys reason ks n m).1.store p ≡ PromiseState.pending
  unfolding reject_keys
  reject_keys-leaves reason [] n m p passed below open_ = open_
  reject_keys-leaves reason (i ∷ ks) n m p passed below open_ =
      elim (Bool-cases (rejectable (lookup i m.control))) [
        | inr not_here ↦
            rw (not_here, reject_keys) (reject_keys-leaves reason ks n m p passed below open_)
        | inl turn ↦
            let m' = (reject i reason m).1 in
            let (below', _) = reject-decides i reason m p below in
            rw (turn, reject_keys)
              (reject_keys-leaves reason ks (n + 1) m' p
                (λ k f. rejectable-reject i k reason m ∙ (elim (Bool-cases (e.beq i k)) [
                  | inl self ↦ rw self refl
                  | inr other ↦ rw other (passed k (functions_of-reject i k reason m other ∙ f))
                ]))
                below' (reject-leaves i reason m p (λ f. cc (sym turn ∙ passed i f)) below open_))
      ]

  pub reject_all-leaves :
      (reason : E) (m : PromiseMap K V E) (p : ℕ)
      → ((k : K)
          → functions_of (lookup k m.control) ≡ some p
          → rejectable (lookup k m.control) ≡ false)
      → p < m.next
      → m.store p ≡ PromiseState.pending
      → (reject_all reason m).1.store p ≡ PromiseState.pending
  unfolding reject_all
  reject_all-leaves reason m p passed below open_ =
      reject_keys-leaves reason (keys m.control) 0 m p passed below open_
