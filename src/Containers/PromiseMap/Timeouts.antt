-- ===== src/Containers/PromiseMap/Timeouts.antt =====
-- The timeout of a map stays what it was made with.
use Prim.Native.String.{String}
use celeries.Base.{
  ℕ, ◌+◌, ◌≡◌, refl, ◌∙◌, Option, List, [], ◌∷◌, arith, Option-cases, Bool-cases, inl, inr,
}
use celeries.Base.Equality.{Eq}
use celeries.Base.Dict.{lookup, keys}
use celeries.Containers.PromiseMap.{
  MapData, PromiseMap, create, get, set_timeout, settle, resolve, reject, reject_keys, reject_all,
  store_existing, store_new, stop_timer, set_data, set_promise, resolve_existing, resolve_new,
  reject_existing, reject_new, reject_functions, do_resolve, rejectable, delete, do_delete,
  drop_entry, clear, finish_job, set_status, fire, new_promise,
}
use celeries.Containers.PromiseMap.Promises.{Awaited}
use celeries.Containers.PromiseMap.Orphans.History.{
  Step, gets, resolves, rejects, rejects_all, deletes, clears, finishes, fires, Reach, created,
  then_,
}

module _ {K V E : Type 0} ⦃e : Eq K⦄ where
  set_timeout-timeout : (key : K) (m : PromiseMap K V E) → (set_timeout key m).1.timeout ≡ m.timeout
  unfolding set_timeout stop_timer set_data
  set_timeout-timeout key m = ground arith

  settle-timeout :
      (key : K) (on_existing : MapData → PromiseMap K V E → MapData × PromiseMap K V E)
      (on_new : PromiseMap K V E → (ℕ × MapData) × PromiseMap K V E) (m : PromiseMap K V E)
      → ((d : MapData) → (on_existing d m).1.timeout ≡ m.timeout)
      → (on_new m).1.timeout ≡ m.timeout
      → (settle key on_existing on_new m).1.timeout ≡ m.timeout
  unfolding settle store_existing store_new set_data set_promise
  settle-timeout key on_existing on_new m old new = elim (Option-cases (lookup key m.control)) [
    | inl gone ↦ rw (gone, settle) (set_timeout-timeout key (store_new key (on_new m)) ∙ new)
    | inr (d, found) ↦
        rw (found, settle) (set_timeout-timeout key (store_existing key (on_existing d m)) ∙ old d)
  ]

  resolve-timeout :
      (key : K) (v : Awaited V) (m : PromiseMap K V E) → (resolve key v m).1.timeout ≡ m.timeout
  unfolding resolve resolve_existing resolve_new do_resolve set_promise
  resolve-timeout key v m =
      settle-timeout key (λ d. resolve_existing key d v) (resolve_new key v) m (λ d. ground arith)
        refl

  reject-timeout :
      (key : K) (reason : E) (m : PromiseMap K V E) → (reject key reason m).1.timeout ≡ m.timeout
  unfolding reject reject_existing reject_new reject_functions new_promise set_promise
  reject-timeout key reason m =
      settle-timeout key (λ d. reject_existing key d reason) (reject_new reason) m
        (λ d. ground arith) refl

  reject_keys-timeout :
      (reason : E) (ks : List K) (n : ℕ) (m : PromiseMap K V E)
      → (reject_keys reason ks n m).1.timeout ≡ m.timeout
  unfolding reject_keys
  reject_keys-timeout reason [] n m = refl
  reject_keys-timeout reason (k ∷ ks) n m = elim (Bool-cases (rejectable (lookup k m.control))) [
    | inl here ↦
        rw (here, reject_keys)
          (reject_keys-timeout reason ks (n + 1) (reject k reason m).1 ∙ reject-timeout k reason m)
    | inr other ↦ rw (other, reject_keys) (reject_keys-timeout reason ks n m)
  ]

  do_delete-timeout :
      (key : K) (reason : E) (m : PromiseMap K V E) → (do_delete key reason m).1.timeout ≡ m.timeout
  unfolding do_delete drop_entry stop_timer reject_functions
  do_delete-timeout key reason m = ground arith

module _ {K V E : Type 0} ⦃e : Eq K⦄ (error : String → E) where
  Step-timeout : {m m' : PromiseMap K V E} → Step error m m' → m'.timeout ≡ m.timeout
  unfolding get new_promise set_data set_promise reject_all delete clear finish_job set_status fire
  Step-timeout (gets key m) = ground arith
  Step-timeout (resolves key v m) = resolve-timeout key v m
  Step-timeout (rejects key reason m) = reject-timeout key reason m
  Step-timeout (rejects_all reason m) = reject_keys-timeout reason (keys m.control) 0 m
  Step-timeout (deletes key m) = do_delete-timeout key (error "deleted") m
  Step-timeout (clears m) = refl
  Step-timeout (finishes j o m i s) = ground arith
  Step-timeout (fires t m i) = do_delete-timeout t.key (error "timed out") _

  pub Reach-timeout :
      {timeout : Option ℕ} {m : PromiseMap K V E} → Reach error timeout m → m.timeout ≡ timeout
  unfolding create
  Reach-timeout created = refl
  Reach-timeout (then_ r s) = Step-timeout s ∙ Reach-timeout r
