-- ===== src/Containers/PromiseMap/Waiting.antt =====
-- The promise that `get` gave, from then until its key is settled.
use celeries.Base.{ℕ, ◌<◌, ◌≡◌, ◌∙◌, false, none, some, ◌∷◌}
use celeries.Base.Equality.{Eq}
use celeries.Base.Dict.{lookup}
use celeries.Containers.PromiseMap.Promises.{
  PromiseState, Awaited, Outcome, Job, of_outcome, settled_state,
}
use celeries.Containers.PromiseMap.{PromiseMap, get, resolve, finish_job}
use celeries.Containers.PromiseMap.Settling.{
  get-new, functions_of-core, resolve-store, finish_job-store,
}
use celeries.Containers.PromiseMap.Lookups.{functions_of}

module _ {K V E : Type 0} ⦃e : Eq K⦄ where
  -- The key keeps the functions of the promise, which is undecided.
  abbrev pub Waits : K → ℕ → PromiseMap K V E → Type 0
  Waits key p m =
      (functions_of (lookup key m.control) ≡ some p)
      × (m.store p ≡ PromiseState.pending)
      × (p < m.next)

  pub get-Waits :
      (key : K) (m : PromiseMap K V E)
      → lookup key m.promises ≡ none
      → let (p, m') = get key m in Waits key p m'
  get-Waits key m gone =
      let (p, m') = get key m in
      let (_, c, _, open_, below, _) = get-new key m gone in
      (functions_of-core key m' p _ c, open_, below)

  -- The key is resolved in some later state, and what it is resolved with settles in a still later
  -- one, `m'`, in which the promise is as `resolve` left it.
  pub Waits-resolve-finish_job :
      (key : K) (v : Awaited V) (o : Outcome V E) (p : ℕ) (m m' : PromiseMap K V E)
      → Waits key p m
      → m'.store p ≡ (resolve key v m).1.store p
      → let (new, resolved) = resolve key v m in
        let j : Job K V = record { key = key; awaited = v; promise = m.next } in
        (new ≡ false)
        × (resolved.jobs ≡ j ∷ m.jobs)
        × (settled_state (finish_job j o m').store p ≡ of_outcome o)
  Waits-resolve-finish_job key v o p m m' (f, open_, below) same =
      let (old, behind, _, jobs) = resolve-store key v m p f open_ below in
      let j : Job K V = record { key = key; awaited = v; promise = m.next } in
      (old, jobs, (finish_job-store j o m' p (same ∙ behind) below).0)
