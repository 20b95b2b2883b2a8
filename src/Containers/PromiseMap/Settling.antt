-- ===== src/Containers/PromiseMap/Settling.antt =====
-- What a client of the map sees: the promise that it was given settles as its key is settled.
use Prim.Native.String.{String}
use celeries.Base.{
  ℕ, ◌<◌, ◌≡◌, refl, ap, ◌∙◌, true, false, Option, none, some, ◌∷◌, arith, if◌then◌else◌, inl, inr,
  Option-cases, ◌==◌,
}
use celeries.Base.Equality.{Eq}
use celeries.Base.Dict.{lookup, lookup-insert, lookup-erase}
use celeries.Containers.PromiseMap.Promises.{
  PromiseState, follows, Awaited, Outcome, Job, decide, of_outcome, settled_state,
}
use celeries.Containers.PromiseMap.{
  State, MapData, PromiseMap, has, get, resolve, reject, delete, finish_job, do_delete, settle,
  resolve_existing, reject_existing, set_status, drop_entry, store_existing, status_of,
}
use celeries.Containers.PromiseMap.Lookups.{
  functions_of, set_timeout-Alike, core, shows, shows-core, shows-gone, reject-core, resolve-core,
  finish_job-core,
}

module _ {K V E : Type 0} ⦃e : Eq K⦄ where
  -- A second `get` of a key gives the same promise again and changes nothing, and the key is in the
  -- map.
  pub get-get :
      (key : K) (m : PromiseMap K V E)
      → let (p, m1) = get key m in (get key m1 ≡ (p, m1)) × (has key m1 ≡ true)
  unfolding get has
  get-get key m = elim (Option-cases (lookup key m.promises)) [
    | inr (p, found) ↦ ground (arith, found)
    | inl gone ↦ ground (arith, gone, lookup-insert key key m.next m.promises, e.beq_iff key key)
  ]

  get-found :
      (key : K) (m : PromiseMap K V E) (p : ℕ) → lookup key m.promises ≡ some p → get key m ≡ (p, m)
  unfolding get
  get-found key m p found = ground (arith, found)

  pub functions_of-core :
      (key : K) (m : PromiseMap K V E) (p : ℕ) (s : State)
      → core (lookup key m.control) ≡ some (some p, s)
      → functions_of (lookup key m.control) ≡ some p
  functions_of-core key m p s c = ground arith

  -- The entry that `get` makes for a new key.
  pub get-new :
      (key : K) (m : PromiseMap K V E)
      → lookup key m.promises ≡ none
      → let (p, m1) = get key m in
        (p ≡ m.next)
        × (core (lookup key m1.control) ≡ some (some p, State.pending))
        × (lookup key m1.promises ≡ some p)
        × (m1.store p ≡ PromiseState.pending)
        × (p < m1.next)
        × (m1.jobs ≡ m.jobs)
  unfolding get
  get-new key m gone = ground (
    arith,
    gone,
    e.beq_iff key key,
    lookup-insert key key m.next m.promises,
    lookup-insert key key (record { functions = some m.next; status = State.pending; timer = none })
        m.control,
  )

  -- A call of `reject` decides the promise whose functions the key keeps.
  pub reject-store :
      (key : K) (reason : E) (m : PromiseMap K V E) (p : ℕ)
      → functions_of (lookup key m.control) ≡ some p
      → m.store p ≡ PromiseState.pending
      → let (new, m') = reject key reason m in
        (new ≡ false) × (m'.store p ≡ PromiseState.rejected reason) × (m'.promises ≡ m.promises)
  unfolding reject settle reject_existing store_existing decide
  reject-store key reason m p f open_ = elim (Option-cases (lookup key m.control)) [
    | inl gone ↦ absurd (ground (arith, gone))
    | inr (d, found) ↦
        let a = set_timeout-Alike key (store_existing key (reject_existing key d reason m)) in
        let with : d.functions ≡ some p = ground (arith, found) in
        rw (found, settle)
          (refl, ap (λ s. s p) a.store ∙ ground (arith, with), a.promises ∙ ground (arith, with))
  ]

  -- Likewise `resolve`: the promise follows the new call of `doResolve`.
  pub resolve-store :
      (key : K) (v : Awaited V) (m : PromiseMap K V E) (p : ℕ)
      → functions_of (lookup key m.control) ≡ some p
      → m.store p ≡ PromiseState.pending
      → p < m.next
      → let (new, m') = resolve key v m in
        (new ≡ false)
        × (m'.store p ≡ follows m.next)
        × (m'.promises ≡ m.promises)
        × (m'.jobs ≡ record { key = key; awaited = v; promise = m.next } ∷ m.jobs)
  unfolding resolve settle resolve_existing store_existing decide
  resolve-store key v m p f open_ below = elim (Option-cases (lookup key m.control)) [
    | inl gone ↦ absurd (ground (arith, gone))
    | inr (d, found) ↦
        let a = set_timeout-Alike key (store_existing key (resolve_existing key d v m)) in
        let with : d.functions ≡ some p = ground (arith, found) in
        rw (found, settle)
          (
            refl,
            ap (λ s. s p) a.store ∙ ground (arith, with),
            a.promises ∙ ground (arith, with),
            a.jobs ∙ ground (arith, with),
          )
  ]

  pub finish_job-store :
      (j : Job K V) (o : Outcome V E) (m : PromiseMap K V E) (p : ℕ)
      → m.store p ≡ follows j.promise
      → p < j.promise
      → let m' = finish_job j o m in
        (settled_state m'.store p ≡ of_outcome o) × (m'.promises ≡ m.promises)
  unfolding finish_job settled_state set_status
  finish_job-store j o m p behind below = (ground arith, ground arith)

  -- A promise that `get` made for a new key is rejected by `reject` of the key, at once and with
  -- its reason. No new promise is made, and the key still gives this one.
  pub get-reject :
      (key : K) (reason : E) (m : PromiseMap K V E)
      → lookup key m.promises ≡ none
      → let (p, m1) = get key m in
        let (new, m2) = reject key reason m1 in
        (new ≡ false)
        × (m2.store p ≡ PromiseState.rejected reason)
        × (shows State.rejected key m2 ≡ true)
        × (get key m2 ≡ (p, m2))
  get-reject key reason m gone =
      let (p, m1) = get key m in
      let (_, c, there, open_, below, jobs_before) = get-new key m gone in
      let (old, store, same) =
        reject-store key reason m1 p (functions_of-core key m1 p _ c) open_ in
      let m2 = (reject key reason m1).1 in
      (
        old,
        store,
        shows-core none State.rejected key m2
            (reject-core key key reason m1 ∙ ground (arith, e.beq_iff key key)),
        get-found key m2 p (ap (lookup key) same ∙ there),
      )

  -- A promise that `get` made for a new key follows what the key is resolved with: when that
  -- settles, the promise settles alike, the query for its state answers true, and the key still
  -- gives this promise.
  pub get-resolve-finish_job :
      (key : K) (v : Awaited V) (o : Outcome V E) (m : PromiseMap K V E)
      → lookup key m.promises ≡ none
      → let (p, m1) = get key m in
        let (new, m2) = resolve key v m1 in
        let j : Job K V = record { key = key; awaited = v; promise = m1.next } in
        let m3 = finish_job j o m2 in
        (new ≡ false)
        × (m2.jobs ≡ j ∷ m.jobs)
        × (shows State.pending key m2 ≡ true)
        × (settled_state m3.store p ≡ of_outcome o)
        × (shows (status_of o) key m3 ≡ true)
        × (get key m3 ≡ (p, m3))
  get-resolve-finish_job key v o m gone =
      let (p, m1) = get key m in
      let (_, c, there, open_, below, jobs_before) = get-new key m gone in
      let (old, store, same, jobs) =
        resolve-store key v m1 p (functions_of-core key m1 p _ c) open_ below in
      let m2 = (resolve key v m1).1 in
      let j : Job K V = record { key = key; awaited = v; promise = m1.next } in
      let here : e.beq key key ≡ true = (e.beq_iff key key).1 refl in
      let after = finish_job-core j key o m2 in
      let (result, kept) = finish_job-store j o m2 p store below in
      (
        old,
        jobs ∙ ap (◌∷◌ j) jobs_before,
        shows-core none State.pending key m2 (resolve-core key key v m1 ∙ ground (arith, here)),
        result,
        shows-core _ (status_of o) key (finish_job j o m2) (rw here at after),
        get-found key (finish_job j o m2) p (ap (lookup key) (kept ∙ same) ∙ there),
      )

  drop_entry-alike :
      (o : Option MapData) (reason : E) (m : PromiseMap K V E)
      → let m' = drop_entry o reason m in
        (m'.control ≡ m.control)
        × (m'.promises ≡ m.promises)
        × ((p : ℕ)
            → functions_of o ≡ some p
            → m.store p ≡ PromiseState.pending
            → m'.store p ≡ PromiseState.rejected reason)
  unfolding drop_entry decide
  drop_entry-alike none reason m = (refl, refl, λ p f open_. cc)
  drop_entry-alike (some d) reason m = (ground arith, ground arith, λ p f open_. ground arith)

  -- `doDelete` leaves nothing under the key, and rejects the promise whose functions it kept.
  pub do_delete-gone :
      (key : K) (reason : E) (m : PromiseMap K V E)
      → let (was, m') = do_delete key reason m in
        (was ≡ has key m)
        × (lookup key m'.control ≡ none)
        × (lookup key m'.promises ≡ none)
        × ((p : ℕ)
            → functions_of (lookup key m.control) ≡ some p
            → m.store p ≡ PromiseState.pending
            → m'.store p ≡ PromiseState.rejected reason)
  unfolding do_delete has
  do_delete-gone key reason m =
      let m1 = drop_entry (lookup key m.control) reason m in
      let (control, promises, rejects) = drop_entry-alike (lookup key m.control) reason m in
      let self : e.beq key key ≡ true = (e.beq_iff key key).1 refl in
      (
        rw promises,
        lookup-erase key key m1.control ∙ ground (arith, self),
        lookup-erase key key m1.promises ∙ ground (arith, self),
        rejects,
      )

  pub finish_job-frame :
      (j : Job K V) (o : Outcome V E) (m : PromiseMap K V E) (p : ℕ)
      → let m' = finish_job j o m in
        (m'.promises ≡ m.promises)
        × (m'.store p ≡ (if j.promise == p then of_outcome o else m.store p))
  unfolding finish_job set_status
  finish_job-frame j o m p = (refl, refl)

-- `delete` says whether the key was there, rejects the promise whose functions it kept if that is
-- undecided, and leaves the key out of the map with every query answering false.
pub delete-gone :
    {K V E : Type 0} ⦃e : Eq K⦄ (error : String → E) (key : K) (m : PromiseMap K V E)
    → let (was, m') = delete error key m in
      (was ≡ has key m)
      × (has key m' ≡ false)
      × ((s : State) → shows s key m' ≡ false)
      × ((p : ℕ)
          → functions_of (lookup key m.control) ≡ some p
          → m.store p ≡ PromiseState.pending
          → m'.store p ≡ PromiseState.rejected (error "deleted"))
unfolding delete has
delete-gone error key m =
    let (was, control, promises, rejects) = do_delete-gone key (error "deleted") m in
    (was, ground (arith, promises), λ s. shows-gone s key (delete error key m).1 control, rejects)
