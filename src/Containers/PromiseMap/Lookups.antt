-- ===== src/Containers/PromiseMap/Lookups.antt =====
-- What an entry's status and timer do not matter to.
use celeries.Base.{
  ℕ, ◌≡◌, refl, Bool, true, false, Option, none, some, arith, if◌then◌else◌, Option-cases, ◌∙◌, inl,
  inr,
}
use celeries.Base.Equality.{Eq}
use celeries.Base.Dict.{lookup, insert, lookup-insert}
use celeries.Containers.PromiseMap.Promises.{Job, Awaited, Outcome}
use celeries.Containers.PromiseMap.{
  State, MapData, PromiseMap, set_timeout, set_status, is_pending, is_fulfilled, is_rejected,
  reject, settle, reject_existing, reject_new, store_new, store_existing, resolve, resolve_existing,
  resolve_new, finish_job, status_of,
}

abbrev pub functions_of : Option MapData → Option ℕ
functions_of none = none
functions_of (some d) = d.functions

-- What a query and `rejectAll` read of an entry.
abbrev pub core : Option MapData → Option (Option ℕ × State)
core none = none
core (some d) = some (d.functions, d.status)

pub functions_of-same :
    (o o' : Option MapData) → core o ≡ core o' → functions_of o ≡ functions_of o'
functions_of-same none none same = refl
functions_of-same none (some d) same = ground arith
functions_of-same (some d) none same = ground arith
functions_of-same (some d) (some d') same = ground arith

module _ {K V E : Type 0} ⦃e : Eq K⦄ where
  -- `m'` differs from `m` in the status and the timer of entries, and in the timers, at most.
  pub record Alike (m m' : PromiseMap K V E) : Type 0 where
    pub functions : (k : K) → functions_of (lookup k m'.control) ≡ functions_of (lookup k m.control)
    pub promises : m'.promises ≡ m.promises
    pub store : m'.store ≡ m.store
    pub next : m'.next ≡ m.next
    pub jobs : m'.jobs ≡ m.jobs

  pub set_timeout-Alike : (key : K) (m : PromiseMap K V E) → Alike m (set_timeout key m).1
  unfolding set_timeout
  set_timeout-Alike key m = record {
    functions = λ k. elim (Option-cases (lookup key m.control)) [
      | inl gone ↦ rw (gone, set_timeout)
      | inr (d, found) ↦ ground (
        arith,
        found,
        e.beq_iff key k,
        lookup-insert key k (record d { timer = some m.next_timer }) m.control,
      )
    ];
    promises = ground arith;
    store = ground arith;
    next = ground arith;
    jobs = ground arith;
  }

  pub set_status-Alike : (key : K) (s : State) (m : PromiseMap K V E) → Alike m (set_status key s m)
  unfolding set_status
  set_status-Alike key s m = record {
    functions = λ k. elim (Option-cases (lookup key m.control)) [
      | inl gone ↦ ground (
        arith,
        gone,
        e.beq_iff key k,
        lookup-insert key k (record { functions = none; status = s; timer = none }) m.control,
      )
      | inr (d, found) ↦
          ground
            (arith, found, e.beq_iff key k, lookup-insert key k (record d { status = s }) m.control)
    ];
    promises = ground arith;
    store = ground arith;
    next = ground arith;
    jobs = ground arith;
  }

  set_timeout-core :
      (key k : K) (m : PromiseMap K V E)
      → core (lookup k (set_timeout key m).1.control) ≡ core (lookup k m.control)
  unfolding set_timeout
  set_timeout-core key k m = elim (Option-cases (lookup key m.control)) [
    | inl gone ↦ rw (gone, set_timeout)
    | inr (d, found) ↦ ground (
      arith,
      found,
      e.beq_iff key k,
      lookup-insert key k (record d { timer = some m.next_timer }) m.control,
    )
  ]

  core-insert :
      (key k : K) (d : MapData) (m m' : PromiseMap K V E)
      → m'.control ≡ m.control
      → core (lookup k (insert key d m'.control))
        ≡ (if e.beq key k then core (some d) else core (lookup k m.control))
  core-insert key k d m m' same = rw same (ground (arith, lookup-insert key k d m.control))

  reject_existing-control :
      (key : K) (d : MapData) (reason : E) (m : PromiseMap K V E)
      → (reject_existing key d reason m).1.control ≡ m.control
  unfolding reject_existing
  reject_existing-control key d reason m = ground arith

  resolve_existing-control :
      (key : K) (d : MapData) (v : Awaited V) (m : PromiseMap K V E)
      → (resolve_existing key d v m).1.control ≡ m.control
  unfolding resolve_existing
  resolve_existing-control key d v m = ground arith

  -- After `reject` the key's entry is rejected, without functions, and the others are as before.
  pub reject-core :
      (key k : K) (reason : E) (m : PromiseMap K V E)
      → core (lookup k (reject key reason m).1.control)
        ≡ (if e.beq key k then some (none, State.rejected) else core (lookup k m.control))
  unfolding reject settle reject_new reject_existing store_new store_existing
  reject-core key k reason m = elim (Option-cases (lookup key m.control)) [
    | inl gone ↦
        rw (gone, settle)
          (set_timeout-core key k _ ∙ core-insert key k fresh m (reject_new reason m).1 refl)
    | inr (d, found) ↦
        rw (found, settle)
          (set_timeout-core key k _
            ∙ core-insert key k (record d { functions = none; status = State.rejected }) m
                (reject_existing key d reason m).1 (reject_existing-control key d reason m))
  ]
    where
      fresh : MapData
      fresh = record { functions = none; status = State.rejected; timer = none }

  -- After `resolve` the key's entry is pending, without functions, and the others are as before.
  pub resolve-core :
      (key k : K) (v : Awaited V) (m : PromiseMap K V E)
      → core (lookup k (resolve key v m).1.control)
        ≡ (if e.beq key k then some (none, State.pending) else core (lookup k m.control))
  unfolding resolve settle resolve_new resolve_existing store_new store_existing
  resolve-core key k v m = elim (Option-cases (lookup key m.control)) [
    | inl gone ↦
        rw (gone, settle)
          (set_timeout-core key k _ ∙ core-insert key k fresh m (resolve_new key v m).1 refl)
    | inr (d, found) ↦
        rw (found, settle)
          (set_timeout-core key k _
            ∙ core-insert key k (record d { functions = none; status = State.pending }) m
                (resolve_existing key d v m).1 (resolve_existing-control key d v m))
  ]
    where
      fresh : MapData
      fresh = record { functions = none; status = State.pending; timer = none }

  -- When a call of `doResolve` ends, the key's entry has the status of the outcome, whatever else
  -- happened to the key in the meantime.
  pub finish_job-core :
      (j : Job K V) (k : K) (o : Outcome V E) (m : PromiseMap K V E)
      → core (lookup k (finish_job j o m).control) ≡ (
          if e.beq j.key k
          then some (functions_of (lookup k m.control), status_of o)
          else core (lookup k m.control))
  unfolding finish_job set_status
  finish_job-core j k o m = elim (Option-cases (lookup j.key m.control)) [
    | inl gone ↦ ground (
      arith,
      gone,
      e.beq_iff j.key k,
      lookup-insert j.key k (record { functions = none; status = status_of o; timer = none })
          m.control,
    )
    | inr (d, found) ↦ ground (
      arith,
      found,
      e.beq_iff j.key k,
      lookup-insert j.key k (record d { status = status_of o }) m.control,
    )
  ]

  -- The query of the class for a state.
  abbrev pub shows : State → K → PromiseMap K V E → Bool
  shows State.pending key m = is_pending key m
  shows State.fulfilled key m = is_fulfilled key m
  shows State.rejected key m = is_rejected key m

  pub shows-core :
      (f : Option ℕ) (s : State) (key : K) (m : PromiseMap K V E)
      → core (lookup key m.control) ≡ some (f, s)
      → shows s key m ≡ true
  unfolding is_pending is_fulfilled is_rejected
  shows-core f State.pending key m c = ground arith
  shows-core f State.fulfilled key m c = ground arith
  shows-core f State.rejected key m c = ground arith

  pub shows-gone :
      (s : State) (key : K) (m : PromiseMap K V E)
      → lookup key m.control ≡ none
      → shows s key m ≡ false
  unfolding is_pending is_fulfilled is_rejected
  shows-gone State.pending key m gone = ground (arith, gone)
  shows-gone State.fulfilled key m gone = ground (arith, gone)
  shows-gone State.rejected key m gone = ground (arith, gone)
