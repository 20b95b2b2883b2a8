-- ===== src/Containers/PromiseMap/Stale.antt =====
-- What the map does when something that was begun for a key ends after the key was deleted.
use Prim.Native.String.{String}
use celeries.Base.{
  ℕ, suc, ◌<◌, ◌≡◌, refl, sym, ap, ◌∙◌, true, false, Option, none, some, arith, inl, inr,
  Option-cases, Bool-cases,
}
use celeries.Base.Equality.{Eq}
use celeries.Base.Dict.{lookup, lookup-insert, lookup-erase}
use celeries.Containers.PromiseMap.Promises.{
  PromiseState, Awaited, Outcome, value, thrown, Job, Timer, clear_timer,
}
use celeries.Containers.PromiseMap.{
  State, MapData, PromiseMap, reject_all, set_status, has, get, resolve, delete, clear, finish_job,
  fire, do_delete, settle, resolve_existing, resolve_new, drop_entry, store_new, store_existing,
  rejectable, status_of,
}
use celeries.Containers.PromiseMap.Settling.{
  get-new, do_delete-gone, finish_job-frame, functions_of-core,
}
use celeries.Containers.PromiseMap.Passing.{reject_all-leaves}
use celeries.Containers.PromiseMap.Lookups.{
  functions_of, functions_of-same, set_timeout-Alike, core, shows, shows-core, resolve-core,
  finish_job-core,
}

settled-rejectable :
    {V E : Type 0} (o : Outcome V E) (d : Option MapData) (f : Option ℕ)
    → core d ≡ some (f, status_of o)
    → rejectable d ≡ false
settled-rejectable (value v) d f c = ground arith
settled-rejectable (thrown x) d f c = ground arith

module _ {K V E : Type 0} ⦃e : Eq K⦄ (error : String → E) where
  -- The call of `doResolve` that `resolve` of the key begins.
  abbrev pub job_of : K → Awaited V → PromiseMap K V E → Job K V
  job_of key v m = record { key = key; awaited = v; promise = m.next }

  -- A key is resolved and deleted, and then the awaited value settles: the map answers that the key
  -- is fulfilled, or rejected, though it is not in the map.
  pub resolve-delete-finish_job :
      (key : K) (v : Awaited V) (o : Outcome V E) (m : PromiseMap K V E)
      → let m1 = (resolve key v m).1 in
        let m2 = (delete error key m1).1 in
        let m3 = finish_job (job_of key v m) o m2 in
        (has key m3 ≡ false) × (shows (status_of o) key m3 ≡ true)
  unfolding delete has
  resolve-delete-finish_job key v o m =
      let m1 = (resolve key v m).1 in
      let m2 = (do_delete key (error "deleted") m1).1 in
      let (_, control, promises, _) = do_delete-gone key (error "deleted") m1 in
      let j = job_of key v m in
      let self : e.beq key key ≡ true = (e.beq_iff key key).1 refl in
      (
        ground (arith, (finish_job-frame j o m2 0).0, promises),
        shows-core none (status_of o) key (finish_job j o m2)
            (finish_job-core j key o m2 ∙ ground (arith, self, control)),
      )

  resolve-next :
      (key : K) (v : Awaited V) (m : PromiseMap K V E) → (resolve key v m).1.next ≡ suc m.next
  unfolding resolve settle resolve_existing resolve_new store_new store_existing
  resolve-next key v m = elim (Option-cases (lookup key m.control)) [
    | inl gone ↦
        rw (gone, settle) ((set_timeout-Alike key (store_new key (resolve_new key v m))).next)
    | inr (d, found) ↦
        rw (found, settle)
          ((set_timeout-Alike key (store_existing key (resolve_existing key d v m))).next
            ∙ ground arith)
  ]

  delete-next : (key : K) (m : PromiseMap K V E) → (delete error key m).1.next ≡ m.next
  unfolding delete do_delete drop_entry
  delete-next key m = ground arith

  delete-others :
      (key k : K) (m : PromiseMap K V E)
      → e.beq key k ≡ false
      → lookup k (delete error key m).1.control ≡ lookup k m.control
  unfolding delete do_delete drop_entry
  delete-others key k m other = elim (Option-cases (lookup key m.control)) [
    | inl gone ↦ ground (arith, gone, other, lookup-erase key k m.control)
    | inr (d, found) ↦ ground (arith, found, other, lookup-erase key k m.control)
  ]

  get-others :
      (key k : K) (m : PromiseMap K V E)
      → e.beq key k ≡ false
      → lookup k (get key m).1.control ≡ lookup k m.control
  unfolding get
  get-others key k m other = elim (Option-cases (lookup key m.promises)) [
    | inl gone ↦ ground (
      arith,
      gone,
      other,
      lookup-insert key k (record { functions = some m.next; status = State.pending; timer = none })
          m.control,
    )
    | inr (p, found) ↦ ground (arith, found)
  ]

  finish_job-next :
      {p : ℕ} (j : Job K V) (o : Outcome V E) (m : PromiseMap K V E)
      → p < m.next
      → p < (finish_job j o m).next
  unfolding finish_job set_status
  finish_job-next j o m below = below

  abbrev stale : K → Awaited V → Outcome V E → PromiseMap K V E → PromiseMap K V E
  stale key v o m =
      finish_job (job_of key v m) o (get key (delete error key (resolve key v m).1).1).1

  -- The other entries keep what they kept.
  stale-functions :
      (key k : K) (v : Awaited V) (o : Outcome V E) (m : PromiseMap K V E)
      → e.beq key k ≡ false
      → functions_of (lookup k (stale key v o m).control) ≡ functions_of (lookup k m.control)
  unfolding delete
  stale-functions key k v o m other =
      let m1 = (resolve key v m).1 in
      let m2 = (delete error key m1).1 in
      let m3 = (get key m2).1 in
      let job : core (lookup k (stale key v o m).control) ≡ core (lookup k m3.control) =
        finish_job-core (job_of key v m) k o m3 ∙ ground (arith, other) in
      let settled : core (lookup k m1.control) ≡ core (lookup k m.control) =
        resolve-core key k v m ∙ ground (arith, other) in
      functions_of-same (lookup k (stale key v o m).control) (lookup k m3.control) job
      ∙ ap functions_of (get-others key k m2 other ∙ delete-others key k m1 other)
      ∙ functions_of-same (lookup k m1.control) (lookup k m.control) settled

  -- A key is resolved, deleted and asked for again, and then the value that was awaited first
  -- settles. If each promise whose functions an entry of the map keeps at first has been made by the
  -- map, then the promise that the key has now is undecided, but the entry counts as settled, and
  -- `rejectAll` leaves the promise undecided.
  pub resolve-delete-get-finish_job :
      (key : K) (v : Awaited V) (o : Outcome V E) (reason : E) (m : PromiseMap K V E)
      → ((k : K) (q : ℕ) → functions_of (lookup k m.control) ≡ some q → q < m.next)
      → let m1 = (resolve key v m).1 in
        let m2 = (delete error key m1).1 in
        let (p, m3) = get key m2 in
        let m4 = finish_job (job_of key v m) o m3 in
        (m4.store p ≡ PromiseState.pending)
        × (shows (status_of o) key m4 ≡ true)
        × (functions_of (lookup key m4.control) ≡ some p)
        × ((reject_all reason m4).1.store p ≡ PromiseState.pending)
  unfolding delete
  resolve-delete-get-finish_job key v o reason m made =
      let m1 = (resolve key v m).1 in
      let m2 = (delete error key m1).1 in
      let (_, control, promises, _) = do_delete-gone key (error "deleted") m1 in
      let (p, m3) = get key m2 in
      let (at, c, _, open_, below, _) = get-new key m2 promises in
      let j = job_of key v m in
      let m4 = finish_job j o m3 in
      let self : e.beq key key ≡ true = (e.beq_iff key key).1 refl in
      let after : core (lookup key m4.control) ≡ some (some p, status_of o) =
        finish_job-core j key o m3 ∙ ground (arith, self, functions_of-core key m3 p _ c) in
      let new : p ≡ suc m.next = at ∙ delete-next key m1 ∙ resolve-next key v m in
      let undecided : m4.store p ≡ PromiseState.pending =
        (finish_job-frame j o m3 p).1 ∙ ground (arith, new) in
      (
        undecided,
        shows-core (some p) (status_of o) key m4 after,
        functions_of-core key m4 p (status_of o) after,
        reject_all-leaves reason m4 p
            (λ k f. elim (Bool-cases (e.beq key k)) [
              | inl same ↦
                  rw (← (e.beq_iff key k).0 same)
                    (settled-rejectable o (lookup key m4.control) (some p) after)
              | inr other ↦
                  absurd
                    (omega (arith, new, made k p (sym (stale-functions key k v o m other) ∙ f)))
            ])
            (finish_job-next j o m3 below) undecided,
      )

  -- `clear` leaves the timers running: one that was set for a key before rejects the promise that a
  -- client has been given for the key since, and takes the key out.
  pub clear-get-fire :
      (t : Timer K) (m : PromiseMap K V E)
      → let m1 = (clear error m).1 in
        let (p, m2) = get t.key m1 in
        let m3 = fire error t m2 in
        (m1.timers ≡ m.timers)
        × (m2.store p ≡ PromiseState.pending)
        × (m3.store p ≡ PromiseState.rejected (error "timed out"))
        × (has t.key m3 ≡ false)
  unfolding clear fire has lookup
  clear-get-fire t m =
      let m1 = (clear error m).1 in
      let (p, m2) = get t.key m1 in
      let (_, c, _, open_, _, _) = get-new t.key m1 refl in
      let m2' : PromiseMap K V E = record m2 { timers = clear_timer t.id m2.timers } in
      let (_, _, promises, rejects) = do_delete-gone t.key (error "timed out") m2' in
      (refl, open_, rejects p (functions_of-core t.key m2 p _ c) open_, ground (arith, promises))
