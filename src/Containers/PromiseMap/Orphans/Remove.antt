-- ===== src/Containers/PromiseMap/Orphans/Remove.antt =====
-- `delete`, `clear`, a timer that fires and a value that settles orphan no promise.
use Prim.Native.String.{String}
use celeries.Base.{
  ℕ, ◌≡◌, ◌≢◌, refl, ◌∙◌, false, Option, none, some, List, [], ◌∷◌, arith, inl, inr, Bool-cases,
  ◌==◌,
}
use celeries.Base.Equality.{Eq}
use celeries.Base.Dict.{Dict, lookup, lookup-erase}
use celeries.Containers.PromiseMap.Promises.{
  PromiseState, Outcome, value, thrown, Job, Timer, Store, put, decide, of_outcome, finish,
  clear_timer, awaits,
}
use celeries.Containers.PromiseMap.{
  MapData, PromiseMap, delete, clear, finish_job, fire, do_delete, set_status, drop_entry,
  reject_entries, status_of,
}
use celeries.Containers.PromiseMap.Lookups.{functions_of, set_status-Alike}
use celeries.Containers.PromiseMap.Orphans.{NoOrphans, Alike-NoOrphans, decide-pending}

awaits-finish :
    {K V : Type 0} (q p : ℕ) (js : List (Job K V))
    → (q == p) ≡ false
    → awaits p (finish q js) ≡ awaits p js
unfolding finish
awaits-finish q p [] other = refl
awaits-finish q p (j ∷ js) other = ground (arith, awaits-finish q p js other)

put-pending :
    {V E : Type 0} (o : Outcome V E) (s : Store V E) (q p : ℕ)
    → put s q (of_outcome o) p ≡ PromiseState.pending
    → ((q == p) ≡ false) × (s p ≡ PromiseState.pending)
put-pending (value v) s q p open_ = ground arith
put-pending (thrown x) s q p open_ = ground arith

abbrev rejected_by : {V E : Type 0} → Option ℕ → E → Store V E → Store V E
rejected_by fs reason s = elim fs [ none ↦ s | some q ↦ decide (PromiseState.rejected reason) s q ]

rejected_by-pending :
    {V E : Type 0} (fs : Option ℕ) (reason : E) (s : Store V E) (p : ℕ)
    → rejected_by fs reason s p ≡ PromiseState.pending
    → (s p ≡ PromiseState.pending) × (fs ≢ some p)
rejected_by-pending none reason s p open_ = (open_, λ c. cc)
rejected_by-pending (some q) reason s p open_ =
    let (other, now) = decide-pending (PromiseState.rejected reason) s q p (λ c. cc) open_ in
    (now, λ c. ground arith)

module _ {K V E : Type 0} ⦃e : Eq K⦄ where
  -- What `doDelete` does with an entry leaves every other promise that it knew of in place.
  drop_entry-pending :
      (o : Option MapData) (reason : E) (m : PromiseMap K V E) (p : ℕ)
      → (drop_entry o reason m).store p ≡ PromiseState.pending
      → (functions_of o ≢ some p) × (m.store p ≡ PromiseState.pending)
  unfolding drop_entry decide
  drop_entry-pending none reason m p open_ = (λ c. cc, open_)
  drop_entry-pending (some d) reason m p open_ = (λ c. ground arith, ground arith)

  drop_entry-rest :
      (o : Option MapData) (reason : E) (m : PromiseMap K V E)
      → let m' = drop_entry o reason m in
        (m'.next ≡ m.next)
        × (m'.jobs ≡ m.jobs)
        × (m'.control ≡ m.control)
        × (m'.promises ≡ m.promises)
  unfolding drop_entry
  drop_entry-rest none reason m = (refl, refl, refl, refl)
  drop_entry-rest (some d) reason m = ground arith

  do_delete-NoOrphans :
      (key : K) (reason : E) (m : PromiseMap K V E)
      → NoOrphans m
      → NoOrphans (do_delete key reason m).1
  unfolding do_delete
  do_delete-NoOrphans key reason m h = record {
    held = λ k p f. ground (
      arith,
      h.held k p,
      drop_entry-rest (lookup key m.control) reason m,
      lookup-erase key k m.control,
      lookup-erase key k m.promises,
      e.beq_iff key k,
    );
    owned = λ p below open_.
        let (n, j, c, q) = drop_entry-rest (lookup key m.control) reason m in
        let (apart, open_then) = drop_entry-pending (lookup key m.control) reason m p open_ in
        elim (h.owned p (ground (arith, n)) open_then) [
          | inl (k, f) ↦ inl (k, ground (arith, c, lookup-erase key k m.control, e.beq_iff key k))
          | inr w ↦ inr (rw j w)
        ];
  }

  -- `clear` settles every promise whose functions an entry keeps.
  reject_entries-pending :
      (reason : E) (es : Dict K MapData) (s : Store V E) (p : ℕ)
      → reject_entries reason es s p ≡ PromiseState.pending
      → (s p ≡ PromiseState.pending) × ((k : K) → functions_of (lookup k es) ≢ some p)
  unfolding reject_entries lookup
  reject_entries-pending reason [] s p open_ = (open_, λ k c. cc)
  reject_entries-pending reason ((i, d) ∷ es) s p open_ =
      let (open_then, apart) =
        reject_entries-pending reason es (rejected_by d.functions reason s) p open_ in
      let (now, other) = rejected_by-pending d.functions reason s p open_then in
      (
        now,
        λ k c. elim (Bool-cases (e.beq i k)) [
          | inl here ↦ other (rw here at c)
          | inr there ↦ apart k (rw there at c)
        ],
      )

  pub finish_job-NoOrphans :
      (j : Job K V) (o : Outcome V E) (m : PromiseMap K V E)
      → NoOrphans m
      → NoOrphans (finish_job j o m)
  unfolding finish_job
  finish_job-NoOrphans j o m h =
      let m1 : PromiseMap K V E = set_status j.key (status_of o) m in
      let h1 = Alike-NoOrphans m m1 (set_status-Alike j.key (status_of o) m) h in
      record {
        held = h1.held;
        owned = λ p below open_.
            let (other, now) = put-pending o m1.store j.promise p open_ in
            elim (h1.owned p below now) [
              | inl (k, f) ↦ inl (k, f)
              | inr w ↦ inr (awaits-finish j.promise p m1.jobs other ∙ w)
            ];
      }

module _ {K V E : Type 0} ⦃e : Eq K⦄ (error : String → E) where
  pub delete-NoOrphans :
      (key : K) (m : PromiseMap K V E) → NoOrphans m → NoOrphans (delete error key m).1
  unfolding delete
  delete-NoOrphans key m h = do_delete-NoOrphans key (error "deleted") m h

  pub fire-NoOrphans :
      (t : Timer K) (m : PromiseMap K V E) → NoOrphans m → NoOrphans (fire error t m)
  unfolding fire
  fire-NoOrphans t m h =
      do_delete-NoOrphans t.key (error "timed out")
        (record m { timers = clear_timer t.id m.timers })
        (record { held = h.held; owned = h.owned })

  pub clear-NoOrphans : (m : PromiseMap K V E) → NoOrphans m → NoOrphans (clear error m).1
  unfolding clear lookup
  clear-NoOrphans m h = record {
    held = λ k p f. cc;
    owned = λ p below open_.
        let (now, apart) = reject_entries-pending (error "cleared") m.control m.store p open_ in
        elim (h.owned p below now) [ inl (k, f) ↦ absurd (apart k f) | inr w ↦ inr w ];
  }
