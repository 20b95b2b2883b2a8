-- ===== src/Containers/PromiseMap/Orphans/History.antt =====
-- Everything that can happen to a `PromiseMap`: the calls of its clients, and what the event loop
-- runs, in any order.
use Prim.Native.String.{String}
use mathlib.Core.List.{Mem}
use celeries.Base.{ℕ, ◌<◌, ◌≡◌, Option}
use celeries.Base.Equality.{Eq}
use celeries.Containers.PromiseMap.Promises.{
  PromiseState, Awaited, plain, promise_like, Outcome, value, Job, Timer,
}
use celeries.Containers.PromiseMap.{
  PromiseMap, create, get, resolve, reject, reject_all, delete, clear, finish_job, fire,
}
use celeries.Containers.PromiseMap.Orphans.{Owned, NoOrphans, create-NoOrphans, get-NoOrphans}
use celeries.Containers.PromiseMap.Orphans.Settle.{
  resolve-NoOrphans, reject-NoOrphans, reject_all-NoOrphans,
}
use celeries.Containers.PromiseMap.Orphans.Remove.{
  delete-NoOrphans, clear-NoOrphans, fire-NoOrphans, finish_job-NoOrphans,
}

-- A plain value comes to itself; a promise of someone else to anything.
abbrev pub Settles : {V E : Type 0} → Awaited V → Outcome V E → Type 0
Settles (plain v) o = o ≡ value v
Settles (promise_like p) o = Unit {0}

module _ {K V E : Type 0} ⦃e : Eq K⦄ (error : String → E) where
  pub data Step : PromiseMap K V E → PromiseMap K V E → Type 0 where
    gets : (key : K) (m : PromiseMap K V E) → Step m (get key m).1
    resolves : (key : K) (v : Awaited V) (m : PromiseMap K V E) → Step m (resolve key v m).1
    rejects : (key : K) (reason : E) (m : PromiseMap K V E) → Step m (reject key reason m).1
    rejects_all : (reason : E) (m : PromiseMap K V E) → Step m (reject_all reason m).1
    deletes : (key : K) (m : PromiseMap K V E) → Step m (delete error key m).1
    clears : (m : PromiseMap K V E) → Step m (clear error m).1
    finishes :
        (j : Job K V) (o : Outcome V E) (m : PromiseMap K V E)
        → Mem j m.jobs
        → Settles j.awaited o
        → Step m (finish_job j o m)
    fires : (t : Timer K) (m : PromiseMap K V E) → Mem t m.timers → Step m (fire error t m)

  pub data Reach (timeout : Option ℕ) : PromiseMap K V E → Type 0 where
    created : Reach timeout (create K V E timeout)
    then_ : {m m' : PromiseMap K V E} → Reach timeout m → Step m m' → Reach timeout m'

  Step-NoOrphans : {m m' : PromiseMap K V E} → Step m m' → NoOrphans m → NoOrphans m'
  Step-NoOrphans (gets key m) h = get-NoOrphans key m h
  Step-NoOrphans (resolves key v m) h = resolve-NoOrphans key v m h
  Step-NoOrphans (rejects key reason m) h = reject-NoOrphans key reason m h
  Step-NoOrphans (rejects_all reason m) h = reject_all-NoOrphans reason m h
  Step-NoOrphans (deletes key m) h = delete-NoOrphans error key m h
  Step-NoOrphans (clears m) h = clear-NoOrphans error m h
  Step-NoOrphans (finishes j o m i s) h = finish_job-NoOrphans j o m h
  Step-NoOrphans (fires t m i) h = fire-NoOrphans error t m h

  Reach-NoOrphans : {timeout : Option ℕ} {m : PromiseMap K V E} → Reach timeout m → NoOrphans m
  Reach-NoOrphans {timeout} created = create-NoOrphans timeout
  Reach-NoOrphans (then_ r s) = Step-NoOrphans s (Reach-NoOrphans r)

  -- After any history, a promise that the map made and that has not been decided is the one whose
  -- functions some key keeps, or the one that a suspended call of `doResolve` will settle.
  pub Reach-Owned :
      (timeout : Option ℕ) (m : PromiseMap K V E) (p : ℕ)
      → Reach timeout m
      → p < m.next
      → m.store p ≡ PromiseState.pending
      → Owned p m
  Reach-Owned timeout m p r below open_ = (Reach-NoOrphans r).owned p below open_
