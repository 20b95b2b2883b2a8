-- ===== src/Containers/PromiseMap/Tests.antt =====
-- Runs of a map with a timeout, and the theorems at concrete maps.
use Prim.Native.String.{String}
use celeries.Base.{ℕ, ◌≡◌, refl, true, false, some, [], ◌∷◌, arith}
use celeries.Base.Equality.{nat_eq}
use celeries.Base.Dict.{lookup, insert, erase}
use celeries.Containers.PromiseMap.Promises.{
  PromiseState, plain, promise_like, value, thrown, Job, Timer, settled_state,
}
use celeries.Containers.PromiseMap.{
  State, PromiseMap, create, has, is_fulfilled, get, resolve, reject, reject_all, delete, clear,
  finish_job, fire,
}
use celeries.Containers.PromiseMap.Lookups.{functions_of, shows}
use celeries.Containers.PromiseMap.Orphans.{Owned}
use celeries.Containers.PromiseMap.Orphans.History.{gets, created, then_, Reach-Owned}
use celeries.Containers.PromiseMap.Settling.{
  get-get, get-reject, get-resolve-finish_job, delete-gone,
}
use celeries.Containers.PromiseMap.RejectAll.{reject_all-rejects}
use celeries.Containers.PromiseMap.Stale.{
  job_of, resolve-delete-finish_job, resolve-delete-get-finish_job, clear-get-fire,
}

abbrev Map : Type 0
Map = PromiseMap ℕ ℕ String

abbrev error : String → String
error s = s

abbrev start : Map
start = create ℕ ℕ String (some 1000)

-- Key 7 has been asked for once.
abbrev asked : Map
asked = (get 7 start).1

-- Keys 7 and 8 have been asked for.
abbrev others : Map
others = (get 8 asked).1

get_twice_test : (get 7 asked).0 ≡ 0
unfolding create get lookup insert
get_twice_test = refl

timer_test : (fire error (record { id = 0; key = 7 }) (resolve 7 (plain 5) asked).1).promises ≡ []
unfolding create get resolve fire erase lookup insert
timer_test = refl

Reach-Owned_example : Owned 0 asked
unfolding create get lookup
Reach-Owned_example =
    Reach-Owned error (some 1000) asked 0 (then_ created (gets 7 start)) (omega arith) refl

get_again_test : (get 7 (get 7 start).1 ≡ get 7 start) × (has 7 (get 7 start).1 ≡ true)
get_again_test = get-get 7 start

get-reject_test :
    let (p, m1) = get 7 start in
    let (new, m2) = reject 7 "no" m1 in
    (new ≡ false)
    × (m2.store p ≡ PromiseState.rejected "no")
    × (shows State.rejected 7 m2 ≡ true)
    × (get 7 m2 ≡ (p, m2))
unfolding create lookup
get-reject_test = get-reject 7 "no" start refl

get-resolve-finish_job_example :
    let (p, m1) = get 7 start in
    let (new, m2) = resolve 7 (promise_like 3) m1 in
    let j : Job ℕ ℕ = record { key = 7; awaited = promise_like 3; promise = m1.next } in
    let m3 = finish_job j (thrown "no") m2 in
    (new ≡ false)
    × (m2.jobs ≡ j ∷ [])
    × (shows State.pending 7 m2 ≡ true)
    × (settled_state m3.store p ≡ PromiseState.rejected "no")
    × (shows State.rejected 7 m3 ≡ true)
    × (get 7 m3 ≡ (p, m3))
unfolding create lookup
get-resolve-finish_job_example = get-resolve-finish_job 7 (promise_like 3) (thrown "no") start refl

reject_all-rejects_example : (reject_all "no" asked).1.store 0 ≡ PromiseState.rejected "no"
unfolding create get lookup insert
reject_all-rejects_example = reject_all-rejects "no" asked 7 0 refl (omega arith) refl

delete-gone_example :
    let (was, m') = delete error 7 asked in
    (was ≡ has 7 asked)
    × (has 7 m' ≡ false)
    × ((s : State) → shows s 7 m' ≡ false)
    × ((p : ℕ)
        → functions_of (lookup 7 asked.control) ≡ some p
        → asked.store p ≡ PromiseState.pending
        → m'.store p ≡ PromiseState.rejected "deleted")
delete-gone_example = delete-gone error 7 asked

resolve-delete-finish_job_test :
    let m1 = (resolve 7 (promise_like 3) start).1 in
    let m2 = (delete error 7 m1).1 in
    let m3 = finish_job (job_of error 7 (promise_like 3) start) (value 5) m2 in
    (has 7 m3 ≡ false) × (is_fulfilled 7 m3 ≡ true)
resolve-delete-finish_job_test = resolve-delete-finish_job error 7 (promise_like 3) (value 5) start

resolve-delete-get-finish_job_example :
    let m1 = (resolve 7 (promise_like 3) others).1 in
    let m2 = (delete error 7 m1).1 in
    let (p, m3) = get 7 m2 in
    let m4 = finish_job (job_of error 7 (promise_like 3) others) (value 5) m3 in
    (m4.store p ≡ PromiseState.pending)
    × (is_fulfilled 7 m4 ≡ true)
    × (functions_of (lookup 7 m4.control) ≡ some p)
    × ((reject_all "no" m4).1.store p ≡ PromiseState.pending)
unfolding create get insert lookup
resolve-delete-get-finish_job_example =
    resolve-delete-get-finish_job error 7 (promise_like 3) (value 5) "no" others
      (λ k q f. ground (arith, f))

abbrev timed : Map
timed = (resolve 7 (plain 5) start).1

clear-get-fire_example :
    let t : Timer ℕ = record { id = 0; key = 7 } in
    let m1 = (clear error timed).1 in
    let (p, m2) = get 7 m1 in
    let m3 = fire error t m2 in
    (m1.timers ≡ timed.timers)
    × (m2.store p ≡ PromiseState.pending)
    × (m3.store p ≡ PromiseState.rejected "timed out")
    × (has 7 m3 ≡ false)
clear-get-fire_example = clear-get-fire error (record { id = 0; key = 7 }) timed
