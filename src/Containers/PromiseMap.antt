-- ===== src/Containers/PromiseMap.antt =====
-- src/containers/promise_map.ts: the class `PromiseMap`. Its two maps stand beside the promises, the
-- suspended calls of `doResolve` and the timers that it has set; the event loop runs `finish_job`
-- when an awaited value settles, and `fire` when a timer is due.
pub mod Promises
pub mod Lookups
pub mod Orphans
pub mod Settling
pub mod Waiting
pub mod RejectAll
pub mod Passing
pub mod Stale
pub mod Timeouts
pub mod Tests
use Prim.Native.String.{String}
use celeries.Base.{
  ℕ, zero, suc, ◌+◌, Bool, true, false, not, ◌&&◌, Option, none, some, List, [], ◌∷◌, is_some,
  length, if◌then◌else◌,
}
use celeries.Base.Equality.{Eq}
use celeries.Base.Dict.{Dict, keys, lookup, insert, erase}
use Promises.{
  PromiseState, follows, Awaited, Outcome, value, thrown, Job, Timer, Store, put, decide,
  of_outcome, finish, clear_timer,
}

pub data State : Type 0 where
  pending fulfilled rejected : State

-- `functions` names the promise that the two functions settle, and `timer` the timer.
pub record MapData : Type 0 where
  pub functions : Option ℕ
  pub status : State
  pub timer : Option ℕ

remove_functions : MapData → MapData
remove_functions d = record d { functions = none }

abbrev pub is_state : State → State → Bool
is_state State.pending State.pending = true
is_state State.fulfilled State.fulfilled = true
is_state State.rejected State.rejected = true
is_state _ _ = false

has_status : State → Option MapData → Bool
has_status s none = false
has_status s (some d) = is_state s d.status

abbrev pub rejectable : Option MapData → Bool
rejectable none = false
rejectable (some d) = is_state State.pending d.status && is_some d.functions

abbrev pub status_of : {V E : Type 0} → Outcome V E → State
status_of (value v) = State.fulfilled
status_of (thrown x) = State.rejected

pub record PromiseMap (K V E : Type 0) : Type 0 where
  pub promises : Dict K ℕ
  pub control : Dict K MapData
  pub timeout : Option ℕ
  pub store : Store V E
  pub next : ℕ
  pub jobs : List (Job K V)
  pub timers : List (Timer K)
  pub next_timer : ℕ

unfoldable pub create : (K V E : Type 0) → Option ℕ → PromiseMap K V E
create K V E timeout = record {
  promises = [];
  control = [];
  timeout = timeout;
  store = λ _. PromiseState.pending;
  next = 0;
  jobs = [];
  timers = [];
  next_timer = 0;
}

module _ {K V E : Type 0} ⦃e : Eq K⦄ where
  unfoldable pub has : K → PromiseMap K V E → Bool
  has key m = is_some (lookup key m.promises)

  pub is_pending : K → PromiseMap K V E → Bool
  unfolding has_status
  is_pending key m = has_status State.pending (lookup key m.control)

  pub is_fulfilled : K → PromiseMap K V E → Bool
  unfolding has_status
  is_fulfilled key m = has_status State.fulfilled (lookup key m.control)

  pub is_rejected : K → PromiseMap K V E → Bool
  unfolding has_status
  is_rejected key m = has_status State.rejected (lookup key m.control)

  set_data : K → MapData → PromiseMap K V E → PromiseMap K V E
  set_data key d m = record m { control = insert key d m.control }

  set_promise : K → ℕ → PromiseMap K V E → PromiseMap K V E
  set_promise key p m = record m { promises = insert key p m.promises }

  -- `new Promise` in the given state.
  new_promise : PromiseState V E → PromiseMap K V E → ℕ × PromiseMap K V E
  new_promise x m = (m.next, record m { next = suc m.next; store = put m.store m.next x })

  reject_functions : Option ℕ → E → PromiseMap K V E → PromiseMap K V E
  reject_functions none reason m = m
  reject_functions (some p) reason m = record m {
    store = decide (PromiseState.rejected reason) m.store p;
  }

  -- Up to the `await`.
  do_resolve : K → Awaited V → PromiseMap K V E → ℕ × PromiseMap K V E
  do_resolve key v m = (
    m.next,
    record m {
      next = suc m.next;
      store = put m.store m.next PromiseState.pending;
      jobs = record { key = key; awaited = v; promise = m.next } ∷ m.jobs;
    },
  )

  pub resolve_existing : K → MapData → Awaited V → PromiseMap K V E → MapData × PromiseMap K V E
  unfolding do_resolve set_promise remove_functions
  resolve_existing key d v m =
      let (q, m1) = do_resolve key v m in
      let m2 : PromiseMap K V E = elim d.functions [
        | some p ↦ record m1 { store = decide (follows q) m1.store p }
        | none ↦ set_promise key q m1
      ] in
      (record (remove_functions d) { status = State.pending }, m2)

  pub resolve_new : K → Awaited V → PromiseMap K V E → (ℕ × MapData) × PromiseMap K V E
  unfolding do_resolve
  resolve_new key v m =
      let (q, m1) = do_resolve key v m in
      ((q, record { functions = none; status = State.pending; timer = none }), m1)

  pub reject_existing : K → MapData → E → PromiseMap K V E → MapData × PromiseMap K V E
  unfolding reject_functions new_promise set_promise remove_functions
  reject_existing key d reason m =
      let m1 : PromiseMap K V E = elim d.functions [
        | some p ↦ reject_functions (some p) reason m
        | none ↦ let (q, m') = new_promise (PromiseState.rejected reason) m in set_promise key q m'
      ] in
      (record (remove_functions d) { status = State.rejected }, m1)

  pub reject_new : E → PromiseMap K V E → (ℕ × MapData) × PromiseMap K V E
  unfolding new_promise
  reject_new reason m =
      let (q, m1) = new_promise (PromiseState.rejected reason) m in
      ((q, record { functions = none; status = State.rejected; timer = none }), m1)

  stop_timer : Option ℕ → PromiseMap K V E → PromiseMap K V E
  stop_timer none m = m
  stop_timer (some t) m = record m { timers = clear_timer t m.timers }

  -- `setTimeout` of the class: false without an entry or without a timeout.
  pub set_timeout : K → PromiseMap K V E → Bool × PromiseMap K V E
  unfolding stop_timer set_data
  set_timeout key m = elim (lookup key m.control) [
    | none ↦ (false, m)
    | some d ↦ elim m.timeout [
      | none ↦ (false, m)
      | some _ ↦
          let m1 = stop_timer d.timer m in
          (
            true,
            set_data key (record d { timer = some m1.next_timer })
                (record m1 {
                  timers = record { id = m1.next_timer; key = key } ∷ m1.timers;
                  next_timer = suc m1.next_timer;
                }),
          )
    ]
  ]

  pub store_new : K → (ℕ × MapData) × PromiseMap K V E → PromiseMap K V E
  unfolding set_data set_promise
  store_new key r = set_data key r.0.1 (set_promise key r.0.0 r.1)

  pub store_existing : K → MapData × PromiseMap K V E → PromiseMap K V E
  unfolding set_data
  store_existing key r = set_data key r.0 r.1

  -- `settle`, with the callbacks `onExisting` and `onNew`. True for a new key.
  pub settle :
      K
      → (MapData → PromiseMap K V E → MapData × PromiseMap K V E)
      → (PromiseMap K V E → (ℕ × MapData) × PromiseMap K V E)
      → PromiseMap K V E
      → Bool × PromiseMap K V E
  unfolding set_timeout store_new store_existing
  settle key on_existing on_new m = elim (lookup key m.control) [
    | some d ↦ (false, (set_timeout key (store_existing key (on_existing d m))).1)
    | none ↦ (true, (set_timeout key (store_new key (on_new m))).1)
  ]

  unfoldable pub resolve : K → Awaited V → PromiseMap K V E → Bool × PromiseMap K V E
  unfolding settle resolve_existing resolve_new
  resolve key v = settle key (λ d. resolve_existing key d v) (resolve_new key v)

  pub reject : K → E → PromiseMap K V E → Bool × PromiseMap K V E
  unfolding settle reject_existing reject_new
  reject key reason = settle key (λ d. reject_existing key d reason) (reject_new reason)

  -- The loop of `rejectAll` over the keys of `data`; an entry is read when its turn comes.
  pub reject_keys : E → List K → ℕ → PromiseMap K V E → ℕ × PromiseMap K V E
  unfolding reject
  reject_keys reason [] num_rejected m = (num_rejected, m)
  reject_keys reason (key ∷ rest) num_rejected m =
      let here = rejectable (lookup key m.control) in
      reject_keys reason rest (if here then num_rejected + 1 else num_rejected)
        (if here then (reject key reason m).1 else m)

  unfoldable pub reject_all : E → PromiseMap K V E → ℕ × PromiseMap K V E
  unfolding reject_keys
  reject_all reason m = reject_keys reason (keys m.control) 0 m

  unfoldable pub get : K → PromiseMap K V E → ℕ × PromiseMap K V E
  unfolding new_promise set_data set_promise
  get key m = elim (lookup key m.promises) [
    | some p ↦ (p, m)
    | none ↦
        let (p, m1) = new_promise PromiseState.pending m in
        let d : MapData = record { functions = some p; status = State.pending; timer = none } in
        (p, set_promise key p (set_data key d m1))
  ]

  pub drop_entry : Option MapData → E → PromiseMap K V E → PromiseMap K V E
  unfolding stop_timer reject_functions
  drop_entry none reason m = m
  drop_entry (some d) reason m = stop_timer d.timer (reject_functions d.functions reason m)

  pub do_delete : K → E → PromiseMap K V E → Bool × PromiseMap K V E
  unfolding drop_entry
  do_delete key reason m =
      let m1 = drop_entry (lookup key m.control) reason m in
      (
        is_some (lookup key m1.promises),
        record m1 { control = erase key m1.control; promises = erase key m1.promises },
      )

  pub reject_entries : E → Dict K MapData → Store V E → Store V E
  reject_entries reason [] s = s
  reject_entries reason ((_, d) ∷ rest) s =
      reject_entries reason rest
        (elim d.functions [ none ↦ s | some p ↦ decide (PromiseState.rejected reason) s p ])

  pub set_status : K → State → PromiseMap K V E → PromiseMap K V E
  unfolding set_data
  set_status key status m =
      let to_set : MapData = elim (lookup key m.control) [
        | none ↦ record { functions = none; status = status; timer = none }
        | some d ↦ record d { status = status }
      ] in
      set_data key to_set m

  -- `doResolve` from its `await` on, with what the awaited value came to.
  unfoldable pub finish_job : Job K V → Outcome V E → PromiseMap K V E → PromiseMap K V E
  unfolding set_status
  finish_job j outcome m =
      let m1 = set_status j.key (status_of outcome) m in
      record m1 {
        jobs = finish j.promise m1.jobs;
        store = put m1.store j.promise (of_outcome outcome);
      }

-- `error` makes the `Error` of a message.
module _ {K V E : Type 0} ⦃e : Eq K⦄ (error : String → E) where
  pub delete : K → PromiseMap K V E → Bool × PromiseMap K V E
  unfolding do_delete
  delete key = do_delete key (error "deleted")

  pub clear : PromiseMap K V E → ℕ × PromiseMap K V E
  unfolding reject_entries
  clear m = (
    length m.promises,
    record m {
      store = reject_entries (error "cleared") m.control m.store;
      promises = [];
      control = [];
    },
  )

  -- The callback of a timer that is due.
  pub fire : Timer K → PromiseMap K V E → PromiseMap K V E
  unfolding do_delete
  fire t m =
      (do_delete t.key (error "timed out") (record m { timers = clear_timer t.id m.timers })).1
