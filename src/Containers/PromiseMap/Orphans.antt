-- ===== src/Containers/PromiseMap/Orphans.antt =====
-- No promise is orphaned: one that has not been decided can still be settled, by the functions that
-- its key keeps or by a call of `doResolve` that returned it.
pub mod Settle
pub mod Remove
pub mod History
use Prim.Native.String.{String}
use celeries.Base.{
  ℕ, suc, ◌+◌, ◌<◌, ◌≡◌, ◌≢◌, refl, sym, ap, ◌∙◌, Bool, true, false, Option, none, some, List, [],
  ◌∷◌, is_some, arith, if◌then◌else◌, ◌⊎◌, inl, inr, Option-cases, Bool-cases, ◌==◌, ◌||◌,
}
use celeries.Base.Equality.{Eq}
use celeries.Base.Dict.{Dict, keys, lookup, insert, erase, lookup-insert, lookup-erase}
use celeries.Containers.PromiseMap.Promises.{
  PromiseState, follows, Awaited, Outcome, value, thrown, Job, Timer, Store, put, decide,
  of_outcome, finish, clear_timer, awaits,
}
use celeries.Containers.PromiseMap.{
  State, MapData, PromiseMap, create, get, resolve, reject, reject_all, reject_keys, delete, clear,
  finish_job, fire, set_timeout, do_delete, settle, resolve_existing, resolve_new, reject_existing,
  reject_new, set_status, drop_entry, stop_timer, store_new, store_existing, reject_entries,
  rejectable, status_of,
}
use celeries.Containers.PromiseMap.Lookups.{
  functions_of, Alike, set_timeout-Alike, set_status-Alike,
}

-- After `decide` the promise is not pending, and the others are as they were.
pub decide-pending :
    {V E : Type 0} (x : PromiseState V E) (s : Store V E) (f p : ℕ)
    → x ≢ PromiseState.pending
    → decide x s f p ≡ PromiseState.pending
    → ((f == p) ≡ false) × (s p ≡ PromiseState.pending)
unfolding decide
decide-pending x s f p given open_ = ground arith

module _ {K V E : Type 0} ⦃e : Eq K⦄ where
  abbrev pub Owned : ℕ → PromiseMap K V E → Type 0
  Owned p m = ((k : K) × (functions_of (lookup k m.control) ≡ some p)) ⊎ (awaits p m.jobs ≡ true)

  pub record NoOrphans (m : PromiseMap K V E) : Type 0 where
    pub held :
        (k : K) (p : ℕ) → functions_of (lookup k m.control) ≡ some p → lookup k m.promises ≡ some p
    pub owned : (p : ℕ) → p < m.next → m.store p ≡ PromiseState.pending → Owned p m

  pub Alike-NoOrphans : (m m' : PromiseMap K V E) → Alike m m' → NoOrphans m → NoOrphans m'
  Alike-NoOrphans m m' a h = record {
    held = λ k p f. rw a.promises (h.held k p (sym (a.functions k) ∙ f));
    owned = λ p below open_. elim (h.owned p (rw a.next at below) (rw a.store at open_)) [
      | inl (k, f) ↦ inl (k, a.functions k ∙ f)
      | inr j ↦ inr (rw a.jobs j)
    ];
  }

  pub get-NoOrphans : (key : K) (m : PromiseMap K V E) → NoOrphans m → NoOrphans (get key m).1
  unfolding get
  get-NoOrphans key m h = elim (Option-cases (lookup key m.promises)) [
    | inr (p, found) ↦ rw (found, get) h
    | inl gone ↦
        rw (gone, get)
          (record {
            held = λ k p f. ground (
              arith,
              h.held k p,
              lookup-insert key k m.next m.promises,
              lookup-insert key k (new m) m.control,
              e.beq_iff key k,
            );
            owned = λ p below open_. elim (Bool-cases (m.next == p)) [
              | inl new_one ↦
                  inl (
                    key,
                    ground (arith, lookup-insert key key (new m) m.control, e.beq_iff key key),
                  )
              | inr old ↦ elim (h.owned p (ground arith) (ground arith)) [
                | inl (k, f) ↦ inl (
                  k,
                  ground
                      (arith, h.held k p f, lookup-insert key k (new m) m.control, e.beq_iff key k),
                )
                | inr j ↦ inr j
              ]
            ];
          })
  ]
    where
      new : PromiseMap K V E → MapData
      new m = record { functions = some m.next; status = State.pending; timer = none }

pub create-NoOrphans :
    {K V E : Type 0} ⦃e : Eq K⦄ (timeout : Option ℕ) → NoOrphans (create K V E timeout)
unfolding create lookup
create-NoOrphans timeout = record {
  held = λ k p f. cc;
  owned = λ p below open_. absurd (omega arith);
}
