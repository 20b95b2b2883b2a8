-- ===== src/Containers/PromiseMap/Orphans/Settle.antt =====
-- `resolve`, `reject` and `rejectAll` orphan no promise.
use celeries.Base.{
  ℕ, ◌+◌, ◌≡◌, refl, Option, none, some, List, [], ◌∷◌, arith, inl, inr, Option-cases, Bool-cases,
  ◌==◌,
}
use celeries.Base.Equality.{Eq}
use celeries.Base.Dict.{keys, lookup, lookup-insert}
use celeries.Containers.PromiseMap.Promises.{PromiseState, follows, Awaited, put}
use celeries.Containers.PromiseMap.{
  State, MapData, PromiseMap, resolve, reject, reject_all, reject_keys, settle, resolve_existing,
  resolve_new, reject_existing, reject_new, store_new, store_existing, rejectable,
}
use celeries.Containers.PromiseMap.Lookups.{set_timeout-Alike}
use celeries.Containers.PromiseMap.Orphans.{NoOrphans, Alike-NoOrphans, decide-pending}

abbrev without_functions : MapData → State → MapData
without_functions d s = record d { functions = none; status = s }

module _ {K V E : Type 0} ⦃e : Eq K⦄ where
  resolve_new-NoOrphans :
      (key : K) (v : Awaited V) (m : PromiseMap K V E)
      → lookup key m.control ≡ none
      → NoOrphans m
      → NoOrphans (store_new key (resolve_new key v m))
  unfolding resolve_new store_new
  resolve_new-NoOrphans key v m gone h = record {
    held = λ k p f. ground (
      arith,
      h.held k p,
      gone,
      lookup-insert key k m.next m.promises,
      lookup-insert key k fresh_data m.control,
      e.beq_iff key k,
    );
    owned = λ p below open_. elim (Bool-cases (m.next == p)) [
      | inl new_one ↦ inr (ground arith)
      | inr old ↦ elim (h.owned p (ground arith) (ground arith)) [
        | inl (k, f) ↦
            inl (k, ground (arith, gone, lookup-insert key k fresh_data m.control, e.beq_iff key k))
        | inr j ↦ inr (ground arith)
      ]
    ];
  }
    where
      fresh_data : MapData
      fresh_data = record { functions = none; status = State.pending; timer = none }

  resolve_existing-NoOrphans :
      (key : K) (d : MapData) (fs : Option ℕ) (v : Awaited V) (m : PromiseMap K V E)
      → lookup key m.control ≡ some d
      → d.functions ≡ fs
      → NoOrphans m
      → NoOrphans (store_existing key (resolve_existing key d v m))
  unfolding resolve_existing store_existing
  resolve_existing-NoOrphans key d none v m found without h = record {
    held = λ k p f. ground (
      arith,
      h.held k p,
      without,
      found,
      lookup-insert key k m.next m.promises,
      lookup-insert key k (without_functions d State.pending) m.control,
      e.beq_iff key k,
    );
    owned = λ p below open_. elim (Bool-cases (m.next == p)) [
      | inl new_one ↦ inr (ground (arith, without))
      | inr old ↦ elim (h.owned p (ground (arith, without)) (ground (arith, without))) [
        | inl (k, f) ↦ inl (
          k,
          ground (
            arith,
            found,
            without,
            lookup-insert key k (without_functions d State.pending) m.control,
            e.beq_iff key k,
          ),
        )
        | inr j ↦ inr (ground (arith, without))
      ]
    ];
  }
  resolve_existing-NoOrphans key d (some q) v m found with h = record {
    held = λ k p f. ground (
      arith,
      h.held k p,
      with,
      found,
      lookup-insert key k (without_functions d State.pending) m.control,
      e.beq_iff key k,
    );
    owned = λ p below open_. elim (Bool-cases (m.next == p)) [
      | inl new_one ↦ inr (ground (arith, with))
      | inr old ↦
          let (other, open_then) =
            decide-pending (follows m.next) (put m.store m.next PromiseState.pending) q p (λ c. cc)
              (rw with at open_) in
          elim (h.owned p (ground (arith, with)) (ground (arith, with))) [
            | inl (k, f) ↦ inl (
              k,
              ground (
                arith,
                found,
                with,
                lookup-insert key k (without_functions d State.pending) m.control,
                e.beq_iff key k,
              ),
            )
            | inr j ↦ inr (ground (arith, with))
          ]
    ];
  }

  reject_new-NoOrphans :
      (key : K) (reason : E) (m : PromiseMap K V E)
      → lookup key m.control ≡ none
      → NoOrphans m
      → NoOrphans (store_new key (reject_new reason m))
  unfolding reject_new store_new
  reject_new-NoOrphans key reason m gone h = record {
    held = λ k p f. ground (
      arith,
      h.held k p,
      gone,
      lookup-insert key k m.next m.promises,
      lookup-insert key k fresh_data m.control,
      e.beq_iff key k,
    );
    owned = λ p below open_. elim (h.owned p (ground arith) (ground arith)) [
      | inl (k, f) ↦
          inl (k, ground (arith, gone, lookup-insert key k fresh_data m.control, e.beq_iff key k))
      | inr j ↦ inr (ground arith)
    ];
  }
    where
      fresh_data : MapData
      fresh_data = record { functions = none; status = State.rejected; timer = none }

  reject_existing-NoOrphans :
      (key : K) (d : MapData) (fs : Option ℕ) (reason : E) (m : PromiseMap K V E)
      → lookup key m.control ≡ some d
      → d.functions ≡ fs
      → NoOrphans m
      → NoOrphans (store_existing key (reject_existing key d reason m))
  unfolding reject_existing store_existing
  reject_existing-NoOrphans key d none reason m found without h = record {
    held = λ k p f. ground (
      arith,
      h.held k p,
      without,
      found,
      lookup-insert key k m.next m.promises,
      lookup-insert key k (without_functions d State.rejected) m.control,
      e.beq_iff key k,
    );
    owned = λ p below open_. elim (h.owned p (ground (arith, without)) (ground (arith, without))) [
      | inl (k, f) ↦ inl (
        k,
        ground (
          arith,
          found,
          without,
          lookup-insert key k (without_functions d State.rejected) m.control,
          e.beq_iff key k,
        ),
      )
      | inr j ↦ inr (ground (arith, without))
    ];
  }
  reject_existing-NoOrphans key d (some q) reason m found with h = record {
    held = λ k p f. ground (
      arith,
      h.held k p,
      with,
      found,
      lookup-insert key k (without_functions d State.rejected) m.control,
      e.beq_iff key k,
    );
    owned = λ p below open_.
        let (other, open_then) =
          decide-pending (PromiseState.rejected reason) m.store q p (λ c. cc) (rw with at open_) in
        elim (h.owned p (ground (arith, with)) open_then) [
          | inl (k, f) ↦ inl (
            k,
            ground (
              arith,
              found,
              with,
              lookup-insert key k (without_functions d State.rejected) m.control,
              e.beq_iff key k,
            ),
          )
          | inr j ↦ inr (ground (arith, with))
        ];
  }

  pub resolve-NoOrphans :
      (key : K) (v : Awaited V) (m : PromiseMap K V E) → NoOrphans m → NoOrphans (resolve key v m).1
  unfolding resolve settle
  resolve-NoOrphans key v m h = elim (Option-cases (lookup key m.control)) [
    | inl gone ↦
        rw (gone, settle)
          (Alike-NoOrphans _ _ (set_timeout-Alike key (store_new key (resolve_new key v m)))
            (resolve_new-NoOrphans key v m gone h))
    | inr (d, found) ↦
        rw (found, settle)
          (Alike-NoOrphans _ _
            (set_timeout-Alike key (store_existing key (resolve_existing key d v m)))
            (resolve_existing-NoOrphans key d d.functions v m found refl h))
  ]

  pub reject-NoOrphans :
      (key : K) (reason : E) (m : PromiseMap K V E)
      → NoOrphans m
      → NoOrphans (reject key reason m).1
  unfolding reject settle
  reject-NoOrphans key reason m h = elim (Option-cases (lookup key m.control)) [
    | inl gone ↦
        rw (gone, settle)
          (Alike-NoOrphans _ _ (set_timeout-Alike key (store_new key (reject_new reason m)))
            (reject_new-NoOrphans key reason m gone h))
    | inr (d, found) ↦
        rw (found, settle)
          (Alike-NoOrphans _ _
            (set_timeout-Alike key (store_existing key (reject_existing key d reason m)))
            (reject_existing-NoOrphans key d d.functions reason m found refl h))
  ]

  reject_keys-NoOrphans :
      (reason : E) (ks : List K) (n : ℕ) (m : PromiseMap K V E)
      → NoOrphans m
      → NoOrphans (reject_keys reason ks n m).1
  unfolding reject_keys
  reject_keys-NoOrphans reason [] n m h = h
  reject_keys-NoOrphans reason (k ∷ ks) n m h =
      elim (Bool-cases (rejectable (lookup k m.control))) [
        | inl here ↦
            rw (here, reject_keys)
              (reject_keys-NoOrphans reason ks (n + 1) (reject k reason m).1
                (reject-NoOrphans k reason m h))
        | inr not_here ↦ rw (not_here, reject_keys) (reject_keys-NoOrphans reason ks n m h)
      ]

  pub reject_all-NoOrphans :
      (reason : E) (m : PromiseMap K V E) → NoOrphans m → NoOrphans (reject_all reason m).1
  unfolding reject_all
  reject_all-NoOrphans reason m h = reject_keys-NoOrphans reason (keys m.control) 0 m h
