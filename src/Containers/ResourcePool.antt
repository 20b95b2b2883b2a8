-- ===== src/Containers/ResourcePool.antt =====
-- src/containers/resource_pool.ts: the class `ResourcePool`, over the interface of `List` for the
-- unused resources and `PromiseQueue` for the callers that wait. The event loop runs the rest of
-- `get` (`arrive`) when the awaited resource is there, tells the pool what `create` came to, and
-- goes on with `destroyAll` (`resume`) after the event "empty".
pub mod History
pub mod Cases
pub mod Bounds
pub mod Ownership
pub mod Fairness
pub mod Lost
pub mod Using
pub mod Tests
use Prim.Native.String.{String}
use celeries.Base.{
  ℕ, zero, suc, ◌+◌, ◌-◌, Bool, true, false, Option, none, some, List, [], ◌∷◌, length, ltb, ◌==◌,
  if◌then◌else◌,
}
use celeries.Base.Equality.{Eq}
use celeries.Base.Result.{Result, ok, err}
use celeries.Base.Set.{member, add, remove}
use celeries.Containers.Fifo.{Fifo}
use celeries.Containers.PromiseQueue
use celeries.Containers.PromiseQueue.{PromiseQueue}
use celeries.Containers.PromiseMap.Promises.{Outcome, value, thrown}

-- `arriving` holds the resources that some `await this.getResource()` is about to deliver, and
-- `creating` counts the calls of `create` that have not settled. `listening` counts the calls of
-- `destroyAll` that wait for "empty", and `resuming` those that have had it.
pub record ResourcePool {T : Type 0} (F : Fifo T) (G : Fifo ℕ) (E : Type 0) : Type 0 where
  pub in_use : List T
  pub unused : F.State
  pub waiting : PromiseQueue G T E
  pub resource_count : ℕ
  pub max_resources : ℕ
  pub arriving : List T
  pub creating : ℕ
  pub listening : ℕ
  pub resuming : ℕ

unfoldable pub create_pool :
    {T : Type 0} (F : Fifo T) (G : Fifo ℕ) (E : Type 0) → ℕ → ResourcePool F G E
create_pool {T} F G E max_resources = record {
  in_use = [];
  unused = F.empty;
  waiting = PromiseQueue.create G T E;
  resource_count = 0;
  max_resources = max_resources;
  arriving = [];
  creating = 0;
  listening = 0;
  resuming = 0;
}

module _ {T : Type 0} ⦃e : Eq T⦄ {F : Fifo T} {G : Fifo ℕ} {E : Type 0} where
  pub num_owned : ResourcePool F G E → ℕ
  num_owned p = p.resource_count

  pub num_in_use : ResourcePool F G E → ℕ
  num_in_use p = p.resource_count - F.size p.unused

  pub num_unused : ResourcePool F G E → ℕ
  num_unused p = F.size p.unused

  -- Without an unused resource: one is created, or the caller waits.
  create_or_wait : ResourcePool F G E → ResourcePool F G E
  create_or_wait p =
      if ltb p.resource_count p.max_resources
      then record p { resource_count = p.resource_count + 1; creating = p.creating + 1 }
      else record p { waiting = (PromiseQueue.push G T E p.waiting).1 }

  take_unused : Option T × F.State → ResourcePool F G E → ResourcePool F G E
  unfolding create_or_wait
  take_unused (some maybe_unused, rest) p = record p {
    unused = rest;
    arriving = maybe_unused ∷ p.arriving;
  }
  take_unused (none, rest) p = create_or_wait (record p { unused = rest })

  -- `getResource`, up to the `await` in `get`.
  unfoldable pub get : ResourcePool F G E → ResourcePool F G E
  unfolding take_unused
  get p = take_unused (F.shift p.unused) p

  -- `create` has made a resource.
  unfoldable pub created : T → ResourcePool F G E → ResourcePool F G E
  created resource p = record p { creating = p.creating - 1; arriving = resource ∷ p.arriving }

  -- `create` has failed, and `get` with it.
  pub create_failed : ResourcePool F G E → ResourcePool F G E
  create_failed p = record p { creating = p.creating - 1 }

  -- `get` from its `await` on.
  unfoldable pub arrive : T → ResourcePool F G E → ResourcePool F G E
  arrive resource p = record p {
    arriving = remove resource p.arriving;
    in_use = add resource p.in_use;
  }

  -- The event "empty" reaches the calls of `destroyAll` that listen to it.
  emit_empty : ResourcePool F G E → ResourcePool F G E
  emit_empty p = record p { listening = 0; resuming = p.resuming + p.listening }

  abbrev when_empty : List T → ResourcePool F G E → ResourcePool F G E
  when_empty [] p = emit_empty p
  when_empty (_ ∷ _) p = p

  -- What `return` does with a resource that nobody waits for.
  store_unused : T → ResourcePool F G E → ResourcePool F G E
  unfolding emit_empty
  store_unused resource p =
      let p1 = when_empty p.in_use p in record p1 { unused = F.push p1.unused resource }

  hand_over : T → Bool × PromiseQueue G T E → ResourcePool F G E → ResourcePool F G E
  unfolding store_unused
  hand_over resource (true, waiting) p = record p {
    waiting = waiting;
    arriving = resource ∷ p.arriving;
  }
  hand_over resource (false, waiting) p = store_unused resource (record p { waiting = waiting })

  -- The second half of `destroyAll`: the resources that it destroys, in order.
  destroy_unused : ResourcePool F G E → List T × ResourcePool F G E
  destroy_unused p = (F.items p.unused, record p { unused = F.empty })

  -- `destroyAll` up to its `await`; `none` where it has to wait.
  pub destroy_all : ResourcePool F G E → Option (List T) × ResourcePool F G E
  unfolding destroy_unused
  destroy_all p = elim p.in_use [
    | [] ↦ let (connections, p') = destroy_unused p in (some connections, p')
    | _ ∷ _ ↦ (none, record p { listening = p.listening + 1 })
  ]

  -- `destroyAll` after the event.
  pub resume : ResourcePool F G E → List T × ResourcePool F G E
  unfolding destroy_unused
  resume p = destroy_unused (record p { resuming = p.resuming - 1 })

-- `error` makes the `Error` of a message.
module _ {T : Type 0} ⦃e : Eq T⦄ {F : Fifo T} {G : Fifo ℕ} {E : Type 0} (error : String → E) where
  pub return : T → ResourcePool F G E → Result E (ResourcePool F G E)
  unfolding hand_over
  return resource p =
      if member resource p.in_use
      then ok (
          hand_over resource (PromiseQueue.resolve_one G T E resource p.waiting)
            (record p { in_use = remove resource p.in_use }))
      else err (error "resource does not belong to this pool")

  -- The `catch` handler of `returnAfter`: the pool afterwards, and what the caller gets.
  pub return_and_reject {ℓ} :
      {U : Type ℓ} → E → T → ResourcePool F G E → ResourcePool F G E × Result E U
  return_and_reject reason resource p = elim (return resource p) [
    | ok p' ↦ (p', err reason)
    | err thrown_now ↦ (p, err thrown_now)
  ]

  -- `returnAfter`, with what its promise came to. An error thrown in the `then` handler goes to the
  -- `catch` handler.
  pub return_after {ℓ} :
      {U : Type ℓ} → Result E U → T → ResourcePool F G E → ResourcePool F G E × Result E U
  unfolding return_and_reject
  return_after (ok v) resource p = elim (return resource p) [
    | ok p' ↦ (p', ok v)
    | err reason ↦ return_and_reject reason resource p
  ]
  return_after (err reason) resource p = return_and_reject reason resource p

  -- `use` from when the promise of its callback has settled on. The callback starts when the resource
  -- arrives (`arrive`), and the pool goes on meanwhile.
  pub use_resource {ℓ} :
      {U : Type ℓ} → Result E U → T → ResourcePool F G E → ResourcePool F G E × Result E U
  use_resource result resource p = return_after result resource p
