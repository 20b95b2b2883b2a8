-- ===== src/Containers/ResourcePool/History.antt =====
-- Everything that can happen to a `ResourcePool`, in any order.
use Prim.Native.String.{String}
use celeries.Base.{ℕ, ◌<◌, ◌≡◌, true}
use celeries.Base.Equality.{Eq}
use celeries.Base.Result.{ok}
use celeries.Base.Set.{member}
use celeries.Containers.Fifo.{Fifo}
use celeries.Containers.ResourcePool.{
  ResourcePool, create_pool, get, created, create_failed, arrive, return, destroy_all, resume,
}

module _ {T : Type 0} ⦃e : Eq T⦄ {F : Fifo T} {G : Fifo ℕ} {E : Type 0} (error : String → E) where
  -- A call of `return` that throws changes nothing, so it is no step.
  pub data Step : ResourcePool F G E → ResourcePool F G E → Type 0 where
    gets : (p : ResourcePool F G E) → Step p (get p)
    creates : (r : T) (p : ResourcePool F G E) → 0 < p.creating → Step p (created r p)
    fails : (p : ResourcePool F G E) → 0 < p.creating → Step p (create_failed p)
    arrives : (r : T) (p : ResourcePool F G E) → member r p.arriving ≡ true → Step p (arrive r p)
    returns : (r : T) (p q : ResourcePool F G E) → return error r p ≡ ok q → Step p q
    destroys : (p : ResourcePool F G E) → Step p (destroy_all p).1
    resumes : (p : ResourcePool F G E) → 0 < p.resuming → Step p (resume p).1

  pub data Reach (max_resources : ℕ) : ResourcePool F G E → Type 0 where
    new : Reach max_resources (create_pool F G E max_resources)
    then_ : {p q : ResourcePool F G E} → Reach max_resources p → Step p q → Reach max_resources q
