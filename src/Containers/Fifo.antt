-- ===== src/Containers/Fifo.antt =====
-- What `PromiseQueue` and `ResourcePool` use of `List`, as an interface with its laws, and the
-- doubly-linked list as an implementation of it.
use celeries.Base.{ℕ, ◌≡◌, refl, ◌⊎◌, inl, inr, Option, none, some, List, [], ◌∷◌, ◌++◌, length}
use celeries.Containers.LinkedList
use celeries.Containers.LinkedList.{LinkedList, push_one, shift}
use celeries.Containers.LinkedList.Nodes.{Memory}
use celeries.Containers.LinkedList.Chain.{Holds}
use celeries.Containers.LinkedList.Refines.{
  Holds-size, Holds-empty, push_one-append, Shifts, shift-first,
}

abbrev Takes {ℓ} : {A : Type ℓ} {S : Type ℓ} → (S → List A) → S → Option A × S → Type ℓ
Takes {A} {S} items s r =
    ((items s ≡ []) × (r ≡ (none, s)))
    ⊎ ((a : A) × (t : S) × (items s ≡ a ∷ items t) × (r ≡ (some a, t)))

pub record Fifo {ℓ} (A : Type ℓ) : Type (ℓ + 1) where
  pub State : Type ℓ
  pub items : State → List A
  pub empty : State
  pub push : State → A → State
  pub shift : State → Option A × State
  pub size : State → ℕ
  pub items-empty : items empty ≡ []
  pub items-push : (s : State) (a : A) → items (push s a) ≡ items s ++ a ∷ []
  pub shift-items : (s : State) → Takes items s (shift s)
  pub size-items : (s : State) → size s ≡ length (items s)

-- The sequences themselves.
abbrev shift_list {ℓ} : {A : Type ℓ} → List A → Option A × List A
shift_list [] = (none, [])
shift_list (x ∷ xs) = (some x, xs)

pub shift_list-Takes {ℓ} :
    {A : Type ℓ} (xs : List A) → Takes (λ (ys : List A). ys) xs (shift_list xs)
shift_list-Takes [] = inl (refl, refl)
shift_list-Takes (x ∷ xs) = inr (x, xs, refl, refl)

abbrev pub list_fifo {ℓ} : {A : Type ℓ} → Fifo A
list_fifo {A} = record {
  State = List A;
  items = λ xs. xs;
  empty = [];
  push = λ xs x. xs ++ x ∷ [];
  shift = shift_list;
  size = length;
  items-empty = refl;
  items-push = λ xs x. refl;
  shift-items = shift_list-Takes;
  size-items = λ xs. refl;
}

-- A list object with the store of its nodes, which no other object refers to.
pub record Owned {ℓ} (A : Type ℓ) : Type ℓ where
  memory : Memory A
  pub object : LinkedList
  pub items : List A
  pub holds : Holds memory object items

module _ {ℓ} {A : Type ℓ} where
  owned_push : Owned A → A → Owned A
  owned_push s a =
      let (l, m, _, h) = push_one-append s.memory s.object s.items a s.holds in
      record { memory = m; object = l; items = s.items ++ a ∷ []; holds = h }

  -- The command's own result, as the interface returns it.
  taken : (s : Owned A) → Shifts s.memory s.object s.items → Option A × Owned A
  taken s (inl e) = (none, s)
  taken s (inr (a, rest, l, m, e, run, h)) =
      (some a, record { memory = m; object = l; items = rest; holds = h })

  owned_shift : Owned A → Option A × Owned A
  unfolding taken
  owned_shift s = taken s (shift-first s.memory s.object s.items s.holds)

  taken-Takes :
      (s : Owned A) (r : Shifts s.memory s.object s.items)
      → Takes (λ (t : Owned A). t.items) s (taken s r)
  unfolding taken
  taken-Takes s (inl e) = inl (e.0, refl)
  taken-Takes s (inr (a, rest, l, m, e, run, h)) =
      inr (a, record { memory = m; object = l; items = rest; holds = h }, e, refl)

  taken-run :
      (s : Owned A) (r : Shifts s.memory s.object s.items)
      → let (a, t) = taken s r in shift s.object s.memory ≡ some ((a, t.object), t.memory)
  unfolding taken
  taken-run s (inl e) = e.1
  taken-run s (inr (a, rest, l, m, e, run, h)) = run

  -- `push` and `shift` of the implementation are the runs of the two methods.
  owned_push-run :
      (s : Owned A) (a : A)
      → push_one s.object a s.memory ≡ some ((owned_push s a).object, (owned_push s a).memory)
  unfolding owned_push
  owned_push-run s a = (push_one-append s.memory s.object s.items a s.holds).2

  owned_shift-run :
      (s : Owned A)
      → let (a, t) = owned_shift s in shift s.object s.memory ≡ some ((a, t.object), t.memory)
  unfolding owned_shift
  owned_shift-run s = taken-run s (shift-first s.memory s.object s.items s.holds)

  new : Owned A
  new = record {
    memory = record { limit = 0; cell = λ _. none };
    object = LinkedList.empty;
    items = [];
    holds = Holds-empty _;
  }

  -- The commands that the interface stands for: `push_one` and `shift` run on the object's nodes.
  pub linked_fifo : Fifo A
  unfolding owned_push owned_shift new
  linked_fifo = record {
    State = Owned A;
    items = λ s. s.items;
    empty = new;
    push = owned_push;
    shift = owned_shift;
    size = λ s. s.object.size;
    items-empty = refl;
    items-push = λ s a. refl;
    shift-items = λ s. taken-Takes s (shift-first s.memory s.object s.items s.holds);
    size-items = λ s. Holds-size s.memory s.object s.items s.holds;
  }
