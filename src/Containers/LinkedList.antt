-- ===== src/Containers/LinkedList.antt =====
-- src/containers/list.ts: the doubly-linked `List`, over an explicit store of nodes. A reference is
-- a number or `undefined` (`none`). `none` as the result of a command is a fault, the reading of a
-- member through a reference to no object.
pub mod Nodes
pub mod Chain
pub mod Ends
pub mod Cells
pub mod Refines
pub mod Tests
use celeries.Base.{ℕ, zero, suc, ◌+◌, ◌-◌, List, [], ◌∷◌, ◌++◌, Option, none, some}
use Nodes.{Ptr, Node, Memory, node, Cmd, pure, ◌>>=◌, ◌>>◌, alloc, load, set_next, set_previous}

pub record LinkedList : Type 0 where
  pub head : Option Ptr
  pub tail : Option Ptr
  pub size : ℕ

abbrev pub empty : LinkedList
empty = record { head = none; tail = none; size = 0 }

module _ {ℓ} {A : Type ℓ} where
  pub push_one : LinkedList → A → Cmd A LinkedList
  push_one l element = do
    to_push ← alloc (node element none l.tail)
    elim l.tail [
      | none ↦ pure (record { head = some to_push; tail = some to_push; size = l.size + 1 })
      | some t ↦ do
        set_next t (some to_push)
        pure (record l { tail = some to_push; size = l.size + 1 })
    ]

  pub unshift_one : LinkedList → A → Cmd A LinkedList
  unshift_one l element = do
    to_unshift ← alloc (node element l.head none)
    elim l.head [
      | none ↦ pure (record { head = some to_unshift; tail = some to_unshift; size = l.size + 1 })
      | some h ↦ do
        set_previous h (some to_unshift)
        pure (record l { head = some to_unshift; size = l.size + 1 })
    ]

  -- What `pop` does with the node before the popped one.
  unlink_tail : LinkedList → Option Ptr → Cmd A LinkedList
  unlink_tail l none = pure (record { head = none; tail = none; size = l.size - 1 })
  unlink_tail l (some t) = do set_next t none; pure (record l { tail = some t; size = l.size - 1 })

  pub pop : LinkedList → Cmd A (Option A × LinkedList)
  unfolding unlink_tail
  pop l = elim l.tail [
    | none ↦ pure (none, l)
    | some t ↦ do
      popped ← load t
      l' ← unlink_tail l popped.previous
      pure (some popped.element, l')
  ]

  -- What `shift` does with the node behind the shifted one.
  unlink_head : LinkedList → Option Ptr → Cmd A LinkedList
  unlink_head l none = pure (record { head = none; tail = none; size = l.size - 1 })
  unlink_head l (some h) = do
    set_previous h none
    pure (record l { head = some h; size = l.size - 1 })

  pub shift : LinkedList → Cmd A (Option A × LinkedList)
  unfolding unlink_head
  shift l = elim l.head [
    | none ↦ pure (none, l)
    | some h ↦ do shifted ← load h; l' ← unlink_head l shifted.next; pure (some shifted.element, l')
  ]

  push_each : LinkedList → List A → Cmd A LinkedList
  push_each l [] = pure l
  push_each l (a ∷ elements) = do l' ← push_one l a; push_each l' elements

  -- The new length, and the list object.
  unfoldable pub push : LinkedList → List A → Cmd A (ℕ × LinkedList)
  unfolding push_each
  push l elements = do l' ← push_each l elements; pure (l'.size, l')

  -- The loop runs from the last argument to the first.
  unshift_each : LinkedList → List A → Cmd A LinkedList
  unshift_each l [] = pure l
  unshift_each l (a ∷ elements) = do l' ← unshift_each l elements; unshift_one l' a

  pub unshift : LinkedList → List A → Cmd A (ℕ × LinkedList)
  unfolding unshift_each
  unshift l elements = do l' ← unshift_each l elements; pure (l'.size, l')

  pub from : List A → Cmd A LinkedList
  unfolding push_each
  from init = push_each empty init

  pub of : List A → Cmd A LinkedList
  of elements = from elements

  -- The generator, run to its end, on fuel.
  iterate : ℕ → Option Ptr → Cmd A (List A)
  iterate fuel none = pure []
  iterate zero (some p) = λ _. none
  iterate (suc fuel) (some p) = do
    current ← load p
    rest ← iterate fuel current.next
    pure (current.element ∷ rest)

  pub to_array : LinkedList → Cmd A (List A)
  unfolding iterate
  to_array l = iterate l.size l.head
