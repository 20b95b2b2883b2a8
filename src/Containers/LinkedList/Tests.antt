-- ===== src/Containers/LinkedList/Tests.antt =====
-- Runs of the list methods, and the theorems at concrete lists.
use celeries.Base.{ℕ, ◌≡◌, refl, Option, none, some, List, [], ◌∷◌}
use celeries.Containers.LinkedList.{
  LinkedList, empty, push_one, unshift_one, push, pop, shift, unshift, from, to_array,
}
use celeries.Containers.LinkedList.Nodes.{
  Memory, Cmd, ◌>>=◌, pure, alloc, extend, load, set_next, set_previous,
}
use celeries.Containers.LinkedList.Chain.{Holds}
use celeries.Containers.LinkedList.Refines.{
  Holds-empty, push-append, unshift-append, shift-first, pop-last, to_array-from, Shifts, Pops,
  Holds-methods,
}

abbrev blank : Memory ℕ
blank = record { limit = 0; cell = λ _. none }

-- Two items pushed, one put in front, the last popped, the first shifted.
abbrev session : Cmd ℕ (Option ℕ × Option ℕ × List ℕ × ℕ)
session = do
  (_, l1) ← push empty (5 ∷ 6 ∷ [])
  (_, l2) ← unshift l1 (3 ∷ 4 ∷ [])
  (last, l3) ← pop l2
  (first, l4) ← shift l3
  rest ← to_array l4
  pure (last, first, rest, l4.size)

abbrev result_of {ℓ κ} : {A : Type ℓ} {B : Type κ} → Option (B × Memory A) → Option B
result_of none = none
result_of (some (b, _)) = some b

session_test : result_of (session blank) ≡ some (some 6, some 3, 4 ∷ 5 ∷ [], 2)
unfolding push unshift pop shift to_array push_one unshift_one alloc extend load set_next
    set_previous
session_test = refl

push-append_test :
    (l' : LinkedList) × (m' : Memory ℕ) × (push empty (5 ∷ 6 ∷ []) blank ≡ some ((2, l'), m'))
    × Holds m' l' (5 ∷ 6 ∷ [])
push-append_test = push-append blank empty [] (5 ∷ 6 ∷ []) (Holds-empty blank)

unshift-append_test :
    (l' : LinkedList) × (m' : Memory ℕ) × (unshift empty (5 ∷ 6 ∷ []) blank ≡ some ((2, l'), m'))
    × Holds m' l' (5 ∷ 6 ∷ [])
unshift-append_test = unshift-append blank empty [] (5 ∷ 6 ∷ []) (Holds-empty blank)

abbrev pushed :
    (l' : LinkedList) × (m' : Memory ℕ) × (push empty (5 ∷ 6 ∷ []) blank ≡ some ((2, l'), m'))
    × Holds m' l' (5 ∷ 6 ∷ [])
pushed = push-append blank empty [] (5 ∷ 6 ∷ []) (Holds-empty blank)

shift-first_test : Shifts pushed.1 pushed.0 (5 ∷ 6 ∷ [])
shift-first_test = shift-first pushed.1 pushed.0 (5 ∷ 6 ∷ []) pushed.3

pop-last_test : Pops pushed.1 pushed.0 (5 ∷ 6 ∷ [])
pop-last_test = pop-last pushed.1 pushed.0 (5 ∷ 6 ∷ []) pushed.3

to_array-from_test :
    (l : LinkedList) × (m' : Memory ℕ) × (from (5 ∷ 6 ∷ []) blank ≡ some (l, m'))
    × (to_array l m' ≡ some (5 ∷ 6 ∷ [], m'))
    × (l.size ≡ 2)
to_array-from_test = to_array-from blank (5 ∷ 6 ∷ [])

Holds-methods_example :
    ((l' : LinkedList) × (m' : Memory ℕ) × (push pushed.0 (7 ∷ []) pushed.1 ≡ some ((3, l'), m'))
      × Holds m' l' (5 ∷ 6 ∷ 7 ∷ []))
    × ((l' : LinkedList) × (m' : Memory ℕ) × (unshift pushed.0 (7 ∷ []) pushed.1
          ≡ some ((3, l'), m'))
        × Holds m' l' (7 ∷ 5 ∷ 6 ∷ []))
    × Shifts pushed.1 pushed.0 (5 ∷ 6 ∷ [])
    × Pops pushed.1 pushed.0 (5 ∷ 6 ∷ [])
    × (to_array pushed.0 pushed.1 ≡ some (5 ∷ 6 ∷ [], pushed.1))
Holds-methods_example = Holds-methods pushed.1 pushed.0 (5 ∷ 6 ∷ []) (7 ∷ []) pushed.3
