-- ===== src/Client/RoundRobin.antt =====
-- The turns of the round robin strategy.
use celeries.Base.{
  ℕ, zero, suc, ◌+◌, ◌%◌, ◌≡◌, refl, sym, ap, ◌∙◌, Option, some, List, [], ◌∷◌, ◌++◌, map, length,
  get_elem?, arith, length-snoc, append_assoc,
}
use native.Mathlib.Nat.{mod-eq_of_lt, mod_self}
use celeries.Task.{Strategy}
use celeries.Client.{get_round_robin_strategy}

module _ {BR : Type 0} where
  -- The brokers that `n` calls give, and the state afterwards.
  abbrev pub turns : {S : Type 0} → Strategy S BR → ℕ → S → List BR → List (Option BR) × S
  turns strategy zero s brokers = ([], s)
  turns strategy (suc n) s brokers =
      let (broker, s1) = strategy s brokers in
      let (rest, s2) = turns strategy n s1 brokers in (broker ∷ rest, s2)

  get_elem-append :
      (before : List BR) (x : BR) (rest : List BR)
      → get_elem? (before ++ x ∷ rest) (length before) ≡ some x
  get_elem-append [] x rest = refl
  get_elem-append (y ∷ before) x rest = get_elem-append before x rest

  turns-rest :
      (before : List BR) (x : BR) (rest : List BR) (size : ℕ)
      → length before + suc (length rest) ≡ size
      → turns
          (get_round_robin_strategy size)
          (suc (length rest))
          (length before)
          (before ++ x ∷ rest)
        ≡ (some x ∷ map some rest, 0)
  unfolding get_round_robin_strategy
  turns-rest before x [] size is =
      let over : (length before + 1) % size ≡ 0 =
        ap (λ n. n % size) (omega arith) ∙ mod_self size in
      ground (arith, get_elem-append before x [], over)
  turns-rest before x (y ∷ rest) size is =
      let next : (length before + 1) % size ≡ length (before ++ x ∷ []) =
        mod-eq_of_lt (omega arith) ∙ (omega (arith, length-snoc before x)) in
      let later = turns-rest (before ++ x ∷ []) y rest size (omega (arith, length-snoc before x)) in
      let strategy : Strategy ℕ BR = get_round_robin_strategy size in
      let here = turns strategy (suc (length rest)) in
      let brokers = before ++ x ∷ y ∷ rest in
      let after_ : here ((length before + 1) % size) brokers ≡ (some y ∷ map some rest, 0) =
        ap (λ i. here i brokers) next
        ∙ ap (here (length (before ++ x ∷ []))) (sym (append_assoc before (x ∷ []) (y ∷ rest)))
        ∙ later in
      ap (λ t. (get_elem? brokers (length before) ∷ t.0, t.1)) after_
      ∙ ap (λ o. (o ∷ some y ∷ map some rest, 0)) (get_elem-append before x (y ∷ rest))

  -- In as many turns as there are brokers, from the start, the strategy gives each broker once, in
  -- their order, and is back at the start.
  pub turns-get_round_robin_strategy :
      (x : BR) (rest : List BR)
      → let brokers = x ∷ rest in
        turns (get_round_robin_strategy (length brokers)) (length brokers) 0 brokers
        ≡ (map some brokers, 0)
  turns-get_round_robin_strategy x rest = turns-rest [] x rest (suc (length rest)) (omega arith)
