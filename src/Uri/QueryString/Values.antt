-- ===== src/Uri/QueryString/Values.antt =====
-- What `parseQueries` keeps of each key.
use celeries.Base.{
  ◌≡◌, refl, ◌∙◌, Option, none, some, List, [], ◌∷◌, ◌++◌, if◌then◌else◌, arith, append_assoc,
  append-nil, Bool-cases, inl, inr, false,
}
use celeries.Base.Dict.{lookup, lookup-insert}
use celeries.Base.Text.{Text, text_eq}
use celeries.Uri.QueryString.{
  Part, scalar, array, Queries, proto, assigned, extended, parse_entries, parse_queries,
}

-- The values of a key, in order.
abbrev pub values : Text → List (Text × Text) → List Text
values key [] = []
values key ((k, v) ∷ rest) = if text_eq.beq k key then v ∷ values key rest else values key rest

abbrev pub collected : List Text → Option Part
collected [] = none
collected (v ∷ []) = some (scalar v)
collected (v ∷ w ∷ vs) = some (array (v ∷ w ∷ vs))

absorb : Option Part → List Text → Option Part
absorb o [] = o
absorb o (v ∷ vs) = absorb (some (extended o v)) vs

absorb-array : (ws vs : List Text) → absorb (some (array ws)) vs ≡ some (array (ws ++ vs))
unfolding absorb
absorb-array ws [] = ground (arith, append-nil ws)
absorb-array ws (v ∷ vs) =
    ground (arith, absorb-array (ws ++ v ∷ []) vs, append_assoc ws (v ∷ []) vs)

absorb-collected : (vs : List Text) → absorb none vs ≡ collected vs
unfolding absorb
absorb-collected [] = refl
absorb-collected (v ∷ []) = refl
absorb-collected (v ∷ w ∷ vs) = absorb-array (v ∷ w ∷ []) vs

lookup-assigned :
    (k key : Text) (v : Part) (m : Queries)
    → text_eq.beq key proto ≡ false
    → lookup key (assigned k v m) ≡ (if text_eq.beq k key then some v else lookup key m)
lookup-assigned k key v m own = elim (Bool-cases (text_eq.beq k proto)) [
  | inl is ↦ rw is (ground (arith, own, is, text_eq.beq_iff k proto, text_eq.beq_iff k key))
  | inr other ↦ rw other (lookup-insert k key v m)
]

lookup-parse_entries :
    (key : Text) (entries : List (Text × Text)) (m : Queries)
    → text_eq.beq key proto ≡ false
    → lookup key (parse_entries entries m) ≡ absorb (lookup key m) (values key entries)
unfolding parse_entries absorb
lookup-parse_entries key [] m own = refl
lookup-parse_entries key ((k, v) ∷ rest) m own =
    let next = assigned k (extended (lookup k m) v) m in
    elim (Bool-cases (text_eq.beq k key)) [
      | inl same ↦
          let is : k ≡ key = (text_eq.beq_iff k key).0 same in
          ground (
            arith,
            same,
            is,
            lookup-parse_entries key rest next own,
            lookup-assigned k key (extended (lookup k m) v) m own,
          )
      | inr other ↦ ground (
        arith,
        other,
        lookup-parse_entries key rest next own,
        lookup-assigned k key (extended (lookup k m) v) m own,
      )
    ]

proto-parse_entries :
    (entries : List (Text × Text)) (m : Queries)
    → lookup proto (parse_entries entries m) ≡ lookup proto m
unfolding parse_entries
proto-parse_entries [] m = refl
proto-parse_entries ((k, v) ∷ rest) m =
    let next = assigned k (extended (lookup k m) v) m in
    proto-parse_entries rest next ∙ elim (Bool-cases (text_eq.beq k proto)) [
      | inl is ↦ rw is refl
      | inr other ↦ rw other (lookup-insert k proto (extended (lookup k m) v) m ∙ rw other refl)
    ]

-- The values that the entries have for a key, of which `__proto__` has none.
abbrev pub own_values : Text → List (Text × Text) → List Text
own_values key entries = if text_eq.beq key proto then [] else values key entries

-- `parseQueries` keeps for each key its values in the order of the entries: alone if there is one,
-- in an array if there are several, and nothing for a key without one. The key `__proto__` is passed
-- over.
pub lookup-parse_queries :
    (key : Text) (entries : List (Text × Text))
    → lookup key (parse_queries entries) ≡ collected (own_values key entries)
unfolding parse_queries lookup
lookup-parse_queries key entries = elim (Bool-cases (text_eq.beq key proto)) [
  | inl is ↦
      let same : key ≡ proto = (text_eq.beq_iff key proto).0 is in
      rw is (rw same (proto-parse_entries entries []))
  | inr own ↦
      rw own (lookup-parse_entries key entries [] own ∙ absorb-collected (values key entries))
]
