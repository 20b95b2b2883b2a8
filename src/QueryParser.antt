-- ===== src/QueryParser.antt =====
-- src/query_parser.ts: the class `QueryParser` and its descriptors. An object that a query is parsed
-- into is a dictionary of its fields; their values are of any type `V`.
pub mod Fields
pub mod Types
pub mod Tests
use celeries.Base.{
  ℕ, Bool, true, false, Option, none, some, List, [], ◌∷◌, ◌++◌, map, is_some, if◌then◌else◌,
}
use celeries.Base.Dict.{Dict, lookup, insert}
use celeries.Base.Result.{Result, ok, err, ◌>>=◌}
use celeries.Base.Text.{Text, codes, text_eq}
use celeries.Errors.{Thrown, parse_error, error}
use celeries.Uri.QueryString.{Part, scalar, array, Queries}
use celeries.Utility.{parse_boolean, parse_integer}

abbrev Parser : Type 0 → Type 0
Parser V = Part → Result Thrown V

pub record QueryDescriptor (V : Type 0) : Type 0 where
  pub parser : Option (Parser V)
  pub source : Text
  pub target : Option Text

pub record HasParser (V : Type 0) : Type 0 where
  pub parser : Parser V
  pub source : Text
  pub target : Option Text

pub record HasTarget (V : Type 0) : Type 0 where
  pub parser : Parser V
  pub source : Text
  pub target : Text

pub record MapEntry (V : Type 0) : Type 0 where
  pub parser : Parser V
  pub target : Text

-- The last item of an array; `undefined` for an empty one.
abbrev last : Text → List Text → Text
last x [] = x
last x (y ∷ ys) = last y ys

pub as_scalar : Part → Option Text
as_scalar (scalar s) = some s
as_scalar (array []) = none
as_scalar (array (x ∷ xs)) = some (last x xs)

as_array : Part → List Text
as_array (scalar s) = s ∷ []
as_array (array ss) = ss

module _ {V : Type 0} where
  -- `raw` is how a value that no parser has changed stands in the result.
  unfoldable pub assert_parser : (Part → V) → QueryDescriptor V → HasParser V
  assert_parser raw d = record {
    parser = (elim d.parser [ none ↦ (λ x. ok (raw x)) | some p ↦ p ]);
    source = d.source;
    target = d.target;
  }

  unfoldable pub assert_target : HasParser V → HasTarget V
  assert_target d = record {
    parser = d.parser;
    source = d.source;
    target = (elim d.target [ none ↦ d.source | some t ↦ t ]);
  }

  unfoldable pub into_pair : HasTarget V → Text × MapEntry V
  into_pair d = (d.source, record { parser = d.parser; target = d.target })

  -- `new Map` of pairs: a later pair replaces the value of an earlier one with the same key.
  pub map_of : List (Text × MapEntry V) → Dict Text (MapEntry V) → Dict Text (MapEntry V)
  map_of [] m = m
  map_of ((k, x) ∷ rest) m = map_of rest (insert k x m)

  -- The constructor: the map `functions`.
  unfoldable pub create : (Part → V) → List (QueryDescriptor V) → Dict Text (MapEntry V)
  unfolding assert_parser assert_target into_pair map_of
  create raw descriptors =
      map_of (map into_pair (map assert_target (map (assert_parser raw) descriptors))) []

  pub with_sources : Queries → Dict Text (MapEntry V) → Dict Text (MapEntry V)
  with_sources query [] = []
  with_sources query ((source, x) ∷ rest) =
      let kept = with_sources query rest in
      if is_some (lookup source query) then (source, x) ∷ kept else kept

  -- `parser(query[source]!)`, which a source that is not there does not reach.
  abbrev parsed : MapEntry V → Option Part → Result Thrown V
  parsed x none = err (error "undefined")
  parsed x (some p) = x.parser p

  pub append_parsed : Queries → Dict Text (MapEntry V) → Dict Text V → Result Thrown (Dict Text V)
  append_parsed query [] value = ok value
  append_parsed query ((source, x) ∷ rest) value = do
    v ← parsed x (lookup source query)
    append_parsed query rest (insert x.target v value)

  unfoldable pub parse :
      Dict Text (MapEntry V) → Queries → Dict Text V → Result Thrown (Dict Text V)
  unfolding with_sources append_parsed
  parse functions query init = elim (append_parsed query (with_sources query functions) init) [
    | ok value ↦ ok value
    | err x ↦ err (parse_error (codes "query"))
  ]

-- `scalar_parser` reads the scalar of a part: where there is none it gets `undefined`, and the calls
-- of its methods throw.
pub scalar_parser : {A V : Type 0} → (A → V) → (Text → Result Thrown A) → Parser V
unfolding as_scalar
scalar_parser put f x = elim (as_scalar x) [
  | none ↦ err (error "undefined")
  | some s ↦ elim (f s) [ ok a ↦ ok (put a) | err e ↦ err e ]
]

unfoldable pub create_boolean_query_descriptor :
    {V : Type 0} → (Bool → V) → Text → Option Text → QueryDescriptor V
unfolding scalar_parser
create_boolean_query_descriptor put source target = record {
  parser = some (scalar_parser put parse_boolean);
  source = source;
  target = target;
}

unfoldable pub create_integer_query_descriptor :
    {V : Type 0} → (ℕ → V) → Text → Option Text → QueryDescriptor V
unfolding scalar_parser
create_integer_query_descriptor put source target = record {
  parser = some (scalar_parser put parse_integer);
  source = source;
  target = target;
}

-- `read` stands for `Fs.readFileSync`, and `B` for `Buffer`.
module _ {B : Type 0} (read : Text → Result Thrown B) where
  read_all : List Text → Result Thrown (List B)
  read_all [] = ok []
  read_all (p ∷ ps) = do b ← read p; bs ← read_all ps; ok (b ∷ bs)

module _ {V B : Type 0} (read : Text → Result Thrown B) where
  create_path_array_query_descriptor : (List B → V) → Text → Option Text → QueryDescriptor V
  unfolding as_array read_all
  create_path_array_query_descriptor put source target = record {
    parser = some (λ x. elim (read_all read (as_array x)) [ ok bs ↦ ok (put bs) | err e ↦ err e ]);
    source = source;
    target = target;
  }

  create_path_query_descriptor : (B → V) → Text → Option Text → QueryDescriptor V
  unfolding scalar_parser
  create_path_query_descriptor put source target = record {
    parser = some (scalar_parser put read);
    source = source;
    target = target;
  }
