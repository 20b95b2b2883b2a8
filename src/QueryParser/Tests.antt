-- ===== src/QueryParser/Tests.antt =====
-- A parser with two fields, and the theorems at a query.
use celeries.Base.{ℕ, ◌≡◌, refl, ◌⊎◌, none, some, List, [], ◌∷◌}
use celeries.Base.Dict.{Dict, lookup, insert}
use celeries.Base.Result.{ok, err}
use celeries.Base.Text.{Text, codes, text_eq}
use celeries.Errors.{parse_error}
use celeries.Utility.{parse_integer}
use celeries.Uri.QueryString.{Part, scalar, array, Queries}
use celeries.QueryParser.{QueryDescriptor, MapEntry, create, parse, create_integer_query_descriptor}
use celeries.QueryParser.Fields.{
  field, AllParse, SomeFails, parse-outcome, parse-field, entry_of, last_with, lookup-create,
}

data Field : Type 0 where
  kept : Part → Field
  number : ℕ → Field

abbrev descriptors : List (QueryDescriptor Field)
descriptors =
    create_integer_query_descriptor number (codes "max") (some (codes "channelMax"))
    ∷ record { parser = none; source = codes "locale"; target = none }
    ∷ []

abbrev query : Queries
query = (codes "max", array (codes "1" ∷ codes "0x10" ∷ [])) ∷ (codes "other", scalar []) ∷ []

abbrev functions : Dict Text (MapEntry Field)
functions = create kept descriptors

abbrev result : Dict Text Field
result = (codes "channelMax", number 16) ∷ []

parse_test : parse functions query [] ≡ ok result
unfolding create parse lookup insert create_integer_query_descriptor parse_integer
parse_test = refl

parse-outcome_example :
    ((r : Dict Text Field) × (parse functions query [] ≡ ok r) × AllParse query functions)
    ⊎ ((parse functions query [] ≡ err (parse_error (codes "query"))) × SomeFails query functions)
parse-outcome_example = parse-outcome functions query []

parse-field_example :
    ((field query functions (codes "channelMax") ≡ none)
      × (lookup {V = Field} (codes "channelMax") result
          ≡ lookup {V = Field} (codes "channelMax") []))
    ⊎ ((v : Field) × (field query functions (codes "channelMax") ≡ some (ok v))
        × (lookup (codes "channelMax") result ≡ some v))
parse-field_example = parse-field functions query [] result (codes "channelMax") parse_test

lookup-create_test :
    lookup (codes "max") (create kept descriptors)
    ≡ (elim (last_with (codes "max") descriptors) [ none ↦ none | some d ↦ some (entry_of kept d) ])
lookup-create_test = lookup-create kept (codes "max") descriptors
