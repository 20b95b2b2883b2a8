-- ===== src/Redis/Uri/Sentinel/Names.antt =====
-- The name that the queries of one sentinel URI give.
use celeries.Base.{◌≡◌, refl, sym, ◌∙◌, inl, inr, Option, none, some, [], arith, Option-cases}
use celeries.Base.Dict.{lookup, insert, Unique}
use celeries.Base.Result.{Result, ok, err, ok-injective}
use celeries.Base.Text.{Text, codes, text_eq}
use celeries.Errors.{Thrown}
use celeries.QueryParser.{create, assert_parser, assert_target, into_pair, parse}
use celeries.QueryParser.Fields.{field, parse-field, parse-Unique}
use celeries.Uri.{Uri}
use celeries.Uri.QueryString.{Part, Queries}
use celeries.Redis.Uri.{Options, OptionValue, part}
use celeries.Redis.Uri.Sentinel.{descriptors, parse_queries}

-- A part of a query as a value, if it is there.
abbrev as_value : Option Part → Option OptionValue
as_value none = none
as_value (some p) = some (part p)

-- The value that a query has for a key.
abbrev value_of : Uri → Text → Option OptionValue
value_of uri key = elim uri.query [ none ↦ none | some query ↦ as_value (lookup key query) ]

abbrev pub name_of : Result Thrown Uri → Option OptionValue
name_of (ok uri) = value_of uri (codes "name")
name_of (err e) = none

abbrev parsed_value : Option Part → Option (Result Thrown OptionValue)
parsed_value none = none
parsed_value (some p) = some (ok (part p))

raw_outcome :
    (o : Option Part)
    → ◌≡◌ {A = Option (Result Thrown OptionValue)}
        (elim o [ none ↦ none | some p ↦ some (ok (part p)) ])
        (parsed_value o)
raw_outcome none = refl
raw_outcome (some p) = refl

field-name :
    (query : Queries)
    → field query (create part descriptors) (codes "name")
      ≡ parsed_value (lookup (codes "name") query)
unfolding create assert_parser assert_target into_pair descriptors lookup insert
field-name query = raw_outcome (lookup (codes "name") query)

parsed_value-none : (o : Option Part) → parsed_value o ≡ none → none ≡ as_value o
parsed_value-none none e = refl
parsed_value-none (some p) e = ground (arith, e)

parsed_value-some :
    (o : Option Part) (v : OptionValue) → parsed_value o ≡ some (ok v) → some v ≡ as_value o
parsed_value-some none v e = ground (arith, e)
parsed_value-some (some p) v e = ground (arith, e)

parse-name :
    (query : Queries) (q : Options)
    → parse (create part descriptors) query [] ≡ ok q
    → lookup (codes "name") q ≡ as_value (lookup (codes "name") query)
unfolding lookup
parse-name query q run =
    elim (parse-field (create part descriptors) query [] q (codes "name") run) [
      | inl (f, same) ↦
          same ∙ parsed_value-none (lookup (codes "name") query) (sym (field-name query) ∙ f)
      | inr (v, f, there) ↦
          there ∙ parsed_value-some (lookup (codes "name") query) v (sym (field-name query) ∙ f)
    ]

pub parse_queries-name :
    (uri : Uri) (q : Options)
    → parse_queries uri ≡ ok q
    → Unique q × (lookup (codes "name") q ≡ value_of uri (codes "name"))
unfolding parse_queries lookup
parse_queries-name uri q run = elim (Option-cases uri.query) [
  | inl gone ↦ let empty : [] ≡ q = ok-injective (rw gone at run) in rw (← empty) (tt, rw gone refl)
  | inr (query, found) ↦
      let parses : parse (create part descriptors) query [] ≡ ok q = rw found at run in
      (
        parse-Unique (create part descriptors) query [] q tt parses,
        parse-name query q parses ∙ rw found refl,
      )
]
