-- ===== src/Uri/QueryString.antt =====
-- src/uri.ts: `parseQueries` and the query part of `addQuery`. The properties of an object are a
-- dictionary in the order in which they were made; the names of the queries are no array indices,
-- whose order would differ.
pub mod Values
use celeries.Base.{
  ℕ, Bool, true, false, ◌&&◌, ◌||◌, Option, none, some, List, [], ◌∷◌, ◌++◌, ◌==◌, if◌then◌else◌,
  leb,
}
use celeries.Base.Dict.{Dict, keys, lookup, insert, erase}
use celeries.Base.Result.{Result, ok, err}
use celeries.Base.Text.{Text, is_digit, is_letter, text_eq, codes}
use celeries.Errors.{Thrown, parse_error}
use celeries.Utility.{to_camel_case}

-- A value that occurs once, or the values of a key that occurs more often.
pub data Part : Type 0 where
  scalar : Text → Part
  array : List Text → Part

abbrev pub Queries : Type 0
Queries = Dict Text Part

abbrev pub extended : Option Part → Text → Part
extended none v = scalar v
extended (some (scalar w)) v = array (w ∷ v ∷ [])
extended (some (array ws)) v = array (ws ++ v ∷ [])

-- The key that every object inherits a setter for: `result[key] = value` with a text changes
-- nothing, and the key is never one of the object's own.
abbrev pub proto : Text
proto = codes "__proto__"

abbrev pub assigned : Text → Part → Queries → Queries
assigned key v result = if text_eq.beq key proto then result else insert key v result

pub parse_entries : List (Text × Text) → Queries → Queries
parse_entries [] result = result
parse_entries ((key, v) ∷ rest) result =
    parse_entries rest (assigned key (extended (lookup key result) v) result)

unfoldable pub parse_queries : List (Text × Text) → Queries
unfolding parse_entries
parse_queries entries = parse_entries entries []

-- The expression's `[A-Za-z\d*-._+%]`, in which `*-.` is a range.
is_query_char : ℕ → Bool
unfolding is_letter is_digit
is_query_char c =
    is_letter c || is_digit c || (leb b'*' c && leb c b'.') || (c == b'_') || (c == b'%')

pub data Place : Type 0 where
  before_key in_key in_value : Place

-- The expression: keys and values, joined by `=` and separated by `&`, no key empty.
scan : Place → Text → Bool
unfolding is_query_char
scan before_key [] = false
scan in_key [] = false
scan in_value [] = true
scan before_key (c ∷ s) = is_query_char c && scan in_key s
scan in_key (c ∷ s) =
    let ended = scan in_value s in
    let more = scan in_key s in if c == b'=' then ended else is_query_char c && more
scan in_value (c ∷ s) =
    let ended = scan before_key s in
    let more = scan in_value s in if c == b'&' then ended else is_query_char c && more

is_query : Text → Bool
unfolding scan
is_query s = scan before_key s

-- `camelCaseQuery` for one key. A key that is not there has the value `undefined`, as if it were
-- not set.
camel_case_query : Text → Queries → Queries
unfolding to_camel_case
camel_case_query key queries =
    let cased = to_camel_case key in
    if text_eq.beq cased key then queries else (elim (lookup key queries) [
      | none ↦ erase key (erase cased queries)
      | some v ↦ erase key (insert cased v queries)
    ])

camel_case_keys : List Text → Queries → Queries
unfolding camel_case_query
camel_case_keys [] queries = queries
camel_case_keys (key ∷ rest) queries = camel_case_keys rest (camel_case_query key queries)

abbrev without_first : Text → Text
without_first [] = []
without_first (_ ∷ s) = s

-- The `query` of the result, for the `search` and the entries of `searchParams`; `none` leaves it
-- as it is.
unfoldable pub add_query : Text → List (Text × Text) → Result Thrown (Option Queries)
unfolding is_query camel_case_keys
add_query [] entries = ok none
add_query (c ∷ search) entries =
    if is_query search
    then (let unconverted = parse_queries entries in
        ok (some (camel_case_keys (keys unconverted) unconverted)))
    else err (parse_error (c ∷ search))
