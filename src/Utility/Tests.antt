-- ===== src/Utility/Tests.antt =====
-- The functions on strings, and the theorems, at examples.
use Prim.Native.String.{String}
use celeries.Base.{
  ℕ, ◌/◌, ◌%◌, ◌≡◌, refl, true, Option, none, some, [], ◌∷◌, ◌++◌, ◌==◌, if◌then◌else◌, arith, Bool,
  false,
}
use celeries.Base.Result.{Result, ok, err}
use celeries.Base.Text.{codes, to_lower, is_space}
use celeries.Containers.PromiseMap.Promises.{value, thrown}
use celeries.Utility.Events.{
  filter_map_event, create_timer_promise, Settling, create_timeout_promise, timer_delay, race,
}
use celeries.Utility.Events.Firsts.{run_events, shows, first_mapped, filter_map_event-first}
use celeries.Utility.{parse_integer, hexadecimal, base, parse_boolean, to_camel_case}
use celeries.Utility.Reading.{parse_integer-numeral}

-- 2^53 + 1 is no double.
double_test : parse_integer (codes "9007199254740993") ≡ ok 9007199254740992
unfolding parse_integer
double_test = refl

hex_test : parse_integer (codes " 0xFf") ≡ ok 255
unfolding parse_integer
hex_test = refl

octal_test : parse_integer (codes "0755") ≡ ok 493
unfolding parse_integer
octal_test = refl

boolean_test : parse_boolean (codes "  YES ") ≡ ok true
unfolding parse_boolean
boolean_test = refl

camel_test : to_camel_case (codes "frame_max_size") ≡ codes "frameMax_size"
unfolding to_camel_case
camel_test = refl

parse_integer-numeral_example : parse_integer (codes " " ++ (codes "0xFF" ++ codes "\t")) ≡ ok 255
unfolding to_lower base is_space
parse_integer-numeral_example =
    parse_integer-numeral hexadecimal 255 (codes " ") (codes "0xFF") (codes "\t") (omega arith) refl
      refl refl

abbrev error : String → String
error s = s

abbrev promise : Settling ℕ String
promise = some (50, value 1)

-- Even numbers are let through, halved; 5 makes the filter throw.
abbrev half : ℕ → Result String (Option ℕ)
half n = if n == 5 then err "five" else if n % 2 == 0 then ok (some (n / 2)) else ok none

filter_map_event-first_example :
    run_events half (3 ∷ 5 ∷ 8 ∷ 6 ∷ []) (filter_map_event ℕ)
    ≡ shows half (first_mapped half (3 ∷ 5 ∷ 8 ∷ 6 ∷ []))
filter_map_event-first_example = filter_map_event-first half (3 ∷ 5 ∷ 8 ∷ 6 ∷ [])

-- A promise that settles as its timer is due, either way.
abbrev tied : Bool → Settling ℕ String
tied first = create_timeout_promise first error 4 promise (some 46)

tied_test : (tied true ≡ promise) × (tied false ≡ some (50, thrown (error "timed out")))
unfolding create_timeout_promise create_timer_promise timer_delay race
tied_test = (refl, refl)
