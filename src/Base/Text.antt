-- ===== src/Base/Text.antt =====
-- JavaScript strings as lists of code units. The program compares characters with ASCII letters
-- only; the letters outside ASCII keep their case here. Of these only U+212A has an ASCII letter
-- as its lower case, k, which no expression that stands behind a conversion asks for.
use Prim.Native.Char.{code}
use Prim.Native.String.{String}
use Prim.Native.Nat.{ℕ, ◌+◌, ◌-◌}
use mathlib.Core.Path.{◌≡◌}
use mathlib.Core.Logic.{◌↔◌}
use mathlib.Core.Bool.{Bool, true, false, ◌&&◌, ◌||◌}
use mathlib.Core.List.{List, [], ◌∷◌, map}
use native.Mathlib.Omega.{arith}
use celeries.Base.Tests.{leb, ◌==◌, if◌then◌else◌}
use celeries.Base.Equality.{Eq, nat_eq}

abbrev pub Text : Type 0
Text = List ℕ

-- A literal. `String` has constructors of its own.
abbrev pub codes : String → Text
codes String.[] = []
codes (String.◌∷◌ c s) = code c ∷ codes s

module _ {ℓ} {A : Type ℓ} ⦃e : Eq A⦄ where
  abbrev pub list_beq : List A → List A → Bool
  list_beq [] [] = true
  list_beq (x ∷ xs) (y ∷ ys) = e.beq x y && list_beq xs ys
  list_beq _ _ = false

  pub list_beq_iff : (xs ys : List A) → (list_beq xs ys ≡ true) ↔ (xs ≡ ys)
  list_beq_iff [] [] = ground arith
  list_beq_iff [] (y ∷ ys) = ground arith
  list_beq_iff (x ∷ xs) [] = ground arith
  list_beq_iff (x ∷ xs) (y ∷ ys) = ground (arith, e.beq_iff x y, list_beq_iff xs ys)

instance abbrev pub text_eq : Eq Text
text_eq = record { beq = list_beq; beq_iff = list_beq_iff }

abbrev pub between : ℕ → ℕ → ℕ → Bool
between low high c = leb low c && leb c high

unfoldable pub is_lower : ℕ → Bool
is_lower c = between b'a' b'z' c

is_upper : ℕ → Bool
is_upper c = between b'A' b'Z' c

unfoldable pub is_digit : ℕ → Bool
is_digit c = between b'0' b'9' c

unfoldable pub is_letter : ℕ → Bool
unfolding is_lower is_upper
is_letter c = is_lower c || is_upper c

unfoldable pub to_lower : ℕ → ℕ
unfolding is_upper
to_lower c = if is_upper c then c + 32 else c

unfoldable pub to_upper : ℕ → ℕ
unfolding is_lower
to_upper c = if is_lower c then c - 32 else c

-- `String#toLowerCase`.
abbrev pub to_lower_case : Text → Text
to_lower_case = map to_lower

-- White space and line ends, as `String#trim` knows them.
unfoldable pub is_space : ℕ → Bool
is_space c =
    between 9 13 c
    || (c == 32)
    || (c == 160)
    || (c == 5760)
    || between 8192 8202 c
    || (c == 8232)
    || (c == 8233)
    || (c == 8239)
    || (c == 8287)
    || (c == 12288)
    || (c == 65279)

module _ {ℓ} {A : Type ℓ} where
  abbrev pub all : (A → Bool) → List A → Bool
  all p [] = true
  all p (x ∷ xs) = p x && all p xs

unfoldable pub trim_start : Text → Text
trim_start [] = []
trim_start (c ∷ s) = if is_space c then trim_start s else c ∷ s

unfoldable pub trim_end : Text → Text
trim_end [] = []
trim_end (c ∷ s) = if is_space c && all is_space s then [] else c ∷ trim_end s

unfoldable pub trim : Text → Text
unfolding trim_start trim_end
trim s = trim_end (trim_start s)

-- Whether a text is one of a list.
abbrev pub is_among : List Text → Text → Bool
is_among [] key = false
is_among (k ∷ ks) key = if text_eq.beq k key then true else is_among ks key

-- `String#isWellFormed`: every high surrogate stands before a low one, and every low one behind a
-- high one. The flag says that a high one stands before the text.
abbrev paired : Bool → Text → Bool
paired false [] = true
paired true [] = false
paired true (c ∷ s) = let rest = paired false s in if between 56320 57343 c then rest else false
paired false (c ∷ s) =
    let behind_high = paired true s in
    let rest = paired false s in
    if between 55296 56319 c then behind_high else if between 56320 57343 c then false else rest

abbrev pub is_well_formed : Text → Bool
is_well_formed s = paired false s
