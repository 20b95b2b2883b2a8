-- ===== src/Redis/Backend/Uuid.antt =====
-- src/redis/backend.ts: the regular expression `UUID_REGEX`.
use celeries.Base.{
  ℕ, zero, suc, Bool, true, false, ◌&&◌, ◌||◌, Option, none, some, List, [], ◌∷◌, ◌==◌, leb,
  if◌then◌else◌,
}
use celeries.Base.Text.{Text, codes, is_digit}

abbrev pub result_prefix : Text
result_prefix = codes "celery-task-meta-"

-- The character class of the expression.
is_hex : ℕ → Bool
unfolding is_digit
is_hex c = (leb b'A' c && leb c b'F') || (leb b'a' c && leb c b'f') || is_digit c

-- What stands behind so many characters of the class.
after_hex : ℕ → Text → Option Text
unfolding is_hex
after_hex zero s = some s
after_hex (suc n) [] = none
after_hex (suc n) (c ∷ s) = let rest = after_hex n s in if is_hex c then rest else none

abbrev ends_there : Option Text → Bool
ends_there none = false
ends_there (some []) = true
ends_there (some (_ ∷ _)) = false

-- Groups of so many characters, with dashes between them.
is_groups : ℕ → List ℕ → Text → Bool
unfolding after_hex
is_groups n [] s = ends_there (after_hex n s)
is_groups n (m ∷ ms) s = elim (after_hex n s) [
  | none ↦ false
  | some rest ↦ elim rest [ [] ↦ false | c ∷ t ↦ (c == b'-') && is_groups m ms t ]
]

unfoldable pub is_uuid : Text → Bool
unfolding is_groups
is_uuid s = is_groups 8 (4 ∷ 4 ∷ 4 ∷ 12 ∷ []) s

-- What stands behind a prefix.
unfoldable pub after_prefix : Text → Text → Option Text
after_prefix [] s = some s
after_prefix (p ∷ ps) [] = none
after_prefix (p ∷ ps) (c ∷ s) = let rest = after_prefix ps s in if p == c then rest else none

unfoldable pub uuid_only : Option Text → Option Text
unfolding is_uuid
uuid_only none = none
uuid_only (some id) = if is_uuid id then some id else none

-- The group of `UUID_REGEX`.
unfoldable pub match_channel : Text → Option Text
unfolding after_prefix uuid_only
match_channel channel = uuid_only (after_prefix result_prefix channel)
