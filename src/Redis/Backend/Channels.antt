-- ===== src/Redis/Backend/Channels.antt =====
-- Which channels stand for results.
use celeries.Base.{
  ◌≡◌, refl, ap, ◌∙◌, ◌↔◌, true, Option, none, some, [], ◌∷◌, ◌++◌, arith, inl, inr, if-cases,
}
use celeries.Base.Text.{Text}
use celeries.Redis.Backend.Uuid.{result_prefix, is_uuid, after_prefix, uuid_only, match_channel}

after_prefix-append : (p s : Text) → after_prefix p (p ++ s) ≡ some s
unfolding after_prefix
after_prefix-append [] s = refl
after_prefix-append (c ∷ p) s = ground (arith, after_prefix-append p s)

after_prefix-some : (p s t : Text) → after_prefix p s ≡ some t → s ≡ p ++ t
unfolding after_prefix
after_prefix-some [] s t h = ground (arith, h)
after_prefix-some (c ∷ p) [] t h = ground (arith, h)
after_prefix-some (c ∷ p) (d ∷ s) t h = ground (arith, h, after_prefix-some p s t)

match_channel-some :
    (channel id : Text) (o : Option Text)
    → after_prefix result_prefix channel ≡ o
    → uuid_only o ≡ some id
    → (channel ≡ result_prefix ++ id) × (is_uuid id ≡ true)
unfolding uuid_only
match_channel-some channel id none found h = ground (arith, h)
match_channel-some channel id (some t) found h = elim (if-cases (is_uuid t) h) [
  | inl (uuid, same) ↦
      let is : t ≡ id = ground (arith, same) in
      rw (← is) (after_prefix-some result_prefix channel t found, uuid)
  | inr (_, same) ↦ ground (arith, same)
]

-- A channel stands for the result of a task exactly if it is the prefix followed by the task's id, and
-- the id is a UUID.
pub match_channel_iff :
    (channel id : Text)
    → (match_channel channel ≡ some id) ↔ ((channel ≡ result_prefix ++ id) × (is_uuid id ≡ true))
unfolding match_channel uuid_only
match_channel_iff channel id = (
  λ h. match_channel-some channel id (after_prefix result_prefix channel) refl h,
  λ (is, uuid).
      ap match_channel is ∙ ap uuid_only (after_prefix-append result_prefix id) ∙ rw uuid refl,
)
