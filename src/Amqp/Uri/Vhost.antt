-- ===== src/Amqp/Uri/Vhost.antt =====
-- Which URIs keep their virtual host.
use celeries.Base.{ℕ, ◌≡◌, refl, Bool, true, false, not, none, [], ◌∷◌, ◌++◌, arith, ◌==◌}
use celeries.Base.Result.{ok}
use celeries.Base.Text.{Text, all}
use celeries.Uri.{Runtime}
use celeries.Amqp.Uri.{
  AmqpOptions, is_vhost_char, match_path, match_slashes, match_vhost, append_vhost,
}

abbrev no_slash : ℕ → Bool
no_slash c = not (c == b'/')

question-all : (a q : Text) → all is_vhost_char (a ++ b'?' ∷ q) ≡ false
unfolding is_vhost_char
question-all [] q = ground arith
question-all (c ∷ a) q = ground (arith, question-all a q)

match_path-no_slash : (q : Text) → all no_slash q ≡ true → match_path q ≡ none
unfolding match_path
match_path-no_slash [] h = refl
match_path-no_slash (c ∷ q) h = ground (arith, h, match_path-no_slash q)

match_path-question : (a q : Text) → all no_slash q ≡ true → match_path (a ++ b'?' ∷ q) ≡ none
unfolding match_path
match_path-question [] q h = ground (arith, match_path-no_slash q h)
match_path-question (c ∷ a) q h = ground (arith, question-all a q, match_path-question a q h)

match_slashes-question : (a q : Text) → all no_slash q ≡ true → match_slashes (a ++ b'?' ∷ q) ≡ none
unfolding match_slashes
match_slashes-question [] [] h = refl
match_slashes-question [] (x ∷ []) h = refl
match_slashes-question [] (x ∷ y ∷ q) h = refl
match_slashes-question (c ∷ []) [] h = refl
match_slashes-question (c ∷ []) (x ∷ q) h = ground arith
match_slashes-question (c ∷ d ∷ []) q h = ground arith
match_slashes-question (c ∷ d ∷ e ∷ a) q h = ground (arith, match_path-question a q h)

match_slashes-no_slash : (q : Text) → all no_slash q ≡ true → match_slashes q ≡ none
unfolding match_slashes
match_slashes-no_slash [] h = refl
match_slashes-no_slash (c ∷ []) h = refl
match_slashes-no_slash (c ∷ d ∷ []) h = refl
match_slashes-no_slash (c ∷ d ∷ e ∷ q) h = ground (arith, h)

match_vhost-no_slash : (q : Text) → all no_slash q ≡ true → match_vhost q ≡ none
unfolding match_vhost
match_vhost-no_slash [] h = refl
match_vhost-no_slash (c ∷ q) h = ground (arith, h, match_slashes-no_slash q, match_vhost-no_slash q)

match_vhost-question : (a q : Text) → all no_slash q ≡ true → match_vhost (a ++ b'?' ∷ q) ≡ none
unfolding match_vhost
match_vhost-question [] q h = ground (arith, match_slashes-no_slash q h, match_vhost-no_slash q h)
match_vhost-question (c ∷ a) q h =
    ground (arith, match_slashes-question a q h, match_vhost-question a q h)

-- In a URI with a question mark behind which no slash stands, as it begins a query, the virtual host
-- is passed over: the options stay as they are.
pub append_vhost-question :
    (js : Runtime) (before q : Text) (options : AmqpOptions)
    → all no_slash q ≡ true
    → append_vhost js (before ++ b'?' ∷ q) options ≡ ok options
unfolding append_vhost
append_vhost-question js before q options h =
    rw (match_vhost-question before q h, append_vhost) refl
