-- ===== src/Redis/Options/Clients.antt =====
-- The options that clients are made with.
use celeries.Base.{
  ◌≡◌, refl, ap, ◌∙◌, Bool, true, Option, none, some, arith, or_else, if◌then◌else◌,
}
use celeries.Base.Dict.{lookup, lookup-insert, insert, Unique, spread, lookup-spread}
use celeries.Base.Text.{Text, codes, text_eq}
use celeries.Redis.Uri.{Options, OptionValue, flag, text}
use celeries.Redis.Options.{
  append_default_options, maybe_override, redis_tcp_options, redis_socket_options,
  redis_sentinel_options, single, create_client,
}

-- The fields that the classes force.
abbrev forced : Text → Option OptionValue
forced t =
    if text_eq.beq (codes "stringNumbers") t
    then some (flag true)
    else if text_eq.beq (codes "keyPrefix") t
    then some (text (codes "celery-task-meta-"))
    else if text_eq.beq (codes "dropBufferSupport") t
    then some (flag true)
    else none

three :
    (o : Option OptionValue) (a b c : Bool) (x y z : OptionValue)
    → (if a then some x else if b then some y else if c then some z else o)
      ≡ or_else (if a then some x else if b then some y else if c then some z else none) o
three o a b c x y z = ground arith

pub append_default_options-lookup :
    (options : Options) (t : Text)
    → lookup t (append_default_options options) ≡ or_else (forced t) (lookup t options)
unfolding append_default_options
append_default_options-lookup options t =
    let prefix = text (codes "celery-task-meta-") in
    let one = insert (codes "dropBufferSupport") (flag true) options in
    let two = insert (codes "keyPrefix") prefix one in
    let first = lookup-insert (codes "dropBufferSupport") t (flag true) options in
    let second = lookup-insert (codes "keyPrefix") t prefix one in
    lookup-insert (codes "stringNumbers") t (flag true) two
    ∙ ap
        (λ (o : Option OptionValue).
          if text_eq.beq (codes "stringNumbers") t then some (flag true) else o)
        (second
          ∙ ap
              (λ (o : Option OptionValue).
                if text_eq.beq (codes "keyPrefix") t then some prefix else o)
              first)
    ∙ three (lookup t options) (text_eq.beq (codes "stringNumbers") t)
        (text_eq.beq (codes "keyPrefix") t) (text_eq.beq (codes "dropBufferSupport") t) (flag true)
        prefix (flag true)

-- A client for TCP, a socket or sentinels is made with the fields that override the options, then with
-- the three that the classes force, and for all others with those of the options.
create_client-lookup :
    (options override : Options)
    → Unique override
    → (made : Options) × (create_client (redis_tcp_options options) (some override) ≡ single made)
      × (create_client (redis_socket_options options) (some override) ≡ single made)
      × (create_client (redis_sentinel_options options) (some override) ≡ single made)
      × ((t : Text)
          → lookup t made ≡ or_else (lookup t override) (or_else (forced t) (lookup t options)))
unfolding create_client redis_tcp_options redis_socket_options redis_sentinel_options maybe_override
create_client-lookup options override u = (
  spread (append_default_options options) override,
  refl,
  refl,
  refl,
  λ t.
      lookup-spread t (append_default_options options) override u
      ∙ ap (or_else (lookup t override)) (append_default_options-lookup options t),
)
