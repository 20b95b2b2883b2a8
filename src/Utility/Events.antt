-- ===== src/Utility/Events.antt =====
-- src/utility.ts: promises for the events of an emitter, and promises with a time limit. What the
-- event loop does is an operation here: an emitter calls a listener (`on_event`, `on_once`), and the
-- promise of a race settles or its timer is due. Numbers stand for milliseconds.
pub mod Firsts
use Prim.Native.String.{String}
use celeries.Base.{
  ℕ, ◌+◌, Bool, true, false, ◌&&◌, ◌||◌, Option, none, some, List, [], ◌∷◌, ◌==◌, ltb,
  if◌then◌else◌,
}
use celeries.Base.Result.{Result, ok, err}
use celeries.Containers.PromiseMap.Promises.{Outcome, value, thrown}

-- The promise of `promisifyEvent`: what it resolved to, and whether its listener is there.
pub record Once (A : Type 0) : Type 0 where
  pub resolved_to : Option A
  pub listening : Bool

pub promisify_event : (A : Type 0) → Once A
promisify_event A = record { resolved_to = none; listening = true }

-- An event is emitted: `once` takes the listener away before it calls it.
pub on_once : {A : Type 0} → A → Once A → Once A
on_once a s = if s.listening then record { resolved_to = some a; listening = false } else s

-- The promise of `filterMapEvent`, the flag of its listener and whether the emitter has the listener.
pub record FilterMap (T : Type 0) : Type 0 where
  pub resolved : Bool
  pub listening : Bool
  pub promise : Option T

pub filter_map_event : (T : Type 0) → FilterMap T
filter_map_event T = record { resolved = false; listening = true; promise = none }

-- The first call of a promise's `resolve` decides.
resolve_once : {T : Type 0} → T → Option T → Option T
resolve_once v none = some v
resolve_once v (some w) = some w

-- What the listener does with what `filterMap` gave; an error goes to the emitter.
mapped : {T E : Type 0} → Result E (Option T) → FilterMap T → FilterMap T × Option E
unfolding resolve_once
mapped (err x) s = (s, some x)
mapped (ok none) s = (s, none)
mapped (ok (some v)) s =
    (record { resolved = true; listening = false; promise = resolve_once v s.promise }, none)

-- The emitter calls the listener. In an emission that has begun it does so even when the listener
-- has been taken away meanwhile.
pub on_event :
    {A T E : Type 0} → (A → Result E (Option T)) → A → FilterMap T → FilterMap T × Option E
unfolding mapped
on_event filter_map values s = if s.resolved then (s, none) else mapped (filter_map values) s

-- The delay that Node gives a timer: 1 for a number that does not fit into 31 bits, or below 1.
abbrev pub timer_limit : ℕ
timer_limit = 2147483647

unfoldable pub timer_delay : ℕ → ℕ
timer_delay delay = if ltb timer_limit delay || ltb delay 1 then 1 else delay

-- `createTimerPromise`, called at the time `now`: when it rejects.
unfoldable pub create_timer_promise : ℕ → ℕ → ℕ
unfolding timer_delay
create_timer_promise now timeout = now + timer_delay timeout

-- A promise that settles at some time, or never.
abbrev pub Settling : Type 0 → Type 0 → Type 0
Settling V E = Option (ℕ × Outcome V E)

-- `Promise.race` with a promise that rejects at the time `due`. Where both settle in one millisecond,
-- `first` says whether the promise is the first to do so.
unfoldable pub race : {V E : Type 0} → Bool → Settling V E → ℕ → E → Settling V E
race first none due error = some (due, thrown error)
race first (some (at, outcome)) due error =
    if ltb at due || (at == due && first) then some (at, outcome) else some (due, thrown error)

unfoldable pub create_timeout_promise :
    {V E : Type 0} → Bool → (String → E) → ℕ → Settling V E → Option ℕ → Settling V E
unfolding race create_timer_promise
create_timeout_promise first error now promise none = promise
create_timeout_promise first error now promise (some timeout) =
    race first promise (create_timer_promise now timeout) (error "timed out")
