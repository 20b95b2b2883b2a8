-- ===== src/Utility/Events/Firsts.antt =====
-- Which event a promise stands for, and when a timer is due.
use celeries.Base.{
  ℕ, ◌≤◌, ◌<◌, ◌≡◌, refl, ◌↔◌, inl, inr, true, false, Option, none, some, List, [], ◌∷◌, arith,
  Option-cases, Bool,
}
use celeries.Base.Result.{Result, ok, err, Result-cases}
use celeries.Containers.PromiseMap.Promises.{Outcome, thrown}
use celeries.Utility.Events.{
  Once, promisify_event, on_once, FilterMap, filter_map_event, on_event, mapped, timer_limit,
  timer_delay, resolve_once, race,
}

-- The listener called with the arguments of one event after the other.
abbrev run_once : {A : Type 0} → List A → Once A → Once A
run_once [] s = s
run_once (a ∷ rest) s = run_once rest (on_once a s)

abbrev let_through : {T E : Type 0} → Result E (Option T) → Option T → Option T
let_through (err x) later = later
let_through (ok none) later = later
let_through (ok (some v)) later = some v

module _ {A T E : Type 0} (filter_map : A → Result E (Option T)) where
  abbrev pub run_events : List A → FilterMap T → FilterMap T
  run_events [] s = s
  run_events (a ∷ rest) s = run_events rest (on_event filter_map a s).0

  -- The first event that the filter lets through, mapped.
  abbrev pub first_mapped : List A → Option T
  first_mapped [] = none
  first_mapped (a ∷ rest) = let later = first_mapped rest in let_through (filter_map a) later

  done : (events : List A) (s : FilterMap T) → s.resolved ≡ true → run_events events s ≡ s
  unfolding on_event
  done [] s h = refl
  done (a ∷ rest) s h = ground (arith, done rest s h)

  -- The promise with what it resolved to, if it did: until then the emitter has the listener.
  abbrev pub shows : Option T → FilterMap T
  shows none = record { resolved = false; listening = true; promise = none }
  shows (some v) = record { resolved = true; listening = false; promise = some v }

  first_from : (events : List A) → run_events events (shows none) ≡ shows (first_mapped events)
  unfolding on_event mapped resolve_once
  first_from [] = refl
  first_from (a ∷ rest) = elim (Result-cases (filter_map a)) [
    | inr (x, fails) ↦ rw fails (first_from rest)
    | inl (found, maps) ↦ elim (Option-cases found) [
      | inl gone ↦ rw (maps, gone) (first_from rest)
      | inr (v, there) ↦ rw (maps, there) (done rest (shows (some v)) refl)
    ]
  ]

  -- Whatever events come, the promise of `filterMapEvent` resolves to what the first event gives that
  -- the filter lets through: an event for which the filter throws is passed over, one that comes
  -- later changes nothing, and the listener is there until then only.
  pub filter_map_event-first :
      (events : List A) → run_events events (filter_map_event T) ≡ shows (first_mapped events)
  unfolding filter_map_event
  filter_map_event-first events = first_from events

-- The promise of `promisifyEvent` resolves to the first event.
promisify_event-first :
    {A : Type 0} (a : A) (rest : List A)
    → run_once (a ∷ rest) (promisify_event A) ≡ record { resolved_to = some a; listening = false }
unfolding promisify_event on_once
promisify_event-first a rest = once_done rest _ refl
  where
    once_done :
        {A : Type 0} (events : List A) (s : Once A) → s.listening ≡ false → run_once events s ≡ s
    once_done [] s h = refl
    once_done (b ∷ events) s h = ground (arith, once_done events s h)

-- A timer is due no earlier than asked for exactly if the time asked for is at most the limit;
-- above it the timer is due after one millisecond.
timer_delay_iff : (timeout : ℕ) → (timeout ≤ timer_delay timeout) ↔ (timeout ≤ timer_limit)
unfolding timer_delay
timer_delay_iff timeout = ground arith

timer_delay-above : (timeout : ℕ) → timer_limit < timeout → timer_delay timeout ≡ 1
unfolding timer_delay
timer_delay-above timeout h = ground arith

pub race-early :
    {V E : Type 0} (first : Bool) (at due : ℕ) (outcome : Outcome V E) (x : E)
    → at < due
    → race first (some (at, outcome)) due x ≡ some (at, outcome)
unfolding race
race-early first at due outcome x h = ground arith

pub race-late :
    {V E : Type 0} (first : Bool) (at due : ℕ) (outcome : Outcome V E) (x : E)
    → due < at
    → race first (some (at, outcome)) due x ≡ some (due, thrown x)
unfolding race
race-late first at due outcome x h = ground arith
