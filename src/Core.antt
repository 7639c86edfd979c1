-- ===== src/Core.antt =====
-- include/narthex/inl/lifecycle.h and src/narthex.c: the life cycle word that `nth_init` and
-- `nth_term` of any number of threads share. A load, a store and a compare-and-swap of it is one
-- step each; what happens in between is one step of the thread. `nth_init_log` and
-- `nth_init_uptime` are parameters: the step is told what they return.
pub mod Effect
pub mod Exclusive
pub mod Calls
mod Tests
use narthex.Prelude.{ℕ, Bool, true, false, List, [], ◌∷◌, ◌==◌, if◌then◌else◌}
use narthex.Result.{
  NthResult, result_ok, result_not_initialized, result_already_initialized, result_not_ready, is_ok,
}

pub data NthLifecycle : Type 0 where
  life_dead life_starting life_alive life_stopping : NthLifecycle

abbrev pub same_life : NthLifecycle → NthLifecycle → Bool
same_life life_dead life_dead = true
same_life life_starting life_starting = true
same_life life_alive life_alive = true
same_life life_stopping life_stopping = true
same_life _ _ = false

-- `nth_atomic_cas_acq_rel_u32`: whether it stored, what `expected` holds then, and the word.
abbrev pub cas : NthLifecycle → NthLifecycle → NthLifecycle → Bool × NthLifecycle × NthLifecycle
cas lc expected desired =
    if same_life lc expected then (true, expected, desired) else (false, lc, lc)

unfoldable pub nth_lifecycle_is_alive : NthLifecycle → Bool
nth_lifecycle_is_alive lc = same_life lc life_alive

unfoldable pub nth_lifecycle_begin_init : NthLifecycle → NthResult × NthLifecycle
nth_lifecycle_begin_init lc =
    let (stored, expected, lc') = cas lc life_dead life_starting in
    if stored
    then (result_ok, lc')
    else if same_life expected life_alive
    then (result_already_initialized, lc')
    else (result_not_ready, lc')

unfoldable pub nth_lifecycle_end_init : NthLifecycle → NthLifecycle
nth_lifecycle_end_init lc = life_alive

unfoldable pub nth_lifecycle_fail_init : NthLifecycle → NthLifecycle
nth_lifecycle_fail_init lc = life_dead

unfoldable pub nth_lifecycle_begin_term : NthLifecycle → NthResult × NthLifecycle
nth_lifecycle_begin_term lc =
    let (stored, expected, lc') = cas lc life_alive life_stopping in
    if stored
    then (result_ok, lc')
    else if same_life expected life_dead
    then (result_not_initialized, lc')
    else (result_not_ready, lc')

unfoldable pub nth_lifecycle_end_term : NthLifecycle → NthLifecycle
nth_lifecycle_end_term lc = life_dead

-- Where a thread stands: outside, returned with a result, or before the next statement of
-- `nth_init` or `nth_term`.
pub data Place : Type 0 where
  outside : Place
  returned : NthResult → Place
  at_init_log at_init_uptime at_end_init : Place
  at_fail_init : NthResult → Place
  at_term_uptime at_term_log at_end_term : Place

-- What a thread does next: enter one of the calls, or go on with the result of the call it makes.
pub data Event : Type 0 where
  call_init call_term : Event
  go_on : NthResult → Event

abbrev entered_init : NthResult × NthLifecycle → Place × NthLifecycle
entered_init (r, lc) = if is_ok r then (at_init_log, lc) else (returned r, lc)

abbrev entered_term : NthResult × NthLifecycle → Place × NthLifecycle
entered_term (r, lc) = if is_ok r then (at_term_uptime, lc) else (returned result_ok, lc)

-- One step of a thread. `nth_term` returns nothing, which is `result_ok` here.
unfoldable pub advance : Event → Place → NthLifecycle → Place × NthLifecycle
advance call_init outside lc = entered_init (nth_lifecycle_begin_init lc)
advance call_init (returned r) lc = entered_init (nth_lifecycle_begin_init lc)
advance call_term outside lc = entered_term (nth_lifecycle_begin_term lc)
advance call_term (returned r) lc = entered_term (nth_lifecycle_begin_term lc)
advance (go_on r) at_init_log lc = if is_ok r then (at_init_uptime, lc) else (at_fail_init r, lc)
advance (go_on r) at_init_uptime lc = if is_ok r then (at_end_init, lc) else (at_fail_init r, lc)
advance (go_on r) at_end_init lc = (returned result_ok, nth_lifecycle_end_init lc)
advance (go_on r) (at_fail_init e) lc = (returned e, nth_lifecycle_fail_init lc)
advance (go_on r) at_term_uptime lc = (at_term_log, lc)
advance (go_on r) at_term_log lc = (at_end_term, lc)
advance (go_on r) at_end_term lc = (returned result_ok, nth_lifecycle_end_term lc)
advance e p lc = (p, lc)

-- The word, and where each thread stands.
pub record World : Type 0 where
  pub life : NthLifecycle
  pub place : ℕ → Place

-- `g_narthex_life` starts as 0.
abbrev pub start : World
start = record { life = life_dead; place = λ i. outside }

abbrev pub put : (ℕ → Place) → ℕ → Place → (ℕ → Place)
put place i p j = if i == j then p else place j

unfoldable pub step : World → ℕ → Event → World
step w i e =
    let (p, lc) = advance e (w.place i) w.life in record { life = lc; place = put w.place i p }

-- An interleaving: which thread takes a step, and which.
pub data Reachable : World → Type 0 where
  at_start : Reachable start
  then_step : (w : World) (i : ℕ) (e : Event) → Reachable w → Reachable (step w i e)

-- `nth_init` and `nth_term` of a thread that no other disturbs. `log` and `uptime` are what
-- `nth_init_log` and `nth_init_uptime` return.
unfoldable pub nth_init : NthResult → NthResult → NthLifecycle → NthResult × NthLifecycle
nth_init log uptime lc =
    let (r, starting) = nth_lifecycle_begin_init lc in
    if is_ok r
    then if is_ok log
      then if is_ok uptime
        then (result_ok, nth_lifecycle_end_init starting)
        else (uptime, nth_lifecycle_fail_init starting)
      else (log, nth_lifecycle_fail_init starting)
    else (r, starting)

unfoldable pub nth_term : NthLifecycle → NthLifecycle
nth_term lc =
    let (r, stopping) = nth_lifecycle_begin_term lc in
    if is_ok r then nth_lifecycle_end_term stopping else stopping
