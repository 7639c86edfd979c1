-- ===== src/System.antt =====
-- modules/filesystem/system.c: `fs_cached_get`, which any number of threads call on one slot. A load,
-- a store and a compare-and-swap of the life cycle word is one step each; so is each access of the
-- value. `compute` is a parameter: the step is told what it returns.
pub mod Inv
pub mod Agree
pub mod Exe
pub mod Cwd
mod Tests
use narthex.Prelude.{ℕ, Bool, true, false, Option, none, some, List, [], ◌∷◌, ◌==◌, if◌then◌else◌}
use narthex.Result.{NthResult, is_ok}
use narthex.Core.{
  NthLifecycle, life_dead, nth_lifecycle_is_alive, nth_lifecycle_begin_init, nth_lifecycle_end_init,
  nth_lifecycle_fail_init,
}

pub record FsCachedPath : Type 0 where
  pub life : NthLifecycle
  pub value : Option (List ℕ)

-- Where a thread stands: outside, before the next access, or returned.
pub data Place : Type 0 where
  outside at_check at_read at_begin at_compute : Place
  at_fail : NthResult → Place
  at_store at_end : List ℕ → Place
  failed : NthResult → Place
  got : Option (List ℕ) → Place

-- What a thread does next: call, go on, or go on with what `compute` gives.
pub data Event : Type 0 where
  call go_on : Event
  computed : List ℕ → Event
  compute_failed : NthResult → Event

-- One step of a thread. Whatever keeps it from the word, it comes back to the check.
unfoldable pub fs_cached_get : Event → Place → FsCachedPath → Place × FsCachedPath
fs_cached_get call outside slot = (at_check, slot)
fs_cached_get call (failed r) slot = (at_check, slot)
fs_cached_get call (got x) slot = (at_check, slot)
fs_cached_get go_on at_check slot =
    if nth_lifecycle_is_alive slot.life then (at_read, slot) else (at_begin, slot)
fs_cached_get go_on at_read slot = (got slot.value, slot)
fs_cached_get go_on at_begin slot =
    let (r, life) = nth_lifecycle_begin_init slot.life in
    if is_ok r
    then (at_compute, record slot { life = life })
    else (at_check, record slot { life = life })
fs_cached_get (computed value) at_compute slot = (at_store value, slot)
fs_cached_get (compute_failed r) at_compute slot = (at_fail r, slot)
fs_cached_get go_on (at_fail r) slot =
    (failed r, record slot { life = nth_lifecycle_fail_init slot.life })
fs_cached_get go_on (at_store value) slot = (at_end value, record slot { value = some value })
fs_cached_get go_on (at_end value) slot =
    (got (some value), record slot { life = nth_lifecycle_end_init slot.life })
fs_cached_get e p slot = (p, slot)

-- The slot, and where each thread stands.
pub record World : Type 0 where
  pub slot : FsCachedPath
  pub place : ℕ → Place

-- The slots are static, so they start as zeros.
abbrev pub start : World
start = record { slot = record { life = life_dead; value = none }; place = λ i. outside }

abbrev pub put : (ℕ → Place) → ℕ → Place → (ℕ → Place)
put place i p j = if i == j then p else place j

unfoldable pub step : World → ℕ → Event → World
step w i e =
    let (p, slot) = fs_cached_get e (w.place i) w.slot in
    record { slot = slot; place = put w.place i p }

-- An interleaving: which thread takes a step, and which.
unfoldable pub run : World → List (ℕ × Event) → World
run w [] = w
run w ((i, e) ∷ es) = run (step w i e) es
