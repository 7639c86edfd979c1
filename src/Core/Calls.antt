-- ===== src/Core/Calls.antt =====
-- A thread that is alone goes through `nth_init` and `nth_term` in steps.
use narthex.Prelude.{◌≡◌, refl, inl, inr, List, [], ◌∷◌, Bool-cases}
use narthex.Result.{NthResult, result_ok, is_ok}
use narthex.Core.{
  NthLifecycle, life_dead, life_starting, life_alive, life_stopping, Place, outside, returned,
  Event, call_init, call_term, go_on, advance, nth_lifecycle_begin_init, nth_lifecycle_end_init,
  nth_lifecycle_fail_init, nth_lifecycle_begin_term, nth_lifecycle_end_term, nth_init, nth_term,
}

-- The steps of one thread, one after the other.
abbrev pub alone : List Event → Place × NthLifecycle → Place × NthLifecycle
alone [] s = s
alone (e ∷ es) (p, lc) = alone es (advance e p lc)

-- From outside, with what the initialisers return as `log` and `uptime`, four steps of a thread
-- that no other disturbs return what `nth_init` returns and leave the same word.
pub nth_init-alone :
    (log uptime : NthResult) (lc : NthLifecycle)
    → let (r, after) = nth_init log uptime lc in
      alone (call_init ∷ go_on log ∷ go_on uptime ∷ go_on uptime ∷ []) (outside, lc)
      ≡ (returned r, after)
unfolding advance nth_init nth_lifecycle_begin_init nth_lifecycle_end_init nth_lifecycle_fail_init
nth_init-alone log uptime life_dead = elim (Bool-cases (is_ok log)) [
  | inl log_ok ↦ elim (Bool-cases (is_ok uptime)) [
    | inl both_ok ↦ rw (log_ok, both_ok)
    | inr no_uptime ↦ rw (log_ok, no_uptime)
  ]
  | inr no_log ↦ rw no_log
]
nth_init-alone log uptime life_starting = refl
nth_init-alone log uptime life_alive = refl
nth_init-alone log uptime life_stopping = refl

-- Four steps of `nth_term` likewise.
pub nth_term-alone :
    (r : NthResult) (lc : NthLifecycle)
    → alone (call_term ∷ go_on r ∷ go_on r ∷ go_on r ∷ []) (outside, lc)
      ≡ (returned result_ok, nth_term lc)
unfolding advance nth_term nth_lifecycle_begin_term nth_lifecycle_end_term
nth_term-alone r life_dead = refl
nth_term-alone r life_starting = refl
nth_term-alone r life_alive = refl
nth_term-alone r life_stopping = refl
