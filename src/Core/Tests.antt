-- ===== src/Core/Tests.antt =====
-- Two threads, one inside `nth_init`.
use narthex.Prelude.{◌≡◌, [], ◌∷◌}
use narthex.Result.{result_ok}
use narthex.Core.{
  life_dead, outside, returned, call_init, call_term, go_on, World, start, step, Reachable,
  at_start, then_step, nth_term,
}
use narthex.Core.Exclusive.{Exclusive, Reachable-Exclusive}
use narthex.Core.Calls.{alone, nth_term-alone}

abbrev two_threads : World
two_threads = step (step (step start 0 call_init) 1 call_init) 0 (go_on result_ok)

two_threads-Reachable : Reachable two_threads
two_threads-Reachable = then_step _ 0 _ (then_step _ 1 _ (then_step _ 0 _ at_start))

Reachable-Exclusive_example : Exclusive two_threads
Reachable-Exclusive_example = Reachable-Exclusive two_threads two_threads-Reachable

nth_term-alone_example :
    alone
      (call_term ∷ go_on result_ok ∷ go_on result_ok ∷ go_on result_ok ∷ [])
      (outside, life_dead)
    ≡ (returned result_ok, nth_term life_dead)
nth_term-alone_example = nth_term-alone result_ok life_dead
