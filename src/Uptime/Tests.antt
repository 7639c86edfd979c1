-- ===== src/Uptime/Tests.antt =====
-- src/nth_uptime.c: the uptime at concrete readings, and its theorem there.
use narthex.Prelude.{◌-◌, ◌≡◌, refl, arith}
use narthex.Result.{done, ◌>>=◌}
use narthex.Core.{life_alive}
use narthex.Uptime.{
  nth_delta_clamp, nth_delta_sub_saturating, nth_uptime_now, nth_uptime_elapsed, nth_init_uptime,
}
use narthex.Uptime.Laws.{at_time, nanoseconds, nth_uptime_elapsed-nth_uptime_now}

clamped : nth_delta_clamp (record { ns = 9 }) 5 ≡ record { ns = 5 }
unfolding nth_delta_clamp
clamped = refl

saturated : nth_delta_sub_saturating 4 (record { ns = 9 }) ≡ 0
unfolding nth_delta_sub_saturating
saturated = refl

nth_uptime_elapsed-nth_uptime_now_example :
    (nth_uptime_now life_alive (nth_init_uptime (at_time 5 0)).1 (at_time 6 10)
      >>= nth_uptime_elapsed life_alive (nth_init_uptime (at_time 5 0)).1 (at_time 8 30))
    ≡ done (record { ns = nanoseconds 8 30 - nanoseconds 6 10 })
nth_uptime_elapsed-nth_uptime_now_example =
    nth_uptime_elapsed-nth_uptime_now 5 0 6 10 8 30 (omega arith) (omega arith) (omega arith)
      (omega arith)
