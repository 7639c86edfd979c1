-- ===== src/Uptime/Laws.antt =====
-- src/nth_uptime.c and include/narthex/nth_uptime.h: readings of one clock and the differences
-- between them.
use narthex.Prelude.{ℕ, ◌+◌, ◌-◌, ◌*◌, ◌^◌, ◌≤◌, ◌<◌, ◌≡◌, ap, arith}
use narthex.Prelude.Int.{pos}
use narthex.Result.{done, ◌>>=◌}
use narthex.Core.{life_alive, nth_lifecycle_is_alive}
use narthex.Uptime.{
  Timespec, reading, nth_delta_since, nth_uptime_now, nth_uptime_elapsed, nth_init_uptime,
}

-- The reading of `sec` seconds and `nsec` nanoseconds, as the clock gives them.
abbrev pub at_time : ℕ → ℕ → Timespec
at_time sec nsec = record { tv_sec = pos sec; tv_nsec = pos nsec }

-- The time in nanoseconds, with no bound.
abbrev pub nanoseconds : ℕ → ℕ → ℕ
nanoseconds sec nsec = sec * 1_000_000_000 + nsec

reading-at_time :
    (sec nsec : ℕ)
    → nanoseconds sec nsec < 2 ^ 64
    → reading (at_time sec nsec) ≡ nanoseconds sec nsec
reading-at_time sec nsec h = omega arith

-- For a clock of fewer than 2 ^ 64 nanoseconds, started by nth_init_uptime at one reading and read
-- at two later ones: the time elapsed at the second since the uptime of the first is the difference
-- of the two, and 0 if the second does not lie behind the first.
pub nth_uptime_elapsed-nth_uptime_now :
    (s0 n0 s1 n1 s2 n2 : ℕ)
    → nanoseconds s0 n0 ≤ nanoseconds s1 n1
    → nanoseconds s0 n0 ≤ nanoseconds s2 n2
    → nanoseconds s1 n1 < 2 ^ 64
    → nanoseconds s2 n2 < 2 ^ 64
    → (nth_uptime_now life_alive (nth_init_uptime (at_time s0 n0)).1 (at_time s1 n1)
        >>= nth_uptime_elapsed life_alive (nth_init_uptime (at_time s0 n0)).1 (at_time s2 n2))
      ≡ done (record { ns = nanoseconds s2 n2 - nanoseconds s1 n1 })
unfolding nth_uptime_now nth_uptime_elapsed nth_init_uptime nth_delta_since nth_lifecycle_is_alive
nth_uptime_elapsed-nth_uptime_now s0 n0 s1 n1 s2 n2 a b c d =
    rw (reading-at_time s0 n0 (omega arith), reading-at_time s1 n1 c, reading-at_time s2 n2 d)
      (ap (λ x. done (record { ns = x })) (ground arith))
