-- ===== src/Uptime.antt =====
-- src/nth_uptime.c and include/narthex/nth_uptime.h: the time since the start, and differences of
-- such times. What `clock_gettime(CLOCK_MONOTONIC)` reads is a parameter. The conversions to
-- floating point are not modelled.
pub mod Laws
mod Tests
use narthex.Prelude.{ℕ, ◌-◌, Bool, ltb, if◌then◌else◌}
use narthex.Prelude.Int.{ℤ, pos, to_u64}
use narthex.Prelude.Words.{add64, sub64, mul64}
use narthex.Result.{NthResult, result_ok, Run, done, trap, ◌>>=◌, ◌>>◌, nth_assert}
use narthex.Core.{NthLifecycle, nth_lifecycle_is_alive}

pub record NthUptimeNs : Type 0 where
  pub ns : ℕ

pub record NthDeltaNs : Type 0 where
  pub ns : ℕ

-- `struct timespec`
pub record Timespec : Type 0 where
  pub tv_sec : ℤ
  pub tv_nsec : ℤ

unfoldable pub nth_delta_since : NthUptimeNs → NthUptimeNs → NthDeltaNs
nth_delta_since prev now = record { ns = if ltb prev.ns now.ns then sub64 now.ns prev.ns else 0 }

unfoldable pub nth_delta_clamp : NthDeltaNs → ℕ → NthDeltaNs
nth_delta_clamp dt max_ns = record { ns = if ltb max_ns dt.ns then max_ns else dt.ns }

unfoldable pub nth_delta_sub_saturating : ℕ → NthDeltaNs → ℕ
nth_delta_sub_saturating remaining_ns dt =
    if ltb dt.ns remaining_ns then sub64 remaining_ns dt.ns else 0

-- A reading in nanoseconds.
abbrev pub reading : Timespec → ℕ
reading t = add64 (mul64 (to_u64 t.tv_sec) 1_000_000_000) (to_u64 t.tv_nsec)

-- `start` is `g_uptime.start_time`, and `now` what the clock reads.
unfoldable pub nth_uptime_now : NthLifecycle → Timespec → Timespec → Run NthUptimeNs
nth_uptime_now life start now = do
  nth_assert (nth_lifecycle_is_alive life)
  done (record { ns = sub64 (reading now) (reading start) })

unfoldable pub nth_uptime_elapsed :
    NthLifecycle → Timespec → Timespec → NthUptimeNs → Run NthDeltaNs
nth_uptime_elapsed life start now since = do
  nth_assert (nth_lifecycle_is_alive life)
  done (nth_delta_since since (record { ns = sub64 (reading now) (reading start) }))

-- The new start time comes with the result.
unfoldable pub nth_init_uptime : Timespec → NthResult × Timespec
nth_init_uptime now = (result_ok, now)

unfoldable pub nth_term_uptime : Timespec → Timespec
nth_term_uptime start = record { tv_sec = pos 0; tv_nsec = pos 0 }
