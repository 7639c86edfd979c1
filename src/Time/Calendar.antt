-- ===== src/Time/Calendar.antt =====
-- src/nth_time.c and include/narthex/nth_time.h: a time as nanoseconds since 1970, the calendar's
-- fields, and what lies between. The clock is read from `clock_gettime`, a parameter.
pub mod Round
use narthex.Prelude.{
  ℕ, ◌+◌, ◌-◌, ◌*◌, ◌^◌, ◌/◌, ◌%◌, Bool, true, false, ◌&&◌, not, ltb, leb, ◌==◌, if◌then◌else◌,
}
use narthex.Prelude.Int.{
  ℤ, pos, negsuc, ◌+ℤ◌, ◌-ℤ◌, ◌*ℤ◌, ltb_ℤ, quot, rem, to_u32, to_i32, to_u64, to_i64,
}
use narthex.Prelude.Words.{u64_mod}
use narthex.Result.{Run, done, trap, ◌>>=◌, ◌>>◌, nth_assert}
use narthex.Core.{NthLifecycle, nth_lifecycle_is_alive}
use narthex.Uptime.{NthDeltaNs}
use narthex.Time.{CivilDate, days_from_civil, civil_from_days, weekday_from_days}

abbrev pub ns_per_sec : ℕ
ns_per_sec = 1_000_000_000

abbrev pub sec_per_day : ℕ
sec_per_day = 86400

abbrev pub ns_per_day : ℕ
ns_per_day = sec_per_day * ns_per_sec

pub record NthTime : Type 0 where
  pub ns : ℤ

pub record NthCalendar : Type 0 where
  pub year : ℤ
  pub month : ℕ
  pub day : ℕ
  pub hour : ℕ
  pub minute : ℕ
  pub second : ℕ
  pub nanosecond : ℕ
  pub weekday : ℕ
  pub yearday : ℕ
  pub utc_offset_seconds : ℤ

-- Casts to fewer bits.
abbrev u8 : ℤ → ℕ
u8 z = to_u32 z % 2 ^ 8

abbrev u16 : ℤ → ℕ
u16 z = to_u32 z % 2 ^ 16

-- The day and the nanosecond of the day.
unfoldable pub day_split : ℤ → ℤ × ℤ
day_split ns =
    let days = quot ns ns_per_day in
    let ns_of_day = rem ns ns_per_day in
    if ltb_ℤ ns_of_day (pos 0)
    then (days -ℤ pos 1, ns_of_day +ℤ pos ns_per_day)
    else (days, ns_of_day)

-- The fields that are written; `out` keeps the offset that it had.
unfoldable pub calendar_of : ℤ → ℤ → NthCalendar → NthCalendar
calendar_of days ns_of_day out =
    let date = civil_from_days days in
    let sec_of_day = quot ns_of_day ns_per_sec in
    record out {
      year = to_i32 date.year;
      month = date.month % 2 ^ 8;
      day = date.day % 2 ^ 8;
      hour = u8 (quot sec_of_day 3600);
      minute = u8 (rem (quot sec_of_day 60) 60);
      second = u8 (rem sec_of_day 60);
      nanosecond = to_u32 (rem ns_of_day ns_per_sec);
      weekday = u8 (weekday_from_days days);
      yearday = u16 (days -ℤ days_from_civil date.year 1 1);
    }

unfoldable pub nth_time_to_calendar : NthLifecycle → NthTime → NthCalendar → Run NthCalendar
nth_time_to_calendar life time out = do
  nth_assert (nth_lifecycle_is_alive life)
  let (days, ns_of_day) = day_split time.ns
  done (calendar_of days ns_of_day out)

unfoldable pub nth_time_from_calendar : NthLifecycle → NthCalendar → Run NthTime
nth_time_from_calendar life cal = do
  nth_assert (nth_lifecycle_is_alive life)
  nth_assert (leb 1 cal.month && leb cal.month 12)
  nth_assert (leb 1 cal.day && leb cal.day 31)
  let days = days_from_civil cal.year cal.month cal.day
  nth_assert (ltb_ℤ (negsuc 106749) days && ltb_ℤ days (pos 106750))
  let sec_of_day = pos (cal.hour * 3600 + cal.minute * 60 + cal.second)
  done
      (record { ns = days *ℤ pos ns_per_day +ℤ sec_of_day *ℤ pos ns_per_sec +ℤ pos cal.nanosecond })

-- `now` is what `clock_gettime` says: seconds, and nanoseconds.
unfoldable pub nth_time_now : NthLifecycle → ℤ × ℤ → Run NthTime
nth_time_now life (tv_sec, tv_nsec) = do
  nth_assert (nth_lifecycle_is_alive life)
  done (record { ns = tv_sec *ℤ pos ns_per_sec +ℤ tv_nsec })

unfoldable pub nth_time_before : NthTime → NthTime → Bool
nth_time_before a b = ltb_ℤ a.ns b.ns

unfoldable pub nth_time_after : NthTime → NthTime → Bool
nth_time_after a b = ltb_ℤ b.ns a.ns

unfoldable pub nth_time_equal : NthTime → NthTime → Bool
nth_time_equal a b = not (ltb_ℤ a.ns b.ns) && not (ltb_ℤ b.ns a.ns)

unfoldable pub nth_time_diff : NthTime → NthTime → NthDeltaNs
nth_time_diff a b = record { ns = if ltb_ℤ b.ns a.ns then to_u64 (a.ns -ℤ b.ns) else 0 }

unfoldable pub nth_time_add : NthTime → NthDeltaNs → NthTime
nth_time_add t delta = record { ns = t.ns +ℤ to_i64 delta.ns }

unfoldable pub nth_time_sub : NthTime → NthDeltaNs → NthTime
nth_time_sub t delta = record { ns = t.ns -ℤ to_i64 delta.ns }
