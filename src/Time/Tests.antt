-- ===== src/Time/Tests.antt =====
-- src/nth_time.c: the calendar on known days, and its theorems at them.
use narthex.Prelude.{◌-◌, ◌^◌, arith, ◌≡◌, ◌≤◌, ◌<◌, refl}
use narthex.Prelude.Int.{◌≤ℤ◌, pos, negsuc, ◌+ℤ◌, ◌-ℤ◌, ◌*ℤ◌}
use narthex.Time.{days_from_civil, civil_from_days, weekday_from_days}
use narthex.Result.{done}
use narthex.Core.{life_alive, nth_lifecycle_is_alive}
use narthex.Time.Calendar.{
  NthTime, NthCalendar, day_split, calendar_of, nth_time_to_calendar, nth_time_from_calendar,
  ns_per_sec,
}
use narthex.Time.Calendar.Round.{
  nth_time_from_calendar-nth_time_to_calendar, nth_time_from_calendar-Fits,
  nth_time_from_calendar-beyond,
}
use narthex.Time.Laws.{days_from_civil-civil_from_days}

first_day : civil_from_days (pos 0) ≡ record { year = pos 1970; month = 1; day = 1 }
unfolding civil_from_days ◌+ℤ◌ ◌-ℤ◌ ◌*ℤ◌
first_day = refl

leap_day : days_from_civil (pos 2000) 2 29 ≡ pos 11016
unfolding days_from_civil ◌+ℤ◌ ◌-ℤ◌ ◌*ℤ◌
leap_day = refl

before_era : civil_from_days (negsuc 719528) ≡ record { year = negsuc 0; month = 12; day = 31 }
unfolding civil_from_days ◌+ℤ◌ ◌-ℤ◌ ◌*ℤ◌
before_era = refl

a_monday : weekday_from_days (negsuc 2) ≡ pos 1
unfolding weekday_from_days ◌+ℤ◌
a_monday = refl

days_from_civil-civil_from_days_example :
    (days_from_civil
        (civil_from_days (negsuc 719528)).year
        (civil_from_days (negsuc 719528)).month
        (civil_from_days (negsuc 719528)).day
      ≡ negsuc 719528)
    × (1 ≤ (civil_from_days (negsuc 719528)).month)
    × ((civil_from_days (negsuc 719528)).month ≤ 12)
    × (1 ≤ (civil_from_days (negsuc 719528)).day)
    × ((civil_from_days (negsuc 719528)).day ≤ 31)
days_from_civil-civil_from_days_example = days_from_civil-civil_from_days (negsuc 719528)

-- 2024-02-29 13:05:09, with 7 nanoseconds
abbrev leap : NthCalendar
leap = record {
  year = pos 2024;
  month = 2;
  day = 29;
  hour = 13;
  minute = 5;
  second = 9;
  nanosecond = 7;
  weekday = 4;
  yearday = 59;
  utc_offset_seconds = pos 0;
}

abbrev leap_time : NthTime
leap_time = record { ns = pos 1709211909000000007 }

leap_named : nth_time_from_calendar life_alive leap ≡ done leap_time
unfolding nth_time_from_calendar nth_lifecycle_is_alive days_from_civil ◌+ℤ◌ ◌-ℤ◌ ◌*ℤ◌
leap_named = refl

leap_fields :
    nth_time_to_calendar life_alive leap_time (record leap { hour = 0; day = 1 }) ≡ done leap
unfolding nth_time_to_calendar nth_lifecycle_is_alive calendar_of day_split civil_from_days
    days_from_civil weekday_from_days ◌+ℤ◌ ◌-ℤ◌ ◌*ℤ◌
leap_fields = refl

-- 2262-04-09, the last day that is accepted, at hour 255
abbrev late : NthCalendar
late = record leap { year = pos 2262; month = 4; day = 9; hour = 255 }

nth_time_from_calendar-nth_time_to_calendar_example :
    (cal : NthCalendar) × (nth_time_to_calendar life_alive leap_time leap ≡ done cal)
    × (nth_time_from_calendar life_alive cal ≡ done leap_time)
    × (cal.hour < 24)
    × (cal.minute < 60)
    × (cal.second < 60)
    × (cal.nanosecond < ns_per_sec)
    × (cal.utc_offset_seconds ≡ pos 0)
nth_time_from_calendar-nth_time_to_calendar_example =
    nth_time_from_calendar-nth_time_to_calendar (pos 1709211909000000007) leap (omega arith)
      (omega arith)

nth_time_from_calendar-Fits_example :
    (negsuc (2 ^ 63 - 1) ≤ℤ leap_time.ns) × (leap_time.ns ≤ℤ pos (2 ^ 63 - 1))
nth_time_from_calendar-Fits_example =
    nth_time_from_calendar-Fits leap leap_time (omega arith) (omega arith) (omega arith)
      (omega arith) leap_named

late_day : days_from_civil late.year late.month late.day ≡ pos 106749
unfolding days_from_civil ◌+ℤ◌ ◌-ℤ◌ ◌*ℤ◌
late_day = refl

late_time : nth_time_from_calendar life_alive late ≡ done (record { ns = pos 9224031909000000007 })
unfolding nth_time_from_calendar nth_lifecycle_is_alive days_from_civil ◌+ℤ◌ ◌-ℤ◌ ◌*ℤ◌
late_time = refl

nth_time_from_calendar-beyond_example : pos (2 ^ 63) ≤ℤ pos 9224031909000000007
nth_time_from_calendar-beyond_example =
    nth_time_from_calendar-beyond late (record { ns = pos 9224031909000000007 }) late_day
      (omega arith) late_time
