-- ===== src/Time.antt =====
-- src/nth_time.c: the civil calendar. A number of type nth_i64 is an integer: signed overflow is
-- undefined, and none occurs for the days of a time that fits its 64 bits. The numbers of type
-- nth_u32 wrap. The conversions of nanoseconds and the local times are not modelled.
pub mod Civil
pub mod Laws
pub mod Calendar
mod Tests
use narthex.Prelude.{ℕ, ◌-◌, ◌^◌, ◌/◌, ◌%◌, ◌*◌, Bool, true, false, ◌&&◌, ltb, leb, if◌then◌else◌}
use narthex.Prelude.Int.{ℤ, pos, negsuc, ◌+ℤ◌, ◌-ℤ◌, ◌*ℤ◌, ltb_ℤ, quot, rem, to_u32}
use narthex.Prelude.Words.{add32, sub32, mul32}
use narthex.Result.{Run, done, trap, ◌>>=◌, ◌>>◌, nth_assert}

abbrev pub up_to_feb : ℕ → ℕ
up_to_feb m = if leb m 2 then 1 else 0

unfoldable pub days_from_civil : ℤ → ℕ → ℕ → ℤ
days_from_civil year m d =
    let y = year -ℤ pos (up_to_feb m) in
    let era = quot (if ltb_ℤ y (pos 0) then y -ℤ pos 399 else y) 400 in
    let yoe = to_u32 (y -ℤ era *ℤ pos 400) in
    let months = add32 m (if ltb 2 m then 2 ^ 32 - 3 else 9) in
    let doy = sub32 (add32 (add32 (mul32 153 months) 2 / 5) d) 1 in
    let doe = add32 (sub32 (add32 (mul32 yoe 365) (yoe / 4)) (yoe / 100)) doy in
    era *ℤ pos 146097 +ℤ pos doe -ℤ pos 719468

-- The three outputs: year, month and day.
pub record CivilDate : Type 0 where
  pub year : ℤ
  pub month : ℕ
  pub day : ℕ

unfoldable pub civil_from_days : ℤ → CivilDate
civil_from_days days =
    let z = days +ℤ pos 719468 in
    let era = quot (if ltb_ℤ z (pos 0) then z -ℤ pos 146096 else z) 146097 in
    let doe = to_u32 (z -ℤ era *ℤ pos 146097) in
    let yoe = sub32 (add32 (sub32 doe (doe / 1460)) (doe / 36524)) (doe / 146096) / 365 in
    let y = pos yoe +ℤ era *ℤ pos 400 in
    let doy = sub32 doe (sub32 (add32 (mul32 365 yoe) (yoe / 4)) (yoe / 100)) in
    let mp = add32 (mul32 5 doy) 2 / 153 in
    let d = add32 (sub32 doy (add32 (mul32 153 mp) 2 / 5)) 1 in
    let m = add32 mp (if ltb mp 10 then 3 else 2 ^ 32 - 9) in
    record { year = y +ℤ pos (up_to_feb m); month = m; day = d }

-- `NthWeekday`: 0 is Sunday.
unfoldable pub weekday_from_days : ℤ → ℤ
weekday_from_days z = if ltb_ℤ z (negsuc 3) then rem (z +ℤ pos 5) 7 +ℤ pos 6 else rem (z +ℤ pos 4) 7
