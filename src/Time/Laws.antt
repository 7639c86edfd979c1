-- ===== src/Time/Laws.antt =====
-- src/nth_time.c: what the calendar's functions promise together: dates name days, and the days of
-- the week turn.
use narthex.Prelude.{ℕ, ◌-◌, ◌/◌, ◌%◌, ltb, if◌then◌else◌, ◌+◌, ◌≤◌, ◌<◌, ◌≡◌, ap, ◌∙◌, arith}
use narthex.Prelude.Int.{ℤ, pos, negsuc, pos_part, neg_part, ◌+ℤ◌, ◌-ℤ◌, ◌*ℤ◌, int_laws}
use narthex.Time.{days_from_civil, civil_from_days, weekday_from_days}
use narthex.Time.Civil.{era_days}
use narthex.Time.Civil.Round.{
  doy_in, doy_in_le, day_of-bounds, month_of-bounds, civil_from_days-date_in,
  days_from_civil-date_in,
}

shift_back : (z a : ℤ) → z +ℤ pos 719468 ≡ a → a -ℤ pos 719468 ≡ z
shift_back z a h = omega (int_laws, ap pos_part h, ap neg_part h)

-- For every day number, days_from_civil of the date that civil_from_days outputs is that day again,
-- and that date has a month from 1 to 12 and a day from 1 to 31.
pub days_from_civil-civil_from_days :
    (z : ℤ)
    → (days_from_civil (civil_from_days z).year (civil_from_days z).month (civil_from_days z).day
        ≡ z)
      × (1 ≤ (civil_from_days z).month)
      × ((civil_from_days z).month ≤ 12)
      × (1 ≤ (civil_from_days z).day)
      × ((civil_from_days z).day ≤ 31)
days_from_civil-civil_from_days z =
    let (doe, lt, split, date) = civil_from_days-date_in z in
    let le = doy_in_le doe lt in
    let (m_low, m_high) = month_of-bounds (doy_in doe) le in
    let (d_low, d_high) = day_of-bounds (doy_in doe) le in
    rw date (
      days_from_civil-date_in (era_days (z +ℤ pos 719468)) doe lt ∙ shift_back z _ split,
      m_low,
      m_high,
      d_low,
      d_high,
    )

-- For every day number, weekday_from_days is a number from 0 to 6 that differs from the day number
-- and 4 by a multiple of 7, also before 1970 (day 0, a Thursday, gets 4).
pub weekday_from_days-mod_7 :
    (z : ℤ)
    → (w : ℕ) × (w < 7)
      × (weekday_from_days z ≡ pos w)
      × (k : ℤ) × (z +ℤ pos 4 ≡ k *ℤ pos 7 +ℤ pos w)
unfolding weekday_from_days ◌+ℤ◌ ◌*ℤ◌
weekday_from_days-mod_7 (pos n) =
    ((n + 4) % 7, omega arith, ground arith, pos ((n + 4) / 7), ground arith)
weekday_from_days-mod_7 (negsuc n) = (
  if ltb n 4 then 3 - n else 6 - (n - 4) % 7,
  ground arith,
  ground arith,
  if ltb n 4 then pos 0 else negsuc ((n - 4) / 7),
  ground arith,
)
