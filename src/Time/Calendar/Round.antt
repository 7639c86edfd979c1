-- ===== src/Time/Calendar/Round.antt =====
-- src/nth_time.c: the fields of a time, and the time that they name.
use narthex.Prelude.{
  ℕ, ◌+◌, ◌-◌, ◌*◌, ◌/◌, ◌%◌, ◌^◌, ◌≤◌, ◌<◌, ◌≡◌, refl, ap, ◌∙◌, arith, Bool, true, false, leb,
  ◌&&◌, ◌==◌, if◌then◌else◌,
}
use narthex.Prelude.Int.{
  ℤ, pos, negsuc, pos_part, neg_part, ◌+ℤ◌, ◌-ℤ◌, ◌*ℤ◌, ◌≤ℤ◌, to_i32, ltb_ℤ, int_laws, *ℤ_parts,
}
use narthex.Result.{Run, done, ◌>>◌, nth_assert}
use narthex.Core.{life_alive, nth_lifecycle_is_alive}
use narthex.Time.{CivilDate, days_from_civil, civil_from_days}
use narthex.Time.Civil.{era_days, era_days-pos}
use narthex.Time.Civil.Round.{civil_from_days-date_in, date_in, year-date_in}
use narthex.Time.Laws.{days_from_civil-civil_from_days}
use narthex.Time.Calendar.{
  NthTime, NthCalendar, day_split, calendar_of, nth_time_to_calendar, nth_time_from_calendar,
  ns_per_day, ns_per_sec, sec_per_day,
}

-- A time is so many days and what is left over.
day_split-split :
    (t : ℤ)
    → (r : ℕ) × (r < ns_per_day)
      × ((day_split t).1 ≡ pos r)
      × (t ≡ (day_split t).0 *ℤ pos ns_per_day +ℤ pos r)
unfolding day_split ◌+ℤ◌ ◌-ℤ◌ ◌*ℤ◌
day_split-split (pos n) = (n % ns_per_day, omega arith, ground arith, ground arith)
day_split-split (negsuc n) = (
  if (n + 1) % ns_per_day == 0 then 0 else ns_per_day - (n + 1) % ns_per_day,
  ground arith,
  ground arith,
  ground arith,
)

-- The days of a time within the range.
days_bounds :
    (t d : ℤ) (r : ℕ)
    → r < ns_per_day
    → t ≡ d *ℤ pos ns_per_day +ℤ pos r
    → negsuc (106749 * ns_per_day - 1) ≤ℤ t
    → t ≤ℤ pos (106750 * ns_per_day - 1)
    → (negsuc 106748 ≤ℤ d) × (d ≤ℤ pos 106749)
days_bounds t d r lt e low high =
    omega (int_laws, low, high, ap pos_part e, ap neg_part e, *ℤ_parts d ns_per_day)

shifted :
    (d : ℤ)
    → negsuc 106748 ≤ℤ d
    → d ≤ℤ pos 106749
    → (x : ℕ) × (d +ℤ pos 719468 ≡ pos x) × (x < 6 * 146097)
unfolding ◌+ℤ◌
shifted (pos n) low high = (n + 719468, ground arith, omega (arith, high))
shifted (negsuc n) low high = (719467 - n, ground (arith, low), omega arith)

-- The years of those days.
year_bounds :
    (d : ℤ)
    → negsuc 106748 ≤ℤ d
    → d ≤ℤ pos 106749
    → (y : ℕ) × ((civil_from_days d).year ≡ pos y) × (y ≤ 2800)
year_bounds d low high =
    let (doe, lt, split, date) = civil_from_days-date_in d in
    let (x, e, bound) = shifted d low high in
    let (y, is, le) = year-date_in (x / 146097) doe lt in
    (
      y,
      ap CivilDate.year (
            date
            ∙ ap (λ (w : ℤ). date_in (era_days w) doe) e
            ∙ ap (λ (w : ℤ). date_in w doe) (era_days-pos x))
          ∙ is,
      omega (arith, le, bound),
    )

-- The two asserts on the range of a day.
day_test :
    (d : ℤ)
    → negsuc 106748 ≤ℤ d
    → d ≤ℤ pos 106749
    → (ltb_ℤ (negsuc 106749) d && ltb_ℤ d (pos 106750)) ≡ true
day_test d low high = ground (arith, low, high)

small_i32 : (z : ℤ) (y : ℕ) → z ≡ pos y → y ≤ 2800 → to_i32 z ≡ z
small_i32 z y e le = rw e (ground arith)

-- The fields of the nanosecond `r` of the day `d`.
record FieldsOf (d : ℤ) (r : ℕ) (cal : NthCalendar) : Type 0 where
  year_is : cal.year ≡ (civil_from_days d).year
  month_is : cal.month ≡ (civil_from_days d).month
  day_is : cal.day ≡ (civil_from_days d).day
  hour_is : cal.hour ≡ r / ns_per_sec / 3600
  minute_is : cal.minute ≡ r / ns_per_sec / 60 % 60
  second_is : cal.second ≡ r / ns_per_sec % 60
  nanosecond_is : cal.nanosecond ≡ r % ns_per_sec

calendar_of-FieldsOf :
    (d : ℤ) (r : ℕ) (out : NthCalendar)
    → r < ns_per_day
    → negsuc 106748 ≤ℤ d
    → d ≤ℤ pos 106749
    → FieldsOf d r (calendar_of d (pos r) out)
unfolding calendar_of
calendar_of-FieldsOf d r out lt low high =
    let (y, is, le) = year_bounds d low high in
    let (same, m_low, m_high, d_low, d_high) = days_from_civil-civil_from_days d in
    record {
      year_is = small_i32 (civil_from_days d).year y is le;
      month_is = omega (arith, m_high);
      day_is = omega (arith, d_high);
      hour_is = omega arith;
      minute_is = omega arith;
      second_is = omega arith;
      nanosecond_is = omega arith;
    }

abbrev time_of : ℤ → ℕ → ℕ → ℕ → ℕ → ℤ
time_of d h m s n = d *ℤ pos ns_per_day +ℤ pos (h * 3600 + m * 60 + s) *ℤ pos ns_per_sec +ℤ pos n

from_calendar :
    (d : ℤ) (cal : NthCalendar)
    → days_from_civil cal.year cal.month cal.day ≡ d
    → (1 ≤ cal.month) × (cal.month ≤ 12) × (1 ≤ cal.day) × (cal.day ≤ 31)
    → negsuc 106748 ≤ℤ d
    → d ≤ℤ pos 106749
    → nth_time_from_calendar life_alive cal
      ≡ done (record { ns = time_of d cal.hour cal.minute cal.second cal.nanosecond })
unfolding nth_time_from_calendar nth_lifecycle_is_alive
from_calendar d cal e (a, b, c, f) low high =
    let months : (leb 1 cal.month && leb cal.month 12) ≡ true = ground arith in
    let days : (leb 1 cal.day && leb cal.day 31) ≡ true = ground arith in
    rw (months, days, e, day_test d low high)

time_of_fields :
    (d : ℤ) (r : ℕ) (cal : NthCalendar)
    → FieldsOf d r cal
    → time_of d cal.hour cal.minute cal.second cal.nanosecond
      ≡ time_of d
          (r / ns_per_sec / 3600)
          (r / ns_per_sec / 60 % 60)
          (r / ns_per_sec % 60)
          (r % ns_per_sec)
time_of_fields d r cal f i =
    time_of d (f.hour_is i) (f.minute_is i) (f.second_is i) (f.nanosecond_is i)

recomposed :
    (t d : ℤ) (r : ℕ)
    → r < ns_per_day
    → t ≡ d *ℤ pos ns_per_day +ℤ pos r
    → time_of d
        (r / ns_per_sec / 3600)
        (r / ns_per_sec / 60 % 60)
        (r / ns_per_sec % 60)
        (r % ns_per_sec)
      ≡ t
recomposed t d r lt e =
    let secs : ℕ =
      r / ns_per_sec / 3600 * 3600 + r / ns_per_sec / 60 % 60 * 60 + r / ns_per_sec % 60 in
    let whole : secs * ns_per_sec + r % ns_per_sec ≡ r = omega arith in
    omega (int_laws, ap pos_part e, ap neg_part e, *ℤ_parts (pos secs) ns_per_sec, whole)

passed {ℓ} :
    {A : Type ℓ} (b : Bool) (k : Run A) (a : A)
    → (nth_assert b >> k) ≡ done a
    → (b ≡ true) × (k ≡ done a)
passed true k a h = (refl, h)
passed false k a h = absurd (ground (arith, h))

fits :
    (d : ℤ) (secs n : ℕ) (t : ℤ)
    → negsuc 106748 ≤ℤ d
    → d ≤ℤ pos 106749
    → secs < sec_per_day
    → n < ns_per_sec
    → d *ℤ pos ns_per_day +ℤ pos secs *ℤ pos ns_per_sec +ℤ pos n ≡ t
    → (negsuc (2 ^ 63 - 1) ≤ℤ t) × (t ≤ℤ pos (2 ^ 63 - 1))
fits d secs n t low high s m e =
    let a = ap pos_part e in
    let b = ap neg_part e in
    (
      omega (int_laws, low, high, a, b, *ℤ_parts d ns_per_day, *ℤ_parts (pos secs) ns_per_sec),
      omega (int_laws, low, high, a, b, *ℤ_parts d ns_per_day, *ℤ_parts (pos secs) ns_per_sec),
    )

-- The nanoseconds that the calendar's fields name, when their times of day are in range, fit 64
-- bits with sign.
pub nth_time_from_calendar-Fits :
    (cal : NthCalendar) (t : NthTime)
    → cal.hour < 24
    → cal.minute < 60
    → cal.second < 60
    → cal.nanosecond < ns_per_sec
    → nth_time_from_calendar life_alive cal ≡ done t
    → (negsuc (2 ^ 63 - 1) ≤ℤ t.ns) × (t.ns ≤ℤ pos (2 ^ 63 - 1))
unfolding nth_time_from_calendar nth_lifecycle_is_alive
nth_time_from_calendar-Fits cal t h m s n e =
    let d : ℤ = days_from_civil cal.year cal.month cal.day in
    let (_, e1) = passed (leb 1 cal.month && leb cal.month 12) _ t e in
    let (_, e2) = passed (leb 1 cal.day && leb cal.day 31) _ t e1 in
    let (range, e3) = passed (ltb_ℤ (negsuc 106749) d && ltb_ℤ d (pos 106750)) _ t e2 in
    fits d (cal.hour * 3600 + cal.minute * 60 + cal.second) cal.nanosecond t.ns
      (ground (arith, range)) (ground (arith, range)) (omega arith) n (ground (arith, e3))

-- For a time from 106749 days before 1970 up to 106750 days after, nth_time_to_calendar gives
-- fields in their ranges, and nth_time_from_calendar takes them back to that time; the offset is
-- the one that `out` had.
pub nth_time_from_calendar-nth_time_to_calendar :
    (t : ℤ) (out : NthCalendar)
    → negsuc (106749 * ns_per_day - 1) ≤ℤ t
    → t ≤ℤ pos (106750 * ns_per_day - 1)
    → (cal : NthCalendar) × (nth_time_to_calendar life_alive (record { ns = t }) out ≡ done cal)
      × (nth_time_from_calendar life_alive cal ≡ done (record { ns = t }))
      × (cal.hour < 24)
      × (cal.minute < 60)
      × (cal.second < 60)
      × (cal.nanosecond < ns_per_sec)
      × (cal.utc_offset_seconds ≡ out.utc_offset_seconds)
unfolding nth_time_to_calendar nth_lifecycle_is_alive calendar_of
nth_time_from_calendar-nth_time_to_calendar t out low high =
    let (r, lt, rest, split) = day_split-split t in
    let d : ℤ = (day_split t).0 in
    let (d_low, d_high) = days_bounds t d r lt split low high in
    let cal : NthCalendar = calendar_of d (pos r) out in
    let f = calendar_of-FieldsOf d r out lt d_low d_high in
    let (same, m_low, m_high, dy_low, dy_high) = days_from_civil-civil_from_days d in
    (
      cal,
      ap (λ x. done (calendar_of d x out)) rest,
      from_calendar d cal ((λ i. days_from_civil (f.year_is i) (f.month_is i) (f.day_is i)) ∙ same)
            (
              omega (arith, f.month_is),
              omega (arith, f.month_is),
              omega (arith, f.day_is),
              omega (arith, f.day_is),
            )
            d_low d_high
          ∙ ap (λ x. done (record { ns = x }))
              (time_of_fields d r cal f ∙ recomposed t d r lt split),
      omega (arith, f.hour_is),
      omega (arith, f.minute_is),
      omega (arith, f.second_is),
      omega (arith, f.nanosecond_is),
      refl,
    )

too_late :
    (d : ℤ) (secs n : ℕ) (t : ℤ)
    → d ≡ pos 106749
    → 3 * sec_per_day ≤ secs
    → d *ℤ pos ns_per_day +ℤ pos secs *ℤ pos ns_per_sec +ℤ pos n ≡ t
    → pos (2 ^ 63) ≤ℤ t
too_late d secs n t h s e = omega (
  int_laws,
  ap pos_part e,
  ap neg_part e,
  ap pos_part h,
  ap neg_part h,
  *ℤ_parts d ns_per_day,
  *ℤ_parts (pos secs) ns_per_sec,
)

-- The hour is not checked: a calendar that nth_time_from_calendar accepts, on the last day that it
-- accepts and with an hour from 72 on, names a time beyond 64 bits with sign.
pub nth_time_from_calendar-beyond :
    (cal : NthCalendar) (t : NthTime)
    → days_from_civil cal.year cal.month cal.day ≡ pos 106749
    → 72 ≤ cal.hour
    → nth_time_from_calendar life_alive cal ≡ done t
    → pos (2 ^ 63) ≤ℤ t.ns
unfolding nth_time_from_calendar nth_lifecycle_is_alive
nth_time_from_calendar-beyond cal t last h e =
    let d : ℤ = days_from_civil cal.year cal.month cal.day in
    let (_, e1) = passed (leb 1 cal.month && leb cal.month 12) _ t e in
    let (_, e2) = passed (leb 1 cal.day && leb cal.day 31) _ t e1 in
    let (_, e3) = passed (ltb_ℤ (negsuc 106749) d && ltb_ℤ d (pos 106750)) _ t e2 in
    too_late d (cal.hour * 3600 + cal.minute * 60 + cal.second) cal.nanosecond t.ns last
      (omega arith) (ground (arith, e3))
