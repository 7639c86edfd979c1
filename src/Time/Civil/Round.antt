-- ===== src/Time/Civil/Round.antt =====
-- src/nth_time.c: a day number taken apart into a date and put together again.
use narthex.Prelude.{ℕ, ◌+◌, ◌-◌, ◌*◌, ◌/◌, ◌^◌, ◌≤◌, ◌<◌, ◌≡◌, ap, ◌∙◌, arith, ltb, if◌then◌else◌}
use narthex.Prelude.Int.{ℤ, pos, pos_part, neg_part, ◌+ℤ◌, ◌-ℤ◌, ◌*ℤ◌, to_u32, int_laws}
use narthex.Prelude.Words.{add32, sub32, mul32}
use narthex.Time.{CivilDate, up_to_feb, days_from_civil, civil_from_days}
use narthex.Time.Civil.{era_400, era_days, era_days-split, era_400_unique}

-- The year of an era that its day falls in, and the first day of it.
abbrev yoe_of : ℕ → ℕ
yoe_of doe = sub32 (add32 (sub32 doe (doe / 1460)) (doe / 36524)) (doe / 146096) / 365

abbrev year_start : ℕ → ℕ
year_start yoe = sub32 (add32 (mul32 365 yoe) (yoe / 4)) (yoe / 100)

abbrev mp_of : ℕ → ℕ
mp_of doy = add32 (mul32 5 doy) 2 / 153

abbrev day_of : ℕ → ℕ
day_of doy = add32 (sub32 doy (add32 (mul32 153 (mp_of doy)) 2 / 5)) 1

abbrev month_of : ℕ → ℕ
month_of doy = add32 (mp_of doy) (if ltb (mp_of doy) 10 then 3 else 2 ^ 32 - 9)

drop_eras : (z e : ℤ) (d r : ℕ) → z ≡ e *ℤ pos d +ℤ pos r → z -ℤ e *ℤ pos d ≡ pos r
drop_eras z e d r h = omega (int_laws, ap pos_part h, ap neg_part h)

to_u32_rest :
    (z e : ℤ) (d r : ℕ) → z ≡ e *ℤ pos d +ℤ pos r → r < 2 ^ 32 → to_u32 (z -ℤ e *ℤ pos d) ≡ r
to_u32_rest z e d r h lt = rw (drop_eras z e d r h) (omega arith)

yoe_of-plain :
    (doe : ℕ) → doe < 146097 → yoe_of doe ≡ (doe - doe / 1460 + doe / 36524 - doe / 146096) / 365
yoe_of-plain doe lt = ground arith

yoe_of-bound : (doe : ℕ) → doe < 146097 → yoe_of doe < 400
yoe_of-bound doe lt = rw (yoe_of-plain doe lt) (omega arith)

year_start-plain : (yoe : ℕ) → yoe < 400 → year_start yoe ≡ 365 * yoe + yoe / 4 - yoe / 100
year_start-plain yoe lt = ground arith

year_start_le : (doe : ℕ) → doe < 146097 → year_start (yoe_of doe) ≤ doe
year_start_le doe lt =
    rw (year_start-plain (yoe_of doe) (yoe_of-bound doe lt), yoe_of-plain doe lt) (omega arith)

year_start_near : (doe : ℕ) → doe < 146097 → doe ≤ year_start (yoe_of doe) + 365
year_start_near doe lt =
    rw (year_start-plain (yoe_of doe) (yoe_of-bound doe lt), yoe_of-plain doe lt) (omega arith)

mp_of-plain : (doy : ℕ) → doy ≤ 365 → mp_of doy ≡ (5 * doy + 2) / 153
mp_of-plain doy le = ground arith

day_of-plain : (doy : ℕ) → doy ≤ 365 → day_of doy ≡ doy - (153 * ((5 * doy + 2) / 153) + 2) / 5 + 1
day_of-plain doy le = rw (mp_of-plain doy le) (ground arith)

pub day_of-bounds : (doy : ℕ) → doy ≤ 365 → (1 ≤ day_of doy) × (day_of doy ≤ 31)
day_of-bounds doy le = rw (day_of-plain doy le) (omega arith, omega arith)

month_of-plain :
    (doy : ℕ)
    → doy ≤ 365
    → month_of doy
      ≡ (if ltb ((5 * doy + 2) / 153) 10 then (5 * doy + 2) / 153 + 3 else (5 * doy + 2) / 153 - 9)
month_of-plain doy le = rw (mp_of-plain doy le) (ground arith)

pub month_of-bounds : (doy : ℕ) → doy ≤ 365 → (1 ≤ month_of doy) × (month_of doy ≤ 12)
month_of-bounds doy le = rw (month_of-plain doy le) (ground arith, ground arith)

-- The day of the year that a month and a day of the month name.
abbrev doy_of : ℕ → ℕ → ℕ
doy_of m d =
    sub32 (add32 (add32 (mul32 153 (add32 m (if ltb 2 m then 2 ^ 32 - 3 else 9))) 2 / 5) d) 1

months-plain :
    (doy : ℕ)
    → doy ≤ 365
    → add32 (month_of doy) (if ltb 2 (month_of doy) then 2 ^ 32 - 3 else 9) ≡ (5 * doy + 2) / 153
months-plain doy le = rw (month_of-plain doy le) (ground arith)

doy_of-month_of : (doy : ℕ) → doy ≤ 365 → doy_of (month_of doy) (day_of doy) ≡ doy
doy_of-month_of doy le = rw (months-plain doy le, day_of-plain doy le) (ground arith)

doe_back :
    (yoe doy : ℕ)
    → yoe < 400
    → doy ≤ 365
    → add32 (sub32 (add32 (mul32 yoe 365) (yoe / 4)) (yoe / 100)) doy ≡ year_start yoe + doy
doe_back yoe doy lt le = ground arith

add-sub_back : (y u : ℤ) → y +ℤ u -ℤ u ≡ y
add-sub_back y u = omega int_laws

sum_comm : (a b : ℤ) → a +ℤ b ≡ b +ℤ a
sum_comm a b = omega int_laws

-- The date of the day `doe` of an era.
abbrev pub doy_in : ℕ → ℕ
doy_in doe = sub32 doe (year_start (yoe_of doe))

pub doy_in_le : (doe : ℕ) → doe < 146097 → doy_in doe ≤ 365
doy_in_le doe lt = ground (arith, year_start_le doe lt, year_start_near doe lt)

year_start-doy_in : (doe : ℕ) → doe < 146097 → year_start (yoe_of doe) + doy_in doe ≡ doe
year_start-doy_in doe lt = ground (arith, year_start_le doe lt, year_start_near doe lt)

abbrev pub date_in : ℤ → ℕ → CivilDate
date_in era doe = record {
  year = pos (yoe_of doe) +ℤ era *ℤ pos 400 +ℤ pos (up_to_feb (month_of (doy_in doe)));
  month = month_of (doy_in doe);
  day = day_of (doy_in doe);
}

pub civil_from_days-date_in :
    (z : ℤ)
    → (doe : ℕ) × (doe < 146097)
      × (z +ℤ pos 719468 ≡ era_days (z +ℤ pos 719468) *ℤ pos 146097 +ℤ pos doe)
      × (civil_from_days z ≡ date_in (era_days (z +ℤ pos 719468)) doe)
unfolding civil_from_days
civil_from_days-date_in z =
    let (doe, lt, split) = era_days-split (z +ℤ pos 719468) in
    (
      doe,
      lt,
      split,
      ap (date_in (era_days (z +ℤ pos 719468))) (
          to_u32_rest (z +ℤ pos 719468) (era_days (z +ℤ pos 719468)) 146097 doe split
            (omega arith)),
    )

-- The day that an era, a year of it and a day of that year name.
abbrev days_at : ℤ → ℕ → ℕ → ℤ
days_at era yoe doy =
    era *ℤ pos 146097
    +ℤ pos (add32 (sub32 (add32 (mul32 yoe 365) (yoe / 4)) (yoe / 100)) doy)
    -ℤ pos 719468

abbrev days_of_year : ℕ → ℤ → ℤ
days_of_year doy y = days_at (era_400 y) (to_u32 (y -ℤ era_400 y *ℤ pos 400)) doy

days_of_year-era :
    (era : ℤ) (yoe doy : ℕ)
    → yoe < 400
    → days_of_year doy (pos yoe +ℤ era *ℤ pos 400) ≡ days_at era yoe doy
days_of_year-era era yoe doy lt =
    ap (λ e. days_at e (to_u32 (pos yoe +ℤ era *ℤ pos 400 -ℤ e *ℤ pos 400)) doy)
      (era_400_unique (pos yoe +ℤ era *ℤ pos 400) era yoe lt (sum_comm (pos yoe) (era *ℤ pos 400)))
    ∙ ap (λ x. days_at era x doy)
        (to_u32_rest (pos yoe +ℤ era *ℤ pos 400) era 400 yoe (sum_comm (pos yoe) (era *ℤ pos 400))
          (omega arith))

days_at-year_start :
    (era : ℤ) (doe : ℕ)
    → doe < 146097
    → days_at era (yoe_of doe) (doy_in doe) ≡ era *ℤ pos 146097 +ℤ pos doe -ℤ pos 719468
days_at-year_start era doe lt =
    ap (λ x. era *ℤ pos 146097 +ℤ pos x -ℤ pos 719468)
      (doe_back (yoe_of doe) (doy_in doe) (yoe_of-bound doe lt) (doy_in_le doe lt)
        ∙ year_start-doy_in doe lt)

pub days_from_civil-date_in :
    (era : ℤ) (doe : ℕ)
    → doe < 146097
    → days_from_civil (date_in era doe).year (date_in era doe).month (date_in era doe).day
      ≡ era *ℤ pos 146097 +ℤ pos doe -ℤ pos 719468
unfolding days_from_civil
days_from_civil-date_in era doe lt =
    ap (days_of_year (doy_of (date_in era doe).month (date_in era doe).day))
      (add-sub_back (pos (yoe_of doe) +ℤ era *ℤ pos 400) (pos (up_to_feb (month_of (doy_in doe)))))
    ∙ days_of_year-era era (yoe_of doe) (doy_of (month_of (doy_in doe)) (day_of (doy_in doe)))
        (yoe_of-bound doe lt)
    ∙ ap (days_at era (yoe_of doe)) (doy_of-month_of (doy_in doe) (doy_in_le doe lt))
    ∙ days_at-year_start era doe lt

-- The year of a day of the era `k`.
pub year-date_in :
    (k doe : ℕ)
    → doe < 146097
    → (y : ℕ) × ((date_in (pos k) doe).year ≡ pos y) × (y ≤ k * 400 + 400)
unfolding ◌+ℤ◌ ◌*ℤ◌
year-date_in k doe lt = (
  yoe_of doe + k * 400 + up_to_feb (month_of (doy_in doe)),
  ground arith,
  ground (arith, yoe_of-bound doe lt),
)
