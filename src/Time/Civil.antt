-- ===== src/Time/Civil.antt =====
-- src/nth_time.c: the eras of 400 years, 146097 days, that the civil calendar counts in.
pub mod Round
use narthex.Prelude.{
  ℕ, ◌+◌, ◌-◌, ◌*◌, ◌/◌, ◌%◌, ◌^◌, ◌≤◌, ◌<◌, ◌≡◌, refl, sym, ap, ◌∙◌, true, false, inl, inr, arith,
  ltb, leb, if◌then◌else◌, Bool-cases,
}
use narthex.Prelude.Int.{
  ℤ, pos, negsuc, pos_part, neg_part, sub_ℕ, ◌+ℤ◌, ◌-ℤ◌, ◌*ℤ◌, ltb_ℤ, quot, rem, to_u32, int_laws,
  +ℤ_parts, *ℤ_parts,
}
use narthex.Prelude.Words.{add32, sub32, mul32}
use narthex.Time.{CivilDate, up_to_feb, days_from_civil, civil_from_days, weekday_from_days}

abbrev pub era_400 : ℤ → ℤ
era_400 y = quot (if ltb_ℤ y (pos 0) then y -ℤ pos 399 else y) 400

abbrev pub era_days : ℤ → ℤ
era_days z = quot (if ltb_ℤ z (pos 0) then z -ℤ pos 146096 else z) 146097

pub era_days-pos : (n : ℕ) → era_days (pos n) ≡ pos (n / 146097)
unfolding ◌-ℤ◌
era_days-pos n = ground arith

era_days-negsuc : (n : ℕ) → era_days (negsuc n) ≡ negsuc (n / 146097)
unfolding ◌-ℤ◌
era_days-negsuc n = ground arith

-- An integer is so many times 146097 and what is left over.
pub era_days-split : (z : ℤ) → (r : ℕ) × (r < 146097) × (z ≡ era_days z *ℤ pos 146097 +ℤ pos r)
era_days-split (pos n) = (
  n % 146097,
  omega arith,
  rw (era_days-pos n) (omega (int_laws, *ℤ_parts (pos (n / 146097)) 146097)),
)
era_days-split (negsuc n) = (
  146096 - n % 146097,
  omega arith,
  rw (era_days-negsuc n) (omega (int_laws, *ℤ_parts (negsuc (n / 146097)) 146097)),
)

-- The split is the only one.
pub era_days_unique : (y e : ℤ) (r : ℕ) → r < 146097 → y ≡ e *ℤ pos 146097 +ℤ pos r → era_days y ≡ e
era_days_unique (pos n) (pos m) r lt h =
    era_days-pos n
    ∙ omega (
      int_laws,
      ap pos_part h,
      ap neg_part h,
      *ℤ_parts (pos m) 146097,
      +ℤ_parts (pos m *ℤ pos 146097) (pos r),
    )
era_days_unique (pos n) (negsuc m) r lt h =
    era_days-pos n
    ∙ omega (
      int_laws,
      ap pos_part h,
      ap neg_part h,
      *ℤ_parts (negsuc m) 146097,
      +ℤ_parts (negsuc m *ℤ pos 146097) (pos r),
    )
era_days_unique (negsuc n) (pos m) r lt h =
    era_days-negsuc n
    ∙ omega (
      int_laws,
      ap pos_part h,
      ap neg_part h,
      *ℤ_parts (pos m) 146097,
      +ℤ_parts (pos m *ℤ pos 146097) (pos r),
    )
era_days_unique (negsuc n) (negsuc m) r lt h =
    era_days-negsuc n
    ∙ omega (
      int_laws,
      ap pos_part h,
      ap neg_part h,
      *ℤ_parts (negsuc m) 146097,
      +ℤ_parts (negsuc m *ℤ pos 146097) (pos r),
    )

era_400-pos : (n : ℕ) → era_400 (pos n) ≡ pos (n / 400)
unfolding ◌-ℤ◌
era_400-pos n = ground arith

era_400-negsuc : (n : ℕ) → era_400 (negsuc n) ≡ negsuc (n / 400)
unfolding ◌-ℤ◌
era_400-negsuc n = ground arith

-- The split is the only one.
pub era_400_unique : (y e : ℤ) (r : ℕ) → r < 400 → y ≡ e *ℤ pos 400 +ℤ pos r → era_400 y ≡ e
era_400_unique (pos n) (pos m) r lt h =
    era_400-pos n
    ∙ omega (
      int_laws,
      ap pos_part h,
      ap neg_part h,
      *ℤ_parts (pos m) 400,
      +ℤ_parts (pos m *ℤ pos 400) (pos r),
    )
era_400_unique (pos n) (negsuc m) r lt h =
    era_400-pos n
    ∙ omega (
      int_laws,
      ap pos_part h,
      ap neg_part h,
      *ℤ_parts (negsuc m) 400,
      +ℤ_parts (negsuc m *ℤ pos 400) (pos r),
    )
era_400_unique (negsuc n) (pos m) r lt h =
    era_400-negsuc n
    ∙ omega (
      int_laws,
      ap pos_part h,
      ap neg_part h,
      *ℤ_parts (pos m) 400,
      +ℤ_parts (pos m *ℤ pos 400) (pos r),
    )
era_400_unique (negsuc n) (negsuc m) r lt h =
    era_400-negsuc n
    ∙ omega (
      int_laws,
      ap pos_part h,
      ap neg_part h,
      *ℤ_parts (negsuc m) 400,
      +ℤ_parts (negsuc m *ℤ pos 400) (pos r),
    )
