-- ===== src/Path/Meta/Flags.antt =====
-- The flag bytes, checked one by one.
use narthex.Prelude.{
  ℕ, ◌+◌, ◌-◌, ◌≡◌, refl, Bool, true, false, not, bit_and, bit_or, ◌==◌, if◌then◌else◌,
}

abbrev pub bit : Bool → ℕ → ℕ
bit b f = if b then f else 0

-- The three flags, as the low bits of the flag byte.
abbrev pub flags_of : Bool → Bool → Bool → ℕ
flags_of owned invalid normalized = bit owned 1 + bit invalid 2 + bit normalized 4

pub or_owned : (o i n : Bool) → bit_or (flags_of o i n) 1 ≡ flags_of true i n
or_owned true true true = refl
or_owned true true false = refl
or_owned true false true = refl
or_owned true false false = refl
or_owned false true true = refl
or_owned false true false = refl
or_owned false false true = refl
or_owned false false false = refl

pub or_invalid : (o i n : Bool) → bit_or (flags_of o i n) 2 ≡ flags_of o true n
or_invalid true true true = refl
or_invalid true true false = refl
or_invalid true false true = refl
or_invalid true false false = refl
or_invalid false true true = refl
or_invalid false true false = refl
or_invalid false false true = refl
or_invalid false false false = refl

pub or_normalized : (o i n : Bool) → bit_or (flags_of o i n) 4 ≡ flags_of o i true
or_normalized true true true = refl
or_normalized true true false = refl
or_normalized true false true = refl
or_normalized true false false = refl
or_normalized false true true = refl
or_normalized false true false = refl
or_normalized false false true = refl
or_normalized false false false = refl

pub and_invalid : (o i n : Bool) → bit_and (flags_of o i n) (255 - 2) ≡ flags_of o false n
and_invalid true true true = refl
and_invalid true true false = refl
and_invalid true false true = refl
and_invalid true false false = refl
and_invalid false true true = refl
and_invalid false true false = refl
and_invalid false false true = refl
and_invalid false false false = refl

pub and_normalized : (o i n : Bool) → bit_and (flags_of o i n) (255 - 4) ≡ flags_of o i false
and_normalized true true true = refl
and_normalized true true false = refl
and_normalized true false true = refl
and_normalized true false false = refl
and_normalized false true true = refl
and_normalized false true false = refl
and_normalized false false true = refl
and_normalized false false false = refl

pub has_owned : (o i n : Bool) → not (bit_and (flags_of o i n) 1 == 0) ≡ o
has_owned true true true = refl
has_owned true true false = refl
has_owned true false true = refl
has_owned true false false = refl
has_owned false true true = refl
has_owned false true false = refl
has_owned false false true = refl
has_owned false false false = refl

pub has_invalid : (o i n : Bool) → not (bit_and (flags_of o i n) 2 == 0) ≡ i
has_invalid true true true = refl
has_invalid true true false = refl
has_invalid true false true = refl
has_invalid true false false = refl
has_invalid false true true = refl
has_invalid false true false = refl
has_invalid false false true = refl
has_invalid false false false = refl

pub has_normalized : (o i n : Bool) → not (bit_and (flags_of o i n) 4 == 0) ≡ n
has_normalized true true true = refl
has_normalized true true false = refl
has_normalized true false true = refl
has_normalized true false false = refl
has_normalized false true true = refl
has_normalized false true false = refl
has_normalized false false true = refl
has_normalized false false false = refl
