-- ===== src/Prelude/Bits.antt =====
-- `&` and `|` of words that are two fields side by side, at every width.
pub mod Step
use Step.{bit_or_step, bit_and_step}
use Prim.Native.Nat.{min, max, bit_and, bit_or}
use native.Mathlib.Nat.{pow-suc, one-le-pow}
use Prim.Native.Nat.{ℕ, zero, suc, ◌+◌, ◌-◌, ◌*◌, ◌/◌, ◌%◌, ◌^◌, ◌≤◌, ◌<◌}
use mathlib.Core.Path.{◌≡◌, refl, ap, ap₂, ◌∙◌}
use native.Mathlib.Omega.{arith}

bit_and-zero_below : (n a : ℕ) → a ≤ n → bit_and a 0 ≡ 0
bit_and-zero_below zero zero h = refl
bit_and-zero_below zero (suc a) h = absurd (omega arith)
bit_and-zero_below (suc n) zero h = refl
bit_and-zero_below (suc n) (suc a) h =
    omega (arith, bit_and_step (suc a) 0, bit_and-zero_below n (suc a / 2) (omega arith))

pub bit_and-zero : (a : ℕ) → bit_and a 0 ≡ 0
bit_and-zero a = bit_and-zero_below a a (omega arith)

zero-bit_and_below : (n a : ℕ) → a ≤ n → bit_and 0 a ≡ 0
zero-bit_and_below zero zero h = refl
zero-bit_and_below zero (suc a) h = absurd (omega arith)
zero-bit_and_below (suc n) zero h = refl
zero-bit_and_below (suc n) (suc a) h =
    omega (arith, bit_and_step 0 (suc a), zero-bit_and_below n (suc a / 2) (omega arith))

pub zero-bit_and : (a : ℕ) → bit_and 0 a ≡ 0
zero-bit_and a = zero-bit_and_below a a (omega arith)

bit_or-zero_below : (n a : ℕ) → a ≤ n → bit_or a 0 ≡ a
bit_or-zero_below zero zero h = refl
bit_or-zero_below zero (suc a) h = absurd (omega arith)
bit_or-zero_below (suc n) zero h = refl
bit_or-zero_below (suc n) (suc a) h =
    omega (arith, bit_or_step (suc a) 0, bit_or-zero_below n (suc a / 2) (omega arith))

pub bit_or-zero : (a : ℕ) → bit_or a 0 ≡ a
bit_or-zero a = bit_or-zero_below a a (omega arith)

zero-bit_or_below : (n a : ℕ) → a ≤ n → bit_or 0 a ≡ a
zero-bit_or_below zero zero h = refl
zero-bit_or_below zero (suc a) h = absurd (omega arith)
zero-bit_or_below (suc n) zero h = refl
zero-bit_or_below (suc n) (suc a) h =
    omega (arith, bit_or_step 0 (suc a), zero-bit_or_below n (suc a / 2) (omega arith))

pub zero-bit_or : (a : ℕ) → bit_or 0 a ≡ a
zero-bit_or a = zero-bit_or_below a a (omega arith)

double_high : (q k : ℕ) → q * 2 ^ suc k ≡ 2 * (q * 2 ^ k)
double_high q k = omega (arith, ap (λ (t : ℕ). q * t) (pow-suc 2 k))

-- `&` works on the high and the low field apart.
pub bit_and_fields :
    (k a b c d : ℕ)
    → b < 2 ^ k
    → d < 2 ^ k
    → bit_and (a * 2 ^ k + b) (c * 2 ^ k + d) ≡ bit_and a c * 2 ^ k + bit_and b d
bit_and_fields zero a b c d hb hd = ground (arith, bit_and-zero 0)
bit_and_fields (suc k) a b c d hb hd = ground (
  arith,
  bit_and_step (a * 2 ^ suc k + b) (c * 2 ^ suc k + d),
  bit_and_step b d,
  double_high a k,
  double_high c k,
  double_high (bit_and a c) k,
  bit_and_fields k a (b / 2) c (d / 2) (omega (arith, pow-suc 2 k)) (omega (arith, pow-suc 2 k)),
)

-- So does `|`.
pub bit_or_fields :
    (k a b c d : ℕ)
    → b < 2 ^ k
    → d < 2 ^ k
    → bit_or (a * 2 ^ k + b) (c * 2 ^ k + d) ≡ bit_or a c * 2 ^ k + bit_or b d
bit_or_fields zero a b c d hb hd = ground (arith, bit_or-zero 0)
bit_or_fields (suc k) a b c d hb hd = ground (
  arith,
  bit_or_step (a * 2 ^ suc k + b) (c * 2 ^ suc k + d),
  bit_or_step b d,
  double_high a k,
  double_high c k,
  double_high (bit_or a c) k,
  bit_or_fields k a (b / 2) c (d / 2) (omega (arith, pow-suc 2 k)) (omega (arith, pow-suc 2 k)),
)

bit_and_ones_low : (k r : ℕ) → r < 2 ^ k → bit_and r (2 ^ k - 1) ≡ r
bit_and_ones_low zero r h = ground (arith, bit_and-zero r)
bit_and_ones_low (suc k) r h = ground (
  arith,
  bit_and_step r (2 ^ suc k - 1),
  pow-suc 2 k,
  one-le-pow k 2,
  bit_and_ones_low k (r / 2) (omega (arith, pow-suc 2 k)),
)

-- A mask of `k` low ones takes the remainder by `2 ^ k`.
pub bit_and_mask : (k a : ℕ) → bit_and a (2 ^ k - 1) ≡ a % 2 ^ k
bit_and_mask k a = ground (
  arith,
  one-le-pow k 2,
  bit_and_fields k (a / 2 ^ k) (a % 2 ^ k) 0 (2 ^ k - 1),
  bit_and-zero (a / 2 ^ k),
  bit_and_ones_low k (a % 2 ^ k),
)

-- The same for words that are known to be such pairs.
module _ (k : ℕ) {x y : ℕ} (a b c d : ℕ) (p : x ≡ a * 2 ^ k + b) (q : y ≡ c * 2 ^ k + d) where
  pub bit_and_split : b < 2 ^ k → d < 2 ^ k → bit_and x y ≡ bit_and a c * 2 ^ k + bit_and b d
  bit_and_split hb hd = ap₂ bit_and p q ∙ bit_and_fields k a b c d hb hd

  pub bit_or_split : b < 2 ^ k → d < 2 ^ k → bit_or x y ≡ bit_or a c * 2 ^ k + bit_or b d
  bit_or_split hb hd = ap₂ bit_or p q ∙ bit_or_fields k a b c d hb hd
