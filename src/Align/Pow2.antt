-- ===== src/Align/Pow2.antt =====
-- Powers of two: what `nth_is_pow2` recognises, and their laws in 64-bit arithmetic.
use native.Mathlib.Nat.{pow-suc, one-le-pow, add-zero}
use narthex.Prelude.{
  ℕ, zero, suc, ◌+◌, ◌-◌, ◌*◌, ◌/◌, ◌%◌, ◌^◌, ◌≤◌, ◌<◌, ◌≡◌, ◌↔◌, refl, ap, ◌∙◌, true, bit_and,
  arith, inl, inr, ◌==◌, Bool-cases,
}
use narthex.Prelude.Bits.Step.{bit_and_step}
use narthex.Align.{nth_is_pow2}

pub pow-add : (a b : ℕ) → 2 ^ (a + b) ≡ 2 ^ a * 2 ^ b
pow-add a zero = rw add-zero (omega arith)
pow-add a (suc b) =
    ap (λ n. 2 ^ n) (omega arith)
    ∙ (pow-suc 2 (a + b) ∙ omega (arith, pow-add a b, ap (λ (t : ℕ). 2 ^ a * t) (pow-suc 2 b)))

bit_and-self_below : (n a : ℕ) → a ≤ n → bit_and a a ≡ a
bit_and-self_below zero zero h = refl
bit_and-self_below zero (suc a) h = absurd (omega arith)
bit_and-self_below (suc n) zero h = refl
bit_and-self_below (suc n) (suc a) h =
    omega (arith, bit_and_step (suc a) (suc a), bit_and-self_below n (suc a / 2) (omega arith))

-- `v & (v - 1)` clears the lowest set bit: nothing is left just when `v` is a power of two.
lowest-bit_below : (n v : ℕ) → v ≤ n → 0 < v → bit_and v (v - 1) ≡ 0 → (k : ℕ) × (v ≡ 2 ^ k)
lowest-bit_below zero v h pos e = absurd (omega arith)
lowest-bit_below (suc n) v h pos e = elim (Bool-cases (v % 2 == 0)) [
  | inl even ↦
      let (k, p) =
        lowest-bit_below n (v / 2) (ground arith) (ground arith)
          (ground (arith, bit_and_step v (v - 1))) in
      (suc k, ground (arith, pow-suc 2 k))
  | inr odd ↦ (0, ground (arith, bit_and_step v (v - 1), bit_and-self_below v (v / 2)))
]

lowest-bit_pow : (k : ℕ) → bit_and (2 ^ k) (2 ^ k - 1) ≡ 0
lowest-bit_pow zero = refl
lowest-bit_pow (suc k) =
    ground (
      arith,
      bit_and_step (2 ^ suc k) (2 ^ suc k - 1),
      pow-suc 2 k,
      one-le-pow k 2,
      lowest-bit_pow k,
    )

-- `nth_is_pow2` answers true exactly on the powers of two.
pub nth_is_pow2_iff : (v : ℕ) → (nth_is_pow2 v ≡ true) ↔ ((k : ℕ) × (v ≡ 2 ^ k))
unfolding nth_is_pow2
nth_is_pow2_iff v = (
  λ h. lowest-bit_below v v (omega arith) (ground arith) (ground arith),
  λ (k, e). rw e (ground (arith, lowest-bit_pow k, one-le-pow k 2)),
)
