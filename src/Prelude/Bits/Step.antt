-- ===== src/Prelude/Bits/Step.antt =====
-- `bit_and` and `bit_or` by their lowest digit. The library explains them by a recursion that is
-- given more rounds than it needs; rounds that are not needed change nothing.
use Prim.Native.Nat.{
  ℕ, zero, suc, ◌+◌, ◌-◌, ◌*◌, ◌/◌, ◌%◌, ◌≤◌, min, max, digits, bitwise, bit_and, bit_or,
  bit_and-bitwise, bit_or-bitwise,
}
use mathlib.Core.Path.{◌≡◌, refl, ap, ◌∙◌}
use native.Mathlib.Omega.{arith}

module _ (out : ℕ → ℕ) (op : ℕ → ℕ → ℕ) where
  one_round_more : (x y n : ℕ) → x ≤ n → digits out op (suc n) x y ≡ digits out op n x y
  one_round_more zero y zero h = refl
  one_round_more zero y (suc n) h = refl
  one_round_more (suc x) y zero h = absurd (omega arith)
  one_round_more (suc x) y (suc n) h =
      omega (arith, one_round_more (suc x / 2) (y / 2) n (omega arith))

  rounds_more :
      (extra n m x y : ℕ) → m ≡ n + extra → x ≤ n → digits out op m x y ≡ digits out op n x y
  rounds_more zero n m x y e h = ap (λ k. digits out op k x y) (omega arith)
  rounds_more (suc extra) n zero x y e h = absurd (omega arith)
  rounds_more (suc extra) n (suc m) x y e h =
      one_round_more x y m (omega arith) ∙ rounds_more extra n m x y (omega arith) h

  halved :
      (x y : ℕ)
      → bitwise out op (suc x) y ≡ bitwise out op (suc x / 2) (y / 2) * 2 + op (suc x % 2) (y % 2)
  halved x y =
      let half : ℕ = suc x / 2 in
      omega (arith, rounds_more (x - half) half x half (y / 2) (omega arith) (omega arith))

pub bit_and_step : (x y : ℕ) → bit_and x y ≡ bit_and (x / 2) (y / 2) * 2 + min (x % 2) (y % 2)
bit_and_step zero y = simp bit_and-bitwise (omega arith)
bit_and_step (suc x) y = simp bit_and-bitwise (halved (λ _. 0) min x y)

pub bit_or_step : (x y : ℕ) → bit_or x y ≡ bit_or (x / 2) (y / 2) * 2 + max (x % 2) (y % 2)
bit_or_step zero y = simp bit_or-bitwise (omega arith)
bit_or_step (suc x) y = simp bit_or-bitwise (halved (λ r. r) max x y)
