-- ===== src/Log/Family.antt =====
-- Places indexed by thread: one thread moved, and how many of the first `n` threads weigh.
use narthex.Prelude.{
  ℕ, zero, suc, ◌+◌, ◌≤◌, ◌<◌, ◌≡◌, ◌≢◌, inl, inr, refl, arith, ltb, ◌==◌, Bool-cases,
}
use narthex.Log.Threads.{Place, outside, put}

pub put_self : (f : ℕ → Place) (i : ℕ) (p : Place) → put f i p i ≡ p
put_self f i p = ground arith

pub put-other : (f : ℕ → Place) (i : ℕ) (p : Place) (j : ℕ) → i ≢ j → put f i p j ≡ f j
put-other f i p j ne = ground arith

module _ (w : Place → ℕ) where
  pub total : ℕ → (ℕ → Place) → ℕ
  total zero f = 0
  total (suc n) f = total n f + w (f n)

  total-put_of_le :
      (n : ℕ) (f : ℕ → Place) (i : ℕ) (p : Place) → n ≤ i → total n (put f i p) ≡ total n f
  unfolding total
  total-put_of_le zero f i p h = refl
  total-put_of_le (suc n) f i p h = ground (arith, total-put_of_le n f i p)

  pub total-put :
      (n : ℕ) (f : ℕ → Place) (i : ℕ) (p : Place)
      → i < n
      → total n (put f i p) + w (f i) ≡ total n f + w p
  unfolding total
  total-put zero f i p h = absurd (omega arith)
  total-put (suc n) f i p h = elim (Bool-cases (i == n)) [
    | inl last ↦ ground (arith, total-put_of_le n f i p)
    | inr below ↦ ground (arith, total-put n f i p)
  ]

  pub total-le : ((p : Place) → w p ≤ 1) → (n : ℕ) (f : ℕ → Place) → total n f ≤ n
  unfolding total
  total-le small zero f = omega arith
  total-le small (suc n) f = omega (arith, small (f n), total-le small n f)

  pub le-total : (n : ℕ) (f : ℕ → Place) (i : ℕ) → i < n → w (f i) ≤ total n f
  unfolding total
  le-total zero f i h = absurd (omega arith)
  le-total (suc n) f i h = elim (Bool-cases (i == n)) [
    | inl last ↦ ground arith
    | inr below ↦ ground (arith, le-total n f i)
  ]

  pub total-outside : w outside ≡ 0 → (n : ℕ) → total n (λ _. outside) ≡ 0
  unfolding total
  total-outside h zero = refl
  total-outside h (suc n) = omega (arith, h, total-outside h n)

  pub total-pos : (n : ℕ) (f : ℕ → Place) → 0 < total n f → (i : ℕ) × (i < n) × (0 < w (f i))
  unfolding total
  total-pos zero f h = absurd (omega arith)
  total-pos (suc n) f h = elim (Bool-cases (ltb 0 (w (f n)))) [
    | inl last ↦ (n, omega arith, ground arith)
    | inr below ↦ let (i, lt, pos) = total-pos n f (ground arith) in (i, omega arith, pos)
  ]
