-- ===== src/Align/Laws.antt =====
-- What the alignment helpers compute, for a power of two below 2^64 and 64-bit addresses.
use native.Mathlib.Nat.{
  one-le-pow, mod-lt, mod-eq_of_lt, div-add-mod', mul-mod_left, mul-mod_right, mul-le-mul_left,
  zero-mod, zero-add, mul-sub, pow-le-pow_right, div-lt_iff_lt-mul,
}
use narthex.Prelude.{
  ℕ, zero, suc, ◌+◌, ◌-◌, ◌*◌, ◌/◌, ◌%◌, ◌^◌, ◌≤◌, ◌<◌, ◌≡◌, ◌↔◌, inl, inr, refl, ap, sym, ◌∙◌,
  true, bit_and, arith, ◌==◌, ==_iff, leb, ltb→lt, Bool-cases,
}
use mathlib.Core.Path.{ap₂}
use narthex.Prelude.Bits.{bit_and_mask, bit_and_fields, bit_and-zero}
use narthex.Prelude.Words.{u64_mod, add64, sub64, not64}
use narthex.Align.{nth_is_pow2, nth_is_aligned, nth_align_pad, nth_align_up, nth_align_down}
use narthex.Align.Pow2.{nth_is_pow2_iff, pow-add}

-- A 64-bit power of two `a` is `2 ^ k`, and divides 2^64 into `2 ^ co` parts.
pub record IsAlign (a : ℕ) : Type 0 where
  pub k : ℕ
  pub co : ℕ
  pub is_pow : a ≡ 2 ^ k
  pub pages : 2 ^ co * a ≡ u64_mod
  pub positive : 0 < a

exponent-lt : (k : ℕ) → 2 ^ k < 2 ^ 64 → k < 64
exponent-lt k h = elim (Bool-cases (leb 64 k)) [
  | inl big ↦
      absurd (omega (arith, pow-le-pow_right {n = 2} (omega arith) {i = 64} {j = k} (ground arith)))
  | inr small ↦ ground arith
]

pub pow2-IsAlign : (a : ℕ) → nth_is_pow2 a ≡ true → a < u64_mod → IsAlign a
pow2-IsAlign a h lt =
    let (k, e) = (nth_is_pow2_iff a).0 h in
    record {
      k = k;
      co = 64 - k;
      is_pow = e;
      pages = rw e (
          sym (pow-add (64 - k) k)
          ∙ ap (λ n. 2 ^ n) {y = 64} (omega (arith, exponent-lt k (rw e at lt))));
      positive = rw e (one-le-pow k 2 (omega arith));
    }

mask-eq : (a : ℕ) → 0 < a → a < u64_mod → sub64 a 1 ≡ a - 1
mask-eq a p h = omega arith

low-mask : (v a : ℕ) → IsAlign a → bit_and v (a - 1) ≡ v % a
low-mask v a w = rw w.is_pow (bit_and_mask w.k v)

sub-one-mul : (c a : ℕ) → (c - 1) * a ≡ c * a - a
sub-one-mul zero a = omega arith
sub-one-mul (suc c) a = grind arith

-- Clearing the bits below the power of two `2 ^ k` rounds down to a multiple of it.
high-mask_pow :
    (v k co : ℕ)
    → 2 ^ co * 2 ^ k ≡ u64_mod
    → v < u64_mod
    → bit_and v (u64_mod - 2 ^ k) ≡ v / 2 ^ k * 2 ^ k
high-mask_pow v k co e h =
    let p : 0 < 2 ^ k = one-le-pow k 2 (omega arith) in
    let q : v / 2 ^ k < 2 ^ co = (div-lt_iff_lt-mul p).1 (rw e h) in
    ap₂ bit_and (sym (div-add-mod' v (2 ^ k))) (mask p)
    ∙ (bit_and_fields k (v / 2 ^ k) (v % 2 ^ k) (2 ^ co - 1) 0 (mod-lt v p) p
        ∙ rw (bit_and_mask, bit_and-zero, mod-eq_of_lt q) (omega arith))
  where
    mask : 0 < 2 ^ k → u64_mod - 2 ^ k ≡ (2 ^ co - 1) * 2 ^ k + 0
    mask p = omega (arith, e, sub-one-mul (2 ^ co) (2 ^ k))

high-mask : (v a : ℕ) → IsAlign a → v < u64_mod → bit_and v (u64_mod - a) ≡ v / a * a
high-mask v a w h = rw w.is_pow (high-mask_pow v w.k w.co (rw w.is_pow at w.pages) h)

-- `nth_is_aligned` tests divisibility.
pub nth_is_aligned_iff :
    (v align : ℕ)
    → nth_is_pow2 align ≡ true
    → align < u64_mod
    → (nth_is_aligned v align ≡ true) ↔ (v % align ≡ 0)
unfolding nth_is_aligned
nth_is_aligned_iff v align p lt =
    let w = pow2-IsAlign align p lt in
    rw (mask-eq align w.positive lt, low-mask v align w) (==_iff (v % align) 0)

-- Going up from `addr` by what is missing modulo `a` arrives at a multiple of `a`.
reach-multiple :
    (addr a n : ℕ) → 0 < a → n * a ≡ u64_mod → addr < u64_mod → (addr + sub64 0 addr % a) % a ≡ 0
reach-multiple addr a n p e h = elim (Bool-cases (addr == 0)) [
  | inl z ↦ rw ((==_iff addr 0).0 z) (simp (zero-mod, zero-add))
  | inr nz ↦
      let x = sub64 0 addr in
      let sum : addr + x ≡ u64_mod = ground arith in
      let up : addr + x % a ≡ a * (n - x / a) =
        omega (arith, div-add-mod' x a, mul-sub a n (x / a)) in
      rw (up, mul-mod_right) refl
]

-- The padding stays below the alignment, and takes the address to a multiple of it.
pub nth_align_pad_lem :
    (addr align : ℕ)
    → nth_is_pow2 align ≡ true
    → align < u64_mod
    → addr < u64_mod
    → (nth_align_pad addr align < align) × ((addr + nth_align_pad addr align) % align ≡ 0)
unfolding nth_align_pad
nth_align_pad_lem addr align p lt h =
    let w = pow2-IsAlign align p lt in
    rw (mask-eq align w.positive lt, low-mask (sub64 0 addr) align w)
      (mod-lt (sub64 0 addr) w.positive, reach-multiple addr align (2 ^ w.co) w.positive w.pages h)

not-mul_between : (a m n d : ℕ) → a * m ≡ a * n + d → 0 < d → d < a → ⊥
not-mul_between a m n d e p q = elim (Bool-cases (leb m n)) [
  | inl le ↦ omega (arith, mul-le-mul_left {m = m} {n = n} a (ground arith))
  | inr gt ↦ omega (arith, mul-le-mul_left {m = n + 1} {n = m} a (ground arith))
]

-- The padding is the least that does: no smaller one reaches a multiple.
pub nth_align_pad_least :
    (addr align p : ℕ)
    → nth_is_pow2 align ≡ true
    → align < u64_mod
    → addr < u64_mod
    → (addr + p) % align ≡ 0
    → nth_align_pad addr align ≤ p
nth_align_pad_least addr align p is lt h e =
    let (small, hit) = nth_align_pad_lem addr align is lt h in
    elim (Bool-cases (leb (nth_align_pad addr align) p)) [
      | inl le ↦ ground arith
      | inr gt ↦
          let m = (addr + nth_align_pad addr align) / align in
          let n = (addr + p) / align in
          absurd (
            not-mul_between align m n (nth_align_pad addr align - p)
              (omega (
                arith,
                div-add-mod' (addr + nth_align_pad addr align) align,
                div-add-mod' (addr + p) align,
                ltb→lt p (nth_align_pad addr align) (ground arith),
              ))
              (ground arith) (omega arith))
    ]

not64-mask : (a : ℕ) → 0 < a → a < u64_mod → not64 (a - 1) ≡ u64_mod - a
not64-mask a p lt = omega arith

round-down : (v a : ℕ) → 0 < a → (v / a * a ≤ v) × (v < v / a * a + a)
round-down v a p = omega (arith, div-add-mod' v a, mod-lt v p)

-- Below the last page, `nth_align_up` is the least multiple of `align` not below `v`.
pub nth_align_up_lem :
    (v align : ℕ)
    → nth_is_pow2 align ≡ true
    → align < u64_mod
    → v ≤ u64_mod - align
    → (nth_align_up v align % align ≡ 0)
      × (v ≤ nth_align_up v align)
      × (nth_align_up v align < v + align)
unfolding nth_align_up
nth_align_up_lem v align p lt h =
    let w = pow2-IsAlign align p lt in
    let t = v + (align - 1) in
    let no_wrap : add64 v (align - 1) ≡ t = omega arith in
    rw
      (
        mask-eq align w.positive lt,
        no_wrap,
        not64-mask align w.positive lt,
        high-mask t align w (omega arith),
      )
      (
        mul-mod_left (t / align) align,
        omega (arith, round-down t align w.positive),
        omega (arith, round-down t align w.positive),
      )

-- `nth_align_down` is the greatest multiple of `align` not above `v`.
pub nth_align_down_lem :
    (v align : ℕ)
    → nth_is_pow2 align ≡ true
    → align < u64_mod
    → v < u64_mod
    → (nth_align_down v align % align ≡ 0)
      × (nth_align_down v align ≤ v)
      × (v < nth_align_down v align + align)
unfolding nth_align_down
nth_align_down_lem v align p lt h =
    let w = pow2-IsAlign align p lt in
    rw (mask-eq align w.positive lt, not64-mask align w.positive lt, high-mask v align w h)
      (
        mul-mod_left (v / align) align,
        omega (arith, round-down v align w.positive),
        omega (arith, round-down v align w.positive),
      )
