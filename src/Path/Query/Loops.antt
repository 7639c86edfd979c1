-- ===== src/Path/Query/Loops.antt =====
-- Where the loops over the bytes of a path stop.
use narthex.Prelude.{
  ◌-◌, ℕ, zero, suc, ◌≤◌, ◌<◌, ◌≡◌, ◌⊎◌, refl, true, false, inl, inr, List, ◌++◌, arith, ◌==◌,
  length, Bool-cases,
}
use narthex.Path.Bytes.{get_or-append}
use narthex.Path.Query.{sep_at, back_to_sep, back_over_seps, back_to_root}

-- A loop over the first `n` bytes sees none behind them.
pub back_to_sep-append :
    (t ys : List ℕ) (n : ℕ) → n ≤ length t → back_to_sep (t ++ ys) n ≡ back_to_sep t n
unfolding back_to_sep
back_to_sep-append t ys zero h = refl
back_to_sep-append t ys (suc n) h =
    rw (get_or-append t ys n 0 (omega arith), back_to_sep-append t ys n (omega arith))

pub back_over_seps-append :
    (t ys : List ℕ) (n : ℕ) → n ≤ length t → back_over_seps (t ++ ys) n ≡ back_over_seps t n
unfolding back_over_seps
back_over_seps-append t ys zero h = refl
back_over_seps-append t ys (suc n) h =
    rw (get_or-append t ys n 0 (omega arith), back_over_seps-append t ys n (omega arith))

pub back_to_root-append :
    (t ys : List ℕ) (n : ℕ) → n ≤ length t → back_to_root (t ++ ys) n ≡ back_to_root t n
unfolding back_to_root
back_to_root-append t ys zero h = refl
back_to_root-append t ys (suc zero) h = refl
back_to_root-append t ys (suc (suc n)) h =
    rw (get_or-append t ys (suc n) 0 (omega arith), back_to_root-append t ys (suc n) (omega arith))

-- From `k` to `n` there is no separator, and one just before `k`.
pub record BackToSep (t : List ℕ) (n k : ℕ) : Type 0 where
  pub below : k ≤ n
  pub no_sep : (j : ℕ) → k ≤ j → j < n → sep_at t j ≡ false
  pub stop : (k ≡ 0) ⊎ ((i : ℕ) × (k ≡ suc i) × (sep_at t i ≡ true))

pub back_to_sep_lem : (t : List ℕ) (n : ℕ) → BackToSep t n (back_to_sep t n)
unfolding back_to_sep
back_to_sep_lem t zero = record {
  below = omega arith;
  no_sep = λ j a b. absurd (omega arith);
  stop = inl refl;
}
back_to_sep_lem t (suc n) = elim (Bool-cases (sep_at t n)) [
  | inl sep ↦ rw sep (record {
    below = omega arith;
    no_sep = λ j a b. absurd (omega arith);
    stop = inr (n, refl, sep);
  })
  | inr other ↦
      let r = back_to_sep_lem t n in
      rw other (record {
        below = omega (arith, r.below);
        no_sep = λ j a b. elim (Bool-cases (j == n)) [
          | inl last ↦ ground (arith, other)
          | inr before ↦ r.no_sep j a (ground arith)
        ];
        stop = r.stop;
      })
]

-- From `k` to `n` there are separators only, and none just before `k`.
pub record BackOverSeps (t : List ℕ) (n k : ℕ) : Type 0 where
  pub below : k ≤ n
  pub seps : (j : ℕ) → k ≤ j → j < n → sep_at t j ≡ true
  pub stop : (k ≡ 0) ⊎ ((i : ℕ) × (k ≡ suc i) × (sep_at t i ≡ false))

pub back_over_seps_lem : (t : List ℕ) (n : ℕ) → BackOverSeps t n (back_over_seps t n)
unfolding back_over_seps
back_over_seps_lem t zero = record {
  below = omega arith;
  seps = λ j a b. absurd (omega arith);
  stop = inl refl;
}
back_over_seps_lem t (suc n) = elim (Bool-cases (sep_at t n)) [
  | inl sep ↦
      let r = back_over_seps_lem t n in
      rw sep (record {
        below = omega (arith, r.below);
        seps = λ j a b. elim (Bool-cases (j == n)) [
          | inl last ↦ ground (arith, sep)
          | inr before ↦ r.seps j a (ground arith)
        ];
        stop = r.stop;
      })
  | inr other ↦ rw other (record {
    below = omega arith;
    seps = λ j a b. absurd (omega arith);
    stop = inr (n, refl, other);
  })
]

-- From `k` to `n` there are separators only; the first byte is kept.
pub record BackToRoot (t : List ℕ) (n k : ℕ) : Type 0 where
  pub below : k ≤ n
  pub seps : (j : ℕ) → k ≤ j → j < n → sep_at t j ≡ true
  pub kept : 0 < n → 0 < k
  pub bare : 1 < k → sep_at t (k - 1) ≡ false

pub back_to_root_lem : (t : List ℕ) (n : ℕ) → BackToRoot t n (back_to_root t n)
unfolding back_to_root
back_to_root_lem t zero = record {
  below = omega arith;
  seps = λ j a b. absurd (omega arith);
  kept = λ h. omega arith;
  bare = λ h. absurd (omega arith);
}
back_to_root_lem t (suc zero) = record {
  below = omega arith;
  seps = λ j a b. absurd (omega arith);
  kept = λ h. omega arith;
  bare = λ h. absurd (omega arith);
}
back_to_root_lem t (suc (suc n)) = elim (Bool-cases (sep_at t (suc n))) [
  | inl sep ↦
      let r = back_to_root_lem t (suc n) in
      rw sep (record {
        below = omega (arith, r.below);
        seps = λ j a b. elim (Bool-cases (j == suc n)) [
          | inl last ↦ ground (arith, sep)
          | inr before ↦ r.seps j a (ground arith)
        ];
        kept = λ h. r.kept (omega arith);
        bare = r.bare;
      })
  | inr other ↦ rw other (record {
    below = omega arith;
    seps = λ j a b. absurd (omega arith);
    kept = λ h. omega arith;
    bare = λ h. let e : suc (suc n) - 1 ≡ suc n = omega arith in rw e other;
  })
]
