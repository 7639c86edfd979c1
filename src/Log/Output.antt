-- ===== src/Log/Output.antt =====
-- src/nth_log.c: the loop of `log_raw_write` around `write`.
use mathlib.Core.List.{append_assoc, append-nil}
use narthex.Prelude.{
  ℕ, zero, suc, ◌≤◌, ◌≡◌, refl, ap, ◌∙◌, List, [], ◌∷◌, ◌++◌, length, length-drop, take, drop,
  take-append-drop, arith,
}
use narthex.Log.{Response, wrote, interrupted, failed, finished, log_raw_write}

-- Each answer takes at least a byte, or says EINTR.
abbrev pub Takes : List Response → Type 0
Takes [] = Unit
Takes (wrote zero ∷ rs) = ⊥
Takes (wrote (suc k) ∷ rs) = Takes rs
Takes (interrupted ∷ rs) = Takes rs
Takes (failed ∷ rs) = ⊥

-- How many of the answers take something.
abbrev pub writes : List Response → ℕ
writes [] = 0
writes (wrote k ∷ rs) = suc (writes rs)
writes (_ ∷ rs) = writes rs

taken_all : (out p : List ℕ) (k : ℕ) → (out ++ take k p) ++ drop k p ≡ out ++ p
taken_all out p k = append_assoc out (take k p) (drop k p) ∙ ap (◌++◌ out) (take-append-drop k p)

-- Where each answer of write takes a byte or says EINTR, and as many take something as there are
-- bytes, log_raw_write ends and has written all of them, in order, behind what was written before.
pub log_raw_write-finished :
    (rs : List Response) (p out : List ℕ)
    → Takes rs
    → length p ≤ writes rs
    → log_raw_write rs p out ≡ (out ++ p, finished)
unfolding log_raw_write
log_raw_write-finished [] [] out t h = rw append-nil
log_raw_write-finished (r ∷ rs) [] out t h = rw append-nil
log_raw_write-finished [] (b ∷ p) out t h = absurd (omega arith)
log_raw_write-finished (wrote zero ∷ rs) (b ∷ p) out t h = absurd t
log_raw_write-finished (wrote (suc k) ∷ rs) (b ∷ p) out t h =
    log_raw_write-finished rs (drop k p) (out ++ take (suc k) (b ∷ p)) t
      (omega (arith, length-drop k p))
    ∙ ap (λ x. (x, finished)) (taken_all out (b ∷ p) (suc k))
log_raw_write-finished (interrupted ∷ rs) (b ∷ p) out t h =
    log_raw_write-finished rs (b ∷ p) out t h
log_raw_write-finished (failed ∷ rs) (b ∷ p) out t h = absurd t

-- Whatever write answers, what log_raw_write has written is a first part of the bytes, each once
-- and in order, behind what was written before; and all of them if the loop ended by its test.
pub log_raw_write-prefix :
    (rs : List Response) (p out : List ℕ)
    → (rest : List ℕ) × ((log_raw_write rs p out).0 ++ rest ≡ out ++ p)
      × ((log_raw_write rs p out).1 ≡ finished → rest ≡ [])
unfolding log_raw_write
log_raw_write-prefix [] [] out = ([], refl, λ _. refl)
log_raw_write-prefix (r ∷ rs) [] out = ([], refl, λ _. refl)
log_raw_write-prefix [] (b ∷ p) out = (b ∷ p, refl, λ h. cc)
log_raw_write-prefix (wrote zero ∷ rs) (b ∷ p) out = (b ∷ p, refl, λ h. cc)
log_raw_write-prefix (wrote (suc k) ∷ rs) (b ∷ p) out =
    let (rest, all, end) = log_raw_write-prefix rs (drop k p) (out ++ take (suc k) (b ∷ p)) in
    (rest, all ∙ taken_all out (b ∷ p) (suc k), end)
log_raw_write-prefix (interrupted ∷ rs) (b ∷ p) out = log_raw_write-prefix rs (b ∷ p) out
log_raw_write-prefix (failed ∷ rs) (b ∷ p) out = (b ∷ p, refl, λ h. cc)
