-- ===== src/Path/Normalize/Scan.antt =====
-- src/nth_path.c: the loops of `nth_path_normalize` find the parts of the text.
use mathlib.Core.List.{append_assoc, append-nil}
use narthex.Prelude.{
  ℕ, zero, suc, ◌+◌, ◌≤◌, ◌<◌, ◌≡◌, refl, sym, ap, ◌∙◌, inl, inr, List, [], ◌∷◌, ◌++◌, arith,
  length, get_or, if◌then◌else◌, Bool-cases,
}
use narthex.Prelude.Shows.{Shows}
use narthex.Path.{path_is_sep}
use narthex.Path.Normalize.{seg_end, seps_end}
use narthex.Path.Normalize.Spec.{part_of, split_on_seps}

-- The bytes before the first separator, and what follows the separators behind them.
abbrev pub seg : List ℕ → List ℕ
seg [] = []
seg (c ∷ t) = let more = c ∷ seg t in if path_is_sep c then [] else more

abbrev pub skip : List ℕ → List ℕ
skip [] = []
skip (c ∷ t) = let more = skip t in if path_is_sep c then more else c ∷ t

abbrev pub rest_of : List ℕ → List ℕ
rest_of [] = []
rest_of (c ∷ t) = let more = rest_of t in if path_is_sep c then c ∷ t else more

abbrev pub after : List ℕ → List ℕ
after r = skip (rest_of r)

Shows-tail : (buf : List ℕ) (i c : ℕ) (t : List ℕ) → Shows buf i (c ∷ t) → Shows buf (suc i) t
Shows-tail buf i c t h = record {
  ends = omega (arith, h.ends);
  byte = λ k lt. let e : suc i + k ≡ i + suc k = omega arith in rw e (h.byte (suc k) (omega arith));
}

Shows-head : (buf : List ℕ) (i c : ℕ) (t : List ℕ) → Shows buf i (c ∷ t) → get_or buf i 0 ≡ c
Shows-head buf i c t h = let e : i + 0 ≡ i = omega arith in rw e at (h.byte 0 (omega arith))

pub seg_end_lem :
    (buf : List ℕ) (i : ℕ) (r : List ℕ)
    → Shows buf i r
    → seg_end buf (length r) i ≡ i + length (seg r)
unfolding seg_end
seg_end_lem buf i [] h = omega arith
seg_end_lem buf i (c ∷ t) h =
    ground (arith, Shows-head buf i c t h, seg_end_lem buf (suc i) t (Shows-tail buf i c t h))

-- What is left behind the part is where it was.
pub Shows-rest_of :
    (buf : List ℕ) (i : ℕ) (r : List ℕ) → Shows buf i r → Shows buf (i + length (seg r)) (rest_of r)
Shows-rest_of buf i [] h = record {
  ends = omega (arith, h.ends);
  byte = λ k lt. absurd (omega arith);
}
Shows-rest_of buf i (c ∷ t) h = elim (Bool-cases (path_is_sep c)) [
  | inl sep ↦ let e : i + 0 ≡ i = omega arith in rw (sep, e) h
  | inr other ↦
      let e : i + suc (length (seg t)) ≡ suc i + length (seg t) = omega arith in
      rw (other, e) (Shows-rest_of buf (suc i) t (Shows-tail buf i c t h))
]

pub length-seg : (r : List ℕ) → length (seg r) + length (rest_of r) ≡ length r
length-seg [] = omega arith
length-seg (c ∷ t) = ground (arith, length-seg t)

pub length-skip : (t : List ℕ) → length (skip t) ≤ length t
length-skip [] = omega arith
length-skip (c ∷ t) = ground (arith, length-skip t)

pub seps_end_lem :
    (buf : List ℕ) (i : ℕ) (t : List ℕ)
    → Shows buf i t
    → seps_end buf (length t) i + length (skip t) ≡ i + length t
unfolding seps_end
seps_end_lem buf i [] h = omega arith
seps_end_lem buf i (c ∷ t) h =
    ground (arith, Shows-head buf i c t h, seps_end_lem buf (suc i) t (Shows-tail buf i c t h))

pub Shows-skip :
    (buf : List ℕ) (i j : ℕ) (t : List ℕ)
    → Shows buf i t
    → j + length (skip t) ≡ i + length t
    → Shows buf j (skip t)
Shows-skip buf i j [] h e = let f : j ≡ i = omega arith in rw f h
Shows-skip buf i j (c ∷ t) h e = elim (Bool-cases (path_is_sep c)) [
  | inl sep ↦ rw sep (Shows-skip buf (suc i) j t (Shows-tail buf i c t h) (ground (arith, e)))
  | inr other ↦ let f : j ≡ i = ground (arith, e) in rw (other, f) h
]

-- Behind a part stands a separator, if anything.
pub length-after : (r : List ℕ) → 0 < length (after r) → length (after r) < length (rest_of r)
length-after [] h = absurd (omega arith)
length-after (c ∷ t) h = elim (Bool-cases (path_is_sep c)) [
  | inl sep ↦ rw sep (ground (arith, length-skip t))
  | inr other ↦ rw other (length-after t (ground (arith, h)))
]

pub split-skip : (t : List ℕ) → split_on_seps [] (skip t) ≡ split_on_seps [] t
unfolding split_on_seps
split-skip [] = refl
split-skip (c ∷ t) = ground (arith, split-skip t)

split-seg :
    (cur r : List ℕ) → split_on_seps cur r ≡ part_of (cur ++ seg r) ++ split_on_seps [] (after r)
unfolding split_on_seps
split-seg cur [] = rw (append-nil, append-nil)
split-seg cur (c ∷ t) = elim (Bool-cases (path_is_sep c)) [
  | inl sep ↦ rw (sep, sep, append-nil) (ap (◌++◌ (part_of cur)) (sym (split-skip t)))
  | inr other ↦ rw other (split-seg (cur ++ (c ∷ [])) t ∙ rw (append_assoc cur (c ∷ []) (seg t)))
]

pub split_on_seps-seg :
    (r : List ℕ) → split_on_seps [] r ≡ part_of (seg r) ++ split_on_seps [] (after r)
split_on_seps-seg r = split-seg [] r

pub get_or-seg : (r : List ℕ) (k : ℕ) → k < length (seg r) → get_or (seg r) k 0 ≡ get_or r k 0
get_or-seg [] k h = absurd (omega arith)
get_or-seg (c ∷ t) zero h = ground (arith, h)
get_or-seg (c ∷ t) (suc k) h = ground (arith, h, get_or-seg t k)
