-- ===== src/Path/Normalize/Kept.antt =====
-- src/nth_path.c: the parts that `nth_path_normalize` keeps.
use narthex.Prelude.{
  ℕ, zero, suc, ◌<◌, ◌≡◌, refl, ap, ◌∙◌, inl, inr, Bool, true, false, not, List, [], ◌∷◌, ◌++◌,
  ◌&&◌, arith, length, Bool-cases,
}
use narthex.Path.{path_is_sep}
use narthex.Path.Normalize.Spec.{
  Parts, part_of, split_on_seps, is_dot, is_dot_dot, take_back, step_part, walk_parts,
}
use narthex.Path.Normalize.Rounds.{walk_parts-append}

abbrev pub no_sep : List ℕ → Bool
no_sep [] = true
no_sep (c ∷ t) = let rest = no_sep t in not (path_is_sep c) && rest

-- A part is not empty and has no separator.
abbrev pub IsPart : List ℕ → Type 0
IsPart s = (0 < length s) × (no_sep s ≡ true)

abbrev pub AllParts : List (List ℕ) → Type 0
AllParts [] = Unit
AllParts (s ∷ ss) = IsPart s × AllParts ss

-- What stays: names, the last one first, and behind them ".." if the path is relative.
abbrev pub Kept : Bool → ℕ → List (List ℕ) → Type 0
Kept absolute zero [] = Unit
Kept absolute (suc r) [] = ⊥
Kept absolute zero (s ∷ ps) =
    (absolute ≡ false)
    × IsPart s
    × (is_dot s ≡ false)
    × (is_dot_dot s ≡ true)
    × Kept absolute zero ps
Kept absolute (suc r) (s ∷ ps) =
    IsPart s × (is_dot s ≡ false) × (is_dot_dot s ≡ false) × Kept absolute r ps

take_back-Kept :
    (absolute : Bool) (s : List ℕ) (ps : List (List ℕ)) (r : ℕ)
    → IsPart s
    → is_dot s ≡ false
    → is_dot_dot s ≡ true
    → Kept absolute r ps
    → (let q = take_back absolute (record { parts = ps; real = r }) s ps r in
        Kept absolute q.real q.parts)
take_back-Kept absolute s (x ∷ ps) (suc r) a o d k = k.3
take_back-Kept true s [] zero a o d k = k
take_back-Kept false s [] zero a o d k = (refl, a, o, d, k)
take_back-Kept true s (x ∷ ps) zero a o d k = k
take_back-Kept false s (x ∷ ps) zero a o d k = (refl, a, o, d, k)
take_back-Kept absolute s [] (suc r) a o d k = absurd k

step_part-Kept :
    (absolute : Bool) (p : Parts) (s : List ℕ)
    → IsPart s
    → Kept absolute p.real p.parts
    → (let q = step_part absolute p s in Kept absolute q.real q.parts)
unfolding step_part
step_part-Kept absolute p s a k = elim (Bool-cases (is_dot s)) [
  | inl dot ↦ rw dot k
  | inr other ↦ elim (Bool-cases (is_dot_dot s)) [
    | inl dots ↦ rw (other, dots) (take_back-Kept absolute s p.parts p.real a other dots k)
    | inr name ↦ rw (other, name) (a, other, name, k)
  ]
]

pub walk_parts-Kept :
    (absolute : Bool) (p : Parts) (ss : List (List ℕ))
    → AllParts ss
    → Kept absolute p.real p.parts
    → (let q = walk_parts absolute p ss in Kept absolute q.real q.parts)
unfolding walk_parts
walk_parts-Kept absolute p [] a k = k
walk_parts-Kept absolute p (s ∷ ss) a k =
    walk_parts-Kept absolute (step_part absolute p s) ss a.1 (step_part-Kept absolute p s a.0 k)

no_sep-append : (s t : List ℕ) → no_sep s ≡ true → no_sep t ≡ true → no_sep (s ++ t) ≡ true
no_sep-append [] t a b = b
no_sep-append (c ∷ s) t a b = ground (arith, a, no_sep-append s t)

AllParts-part_of : (cur : List ℕ) → no_sep cur ≡ true → AllParts (part_of cur)
AllParts-part_of [] h = tt
AllParts-part_of (c ∷ t) h = ((omega arith, h), tt)

AllParts-append : (ss ts : List (List ℕ)) → AllParts ss → AllParts ts → AllParts (ss ++ ts)
AllParts-append [] ts a b = b
AllParts-append (s ∷ ss) ts a b = (a.0, AllParts-append ss ts a.1 b)

pub split_on_seps-AllParts : (cur t : List ℕ) → no_sep cur ≡ true → AllParts (split_on_seps cur t)
unfolding split_on_seps
split_on_seps-AllParts cur [] h = AllParts-part_of cur h
split_on_seps-AllParts cur (c ∷ t) h = elim (Bool-cases (path_is_sep c)) [
  | inl sep ↦ rw sep (
      AllParts-append (part_of cur) (split_on_seps [] t) (AllParts-part_of cur h)
        (split_on_seps-AllParts [] t refl))
  | inr other ↦
      rw other
        (split_on_seps-AllParts (cur ++ (c ∷ [])) t (no_sep-append cur (c ∷ []) h (rw other refl)))
]

-- In the order of the text.
abbrev pub in_order : List (List ℕ) → List (List ℕ)
in_order [] = []
in_order (s ∷ ss) = in_order ss ++ (s ∷ [])

step_again :
    (absolute : Bool) (r : ℕ) (s : List ℕ) (ps : List (List ℕ))
    → Kept absolute r (s ∷ ps)
    → (r' : ℕ) × Kept absolute r' ps
      × (step_part absolute (record { parts = ps; real = r' }) s
          ≡ record { parts = s ∷ ps; real = r })
unfolding step_part
step_again absolute (suc r) s ps k = (r, k.3, rw (k.1, k.2) refl)
step_again absolute zero s [] k = (zero, tt, rw (k.2, k.3, k.0) refl)
step_again absolute zero s (x ∷ ps) k = (zero, k.4, rw (k.2, k.3, k.0) refl)

-- What stays of the parts that stay is all of them.
pub walk_again :
    (absolute : Bool) (r : ℕ) (ps : List (List ℕ))
    → Kept absolute r ps
    → walk_parts absolute (record { parts = []; real = 0 }) (in_order ps)
      ≡ record { parts = ps; real = r }
unfolding walk_parts
walk_again absolute zero [] k = refl
walk_again absolute (suc r) [] k = absurd k
walk_again absolute r (s ∷ ps) k =
    let (r', k', e) = step_again absolute r s ps k in
    walk_parts-append absolute (record { parts = []; real = 0 }) (in_order ps) (s ∷ [])
    ∙ ap (λ q. step_part absolute q s) (walk_again absolute r' ps k')
    ∙ e

pub Kept-AllParts :
    (absolute : Bool) (r : ℕ) (ps : List (List ℕ)) → Kept absolute r ps → AllParts ps
Kept-AllParts absolute zero [] k = tt
Kept-AllParts absolute (suc r) [] k = absurd k
Kept-AllParts absolute zero (s ∷ ps) k = (k.1, Kept-AllParts absolute zero ps k.4)
Kept-AllParts absolute (suc r) (s ∷ ps) k = (k.0, Kept-AllParts absolute r ps k.3)
