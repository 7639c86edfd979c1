-- ===== src/Path/Normalize/Resplit.antt =====
-- src/nth_path.c: the parts of the text that `nth_path_normalize` makes.
use mathlib.Core.List.{append_assoc, append-nil}
use narthex.Prelude.{
  ℕ, ◌≤◌, ◌<◌, ◌≡◌, refl, sym, ap, ◌∙◌, inl, inr, Bool, true, false, List, [], ◌∷◌, ◌++◌, arith,
  length, length-append, ltb, if◌then◌else◌, Bool-cases,
}
use narthex.Path.{path_sep, path_is_sep}
use narthex.Path.Normalize.Spec.{part_of, split_on_seps, render, is_rooted}
use narthex.Path.Normalize.Kept.{no_sep, IsPart, AllParts, in_order}

split-part : (cur s : List ℕ) → no_sep s ≡ true → split_on_seps cur s ≡ part_of (cur ++ s)
unfolding split_on_seps
split-part cur [] h = rw append-nil refl
split-part cur (c ∷ s) h =
    let c-other : path_is_sep c ≡ false = ground (arith, h) in
    rw c-other
      (split-part (cur ++ (c ∷ [])) s (ground (arith, h)) ∙ rw (append_assoc cur (c ∷ []) s) refl)

split-sep :
    (cur t s : List ℕ)
    → split_on_seps cur (t ++ (path_sep ∷ s)) ≡ split_on_seps cur t ++ split_on_seps [] s
unfolding split_on_seps
split-sep cur [] s = refl
split-sep cur (c ∷ t) s = elim (Bool-cases (path_is_sep c)) [
  | inl sep ↦
      rw (sep, split-sep [] t s)
        (sym (append_assoc (part_of cur) (split_on_seps [] t) (split_on_seps [] s)))
  | inr other ↦ rw other (split-sep (cur ++ (c ∷ [])) t s)
]

part_of-part : (s : List ℕ) → IsPart s → part_of s ≡ s ∷ []
part_of-part [] h = absurd (omega (arith, h))
part_of-part (c ∷ s) h = refl

render-part :
    (root s : List ℕ) (ps : List (List ℕ))
    → length root ≤ length (render root ps)
    → IsPart s
    → length root < length (render root (s ∷ ps))
unfolding render
render-part root s ps le a = ground (
  arith,
  a,
  length-append (render root ps) s,
  length-append (render root ps ++ (path_sep ∷ [])) s,
  length-append (render root ps) (path_sep ∷ []),
)

length-render :
    (root : List ℕ) (ps : List (List ℕ)) → AllParts ps → length root ≤ length (render root ps)
unfolding render
length-render root [] a = omega arith
length-render root (s ∷ ps) a =
    ground (arith, render-part root s ps (length-render root ps a.1) a.0)

render-behind :
    (root s : List ℕ) (qs : List (List ℕ))
    → length root < length (render root qs)
    → render root (s ∷ qs) ≡ render root qs ++ (path_sep ∷ s)
unfolding render
render-behind root s qs h =
    let more : ltb (length root) (length (render root qs)) ≡ true = ground arith in
    rw more (append_assoc (render root qs) (path_sep ∷ []) s)

split-behind :
    (root s : List ℕ) (qs : List (List ℕ))
    → length root < length (render root qs)
    → IsPart s
    → split_on_seps [] (render root qs) ≡ in_order qs
    → split_on_seps [] (render root (s ∷ qs)) ≡ in_order qs ++ (s ∷ [])
split-behind root s qs h a e =
    ap (split_on_seps []) (render-behind root s qs h)
    ∙ split-sep [] (render root qs) s
    ∙ (λ i. e i ++ (split-part [] s a.1 ∙ part_of-part s a) i)

-- The parts of the text that the parts make.
pub split-render :
    (b : Bool) (ps : List (List ℕ))
    → AllParts ps
    → (let root = if b then path_sep ∷ [] else [] in
        split_on_seps [] (render root ps) ≡ in_order ps)
unfolding render split_on_seps
split-render true [] a = refl
split-render false [] a = refl
split-render true (s ∷ []) a = split-part [] s a.0.1 ∙ part_of-part s a.0
split-render false (s ∷ []) a = split-part [] s a.0.1 ∙ part_of-part s a.0
split-render b (s ∷ x ∷ ps) a =
    let root = if b then path_sep ∷ [] else [] in
    split-behind root s (x ∷ ps) (render-part root x ps (length-render root ps a.1.1) a.1.0) a.0
      (split-render b (x ∷ ps) a.1)

is_rooted-append : (t s : List ℕ) → 0 < length t → is_rooted (t ++ s) ≡ is_rooted t
is_rooted-append [] s h = absurd (omega (arith, h))
is_rooted-append (c ∷ t) s h = refl

is_rooted-part : (s : List ℕ) → IsPart s → is_rooted s ≡ false
is_rooted-part [] a = refl
is_rooted-part (c ∷ s) a = ground (arith, a.1)

-- It is absolute if the root is.
pub is_rooted-render :
    (b : Bool) (ps : List (List ℕ))
    → AllParts ps
    → (let root = if b then path_sep ∷ [] else [] in is_rooted (render root ps) ≡ b)
unfolding render
is_rooted-render true [] a = refl
is_rooted-render false [] a = refl
is_rooted-render true (s ∷ []) a = refl
is_rooted-render false (s ∷ []) a = is_rooted-part s a.0
is_rooted-render b (s ∷ x ∷ ps) a =
    let root = if b then path_sep ∷ [] else [] in
    let h : length root < length (render root (x ∷ ps)) =
      render-part root x ps (length-render root ps a.1.1) a.1.0 in
    ap is_rooted (render-behind root s (x ∷ ps) h)
    ∙ is_rooted-append (render root (x ∷ ps)) (path_sep ∷ s) (omega (arith, h))
    ∙ is_rooted-render b (x ∷ ps) a.1
