-- ===== src/Path/Normalize/Twice.antt =====
-- src/nth_path.c: `nth_path_normalize` on a text that is normal.
use narthex.Prelude.{
  ℕ, ◌<◌, ◌≡◌, refl, sym, ap, ◌∙◌, inl, inr, Bool, true, false, List, [], ◌∷◌, length, ◌==◌,
  if◌then◌else◌, Bool-cases,
}
use narthex.Result.{done}
use narthex.Path.{NthPath, path_sep}
use narthex.Path.Text.{PathText}
use narthex.Path.Refine.{Holds, Refines}
use narthex.Path.Normalize.{nth_path_normalize}
use narthex.Path.Normalize.Refine.{normalize_text, nth_path_normalize-Refines}
use narthex.Path.Normalize.Spec.{split_on_seps, step_part, walk_parts, render, is_rooted, normal}
use narthex.Path.Normalize.Kept.{
  Kept, walk_parts-Kept, split_on_seps-AllParts, walk_again, Kept-AllParts,
}
use narthex.Path.Normalize.Resplit.{split-render, is_rooted-render}

normal-dot : normal (b'.' ∷ []) ≡ b'.' ∷ []
unfolding normal walk_parts step_part split_on_seps render
normal-dot = refl

normal-again :
    (b : Bool) (r : ℕ) (ps : List (List ℕ))
    → Kept b r ps
    → (let root = if b then path_sep ∷ [] else [] in
        let text = render root ps in
        normal (if length text == 0 then b'.' ∷ [] else text)
        ≡ (if length text == 0 then b'.' ∷ [] else text))
unfolding normal
normal-again b r ps k =
    let a = Kept-AllParts b r ps k in
    let root = if b then path_sep ∷ [] else [] in
    elim (Bool-cases (length (render root ps) == 0)) [
      | inl empty ↦ rw empty normal-dot
      | inr full ↦
          rw (full, is_rooted-render b ps a, split-render b ps a, walk_again b r ps k, full) refl
    ]

-- The normal form of a normal form is itself.
pub normal-normal : (t : List ℕ) → normal (normal t) ≡ normal t
unfolding normal
normal-normal t =
    let kept = walk_parts (is_rooted t) (record { parts = []; real = 0 }) (split_on_seps [] t) in
    normal-again (is_rooted t) kept.real kept.parts (
      walk_parts-Kept (is_rooted t) (record { parts = []; real = 0 }) (split_on_seps [] t)
        (split_on_seps-AllParts [] t refl) tt)

normalize_text-normal :
    (s : PathText) (t : List ℕ)
    → s.text ≡ normal t
    → (b : Bool) → s.normalized ≡ b
    → (if b then s else record s { text = normal s.text; normalized = true })
      ≡ record s { normalized = true }
normalize_text-normal s t e true f = λ i. record s { normalized = f i }
normalize_text-normal s t e false f =
    ap (λ (u : List ℕ). record s { text = u; normalized = true })
      (ap normal e ∙ normal-normal t ∙ sym e)

-- On a live path whose text is a normal form, in a block of more than one byte, where libc has room,
-- `nth_path_normalize` changes nothing but the NORMALIZED flag: a second call that has to do the
-- work again finds what the first one left.
pub nth_path_normalize-again :
    (realloc : ℕ → Bool) (p : NthPath) (s : PathText) (t : List ℕ)
    → ((n : ℕ) → realloc n ≡ true)
    → Holds p s
    → 1 < s.cap
    → s.text ≡ normal t
    → Refines (nth_path_normalize true realloc p) (done (record s { normalized = true }))
unfolding normalize_text
nth_path_normalize-again realloc p s t grows h room e =
    rw (← normalize_text-normal s t e s.normalized refl)
      (nth_path_normalize-Refines true realloc p s grows h room)
