-- ===== src/Log/Text.antt =====
-- Every step keeps the invariant on the text.
use mathlib.Core.List.{append_assoc}
use native.Mathlib.Nat.{zero-add}
use narthex.Prelude.Shows.{Shows-append}
use narthex.Prelude.{
  ℕ, suc, ◌+◌, ◌≤◌, ◌<◌, ◌≡◌, inl, inr, refl, sym, ap, ◌∙◌, false, List, [], ◌∷◌, ◌++◌, length,
  get_or, arith,
}
use narthex.Log.{GLog, load}
use narthex.Log.Threads.{
  Place, outside, at_count, at_unlock, at_prefix, at_msg, at_newline, at_release, Shared, line_of,
}
use narthex.Log.Inv.{holds, counts, high, concat, Knows, TextInv}
use narthex.Log.Bytes.{length-line_of}

pub concat-append : (ls ms : List (List ℕ)) → concat (ls ++ ms) ≡ concat ls ++ concat ms
concat-append [] ms = refl
concat-append (l ∷ ls) ms =
    ap (◌++◌ l) (concat-append ls ms) ∙ sym (append_assoc l (concat ls) (concat ms))

load_eq :
    (b : ℕ → ℕ) (t : List ℕ) (i : ℕ)
    → ((j : ℕ) → j < length t → b (i + j) ≡ get_or t j 0)
    → load b i (length t) ≡ t
unfolding load
load_eq b [] i h = refl
load_eq b (x ∷ t) i h =
    ground (
      arith,
      h 0 (omega arith),
      load_eq b t (suc i) (λ j k. ground (arith, h (suc j) (omega arith))),
    )

-- With no line to come, the buffer holds the text.
pub load_text :
    {text : List ℕ} {s : Shared} {place : ℕ → Place} (inv : TextInv text s place)
    → ((a : ℕ) → high (place a) ≡ 0)
    → load s.log.bytes 0 (length text) ≡ text
load_text {text} {s} inv none = load_eq s.log.bytes text 0 (λ j k. rw zero-add (there j k))
  where
    there : (j : ℕ) → j < length text → s.log.bytes j ≡ get_or text j 0
    there j k = elim (inv.written j (omega (arith, inv.index))) [
      | inl same ↦ same
      | inr (a, from, to) ↦ absurd (omega (arith, none a))
    ]

-- A thread's line ends within the text.
pub high-le : (g : GLog) (t : List ℕ) (p : Place) → Knows g t p → high p ≤ length t
high-le g t outside kn = omega arith
high-le g t (at_count e i st) (ok, long, has) =
    omega (arith, length-line_of e st i ok long, has.ends)
high-le g t (at_unlock e i st) (ok, long, has) =
    omega (arith, length-line_of e st i ok long, has.ends)
high-le g t (at_prefix e i st) (ok, long, has) =
    omega (arith, length-line_of e st i ok long, has.ends)
high-le g t (at_msg e i st) (ok, long, has) = omega (arith, length-line_of e st i ok long, has.ends)
high-le g t (at_newline e i st) (ok, long, has) =
    omega (arith, length-line_of e st i ok long, has.ends)
high-le g t (at_release e i st) (ok, long, has) =
    omega (arith, length-line_of e st i ok long, has.ends)
high-le g t p kn = omega arith

-- What a thread without the lock knows survives where a line is added.
pub Knows-append :
    (g g' : GLog) (t l : List ℕ) (p : Place)
    → g'.buf_size ≡ g.buf_size
    → holds p ≡ false
    → Knows g t p
    → Knows g' (t ++ l) p
Knows-append g g' t l outside e h kn = tt
Knows-append g g' t l (at_prefix x i st) e h kn =
    ground (arith, Shows-append t i (line_of x st) l kn.2)
Knows-append g g' t l (at_msg x i st) e h kn =
    ground (arith, Shows-append t i (line_of x st) l kn.2)
Knows-append g g' t l (at_newline x i st) e h kn =
    ground (arith, Shows-append t i (line_of x st) l kn.2)
Knows-append g g' t l (at_release x i st) e h kn =
    ground (arith, Shows-append t i (line_of x st) l kn.2)
Knows-append g g' t l p e h kn = ground arith

-- A thread that neither holds the lock nor writes has no line.
pub high-idle : (p : Place) → holds p ≡ false → counts p ≡ 0 → high p ≡ 0
high-idle p h c = ground arith

pub Knows-idle :
    (g g' : GLog) (t t' : List ℕ) (p : Place)
    → g'.buf_size ≡ g.buf_size
    → holds p ≡ false
    → counts p ≡ 0
    → Knows g t p
    → Knows g' t' p
Knows-idle g g' t t' outside e h c kn = tt
Knows-idle g g' t t' p e h c kn = ground arith
