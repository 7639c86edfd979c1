-- ===== src/Path/Normalize/Rounds.antt =====
-- src/nth_path.c: the loop of `nth_path_normalize` goes through the parts of the text.
use narthex.Prelude.{
  ℕ, zero, suc, ◌+◌, ◌-◌, ◌≤◌, ◌<◌, ◌≡◌, refl, sym, ap, ◌∙◌, inl, inr, Bool, true, false, List, [],
  ◌∷◌, ◌++◌, arith, length, ltb, Bool-cases,
}
use narthex.Prelude.Shows.{Shows}
use narthex.Path.Normalize.{Work, Outcome, going, seg_end, seps_end, segment, rounds}
use narthex.Path.Normalize.Spec.{part_of, Parts, split_on_seps, step_part, walk_parts}
use narthex.Path.Normalize.Scan.{
  seg, after, rest_of, length-seg, length-skip, length-after, seg_end_lem, seps_end_lem,
  Shows-rest_of, Shows-skip, split_on_seps-seg, get_or-seg,
}
use narthex.Path.Normalize.Round.{Written, Room}
use narthex.Path.Normalize.Segment.{Stepped, segment_lem}

-- At the head of the loop: the text `r` is left, and there is room for what is written before it.
pub record Ready (root r : List ℕ) (len read : ℕ) (w : Work) (p : Parts) : Type 0 where
  pub written : Written root w p
  pub at_end : read + length r ≡ len
  pub inside : len < length w.buf
  pub left : Shows w.buf read r
  pub behind : w.write ≤ read
  pub gap : length root < w.write → 0 < length r → w.write < read

-- After the loop.
pub record Over (root : List ℕ) (len : ℕ) (w w' : Work) (p : Parts) : Type 0 where
  pub written : Written root w' p
  pub same_length : length w'.buf ≡ length w.buf
  pub low : w'.write ≤ len

pub walk_parts-append :
    (absolute : Bool) (p : Parts) (ss ts : List (List ℕ))
    → walk_parts absolute p (ss ++ ts) ≡ walk_parts absolute (walk_parts absolute p ss) ts
unfolding walk_parts
walk_parts-append absolute p [] ts = refl
walk_parts-append absolute p (s ∷ ss) ts = walk_parts-append absolute (step_part absolute p s) ss ts

walk_parts-seg :
    (absolute : Bool) (p : Parts) (r : List ℕ)
    → walk_parts absolute p (split_on_seps [] r)
      ≡ walk_parts absolute (walk_parts absolute p (part_of (seg r))) (split_on_seps [] (after r))
walk_parts-seg absolute p r =
    ap (walk_parts absolute p) (split_on_seps-seg r)
    ∙ walk_parts-append absolute p (part_of (seg r)) (split_on_seps [] (after r))

length-after-lt : (r : List ℕ) (n : ℕ) → 0 < length r → length r ≤ suc n → length (after r) ≤ n
length-after-lt r n h le = ground (arith, length-seg r, length-after r, length-skip (rest_of r))

module _ (realloc : ℕ → Bool) (grows : (n : ℕ) → realloc n ≡ true) (absolute : Bool) (root : List ℕ)
    (len : ℕ) where
  module _ (r : List ℕ) (read : ℕ) (w : Work) (p : Parts) (st : Ready root r len read w p)
      (some_left : 0 < length r) where
    abbrev stop : ℕ
    stop = read + length (seg r)

    abbrev next : ℕ
    next = seps_end w.buf (len - stop) stop

    stop-seg_end : seg_end w.buf (len - read) read ≡ stop
    stop-seg_end =
        let e : len - read ≡ length r = omega (arith, st.at_end) in
        rw e (seg_end_lem w.buf read r st.left)

    room : Room root (seg r) p.parts read w
    room = record {
      write_is = st.written.write_is;
      out = st.written.out;
      behind = st.behind;
      gap = λ h. st.gap h some_left;
      inside = omega (arith, st.left.ends, length-seg r);
      bytes = λ k lt. st.left.byte k (omega (arith, length-seg r)) ∙ sym (get_or-seg r k lt);
    }

    next_lem : next + length (after r) ≡ stop + length (rest_of r)
    next_lem =
        let e : len - stop ≡ length (rest_of r) = omega (arith, st.at_end, length-seg r) in
        rw e (seps_end_lem w.buf stop (rest_of r) (Shows-rest_of w.buf read r st.left))

    left : Shows w.buf next (after r)
    left = Shows-skip w.buf stop next (rest_of r) (Shows-rest_of w.buf read r st.left) next_lem

    stop_le : stop ≤ next
    stop_le = omega (arith, next_lem, length-skip (rest_of r))

    Stepped-Ready :
        (w' : Work) (q : Parts) → Stepped root stop w w' q → Ready root (after r) len next w' q
    Stepped-Ready w' q t = record {
      written = t.written;
      at_end = omega (arith, next_lem, length-seg r, st.at_end);
      inside = omega (arith, t.same_length, st.inside);
      left = record {
        ends = omega (arith, left.ends, t.same_length);
        byte = λ k lt. t.keep (next + k) (omega (arith, stop_le)) ∙ left.byte k lt;
      };
      behind = omega (arith, t.low, stop_le);
      gap = λ h some. omega (arith, t.low, next_lem, length-after r some);
    }

  abbrev Ends : Outcome → Work → Parts → List ℕ → Type 0
  Ends o w p r =
      (w' : Work) × (o ≡ going w') × Over root len w w' (walk_parts absolute p (split_on_seps [] r))

  nothing_left :
      (r : List ℕ) (read : ℕ) (w : Work) (p : Parts)
      → Ready root r len read w p
      → length r ≡ 0
      → Ends (going w) w p r
  unfolding split_on_seps walk_parts
  nothing_left [] read w p st e = (
    w,
    refl,
    record { written = st.written; same_length = refl; low = omega (arith, st.behind, st.at_end) },
  )
  nothing_left (c ∷ t) read w p st e = absurd (omega (arith, e))

  rounds-none :
      (n read : ℕ) (w : Work)
      → ltb read len ≡ false
      → rounds realloc absolute (length root) len (suc n) read w ≡ going w
  unfolding rounds
  rounds-none n read w none = rw (rounds, none) refl

  rounds-more :
      (n read : ℕ) (w w' : Work) (end : ℕ)
      → ltb read len ≡ true
      → seg_end w.buf (len - read) read ≡ end
      → segment realloc absolute (length root) read (end - read) w ≡ going w'
      → rounds realloc absolute (length root) len (suc n) read w
        ≡ rounds realloc absolute (length root) len n (seps_end w.buf (len - end) end) w'
  unfolding rounds
  rounds-more n read w w' end more e f =
      let f' : segment realloc absolute (length root) read (seg_end w.buf (len - read) read - read)
            w
          ≡ going w' =
        rw e f in
      rw (rounds, more, f')
        (ap (λ (x : ℕ). rounds realloc absolute (length root) len n (seps_end w.buf (len - x) x) w')
          e)

  pub rounds_lem :
      (n : ℕ) (r : List ℕ) (read : ℕ) (w : Work) (p : Parts)
      → length r ≤ n
      → Ready root r len read w p
      → Ends (rounds realloc absolute (length root) len n read w) w p r
  unfolding rounds
  rounds_lem zero r read w p le st = nothing_left r read w p st (omega (arith, le))
  rounds_lem (suc n) r read w p le st = elim (Bool-cases (ltb read len)) [
    | inr none ↦
        let (w', e, o) = nothing_left r read w p st (ground (arith, none, st.at_end)) in
        (w', rounds-none n read w none ∙ e, o)
    | inl more ↦
        let some : 0 < length r = ground (arith, more, st.at_end) in
        let (w', e, t) =
          segment_lem realloc grows absolute root (seg r) read w p st.written
            (room r read w p st some) in
        let q = walk_parts absolute p (part_of (seg r)) in
        let (w'', f, o) =
          rounds_lem n (after r) (next r read w p st some) w' q (length-after-lt r n some le)
            (Stepped-Ready r read w p st some w' q t) in
        let d : (read + length (seg r)) - read ≡ length (seg r) = omega arith in
        (
          w'',
          rounds-more n read w w' (read + length (seg r)) more (stop-seg_end r read w p st some)
                (rw d e)
              ∙ f,
          record {
            written = rw (walk_parts-seg absolute p r) o.written;
            same_length = o.same_length ∙ t.same_length;
            low = o.low;
          },
        )
  ]
