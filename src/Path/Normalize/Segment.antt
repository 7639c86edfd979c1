-- ===== src/Path/Normalize/Segment.antt =====
-- src/nth_path.c: what the body of the loop of `nth_path_normalize` does with one part.
use narthex.Prelude.{
  ℕ, zero, suc, ◌+◌, ◌*◌, ◌≤◌, ◌<◌, ◌≡◌, refl, sym, ap, ◌∙◌, inl, inr, Bool, true, false, List, [],
  ◌∷◌, ◌&&◌, arith, length, length-append, get_or, ◌==◌, if◌then◌else◌, Bool-cases,
}
use narthex.Prelude.Shows.{get_or-append_if}
use narthex.Path.{path_sep}
use narthex.Path.Normalize.{
  Work, Outcome, going, write_byte, write_sep, write_seg, push, move_seg, dot_dot, segment,
}
use narthex.Path.Normalize.Spec.{
  part_of, is_dot, is_dot_dot, Parts, take_back, step_part, walk_parts, render,
}
use narthex.Path.Normalize.Round.{Written, Room, Appended, rewinds, front, moved, dotted}

-- After a part that ended at `stop`.
pub record Stepped (root : List ℕ) (stop : ℕ) (w w' : Work) (p : Parts) : Type 0 where
  pub written : Written root w' p
  pub keep : (j : ℕ) → stop ≤ j → get_or w'.buf j 0 ≡ get_or w.buf j 0
  pub same_length : length w'.buf ≡ length w.buf
  pub low : w'.write ≤ stop

module _ (realloc : ℕ → Bool) (grows : (n : ℕ) → realloc n ≡ true) (absolute : Bool)
    (root s : List ℕ) (read : ℕ) (w : Work) (p : Parts) (wr : Written root w p)
    (room : Room root s p.parts read w) where
  abbrev stop : ℕ
  stop = read + length s

  abbrev Goes : Outcome → Parts → Type 0
  Goes o q = (w' : Work) × (o ≡ going w') × Stepped root stop w w' q

  stays : Stepped root stop w w p
  stays = record {
    written = wr;
    keep = λ j le. refl;
    same_length = refl;
    low = omega (arith, room.behind);
  }

  first_byte : 0 < length s → get_or w.buf read 0 ≡ get_or s 0 0
  first_byte h = let e : read + 0 ≡ read = omega arith in rw e at (room.bytes 0 h)

  dot_test : ((length s == 1) && (get_or w.buf read 0 == b'.')) ≡ is_dot s
  dot_test = ground (arith, first_byte)

  dot_dot_test :
      ((length s == 2) && (get_or w.buf read 0 == b'.') && (get_or w.buf (read + 1) 0 == b'.'))
      ≡ is_dot_dot s
  dot_dot_test = ground (arith, first_byte, room.bytes 1)

  render_prefix :
      (x : List ℕ) (ps : List (List ℕ)) (k : ℕ)
      → k < length (render root ps)
      → get_or (render root (x ∷ ps)) k 0 ≡ get_or (render root ps) k 0
  unfolding render
  render_prefix x ps k h = ground (
    arith,
    get_or-append_if (front root ps) x k 0,
    get_or-append_if (render root ps) (path_sep ∷ []) k 0,
    length-append (render root ps) (path_sep ∷ []),
  )

  render_grows :
      (x : List ℕ) (ps : List (List ℕ)) → length (render root ps) ≤ length (render root (x ∷ ps))
  unfolding render
  render_grows x ps =
      ground
        (arith, length-append (front root ps) x, length-append (render root ps) (path_sep ∷ []))

  from_appended :
      (w' : Work) (q : Parts)
      → Appended root s p.parts stop w w'
      → q.parts ≡ s ∷ p.parts
      → w'.stack ≡ rewinds root q.real (s ∷ p.parts)
      → q.real ≤ suc (length p.parts)
      → Stepped root stop w w' q
  from_appended w' q a e st n = record {
    written = record {
      write_is = rw e a.write_is;
      out = λ k lt. rw e (a.out k lt);
      stack_is = rw e st;
      enough = rw e n;
    };
    keep = a.keep;
    same_length = a.same_length;
    low = a.low;
  }

  stack-write_sep : (write_sep (length root) w).stack ≡ w.stack
  stack-write_sep = ground arith

  -- ".." where no part can be taken back.
  no_back :
      w.stack ≡ []
      → p.real ≡ 0
      → is_dot_dot s ≡ true
      → (b : Bool)
      → Stepped root stop w
          (dot_dot b (length root) w [])
          (if b then p else record p { parts = s ∷ p.parts })
  unfolding dot_dot
  no_back e f d true = stays
  no_back e f d false =
      from_appended (write_byte b'.' (write_byte b'.' (write_sep (length root) w)))
        (record p { parts = s ∷ p.parts })
        (dotted root s p.parts read w room (ground (arith, d)) (ground (arith, d))
          (ground (arith, d)))
        refl (stack-write_sep ∙ e ∙ sym (ap (λ (r : ℕ). rewinds root r (s ∷ p.parts)) f))
        (omega (arith, f))

  at_root :
      (st : List ℕ)
      → st ≡ []
      → w.stack ≡ []
      → p.real ≡ 0
      → is_dot_dot s ≡ true
      → Stepped root stop w
          (dot_dot absolute (length root) w st)
          (if absolute then p else record p { parts = s ∷ p.parts })
  at_root st g e f d = rw g (no_back e f d absolute)

  no_stack : p.real ≡ 0 → w.stack ≡ []
  no_stack f = wr.stack_is ∙ ap (λ (r : ℕ). rewinds root r p.parts) f

  length_back :
      (x : List ℕ) (ps : List (List ℕ))
      → p.parts ≡ x ∷ ps
      → length (render root p.parts) ≡ length (render root (x ∷ ps))
  length_back x ps e = ap (λ q. length (render root q)) e

  taken_back :
      (x : List ℕ) (ps : List (List ℕ))
      → p.parts ≡ x ∷ ps
      → (k : ℕ) → k < length (render root ps)
      → get_or w.buf k 0 ≡ get_or (render root ps) k 0
  taken_back x ps e k lt =
      wr.out k (omega (arith, wr.write_is, length_back x ps e, render_grows x ps))
      ∙ ap (λ q. get_or (render root q) k 0) e
      ∙ render_prefix x ps k lt

  popped :
      (x : List ℕ) (ps : List (List ℕ)) (r : ℕ)
      → p.parts ≡ x ∷ ps
      → p.real ≡ suc r
      → (st : List ℕ) → st ≡ length (render root ps) ∷ rewinds root r ps
      → Stepped root stop w (dot_dot absolute (length root) w st) (record { parts = ps; real = r })
  unfolding dot_dot
  popped x ps r e f st g = rw g (record {
    written = record {
      write_is = refl;
      out = taken_back x ps e;
      stack_is = refl;
      enough = omega (arith, wr.enough, f, ap length e);
    };
    keep = λ j le. refl;
    same_length = refl;
    low = omega (arith, room.behind, wr.write_is, length_back x ps e, render_grows x ps);
  })

  -- ".." takes back the last real part, or stays where a relative path has none.
  back :
      (parts : List (List ℕ)) (real : ℕ)
      → p.parts ≡ parts
      → p.real ≡ real
      → is_dot_dot s ≡ true
      → Stepped root stop w
          (dot_dot absolute (length root) w w.stack)
          (take_back absolute p s parts real)
  unfolding dot_dot
  back (x ∷ ps) (suc r) e f d =
      popped x ps r e f w.stack (wr.stack_is ∙ (λ i. rewinds root (f i) (e i)))
  back [] (suc r) e f d = absurd (omega (arith, wr.enough, f, ap length e))
  back [] zero e f d = at_root w.stack (no_stack f) (no_stack f) f d
  back (x ∷ ps) zero e f d = at_root w.stack (no_stack f) (no_stack f) f d

  abbrev pushed : ℕ → Work
  pushed c = record (write_sep (length root) w) {
    stack = w.write ∷ (write_sep (length root) w).stack;
    stack_cap = c;
  }

  pushed-Stepped :
      (c : ℕ)
      → Stepped root stop w
          (write_seg read (length s) (pushed c))
          (record { parts = s ∷ p.parts; real = suc p.real })
  pushed-Stepped c =
      let a = moved root s p.parts read w room in
      record {
        written = record {
          write_is = a.write_is;
          out = a.out;
          stack_is = λ i. wr.write_is i ∷ (stack-write_sep ∙ wr.stack_is) i;
          enough = omega (arith, wr.enough);
        };
        keep = a.keep;
        same_length = a.same_length;
        low = a.low;
      }

  real_part :
      Goes
        (move_seg read (length s) (push realloc w.write (write_sep (length root) w)))
        (record { parts = s ∷ p.parts; real = suc p.real })
  unfolding push
  real_part =
      elim (Bool-cases
        (length (write_sep (length root) w).stack == (write_sep (length root) w).stack_cap)) [
          | inl full ↦ (
            _,
            rw (full, grows ((write_sep (length root) w).stack_cap * 2)),
            pushed-Stepped ((write_sep (length root) w).stack_cap * 2),
          )
          | inr more ↦ (_, rw more, pushed-Stepped (write_sep (length root) w).stack_cap)
        ]

  abbrev code_part : Bool → Bool → Outcome
  code_part dot dots =
      if dot
      then going w
      else if dots
      then going (dot_dot absolute (length root) w w.stack)
      else move_seg read (length s) (push realloc w.write (write_sep (length root) w))

  part_by :
      (dot dots : Bool)
      → is_dot s ≡ dot
      → is_dot_dot s ≡ dots
      → Goes (code_part dot dots) (step_part absolute p s)
  unfolding step_part
  part_by true dots d e = (w, refl, rw d stays)
  part_by false true d e =
      (dot_dot absolute (length root) w w.stack, refl, rw (d, e) (back p.parts p.real refl refl e))
  part_by false false d e = rw (d, e) real_part

  -- A part that is not empty.
  part_lem :
      Goes
        (code_part
          ((length s == 1) && (get_or w.buf read 0 == b'.'))
          ((length s == 2) && (get_or w.buf read 0 == b'.') && (get_or w.buf (read + 1) 0 == b'.')))
        (step_part absolute p s)
  part_lem = rw (dot_test, dot_dot_test) (part_by (is_dot s) (is_dot_dot s) refl refl)

  -- Separators at the end leave an empty part.
  walk_part_of :
      (t : List ℕ)
      → s ≡ t
      → Goes
          (if length t == 0
            then going w
            else code_part ((length s == 1) && (get_or w.buf read 0 == b'.')) (
                (length s == 2)
                && (get_or w.buf read 0 == b'.')
                && (get_or w.buf (read + 1) 0 == b'.')))
          (walk_parts absolute p (part_of t))
  unfolding walk_parts
  walk_part_of [] e = (w, refl, stays)
  walk_part_of (c ∷ t) e =
      let full : (length (c ∷ t) == 0) ≡ false = ground arith in rw (full, ← e) part_lem

  pub segment_lem :
      Goes
        (segment realloc absolute (length root) read (length s) w)
        (walk_parts absolute p (part_of s))
  unfolding segment
  segment_lem = walk_part_of s refl
