-- ===== src/Path/Normalize/Round.antt =====
-- src/nth_path.c: one round of the loop of `nth_path_normalize` does to the bytes what `step_part` does
-- to the parts.
use narthex.Prelude.{
  ℕ, zero, suc, ◌+◌, ◌-◌, ◌≤◌, ◌<◌, ◌≡◌, refl, ◌∙◌, inl, inr, true, false, List, [], ◌∷◌, ◌++◌,
  ◌&&◌, arith, length, length-append, length-set, take, drop, set, get_or, ltb, leb, if◌then◌else◌,
  Bool-cases,
}
use narthex.Prelude.Shows.{get_or-append_if}
use narthex.Path.{path_sep}
use narthex.Path.Normalize.{Work, write_byte, write_sep, write_seg}
use narthex.Path.Normalize.Spec.{Parts, render}
use narthex.Path.Normalize.Writes.{
  get_or-set, get_or-memcpy, length-memcpy, length-take-drop, get_or-take-drop,
}

-- The offsets at which the parts that can be taken back begin, with the separators before them.
abbrev pub rewinds : List ℕ → ℕ → List (List ℕ) → List ℕ
rewinds root zero ps = []
rewinds root (suc r) [] = []
rewinds root (suc r) (p ∷ ps) = length (render root ps) ∷ rewinds root r ps

-- The bytes up to `write` are the parts.
pub record Written (root : List ℕ) (w : Work) (p : Parts) : Type 0 where
  pub write_is : w.write ≡ length (render root p.parts)
  pub out : (k : ℕ) → k < w.write → get_or w.buf k 0 ≡ get_or (render root p.parts) k 0
  pub stack_is : w.stack ≡ rewinds root p.real p.parts
  pub enough : p.real ≤ length p.parts

-- Before the next part: the text, less the separator that `write_sep` puts there.
abbrev pub front : List ℕ → List (List ℕ) → List ℕ
front root ps =
    let t = render root ps in if ltb (length root) (length t) then t ++ (path_sep ∷ []) else t

-- What a write of the part `s` behind the text does.
pub record Appended (root s : List ℕ) (ps : List (List ℕ)) (stop : ℕ) (w w' : Work) : Type 0 where
  pub write_is : w'.write ≡ length (render root (s ∷ ps))
  pub out : (k : ℕ) → k < w'.write → get_or w'.buf k 0 ≡ get_or (render root (s ∷ ps)) k 0
  pub keep : (j : ℕ) → stop ≤ j → get_or w'.buf j 0 ≡ get_or w.buf j 0
  pub same_length : length w'.buf ≡ length w.buf
  pub low : w'.write ≤ stop

-- The room for it: it stands at `read`, behind what is written, and behind a separator if there is one to write.
pub record Room (root s : List ℕ) (ps : List (List ℕ)) (read : ℕ) (w : Work) : Type 0 where
  pub write_is : w.write ≡ length (render root ps)
  pub out : (k : ℕ) → k < w.write → get_or w.buf k 0 ≡ get_or (render root ps) k 0
  pub behind : w.write ≤ read
  pub gap : length root < w.write → w.write < read
  pub inside : read + length s ≤ length w.buf
  pub bytes : (k : ℕ) → k < length s → get_or w.buf (read + k) 0 ≡ get_or s k 0

module _ (root s : List ℕ) (ps : List (List ℕ)) (read : ℕ) (w : Work)
    (room : Room root s ps read w) where
  abbrev pub w1 : Work
  w1 = write_sep (length root) w

  -- The separator.
  record Fronted : Type 0 where
    write_front : w1.write ≡ length (front root ps)
    out_front : (k : ℕ) → k < w1.write → get_or w1.buf k 0 ≡ get_or (front root ps) k 0
    keep_front : (j : ℕ) → read ≤ j → get_or w1.buf j 0 ≡ get_or w.buf j 0
    length_front : length w1.buf ≡ length w.buf
    low_front : w1.write ≤ read

  fronted : Fronted
  fronted = elim (Bool-cases (ltb (length root) w.write)) [
    | inl sep ↦
        let sep' : ltb (length root) (length (render root ps)) ≡ true = rw (← room.write_is) sep in
        record {
          write_front =
              ground
                (arith, sep, sep', room.write_is, length-append (render root ps) (path_sep ∷ []));
          out_front = λ k lt. ground (
            arith,
            sep,
            sep',
            room.write_is,
            room.out k,
            room.gap,
            room.inside,
            get_or-append_if (render root ps) (path_sep ∷ []) k 0,
            get_or-set w.buf w.write path_sep k,
          );
          keep_front = λ j le.
              ground (arith, sep, room.gap, room.inside, get_or-set w.buf w.write path_sep j);
          length_front = ground (arith, sep, length-set w.buf w.write path_sep);
          low_front = ground (arith, sep, room.gap);
        }
    | inr none ↦
        let none' : ltb (length root) (length (render root ps)) ≡ false =
          rw (← room.write_is) none in
        record {
          write_front = ground (arith, none, none', room.write_is);
          out_front = λ k lt. ground (arith, none, none', room.out k);
          keep_front = λ j le. ground (arith, none);
          length_front = ground (arith, none);
          low_front = ground (arith, none, room.behind);
        }
  ]

  -- The bytes of the part, written behind it in one go or byte by byte.
  appended :
      (w' : Work)
      → w'.write ≡ w1.write + length s
      → length w'.buf ≡ length w1.buf
      → ((j : ℕ)
          → get_or w'.buf j 0 ≡ (
              if leb w1.write j && ltb j (w1.write + length s)
              then get_or s (j - w1.write) 0
              else get_or w1.buf j 0))
      → Appended root s ps (read + length s) w w'
  unfolding render
  appended w' e l b =
      let f = fronted in
      record {
        write_is = ground (arith, e, f.write_front, length-append (front root ps) s);
        out = λ k lt.
            ground
              (arith, e, b k, f.write_front, f.out_front k, get_or-append_if (front root ps) s k 0);
        keep = λ j le. ground (arith, b j, f.keep_front j, f.low_front);
        same_length = l ∙ f.length_front;
        low = ground (arith, e, f.low_front);
      }

  -- The part is moved down from where it stands.
  pub moved : Appended root s ps (read + length s) w (write_seg read (length s) w1)
  moved =
      let f = fronted in
      let n = length s in
      let fits : read + n ≤ length w1.buf = omega (arith, f.length_front, room.inside) in
      let here : length (take n (drop read w1.buf)) ≡ n = length-take-drop w1.buf read n fits in
      appended (write_seg read n w1) refl
        (length-memcpy w1.buf w1.write (take n (drop read w1.buf)))
        (λ j. ground (
          arith,
          here,
          fits,
          f.low_front,
          get_or-memcpy w1.buf w1.write (take n (drop read w1.buf)) j,
          get_or-take-drop w1.buf read n (j - w1.write),
          f.keep_front (read + (j - w1.write)),
          room.bytes (j - w1.write),
        ))

  -- The two dots are written.
  pub dotted :
      length s ≡ 2
      → get_or s 0 0 ≡ b'.'
      → get_or s 1 0 ≡ b'.'
      → Appended root s ps (read + length s) w (write_byte b'.' (write_byte b'.' w1))
  dotted n a b =
      let f = fronted in
      appended (write_byte b'.' (write_byte b'.' w1)) (omega (arith, n))
        (length-set (set w1.buf w1.write b'.') (w1.write + 1) b'.'
          ∙ length-set w1.buf w1.write b'.')
        (λ j. ground (
          arith,
          n,
          a,
          b,
          f.low_front,
          f.length_front,
          room.inside,
          length-set w1.buf w1.write b'.',
          get_or-set (set w1.buf w1.write b'.') (w1.write + 1) b'.' j,
          get_or-set w1.buf w1.write b'.' j,
        ))
