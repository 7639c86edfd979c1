-- ===== src/Path/Normalize/Refine.antt =====
-- src/nth_path.c: `nth_path_normalize` puts the normal form of the text in place.
use narthex.Prelude.{
  ℕ, suc, ◌+◌, ◌-◌, ◌^◌, ◌<◌, ◌≡◌, refl, ◌∙◌, inl, inr, Bool, true, false, some, List, [], ◌∷◌,
  ◌++◌, ◌&&◌, arith, length, length-append, length-set, length-drop, drop, set, get_or, ltb, ◌==◌,
  if◌then◌else◌, Bool-cases,
}
use narthex.Result.{done}
use narthex.Path.{NthPath, path_sep, path_is_sep}
use narthex.Path.Meta.{path_len, path_set_len, path_set_flag, path_flag_normalized}
use narthex.Path.Meta.Fields.{
  meta_of, path_alive-meta_of, path_len-meta_of, path_set_len-meta_of, set_invalid-meta_of,
  set_normalized-meta_of, has_normalized-meta_of,
}
use narthex.Path.Text
use narthex.Path.Text.{PathText}
use narthex.Path.Refine.{Holds, Refines, Fits, path_of}
use narthex.Path.Normalize.{Work, going, seps_end, finish, normalize_bytes, nth_path_normalize}
use narthex.Path.Normalize.Spec.{Parts, render, is_rooted, normal}
use narthex.Path.Normalize.Scan.{skip, length-skip}
use narthex.Path.Normalize.Writes.{get_or-set}
use narthex.Path.Normalize.Rounds.{Over, rounds_lem}
use narthex.Path.Normalize.Start.{
  set-end, start, nothing, relative-Ready, rooted, absolute-Ready, tidy, normal-rooted,
  normal-relative,
}

-- What the call makes of the state: nothing where the text is normalized already, the normal form of
-- the text, or the INVALID flag where libc has no room for the stack.
unfoldable pub normalize_text : Bool → PathText → PathText
normalize_text malloc s =
    if s.normalized
    then s
    else if malloc
    then record s { text = normal s.text; normalized = true }
    else Text.fail s

module _ (s : PathText) (rest : List ℕ) (fits : Fits s rest) (room : 1 < s.cap) where
  abbrev meta : ℕ
  meta = (path_of s rest).meta

  len-lt : length s.text < 2 ^ 16
  len-lt = omega (arith, fits)

  placed :
      (b t : List ℕ) (n : ℕ)
      → n ≡ length t
      → length b ≡ s.cap
      → length t < s.cap
      → ((k : ℕ) → k < length t → get_or b k 0 ≡ get_or t k 0)
      → Holds
          (record {
            ptr = some (set b n 0);
            meta = path_set_flag (path_set_len meta n) path_flag_normalized;
          })
          (record s { text = t; normalized = true })
  placed b t n e l lt h = rw e (record {
    rest = drop (suc (length t)) b;
    is =
        rw
          (
            set-end b t (omega (arith, l)) h,
            path_set_len-meta_of (length s.text) s.cap s.owned s.invalid s.normalized len-lt fits.1
                (length t) (omega (arith, fits)),
            set_normalized-meta_of (length t) s.cap s.owned s.invalid s.normalized
                (omega (arith, fits)) fits.1,
          )
          refl;
    fits = (omega (arith, l, length-drop (suc (length t)) b), fits.1);
  })

  finish-Holds :
      (root : List ℕ) (w0 w : Work) (q : Parts)
      → length w0.buf ≡ s.cap
      → Over root (length s.text) w0 w q
      → Holds
          (finish (path_of s rest) (going w))
          (record s { text = tidy (render root q.parts); normalized = true })
  unfolding finish
  finish-Holds root w0 w q l o = elim (Bool-cases (w.write == 0)) [
    | inl empty ↦
        let empty' : (length (render root q.parts) == 0) ≡ true = rw (← o.written.write_is) empty in
        rw (empty, empty')
          (placed (set w.buf w.write b'.') (b'.' ∷ []) (w.write + 1) (ground (arith, empty))
            (length-set w.buf w.write b'.' ∙ o.same_length ∙ l) room
            (λ k lt. ground (arith, empty, lt, get_or-set w.buf w.write b'.' k, o.same_length, l)))
    | inr full ↦
        let full' : (length (render root q.parts) == 0) ≡ false = rw (← o.written.write_is) full in
        rw (full, full')
          (placed w.buf (render root q.parts) w.write o.written.write_is (o.same_length ∙ l)
            (omega (arith, o.written.write_is, o.low, fits))
            (λ k lt. o.written.out k (omega (arith, o.written.write_is))))
  ]

module _ (realloc : ℕ → Bool) (grows : (n : ℕ) → realloc n ≡ true) (rest : List ℕ) (cap : ℕ)
    (owned invalid normalized : Bool) (room : 1 < cap) where
  abbrev with_text : List ℕ → PathText
  with_text t = record {
    text = t;
    cap = cap;
    owned = owned;
    invalid = invalid;
    normalized = normalized;
  }

  abbrev Normalizes : List ℕ → Type 0
  Normalizes t =
      Holds (normalize_bytes true realloc (path_of (with_text t) rest))
        (record (with_text t) { text = normal t; normalized = true })

  len_is :
      (t : List ℕ)
      → Fits (with_text t) rest
      → path_len (meta_of (length t) cap owned invalid normalized) ≡ length t
  len_is t fits =
      path_len-meta_of (length t) cap owned invalid normalized (omega (arith, fits)) fits.1

  is_rooted_lem :
      (t : List ℕ) → (ltb 0 (length t) && path_is_sep (get_or (t ++ (0 ∷ rest)) 0 0)) ≡ is_rooted t
  is_rooted_lem [] = refl
  is_rooted_lem (c ∷ u) = ground arith

  relative_Holds : (t : List ℕ) → Fits (with_text t) rest → is_rooted t ≡ false → Normalizes t
  unfolding normalize_bytes
  relative_Holds t fits e =
      let first = relative-Ready t rest in
      let (w, f, o) =
        rounds_lem realloc grows false [] (length t) (length t) t 0 (start (t ++ (0 ∷ rest)) 0)
          nothing (omega arith) first in
      rw (len_is t fits, is_rooted_lem t, e, f, normal-relative t e)
        (finish-Holds (with_text t) rest fits room [] (start (t ++ (0 ∷ rest)) 0) w _
          (length-append t (0 ∷ rest) ∙ fits.0) o)

  absolute_Holds :
      (c : ℕ) (u : List ℕ)
      → Fits (with_text (c ∷ u)) rest
      → path_is_sep c ≡ true
      → Normalizes (c ∷ u)
  unfolding normalize_bytes
  absolute_Holds c u fits e =
      let first = start (rooted u rest) 1 in
      let (w, f, o) =
        rounds_lem realloc grows true (path_sep ∷ []) (suc (length u)) (suc (length u)) (skip u)
          (seps_end (rooted u rest) (length u) 1) first nothing (omega (arith, length-skip u))
          (absolute-Ready u rest) in
      let d : suc (length u) - 1 ≡ length u = omega arith in
      let some_left : ltb 0 (suc (length u)) ≡ true = ground arith in
      rw (len_is (c ∷ u) fits, some_left, e, d, f, normal-rooted c u e)
        (finish-Holds (with_text (c ∷ u)) rest fits room (path_sep ∷ []) first w _
          (omega (arith, length-append u (0 ∷ rest), fits)) o)

  text_Holds : (t : List ℕ) → Fits (with_text t) rest → Normalizes t
  text_Holds [] fits = relative_Holds [] fits refl
  text_Holds (c ∷ u) fits = elim (Bool-cases (path_is_sep c)) [
    | inl sep ↦ absolute_Holds c u fits sep
    | inr other ↦ relative_Holds (c ∷ u) fits other
  ]

  sep_again : (c : ℕ) (u : List ℕ) → path_is_sep c ≡ true → set (c ∷ u) 0 path_sep ≡ c ∷ u
  sep_again c u e = let f : c ≡ path_sep = ground (arith, e) in rw f refl

  -- The first byte of an absolute path is written again.
  same_bytes :
      (t : List ℕ)
      → (if is_rooted t then set (t ++ (0 ∷ rest)) 0 path_sep else t ++ (0 ∷ rest))
        ≡ t ++ (0 ∷ rest)
  same_bytes [] = refl
  same_bytes (c ∷ u) = elim (Bool-cases (path_is_sep c)) [
    | inl sep ↦ rw (sep, sep_again c (u ++ (0 ∷ rest)) sep) refl
    | inr other ↦ rw other refl
  ]

  no_room_Holds :
      (t : List ℕ)
      → Fits (with_text t) rest
      → Holds (normalize_bytes false realloc (path_of (with_text t) rest)) (Text.fail (with_text t))
  unfolding normalize_bytes
  no_room_Holds t fits = record {
    rest = rest;
    is =
        rw
          (
            set_invalid-meta_of (length t) cap owned invalid normalized (omega (arith, fits))
                fits.1,
            len_is t fits,
            is_rooted_lem t,
            same_bytes t,
          )
          refl;
    fits = fits;
  }

  by_room :
      (malloc : Bool) (t : List ℕ)
      → Fits (with_text t) rest
      → Holds (normalize_bytes malloc realloc (path_of (with_text t) rest)) (
          if malloc
          then record (with_text t) { text = normal t; normalized = true }
          else Text.fail (with_text t))
  by_room true t fits = text_Holds t fits
  by_room false t fits = no_room_Holds t fits

by_flag :
    (malloc : Bool) (realloc : ℕ → Bool) (s : PathText) (rest : List ℕ)
    → ((n : ℕ) → realloc n ≡ true)
    → Fits s rest
    → 1 < s.cap
    → (b : Bool)
    → Refines
        (if b
          then done (path_of s rest)
          else done (normalize_bytes malloc realloc (path_of s rest)))
        (done (
          if b
          then s
          else if malloc
          then record s { text = normal s.text; normalized = true }
          else Text.fail s))
by_flag malloc realloc s rest grows fits room true = record { rest = rest; is = refl; fits = fits }
by_flag malloc realloc s rest grows fits room false =
    by_room realloc grows rest s.cap s.owned s.invalid s.normalized room malloc s.text fits

-- On a live path that holds `s` in a block of more than one byte, `nth_path_normalize` leaves what
-- `normalize_text` says: the normal form of the text, NUL-terminated in the same block, with the
-- NORMALIZED flag; the path as it was if that flag is set; and the same text with the INVALID flag
-- if `malloc` has no room. `realloc` is taken to have room.
pub nth_path_normalize-Refines :
    (malloc : Bool) (realloc : ℕ → Bool) (p : NthPath) (s : PathText)
    → ((n : ℕ) → realloc n ≡ true)
    → Holds p s
    → 1 < s.cap
    → Refines (nth_path_normalize malloc realloc p) (done (normalize_text malloc s))
unfolding nth_path_normalize normalize_text
nth_path_normalize-Refines malloc realloc p s grows h room =
    rw
      (
        h.is,
        path_alive-meta_of (length s.text) s.cap s.owned s.invalid s.normalized
            (len-lt s h.rest h.fits room) h.fits.1,
        has_normalized-meta_of (length s.text) s.cap s.owned s.invalid s.normalized
            (len-lt s h.rest h.fits room) h.fits.1,
      )
      (by_flag malloc realloc s h.rest grows h.fits room s.normalized)
