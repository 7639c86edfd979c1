-- ===== src/Path/Refine.antt =====
-- The calls of src/nth_path.c do to the word and the block what `Path.Text` says.
use mathlib.Core.List.{append_assoc}
use narthex.Prelude.{
  ℕ, suc, ◌+◌, ◌-◌, ◌^◌, ◌≤◌, ◌<◌, ◌≡◌, refl, sym, ◌∙◌, Bool, true, false, not, Option, none, some,
  inl, inr, List, [], ◌∷◌, ◌++◌, arith, ltb, if◌then◌else◌, length, take, drop, Bool-cases,
  length-append, length-drop, length-take,
}
use narthex.Result.{NthResult, result_ok, result_out_of_memory, Run, done, trap, is_ok, ◌>>=◌}
use narthex.Path.{
  NthPath, bytes, with_flag, grown_cap, grow_to, path_grow, write_text, nth_path_setn,
}
use narthex.Path.Meta.{path_len_max, path_flag_invalid}
use narthex.Path.Meta.Fields.{
  meta_of, path_alive-meta_of, path_cap-meta_of, path_set_len-meta_of, path_set_cap-meta_of,
  set_invalid-meta_of, clr_normalized-meta_of, has_owned-meta_of,
}
use narthex.Path.Bytes.{Malloc, memcpy, overwrite}
use narthex.Path.Text
use narthex.Path.Text.{PathText, reserve, set_text}

-- The path that holds `s`, with `rest` behind the terminator.
abbrev pub path_of : PathText → List ℕ → NthPath
path_of s rest = record {
  ptr = some (s.text ++ (0 ∷ rest));
  meta = meta_of (length s.text) s.cap s.owned s.invalid s.normalized;
}

-- The block has `cap` bytes, and `cap` fits its field.
abbrev pub Fits : PathText → List ℕ → Type 0
Fits s rest = (length s.text + suc (length rest) ≡ s.cap) × (s.cap < 2 ^ 16)

-- `p` is a live path that holds the text, capacity and flags of `s`, NUL-terminated.
pub record Holds (p : NthPath) (s : PathText) : Type 0 where
  pub rest : List ℕ
  pub is : p ≡ path_of s rest
  pub fits : Fits s rest

-- A call and its specification trap together, or return a path and the state that it holds.
abbrev pub Refines : Run NthPath → Run PathText → Type 0
Refines (done p) (done s) = Holds p s
Refines (done p) trap = ⊥
Refines trap (done s) = ⊥
Refines trap trap = Unit

abbrev pub status : Bool → NthResult
status true = result_ok
status false = result_out_of_memory

-- Growing for `n` bytes: the same outcome, the same text, and room after success.
abbrev pub RefinesGrow : ℕ → List ℕ → Run (NthResult × NthPath) → Run (Bool × PathText) → Type 0
RefinesGrow n t (done (r, p)) (done (ok, s)) =
    (r ≡ status ok) × Holds p s × (ok ≡ true → n < s.cap) × (s.text ≡ t)
RefinesGrow n t (done x) trap = ⊥
RefinesGrow n t trap (done y) = ⊥
RefinesGrow n t trap trap = Unit

grown_cap_fits :
    (cap n : ℕ) → cap ≤ n → n < path_len_max → (n < grown_cap cap n) × (grown_cap cap n < 2 ^ 16)
unfolding grown_cap
grown_cap_fits cap n h lt = ground arith

module _ (mem : Malloc) (s : PathText) (rest : List ℕ) (n : ℕ) (fits : Fits s rest) where
  pub len-lt : length s.text < 2 ^ 16
  len-lt = omega arith

  grow_to-Refines :
      s.cap ≤ n
      → n < path_len_max
      → (o : Option (List ℕ))
      → ((xs : List ℕ) → o ≡ some xs → length xs ≡ grown_cap s.cap n - s.cap)
      → RefinesGrow n s.text
          (grow_to (path_of s rest) (grown_cap s.cap n) o)
          (done (Text.extend s (grown_cap s.cap n) o))
  unfolding grow_to
  grow_to-Refines h lt none len = (
    refl,
    record {
      rest = rest;
      is =
          rw (
            set_invalid-meta_of (length s.text) s.cap s.owned s.invalid s.normalized len-lt fits.1);
      fits = fits;
    },
    λ e. cc,
    refl,
  )
  grow_to-Refines h lt (some xs) len = (
    refl,
    record {
      rest = rest ++ xs;
      is = rw (
        path_set_cap-meta_of (length s.text) s.cap s.owned s.invalid s.normalized len-lt fits.1
            (grown_cap s.cap n) (grown_cap_fits s.cap n h lt).1,
        append_assoc,
      );
      fits = (
        omega (arith, length-append rest xs, len xs refl, grown_cap_fits s.cap n h lt),
        (grown_cap_fits s.cap n h lt).1,
      );
    },
    λ e. (grown_cap_fits s.cap n h lt).0,
    refl,
  )

  not_owned :
      s.owned ≡ false
      → RefinesGrow n s.text
          (done (result_out_of_memory, with_flag (path_of s rest) path_flag_invalid))
          (done (false, Text.fail s))
  not_owned e = (
    refl,
    record {
      rest = rest;
      is =
          rw (
            set_invalid-meta_of (length s.text) s.cap s.owned s.invalid s.normalized len-lt fits.1);
      fits = fits;
    },
    λ e. cc,
    refl,
  )

  -- The block is grown if libc owns it; what is not owned cannot grow.
  by_owner :
      (owned : Bool)
      → s.owned ≡ owned
      → s.cap ≤ n
      → n < path_len_max
      → RefinesGrow n s.text
          (if not owned
            then done (result_out_of_memory, with_flag (path_of s rest) path_flag_invalid)
            else grow_to
                (path_of s rest)
                (grown_cap s.cap n)
                (mem.more (grown_cap s.cap n - s.cap)))
          (if not owned
            then done (false, Text.fail s)
            else done (Text.extend s (grown_cap s.cap n) (mem.more (grown_cap s.cap n - s.cap))))
  by_owner true e h lt = grow_to-Refines h lt _ (mem.length-more (grown_cap s.cap n - s.cap))
  by_owner false e h lt = not_owned e

  pub path_grow-Refines : RefinesGrow n s.text (path_grow mem (path_of s rest) n) (reserve mem s n)
  unfolding path_grow reserve
  path_grow-Refines =
      rw
        (
          path_cap-meta_of (length s.text) s.cap s.owned s.invalid s.normalized len-lt fits.1,
          has_owned-meta_of (length s.text) s.cap s.owned s.invalid s.normalized len-lt fits.1,
          block,
        )
        (elim (Bool-cases (ltb n s.cap)) [
          | inl room ↦
              rw room
                (refl, record { rest = rest; is = refl; fits = fits }, λ e. ground arith, refl)
          | inr full ↦ rw full (elim (Bool-cases (ltb n path_len_max)) [
            | inl small ↦ rw small (by_owner s.owned refl (ground arith) (ground arith))
            | inr big ↦ rw big tt
          ])
        ])
    where
      block : length (s.text ++ (0 ∷ rest)) ≡ s.cap
      block = length-append s.text (0 ∷ rest) ∙ fits.0

-- Replacing the text of a path that has room for it.
write_text-Holds :
    (s : PathText) (rest t : List ℕ) (len : ℕ)
    → Fits s rest
    → len ≡ length t
    → len < s.cap
    → Holds
        (write_text (path_of s rest) (memcpy (s.text ++ (0 ∷ rest)) 0 t) len)
        (record s { text = t; normalized = false })
unfolding write_text
write_text-Holds s rest t len fits e h = rw e (record {
  rest = drop (suc (length t)) (s.text ++ (0 ∷ rest));
  is = rw (
    overwrite [] (s.text ++ (0 ∷ rest)) t (length t) (omega (arith, block)) (omega arith),
    path_set_len-meta_of (length s.text) s.cap s.owned s.invalid s.normalized (omega arith) fits.1
        (length t) (omega arith),
    clr_normalized-meta_of (length t) s.cap s.owned s.invalid s.normalized (omega arith) fits.1,
  );
  fits = (omega (arith, block, length-drop (suc (length t)) (s.text ++ (0 ∷ rest))), fits.1);
})
  where
    block : length (s.text ++ (0 ∷ rest)) ≡ s.cap
    block = length-append s.text (0 ∷ rest) ∙ fits.0

-- What follows a growth: on success the text is written, otherwise the path is left as it is.
pub after_grow :
    (n : ℕ) (t : List ℕ) (x : Run (NthResult × NthPath)) (y : Run (Bool × PathText))
    (k : NthPath → NthPath) (k' : Bool × PathText → PathText)
    → RefinesGrow n t x y
    → ((p : NthPath) (s : PathText)
        → Holds p s
        → n < s.cap
        → s.text ≡ t
        → Holds (k p) (k' (true, s)))
    → ((s : PathText) → k' (false, s) ≡ s)
    → Refines
        (x >>= λ (g : NthResult × NthPath). done (if is_ok g.0 then k g.1 else g.1))
        (y >>= λ r. done (k' r))
after_grow n t (done (r, p)) (done (true, s)) k k' h good bad = rw h.0 (good p s h.1 (h.2 refl) h.3)
after_grow n t (done (r, p)) (done (false, s)) k k' h good bad = rw (h.0, bad s) h.1
after_grow n t (done x) trap k k' h good bad = absurd h
after_grow n t trap (done y) k k' h good bad = absurd h
after_grow n t trap trap k k' h good bad = tt

-- `nth_path_setn` on a path that holds `s` replaces the text, as `set_text` says: on success, on no
-- memory (the INVALID flag), and with a trap on a text that the 16-bit length cannot hold.
pub nth_path_setn-Refines :
    (mem : Malloc) (p : NthPath) (s : PathText) (str : List ℕ) (len : ℕ)
    → Holds p s
    → len ≤ length str
    → Refines (nth_path_setn mem p str len) (set_text mem s (take len str))
unfolding nth_path_setn set_text
nth_path_setn-Refines mem p s str len h le =
    rw
      (
        h.is,
        path_alive-meta_of (length s.text) s.cap s.owned s.invalid s.normalized
            (len-lt mem s h.rest len h.fits) h.fits.1,
        size,
      )
      (after_grow len s.text _ _ (λ g. write_text g (memcpy (bytes g) 0 (take len str)) len)
        (Text.replace (take len str)) (path_grow-Refines mem s h.rest len h.fits)
        (λ q u hq room e.
          rw hq.is (write_text-Holds u hq.rest (take len str) len hq.fits (sym size) room))
        (λ u. refl))
  where
    size : length (take len str) ≡ len
    size = omega (arith, length-take len str)
