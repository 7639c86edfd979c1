-- ===== src/Path/Append.antt =====
-- `nth_path_appendn` joins two texts with one separator.
use mathlib.Core.List.{append_assoc}
use narthex.Prelude.{
  ℕ, ◌+◌, ◌-◌, ◌^◌, ◌≤◌, ◌<◌, ◌≡◌, refl, suc, sym, ap, false, inl, inr, List, [], ◌∷◌, ◌++◌, arith,
  ◌==◌, if◌then◌else◌, length, set, take, drop, Bool-cases, length-append, length-drop, length-take,
}
use narthex.Path.{
  NthPath, path_sep, needs_sep, write_text, append_text, append_bytes, nth_path_appendn,
}
use narthex.Path.Meta.Fields.{
  path_alive-meta_of, path_len-meta_of, path_set_len-meta_of, clr_normalized-meta_of,
}
use narthex.Path.Bytes.{Malloc, memcpy, overwrite, get_or-append, set-append}
use narthex.Path.Text
use narthex.Path.Text.{PathText, join, sep_before}
use narthex.Path.Refine.{path_of, Fits, Holds, Refines, path_grow-Refines, after_grow}

-- A text `t` copied behind `front` and terminated.
behind-Holds :
    (u : PathText) (rest front block t : List ℕ) (end : ℕ)
    → Fits u rest
    → length front + length block ≡ u.cap
    → length t < length block
    → end ≡ length front + length t
    → Holds
        (write_text (path_of u rest) (memcpy (front ++ block) (length front) t) end)
        (record u { text = front ++ t; normalized = false })
unfolding write_text
behind-Holds u rest front block t end fits total h e = record {
  rest = drop (suc (length t)) block;
  is = rw (
    overwrite front block t end h e,
    path_set_len-meta_of (length u.text) u.cap u.owned u.invalid u.normalized (omega arith) fits.1
        end (omega arith),
    clr_normalized-meta_of end u.cap u.owned u.invalid u.normalized (omega arith) fits.1,
    append_assoc,
    e,
    length-append,
  );
  fits = (omega (arith, length-append front t, length-drop (suc (length t)) block), fits.1);
}

module _ (s : PathText) (rest : List ℕ) (fits : Fits s rest) where
  needs_sep-path_of : needs_sep (path_of s rest) ≡ sep_before s.text
  unfolding sep_before needs_sep
  needs_sep-path_of =
      rw
        (path_len-meta_of (length s.text) s.cap s.owned s.invalid s.normalized (omega arith) fits.1)
        (ground (arith, get_or-append s.text (0 ∷ rest) (length s.text - 1) 0))

length-join :
    (t str : List ℕ) → length (join t str) ≡ length t + (if sep_before t then 1 else 0) + length str
unfolding join
length-join t str = ground (arith, length-append t str, length-append t (path_sep ∷ str))

with_sep-Holds :
    (u : PathText) (rest str : List ℕ)
    → Fits u rest
    → length u.text + 1 + length str < u.cap
    → Holds
        (write_text
          (path_of u rest)
          (memcpy (set (u.text ++ (0 ∷ rest)) (length u.text) path_sep) (length u.text + 1) str)
          (length u.text + 1 + length str))
        (record u { text = u.text ++ (path_sep ∷ str); normalized = false })
with_sep-Holds u rest str fits room =
    rw (set-append u.text rest 0 path_sep, split rest, len, split str)
      (behind-Holds u rest (u.text ++ (path_sep ∷ [])) rest str
        (length (u.text ++ (path_sep ∷ [])) + length str) fits (omega (arith, len)) (omega arith)
        refl)
  where
    split : (xs : List ℕ) → u.text ++ (path_sep ∷ xs) ≡ (u.text ++ (path_sep ∷ [])) ++ xs
    split xs = sym (append_assoc u.text (path_sep ∷ []) xs)

    len : length u.text + 1 ≡ length (u.text ++ (path_sep ∷ []))
    len = omega (arith, length-append u.text (path_sep ∷ []))

append_text-Holds :
    (u : PathText) (rest str : List ℕ)
    → Fits u rest
    → length u.text + (if sep_before u.text then 1 else 0) + length str < u.cap
    → Holds
        (append_text (path_of u rest) (sep_before u.text) (length u.text) str)
        (record u { text = join u.text str; normalized = false })
unfolding append_text join
append_text-Holds u rest str fits room = elim (Bool-cases (sep_before u.text)) [
  | inl sep ↦ rw sep (with_sep-Holds u rest str fits (ground arith))
  | inr bare ↦ rw bare (
      behind-Holds u rest u.text (0 ∷ rest) str (length u.text + length str) fits (omega arith)
        (ground arith) refl)
]

-- `nth_path_appendn` on a path that holds `s` does what `append_text` says: nothing on an empty
-- part; otherwise the two texts with one separator between them, unless the first is empty or ends
-- in one, if there is room or libc makes it; the INVALID flag if not; a trap on a text too long.
pub nth_path_appendn-Refines :
    (mem : Malloc) (p : NthPath) (s : PathText) (str : List ℕ) (len : ℕ)
    → Holds p s
    → len ≤ length str
    → Refines (nth_path_appendn mem p str len) (Text.append_text mem s (take len str))
unfolding nth_path_appendn append_bytes Text.append_text Text.set_text
nth_path_appendn-Refines mem p s str len h le =
    rw
      (
        h.is,
        path_alive-meta_of (length s.text) s.cap s.owned s.invalid s.normalized lt h.fits.1,
        path_len-meta_of (length s.text) s.cap s.owned s.invalid s.normalized lt h.fits.1,
        needs_sep-path_of s h.rest h.fits,
        size,
      )
      (elim (Bool-cases (len == 0)) [
        | inl none ↦ rw none (record { rest = h.rest; is = refl; fits = h.fits })
        | inr more ↦
            rw (more, length-join, size)
              (after_grow n s.text _ _
                (λ g. append_text g (sep_before s.text) (length s.text) (take len str))
                (Text.replace (join s.text (take len str)))
                (path_grow-Refines mem s h.rest n h.fits)
                (λ q u hq room e.
                  rw (hq.is, ← e)
                    (append_text-Holds u hq.rest (take len str) hq.fits (
                      omega (arith, size, ap (λ t. length t + (if sep_before t then 1 else 0)) e))))
                (λ u. refl))
      ])
  where
    n : ℕ
    n = length s.text + (if sep_before s.text then 1 else 0) + len

    lt : length s.text < 2 ^ 16
    lt = omega (arith, h.fits)

    size : length (take len str) ≡ len
    size = omega (arith, length-take len str)
