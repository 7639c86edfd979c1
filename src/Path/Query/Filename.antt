-- ===== src/Path/Query/Filename.antt =====
-- The file name of a path.
use narthex.Prelude.{
  ℕ, zero, suc, ◌+◌, ◌-◌, ◌≤◌, ◌<◌, ◌≡◌, ◌⊎◌, refl, sym, ap, ◌∙◌, true, false, inl, inr, List, [],
  ◌∷◌, ◌++◌, arith, ◌==◌, length, get_or, take, drop, Bool-cases, length-drop,
}
use narthex.Result.{done}
use narthex.Path.{NthPath, path_is_sep}
use narthex.Path.Meta.Fields.{path_alive-meta_of, path_len-meta_of}
use narthex.Path.Bytes.{get_or-append, take-length, take-append_self}
use narthex.Path.Text.{PathText}
use narthex.Path.Refine.{Holds}
use narthex.Path.Query.{NthPathView, contents, sep_at, back_to_sep, filename_in, nth_path_filename}
use narthex.Path.Query.Loops.{BackToSep, back_to_sep_lem, back_to_sep-append}

-- `f` is what follows the last separator of `t`.
pub record IsFilename (t f : List ℕ) : Type 0 where
  pub front : List ℕ
  pub split : t ≡ front ++ f
  pub no_sep : (j : ℕ) → j < length f → sep_at f j ≡ false
  pub after_sep :
      (front ≡ [])
      ⊎ ((before : List ℕ) × (c : ℕ) × (front ≡ before ++ (c ∷ [])) × (path_is_sep c ≡ true))

get_or-drop : (xs : List ℕ) (k j d : ℕ) → get_or (drop k xs) j d ≡ get_or xs (k + j) d
get_or-drop xs zero j d = ap (λ n. get_or xs n d) (omega arith)
get_or-drop [] (suc k) j d = refl
get_or-drop (x ∷ xs) (suc k) j d =
    get_or-drop xs k j d ∙ ap (λ n. get_or (x ∷ xs) n d) {x = suc (k + j)} (omega arith)

take-drop : (xs : List ℕ) (k : ℕ) → xs ≡ take k xs ++ drop k xs
take-drop xs zero = refl
take-drop [] (suc k) = refl
take-drop (x ∷ xs) (suc k) = ap (◌∷◌ x) (take-drop xs k)

take-drop_front :
    (t ys : List ℕ) (k : ℕ) → k ≤ length t → take (length t - k) (drop k (t ++ ys)) ≡ drop k t
take-drop_front [] ys zero h = refl
take-drop_front [] ys (suc k) h = absurd (omega arith)
take-drop_front (x ∷ t) ys zero h =
    ap (λ n. take n (x ∷ (t ++ ys))) {y = suc (length t)} (omega arith)
    ∙ ap (◌∷◌ x) (take-append_self t ys)
take-drop_front (x ∷ t) ys (suc k) h =
    ap (λ n. take n (drop k (t ++ ys))) (omega arith) ∙ take-drop_front t ys k (omega arith)

take-last :
    (xs : List ℕ) (i : ℕ) → i < length xs → take (suc i) xs ≡ take i xs ++ (get_or xs i 0 ∷ [])
take-last [] i h = absurd (omega arith)
take-last (x ∷ xs) zero h = refl
take-last (x ∷ xs) (suc i) h = ap (◌∷◌ x) (take-last xs i (omega arith))

-- What the loop leaves in front and behind makes the file name.
from_stop : (t : List ℕ) (k : ℕ) → BackToSep t (length t) k → IsFilename t (drop k t)
from_stop t k b = record {
  front = take k t;
  split = take-drop t k;
  no_sep = λ j h.
      ap path_is_sep (get_or-drop t k j 0)
      ∙ b.no_sep (k + j) (omega arith) (omega (arith, b.below, length-drop k t));
  after_sep = elim b.stop [
    | inl at_start ↦ inl (ap (λ n. take n t) at_start)
    | inr (i, e, sep) ↦
        inr (
          take i t,
          get_or t i 0,
          ap (λ n. take n t) e ∙ take-last t i (omega (arith, b.below)),
          sep,
        )
  ];
}

pub append-nil : (xs : List ℕ) → xs ≡ xs ++ []
append-nil [] = refl
append-nil (x ∷ xs) = ap (◌∷◌ x) (append-nil xs)

filename_in-IsFilename :
    (t ys : List ℕ) → IsFilename t (contents (filename_in (t ++ ys) (length t)))
unfolding filename_in
filename_in-IsFilename t ys = elim (Bool-cases (length t == 0)) [
  | inl empty ↦ rw empty (record {
    front = t;
    split = append-nil t;
    no_sep = λ j h. absurd (omega arith);
    after_sep = inl (nothing t (ground arith));
  })
  | inr more ↦
      let last : length t - 1 < length t = ground arith in
      rw (more, get_or-append t ys (length t - 1) 0 last)
        (elim (Bool-cases (sep_at t (length t - 1))) [
          | inl sep ↦ rw sep (record {
            front = t;
            split = append-nil t;
            no_sep = λ j h. absurd (omega arith);
            after_sep = inr (
              take (length t - 1) t,
              get_or t (length t - 1) 0,
              sym (take-length t)
                  ∙ (ap (λ n. take n t) {y = suc (length t - 1)} (omega arith)
                      ∙ take-last t (length t - 1) last),
              sep,
            );
          })
          | inr other ↦
              rw
                (
                  other,
                  back_to_sep-append t ys (length t) (omega arith),
                  take-drop_front t ys (back_to_sep t (length t))
                      (back_to_sep_lem t (length t)).below,
                )
                (from_stop t (back_to_sep t (length t)) (back_to_sep_lem t (length t)))
        ])
]
  where
    nothing : (xs : List ℕ) → length xs ≡ 0 → xs ≡ []
    nothing [] h = refl
    nothing (x ∷ xs) h = absurd (omega arith)

-- `nth_path_filename` of a live path shows what follows the last separator of its text, and all of
-- it if there is none. After a separator at the end that is nothing.
pub nth_path_filename-IsFilename :
    (p : NthPath) (s : PathText)
    → Holds p s
    → (v : NthPathView) × (nth_path_filename p ≡ done v) × IsFilename s.text (contents v)
unfolding nth_path_filename
nth_path_filename-IsFilename p s h = (
  filename_in (s.text ++ (0 ∷ h.rest)) (length s.text),
  rw (
    h.is,
    path_alive-meta_of (length s.text) s.cap s.owned s.invalid s.normalized (omega (arith, h.fits))
        h.fits.1,
    path_len-meta_of (length s.text) s.cap s.owned s.invalid s.normalized (omega (arith, h.fits))
        h.fits.1,
  ),
  filename_in-IsFilename s.text (0 ∷ h.rest),
)
