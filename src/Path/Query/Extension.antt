-- ===== src/Path/Query/Extension.antt =====
-- The stem and the extension of a file name.
use mathlib.Core.Option
use narthex.Prelude.{
  ℕ, zero, suc, ◌+◌, ◌-◌, ◌≤◌, ◌<◌, ◌≡◌, ◌⊎◌, refl, sym, ap, ◌∙◌, true, false, inl, inr, Option,
  none, some, List, [], ◌∷◌, ◌++◌, arith, ◌==◌, if◌then◌else◌, length, get_or, take, drop,
  Bool-cases,
}
use narthex.Result.{done}
use narthex.Path.{NthPath}
use narthex.Path.Meta.{path_alive, path_len}
use narthex.Path.Meta.Fields.{meta_of, path_alive-meta_of, path_len-meta_of}
use narthex.Path.Text.{PathText}
use narthex.Path.Refine.{Holds}
use narthex.Path.Query.Filename.{append-nil}
use narthex.Path.Query.{
  filename_in, nth_path_filename, nth_path_stem, nth_path_extension, NthPathView, no_view, contents,
  dot, over_dots, extension_at, extension_in, extension_of, shortened,
}

take-nil : (n : ℕ) → take {A = ℕ} n [] ≡ []
take-nil zero = refl
take-nil (suc n) = refl

pub take-split : (f : List ℕ) (k n : ℕ) → k ≤ n → take k f ++ take (n - k) (drop k f) ≡ take n f
take-split f zero n h = ap (λ m. take m f) (omega arith)
take-split [] (suc k) zero h = absurd (omega arith)
take-split [] (suc k) (suc n) h = take-nil (suc n - suc k)
take-split (x ∷ f) (suc k) zero h = absurd (omega arith)
take-split (x ∷ f) (suc k) (suc n) h =
    ap (λ m. x ∷ (take k f ++ take m (drop k f))) (omega arith)
    ∙ ap (◌∷◌ x) (take-split f k n (omega arith))

-- What the loop over dots finds: the first byte from `j` on that is none.
over_dots-stops :
    (f : List ℕ) (left j : ℕ)
    → let k = over_dots f left j in
      (j ≤ k)
      × (k ≤ j + left)
      × ((k ≡ j + left) ⊎ ((get_or f k 0 == dot) ≡ false))
      × ((i : ℕ) → j ≤ i → i < k → (get_or f i 0 == dot) ≡ true)
unfolding over_dots
over_dots-stops f zero j =
    (omega arith, omega arith, inl (omega arith), λ i a b. absurd (omega arith))
over_dots-stops f (suc left) j = elim (Bool-cases (get_or f j 0 == dot)) [
  | inl is_dot ↦
      let (lo, hi, why, dots) = over_dots-stops f left (j + 1) in
      rw is_dot (
        omega arith,
        omega arith,
        elim why [ inl all ↦ inl (omega arith) | inr stop ↦ inr stop ],
        λ i a b. elim (Bool-cases (i == j)) [
          | inl first ↦ ground (arith, is_dot)
          | inr later ↦ dots i (ground arith) b
        ],
      )
  | inr other ↦ rw other (omega arith, omega arith, inr other, λ i a b. absurd (omega arith))
]

-- The extension of `f` starts with the last dot behind the first byte, and some byte before it is
-- no dot.
pub record HasDot (f : List ℕ) (n : ℕ) (v : NthPathView) : Type 0 where
  pub at : ℕ
  pub inside : (0 < at) × (at < n)
  pub is_dot : get_or f at 0 ≡ dot
  pub last : (j : ℕ) → at < j → j < n → (get_or f j 0 == dot) ≡ false
  pub letter : (j : ℕ) × (j < at) × ((get_or f j 0 == dot) ≡ false)
  pub is_view : v ≡ record { ptr = some (drop at f); size = n - at }

-- No dot qualifies: none behind the first byte, or dots alone before the last one.
pub record NoDot (f : List ℕ) (n : ℕ) : Type 0 where
  pub at : ℕ
  pub none_after : (j : ℕ) → at < j → j < n → (get_or f j 0 == dot) ≡ false
  pub dots_before : (j : ℕ) → j < at → (get_or f j 0 == dot) ≡ true

abbrev pub Extension : List ℕ → ℕ → NthPathView → Type 0
Extension f n v = HasDot f n v ⊎ (NoDot f n × (v ≡ no_view))

module _ (f : List ℕ) (size : ℕ) where
  -- The loop down from `i`, behind which there is no dot.
  extension_at-Extension :
      (i : ℕ)
      → i ≤ size
      → ((j : ℕ) → i ≤ j → j < size → (get_or f j 0 == dot) ≡ false)
      → Extension f size (extension_at f size i)
  unfolding extension_at
  extension_at-Extension zero h after = inr (
    record {
      at = 0;
      none_after = λ j a b. after j (omega arith) b;
      dots_before = λ j a. absurd (omega arith);
    },
    refl,
  )
  extension_at-Extension (suc zero) h after = inr (
    record {
      at = 0;
      none_after = λ j a b. after j (omega arith) b;
      dots_before = λ j a. absurd (omega arith);
    },
    refl,
  )
  extension_at-Extension (suc (suc i)) h after = elim (Bool-cases (get_or f (suc i) 0 == dot)) [
    | inl is_dot ↦ rw is_dot (found is_dot (over_dots-stops f (suc i) 0))
    | inr other ↦ rw other (
        extension_at-Extension (suc i) (omega arith) (λ j a b. elim (Bool-cases (j == suc i)) [
          | inl here ↦ ground (arith, other)
          | inr beyond ↦ after j (ground arith) b
        ]))
  ]
    where
      k : ℕ
      k = over_dots f (suc i) 0

      found :
          (get_or f (suc i) 0 == dot) ≡ true
          → (0 ≤ k)
            × (k ≤ 0 + suc i)
            × ((k ≡ 0 + suc i) ⊎ ((get_or f k 0 == dot) ≡ false))
            × ((j : ℕ) → 0 ≤ j → j < k → (get_or f j 0 == dot) ≡ true)
          → Extension f size (
              if k == suc i
              then no_view
              else record { ptr = some (drop (suc i) f); size = size - suc i })
      found is_dot (lo, hi, why, dots) = elim (Bool-cases (k == suc i)) [
        | inl all ↦ rw all (
            inr (
              record {
                at = suc i;
                none_after = λ j a b. after j (omega arith) b;
                dots_before = λ j a. dots j (omega arith) (ground arith);
              },
              refl,
            ))
        | inr letter ↦ rw letter (
            inl (record {
              at = suc i;
              inside = (omega arith, omega arith);
              is_dot = ground (arith, is_dot);
              last = λ j a b. after j (omega arith) b;
              letter =
                  (k, ground arith, elim why [ inl all ↦ absurd (ground arith) | inr stop ↦ stop ]);
              is_view = refl;
            }))
      ]

-- The extension of a file name: it starts at the last dot that stands behind the first byte, if
-- some byte before that is no dot; otherwise there is none.
extension_of-Extension :
    (f : List ℕ) (n : ℕ) → Extension f n (extension_of (record { ptr = some f; size = n }))
extension_of-Extension f n = elim (Bool-cases (n == 0)) [
  | inl empty ↦ rw empty (
      inr (
        record {
          at = 0;
          none_after = λ j a b. absurd (ground arith);
          dots_before = λ j a. absurd (omega arith);
        },
        refl,
      ))
  | inr more ↦ rw more (extension_at-Extension f n n (omega arith) (λ j a b. absurd (omega arith)))
]

-- The extension of a view, and the stem in front of it.
view-Extension :
    (ptr : Option (List ℕ)) (n : ℕ) → Extension (Option.get_or ptr []) n (extension_in ptr n)
view-Extension none n =
    inr (
      record { at = 0; none_after = λ j a b. refl; dots_before = λ j a. absurd (omega arith) },
      refl,
    )
view-Extension (some f) n = extension_of-Extension f n

stem-split :
    (ptr : Option (List ℕ)) (n : ℕ)
    → let v : NthPathView = record { ptr = ptr; size = n } in
      let e = extension_in ptr n in contents (shortened v e.ptr e.size) ++ contents e ≡ contents v
stem-split none n = sym (append-nil (contents (record { ptr = none; size = n })))
stem-split (some f) n = at_dot (extension_in (some f) n) (extension_of-Extension f n)
  where
    at_dot :
        (e : NthPathView)
        → Extension f n e
        → contents (shortened (record { ptr = some f; size = n }) e.ptr e.size) ++ contents e
          ≡ take n f
    at_dot e (inl d) = rw d.is_view (
        ap (λ m. take m f ++ take (n - d.at) (drop d.at f)) {y = d.at} (omega (arith, d.inside))
        ∙ take-split f d.at n (omega (arith, d.inside)))
    at_dot e (inr (nothing, is)) = rw is (sym (append-nil (take n f)))

-- The parts of a path's last component.
pub record Parts (p : NthPath) : Type 0 where
  pub fname : NthPathView
  pub stem : NthPathView
  pub ext : NthPathView
  pub is_fname : nth_path_filename p ≡ done fname
  pub is_stem : nth_path_stem p ≡ done stem
  pub is_ext : nth_path_extension p ≡ done ext
  pub split : contents stem ++ contents ext ≡ contents fname
  pub at_last_dot : Extension (Option.get_or fname.ptr []) fname.size ext

-- The stem and the extension of a live path make up its file name. The extension starts at the last
-- dot behind the first byte, if some byte before it is no dot; otherwise it is empty.
pub nth_path_stem-extension : (p : NthPath) (s : PathText) → Holds p s → Parts p
unfolding nth_path_filename nth_path_stem nth_path_extension
nth_path_stem-extension p s h =
    let f = filename_in (s.text ++ (0 ∷ h.rest)) (length s.text) in
    let e = extension_of f in
    record {
      fname = f;
      stem = shortened f e.ptr e.size;
      ext = e;
      is_fname = rw (h.is, alive, len);
      is_stem = rw (h.is, alive, len);
      is_ext = rw (h.is, alive, len);
      split = stem-split f.ptr f.size;
      at_last_dot = view-Extension f.ptr f.size;
    }
  where
    alive : path_alive (meta_of (length s.text) s.cap s.owned s.invalid s.normalized) ≡ true
    alive =
        path_alive-meta_of (length s.text) s.cap s.owned s.invalid s.normalized
          (omega (arith, h.fits)) h.fits.1

    len : path_len (meta_of (length s.text) s.cap s.owned s.invalid s.normalized) ≡ length s.text
    len =
        path_len-meta_of (length s.text) s.cap s.owned s.invalid s.normalized
          (omega (arith, h.fits)) h.fits.1
