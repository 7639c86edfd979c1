-- ===== src/Path/Query/Equal.antt =====
-- Two views are equal just when they show the same bytes.
use mathlib.Core.Option
use narthex.Prelude.{
  ℕ, zero, suc, ◌+◌, ◌≤◌, ◌<◌, ◌≡◌, ◌↔◌, refl, sym, ap, ◌∙◌, Bool, true, false, ◌&&◌, inl, inr,
  Option, none, some, List, [], ◌∷◌, ◌++◌, arith, ◌==◌, ==_iff, if◌then◌else◌, length, take, drop,
  Bool-cases, length-take, length-append,
}
use narthex.Result.{Run, done, trap}
use narthex.Path.{NthPath}
use narthex.Path.Meta.Fields.{path_alive-meta_of, path_len-meta_of}
use narthex.Path.Bytes.{take-length, take-append_self}
use narthex.Path.Text.{PathText}
use narthex.Path.Refine.{Holds}
use narthex.Path.Query.{
  NthPathView, contents, memcmp_zero, nth_path_view_equal, nth_path_view_equal_cstr,
  nth_path_equal_view, nth_path_equal,
}

memcmp_zero_iff :
    (n : ℕ) (xs ys : List ℕ)
    → n ≤ length xs
    → n ≤ length ys
    → (memcmp_zero xs ys n ≡ true) ↔ (take n xs ≡ take n ys)
unfolding memcmp_zero
memcmp_zero_iff zero xs ys hx hy = (λ e. refl, λ e. refl)
memcmp_zero_iff (suc n) [] ys hx hy = absurd (omega arith)
memcmp_zero_iff (suc n) (x ∷ xs) [] hx hy = absurd (omega arith)
memcmp_zero_iff (suc n) (x ∷ xs) (y ∷ ys) hx hy =
    let (fwd, bwd) = memcmp_zero_iff n xs ys (omega arith) (omega arith) in
    elim (Bool-cases (x == y)) [
      | inl same ↦
          rw same (λ e. rw ((==_iff x y).0 same) (ap (◌∷◌ y) (fwd e)), λ e. bwd (ap (drop 1) e))
      | inr other ↦ rw other (
        λ e. cc,
        λ e. absurd (ground (arith, other, ap (λ (l : List ℕ). narthex.Prelude.get_or l 0 0) e)),
      )
    ]

-- A view inside its block.
abbrev pub Within : NthPathView → Type 0
Within v = v.size ≤ length (Option.get_or v.ptr [])

-- `nth_path_view_equal` answers true exactly on two views that show the same bytes.
pub nth_path_view_equal_iff :
    (a b : NthPathView)
    → Within a
    → Within b
    → (nth_path_view_equal a b ≡ true) ↔ (contents a ≡ contents b)
unfolding nth_path_view_equal
nth_path_view_equal_iff a b ha hb = elim (Bool-cases (a.size == b.size)) [
  | inl same ↦
      let sizes : a.size ≡ b.size = ground (arith, same) in
      rw same (elim (Bool-cases (a.size == 0)) [
        | inl empty ↦
            let zero_a : a.size ≡ 0 = ground (arith, empty) in
            let zero_b : b.size ≡ 0 = omega arith in
            rw (empty, zero_a, zero_b) (λ e. refl, λ e. refl)
        | inr more ↦ rw more (
            rw (← sizes) (
              memcmp_zero_iff a.size (Option.get_or a.ptr []) (Option.get_or b.ptr []) ha
                (omega (arith, hb))))
      ])
  | inr other ↦ rw other (
    λ e. cc,
    λ e. absurd (
        ground (
          arith,
          other,
          ap length e,
          length-take a.size (Option.get_or a.ptr []),
          length-take b.size (Option.get_or b.ptr []),
        )),
  )
]

-- `nth_path_view_equal_cstr` answers true exactly on a view that shows the bytes of the C string.
pub nth_path_view_equal_cstr_iff :
    (view : NthPathView) (str : List ℕ)
    → Within view
    → (nth_path_view_equal_cstr view str ≡ true) ↔ (contents view ≡ str)
unfolding nth_path_view_equal_cstr nth_path_view_equal
nth_path_view_equal_cstr_iff view str h =
    let other : NthPathView = record { ptr = some str; size = length str } in
    rw same (rw (take-length str) at (nth_path_view_equal_iff view other h (omega arith)))
  where
    same :
        nth_path_view_equal_cstr view str
        ≡ nth_path_view_equal view (record { ptr = some str; size = length str })
    same = elim (Bool-cases (view.size == length str)) [
      | inl e ↦ rw ((==_iff view.size (length str)).0 e)
      | inr ne ↦ rw ne
    ]

abbrev answer : Run Bool → Bool
answer (done b) = b
answer trap = false

-- Two live paths are equal just when they hold the same text.
pub nth_path_equal-text :
    (p q : NthPath) (s t : PathText)
    → Holds p s
    → Holds q t
    → (nth_path_equal p q ≡ done true) ↔ (s.text ≡ t.text)
unfolding nth_path_equal nth_path_equal_view
nth_path_equal-text p q s t hp hq =
    rw
      (
        hp.is,
        hq.is,
        path_alive-meta_of (length s.text) s.cap s.owned s.invalid s.normalized
            (omega (arith, hp.fits)) hp.fits.1,
        path_alive-meta_of (length t.text) t.cap t.owned t.invalid t.normalized
            (omega (arith, hq.fits)) hq.fits.1,
        path_len-meta_of (length s.text) s.cap s.owned s.invalid s.normalized
            (omega (arith, hp.fits)) hp.fits.1,
        path_len-meta_of (length t.text) t.cap t.owned t.invalid t.normalized
            (omega (arith, hq.fits)) hq.fits.1,
      )
      (λ e. same.0 (ap answer e), λ e. ap done (same.1 e))
  where
    shown : PathText → List ℕ → NthPathView
    shown u rest = record { ptr = some (u.text ++ (0 ∷ rest)); size = length u.text }

    same : (nth_path_view_equal (shown s hp.rest) (shown t hq.rest) ≡ true) ↔ (s.text ≡ t.text)
    same =
        rw (take-append_self s.text (0 ∷ hp.rest), take-append_self t.text (0 ∷ hq.rest)) at
          (nth_path_view_equal_iff (shown s hp.rest) (shown t hq.rest)
            (omega (arith, length-append s.text (0 ∷ hp.rest)))
            (omega (arith, length-append t.text (0 ∷ hq.rest))))
