-- ===== src/DynArena/Place.antt =====
-- Where `nth_dyn_arena_alloc` puts a block, and when it finds no place.
use narthex.Prelude.{
  ℕ, zero, suc, ◌+◌, ◌-◌, ◌%◌, ◌≤◌, ◌<◌, ◌≡◌, ◌≢◌, ◌⊎◌, inl, inr, refl, ap, ◌∙◌, Bool, true, false,
  ◌&&◌, ◌||◌, Option, none, some, arith, ◌==◌, if-or, ltb, leb, if◌then◌else◌, Bool-cases,
}
use narthex.Prelude.Words.{u64_mod, add64, sub64}
use narthex.Align.{nth_align_pad}
use narthex.Align.Laws.{nth_align_pad_least}
use narthex.Allocator.{NthSpan}
use narthex.Arena.Bounds.{IsAlignment}
use narthex.DynArena.{NthDynArena, span_at, scan_spans, nth_dyn_arena_alloc}
use narthex.DynArena.Inv.{IsValid}
use narthex.DynArena.Placed.{
  Placed, span_at-moved, length-moved, stay-Placed, entered-Placed, enter_span-eq,
}

-- No aligned block of `size` bytes fits in a span from the current one on, behind what is used.
abbrev pub NoRoom : NthDynArena → ℕ → ℕ → Type 0
NoRoom a size align =
    (i addr : ℕ)
    → a.span_idx ≤ i
    → i < a.span_count
    → addr % align ≡ 0
    → (span_at a.spans i).base + (if i == a.span_idx then a.offset else 0) ≤ addr
    → (span_at a.spans i).base + (span_at a.spans i).size < addr + size

-- What an allocation has done: placed a block, or found no room and left the arena alone.
abbrev pub Outcome : NthDynArena → ℕ → ℕ → Option ℕ × NthDynArena → Type 0
Outcome a size align (none, b) = (b ≡ a) × NoRoom a size align
Outcome a size align (some addr, b) = Placed a size align addr b

module _ (a : NthDynArena) (size align : ℕ) (v : IsValid a) (al : IsAlignment align)
    (sz : size < u64_mod) where
  no-fit :
      (i : ℕ)
      → i < a.span_count
      → ((span_at a.spans i).size < nth_align_pad (span_at a.spans i).base align)
        ⊎ ((span_at a.spans i).size - nth_align_pad (span_at a.spans i).base align < size)
      → (addr : ℕ) → addr % align ≡ 0
      → (span_at a.spans i).base ≤ addr
      → (span_at a.spans i).base + (span_at a.spans i).size < addr + size
  no-fit i hi why addr m from =
      let b : ℕ = (span_at a.spans i).base in
      let back : b + (addr - b) ≡ addr = omega arith in
      omega (
        arith,
        why,
        nth_align_pad_least b align (addr - b) al.0 al.1 (omega (arith, v.no_wrap i hi))
            (ap (λ n. n % align) back ∙ m),
      )

  -- The loop at index `i`, once no span before `i` has room.
  scan_spans-Outcome :
      (left i : ℕ)
      → a.span_idx < i
      → i + left ≡ a.span_count
      → ((j addr : ℕ)
          → a.span_idx ≤ j
          → j < i
          → addr % align ≡ 0
          → (span_at a.spans j).base + (if j == a.span_idx then a.offset else 0) ≤ addr
          → (span_at a.spans j).base + (span_at a.spans j).size < addr + size)
      → Outcome a size align (scan_spans a size align left i)
  unfolding scan_spans
  scan_spans-Outcome zero i lo sum before = (refl, λ j addr h lt. before j addr h (omega arith))
  scan_spans-Outcome (suc left) i lo sum before = rw if-or (elim (Bool-cases skips) [
    | inl skip ↦ rw skip (
        scan_spans-Outcome left (i + 1) (omega arith) (omega arith) λ j addr h lt m from.
          elim (Bool-cases (j == i)) [
            | inl same ↦ ground (arith, no-fit i (omega arith) (ground (arith, v.no_wrap i)) addr m)
            | inr other ↦ before j addr h (ground arith) m from
          ])
    | inr fits ↦
        rw
          (
            fits,
            enter_span-eq a size align v al sz i lo (omega arith) (ground arith) (ground arith),
          )
          (entered-Placed a size align v al sz i _ lo (omega arith) (ground arith) (ground arith)
            (λ j.
              span_at-moved a.spans (a.span_idx + 1) i j (omega (arith, v.cells, v.room))
                (omega (arith, v.cells, v.room)))
            (length-moved a.spans (a.span_idx + 1) i))
  ])
    where
      skips : Bool
      skips =
          ltb (span_at a.spans i).size (nth_align_pad (span_at a.spans i).base align)
          || ltb (sub64 (span_at a.spans i).size (nth_align_pad (span_at a.spans i).base align))
              size

-- On a valid arena `nth_dyn_arena_alloc` either returns an aligned block inside the current span,
-- behind the old offset or in a span that was not in use, or returns NULL and changes nothing; and
-- then no aligned block of that size fits behind the offset nor in any later span.
pub nth_dyn_arena_alloc-Outcome :
    (a : NthDynArena) (size align : ℕ)
    → IsValid a
    → IsAlignment align
    → size < u64_mod
    → Outcome a size align (nth_dyn_arena_alloc a size align)
unfolding nth_dyn_arena_alloc
nth_dyn_arena_alloc-Outcome a size align v al sz = elim (Bool-cases (a.span_count == 0)) [
  | inl none_yet ↦ rw none_yet (refl, λ i addr h lt. absurd (ground arith))
  | inr some_span ↦
      let ne : a.span_count ≢ 0 = ground arith in
      rw some_span (elim (Bool-cases here) [
        | inl fits ↦
            let (p, q) = bounds ne fits in
            let (at, addr, end) = no_wrap ne fits in
            rw (fits, at, addr, end) (stay-Placed a size align v al sz ne p q)
        | inr full ↦ rw full (
            scan_spans-Outcome a size align v al sz _ (a.span_idx + 1) (omega arith)
              (omega (arith, v.current))
              λ j addr h lt m from. ground (arith, no_fit_here ne full addr m))
      ])
]
  where
    cur : NthSpan
    cur = span_at a.spans a.span_idx

    pad : ℕ
    pad = nth_align_pad (add64 cur.base a.offset) align

    here : Bool
    here = leb pad (sub64 cur.size a.offset) && leb size (sub64 (sub64 cur.size a.offset) pad)

    base_in : a.span_count ≢ 0 → cur.base + cur.size < u64_mod
    base_in ne = v.no_wrap a.span_idx (omega (arith, v.current))

    left-eq : a.span_count ≢ 0 → sub64 cur.size a.offset ≡ cur.size - a.offset
    left-eq ne = omega (arith, base_in ne, v.within)

    bounds :
        a.span_count ≢ 0
        → here ≡ true
        → (pad ≤ cur.size - a.offset) × (size ≤ cur.size - a.offset - pad)
    bounds ne fits = ground (arith, base_in ne, v.within)

    no_wrap :
        a.span_count ≢ 0
        → here ≡ true
        → (add64 a.offset pad ≡ a.offset + pad)
          × (add64 cur.base (a.offset + pad) ≡ cur.base + (a.offset + pad))
          × (add64 (a.offset + pad) size ≡ a.offset + pad + size)
    no_wrap ne fits = omega (arith, base_in ne, v.within, bounds ne fits)

    too_big : a.span_count ≢ 0 → here ≡ false → cur.size < a.offset + pad + size
    too_big ne full = ground (arith, base_in ne, v.within)

    no_fit_here :
        a.span_count ≢ 0
        → here ≡ false
        → (addr : ℕ) → addr % align ≡ 0
        → cur.base + a.offset ≤ addr
        → cur.base + cur.size < addr + size
    no_fit_here ne full addr m from =
        let start : add64 cur.base a.offset ≡ cur.base + a.offset =
          omega (arith, base_in ne, v.within) in
        let back : add64 cur.base a.offset + (addr - (cur.base + a.offset)) ≡ addr = omega arith in
        omega (
          arith,
          too_big ne full,
          nth_align_pad_least (add64 cur.base a.offset) align (addr - (cur.base + a.offset)) al.0
              al.1 (omega arith) (ap (λ n. n % align) back ∙ m),
        )
