-- ===== src/DynArena/Placed.antt =====
-- modules/allocator/dyn_arena.c: a block that `nth_dyn_arena_alloc` has placed.
use narthex.Prelude.{
  ℕ, ◌+◌, ◌-◌, ◌%◌, ◌≤◌, ◌<◌, ◌≡◌, ◌≢◌, ◌⊎◌, inl, inr, refl, ap, ◌∙◌, some, List, arith, ◌==◌,
  if◌then◌else◌, Bool-cases, length, set, length-set,
}
use narthex.Prelude.Words.{u64_mod, add64}
use narthex.Align.{nth_align_pad}
use narthex.Align.Laws.{nth_align_pad_lem}
use narthex.Allocator.{NthSpan}
use narthex.Arena.Bounds.{IsAlignment}
use narthex.DynArena.{NthDynArena, span_at, enter_span}
use narthex.DynArena.Inv.{IsValid, span_at-set_self, span_at-set_ne}

-- The transposition of `n` and `i`.
unfoldable pub swapped : ℕ → ℕ → ℕ → ℕ
swapped n i j = if j == n then i else if j == i then n else j

-- A block of `size` bytes at `addr` was taken from `a`, leaving `b`: it is aligned, lies in the
-- current span of `b` and ends at its offset; it starts behind the old offset, or in a span that
-- was not in use before; and the spans are those of `a`, exchanged only behind the old current
-- span.
pub record Placed (a : NthDynArena) (size align addr : ℕ) (b : NthDynArena) : Type 0 where
  pub aligned : addr % align ≡ 0
  pub inside :
      ((span_at b.spans b.span_idx).base ≤ addr)
      × (addr + size ≤ (span_at b.spans b.span_idx).base + (span_at b.spans b.span_idx).size)
  pub end : (span_at b.spans b.span_idx).base + b.offset ≡ addr + size
  pub beyond :
      ((b.span_idx ≡ a.span_idx) × ((span_at a.spans a.span_idx).base + a.offset ≤ addr))
      ⊎ (b.span_idx ≡ a.span_idx + 1)
  pub in_use : b.span_idx < b.span_count
  pub counts : (b.span_count ≡ a.span_count) × (b.span_capacity ≡ a.span_capacity)
  pub array : length b.spans ≡ length a.spans
  pub from : ℕ → ℕ
  pub from_from : (j : ℕ) → from (from j) ≡ j
  pub from_below : (j : ℕ) → j < a.span_count → from j < a.span_count
  pub from_kept : (j : ℕ) → j ≤ a.span_idx → from j ≡ j
  pub moved : (j : ℕ) → span_at b.spans j ≡ span_at a.spans (from j)

span_at-exchange :
    (xs : List NthSpan) (n i j : ℕ)
    → n < length xs
    → i < length xs
    → span_at (set (set xs n (span_at xs i)) i (span_at xs n)) j ≡ span_at xs (swapped n i j)
unfolding swapped
span_at-exchange xs n i j hn hi = ground (
  arith,
  length-set xs n (span_at xs i),
  span_at-set_self (set xs n (span_at xs i)) i (span_at xs n),
  span_at-set_ne (set xs n (span_at xs i)) i j (span_at xs n),
  span_at-set_self xs n (span_at xs i),
  span_at-set_ne xs n j (span_at xs i),
)

pub span_at-moved :
    (xs : List NthSpan) (n i j : ℕ)
    → n < length xs
    → i < length xs
    → span_at (if i == n then xs else set (set xs n (span_at xs i)) i (span_at xs n)) j
      ≡ span_at xs (swapped n i j)
span_at-moved xs n i j hn hi = elim (Bool-cases (i == n)) [
  | inl same ↦ rw same (unfold swapped in ground arith)
  | inr other ↦ rw other (span_at-exchange xs n i j hn hi)
]

pub length-moved :
    (xs : List NthSpan) (n i : ℕ)
    → length (if i == n then xs else set (set xs n (span_at xs i)) i (span_at xs n)) ≡ length xs
length-moved xs n i = elim (Bool-cases (i == n)) [
  | inl same ↦ rw same
  | inr other ↦ rw (other, length-set, length-set)
]

module _ (n i : ℕ) where
  swapped-swapped : (j : ℕ) → swapped n i (swapped n i j) ≡ j
  unfolding swapped
  swapped-swapped j = ground arith

  swapped-lt : (j m : ℕ) → n < m → i < m → j < m → swapped n i j < m
  unfolding swapped
  swapped-lt j m hn hi hj = ground arith

  swapped_kept : (j : ℕ) → j < n → j < i → swapped n i j ≡ j
  unfolding swapped
  swapped_kept j hn hi = ground arith

  swapped_first : swapped n i n ≡ i
  unfolding swapped
  swapped_first = ground arith

module _ (a : NthDynArena) (size align : ℕ) (v : IsValid a) (al : IsAlignment align)
    (sz : size < u64_mod) where
  -- The current span has room.
  pub stay-Placed :
      a.span_count ≢ 0
      → let cur = span_at a.spans a.span_idx in
        let pad = nth_align_pad (add64 cur.base a.offset) align in
        pad ≤ cur.size - a.offset
        → size ≤ cur.size - a.offset - pad
        → Placed a size align
            (cur.base + (a.offset + pad))
            (record a { offset = a.offset + pad + size })
  stay-Placed ne p q = record {
    aligned = ground (arith, pads.1);
    inside = omega (arith, v.within);
    end = omega arith;
    beyond = inl (refl, omega arith);
    in_use = ground (arith, v.current);
    counts = (refl, refl);
    array = refl;
    from = λ j. j;
    from_from = λ j. refl;
    from_below = λ j h. h;
    from_kept = λ j h. refl;
    moved = λ j. refl;
  }
    where
      cur : NthSpan
      cur = span_at a.spans a.span_idx

      base_in : cur.base + cur.size < u64_mod
      base_in = v.no_wrap a.span_idx (ground (arith, v.current))

      start-eq : add64 cur.base a.offset ≡ cur.base + a.offset
      start-eq = omega (arith, base_in, v.within)

      pads :
          (nth_align_pad (add64 cur.base a.offset) align < align)
          × ((cur.base + (a.offset + nth_align_pad (add64 cur.base a.offset) align)) % align ≡ 0)
      pads =
          let (lt, m) = nth_align_pad_lem (add64 cur.base a.offset) align al.0 al.1 (omega arith) in
          (lt, ap (λ n. n % align) (omega (arith, start-eq)) ∙ m)

  -- A span behind the current one has room, and has come to the place behind it in `m`.
  pub entered-Placed :
      (i : ℕ) (m : List NthSpan)
      → a.span_idx < i
      → i < a.span_count
      → let p = nth_align_pad (span_at a.spans i).base align in
        p ≤ (span_at a.spans i).size
        → size ≤ (span_at a.spans i).size - p
        → ((j : ℕ) → span_at m j ≡ span_at a.spans (swapped (a.span_idx + 1) i j))
        → length m ≡ length a.spans
        → Placed a size align
            ((span_at a.spans i).base + p)
            (record a { spans = m; span_idx = a.span_idx + 1; offset = p + size })
  entered-Placed i m lo hi p q mv len = record {
    aligned = (nth_align_pad_lem _ align al.0 al.1 (omega (arith, v.no_wrap i hi))).1;
    inside = rw (mv, swapped_first) (omega arith);
    end = rw (mv, swapped_first) (omega arith);
    beyond = inr refl;
    in_use = omega arith;
    counts = (refl, refl);
    array = len;
    from = swapped (a.span_idx + 1) i;
    from_from = swapped-swapped (a.span_idx + 1) i;
    from_below = λ j. swapped-lt (a.span_idx + 1) i j a.span_count (omega arith) hi;
    from_kept = λ j h. swapped_kept (a.span_idx + 1) i j (omega arith) (omega arith);
    moved = mv;
  }

  pub enter_span-eq :
      (i : ℕ)
      → a.span_idx < i
      → i < a.span_count
      → let p = nth_align_pad (span_at a.spans i).base align in
        p ≤ (span_at a.spans i).size
        → size ≤ (span_at a.spans i).size - p
        → enter_span a i p size ≡ (
          some ((span_at a.spans i).base + p),
          record a {
            spans =
                if i == a.span_idx + 1
                then a.spans
                else set
                    (set a.spans (a.span_idx + 1) (span_at a.spans i))
                    i
                    (span_at a.spans (a.span_idx + 1));
            span_idx = a.span_idx + 1;
            offset = p + size;
          },
        )
  unfolding enter_span
  enter_span-eq i lo hi p q =
      rw
        (
          next,
          span_at-moved a.spans (a.span_idx + 1) i (a.span_idx + 1) (omega (arith, v.cells, v.room))
              (omega (arith, v.cells, v.room)),
          swapped_first (a.span_idx + 1) i,
          no_wrap_base,
          no_wrap_end,
        )
        refl
    where
      next : add64 a.span_idx 1 ≡ a.span_idx + 1
      next = omega (arith, v.room, v.small)

      pad : ℕ
      pad = nth_align_pad (span_at a.spans i).base align

      no_wrap_base : add64 (span_at a.spans i).base pad ≡ (span_at a.spans i).base + pad
      no_wrap_base = omega (arith, v.no_wrap i hi)

      no_wrap_end : add64 pad size ≡ pad + size
      no_wrap_end = omega (arith, v.no_wrap i hi)
