-- ===== src/FreeList/Setup.antt =====
-- Spans as free blocks: set-up, and clearing.
use narthex.Prelude.{
  ℕ, zero, suc, ◌+◌, ◌-◌, ◌*◌, ◌/◌, ◌^◌, ◌≤◌, ◌<◌, ◌≡◌, refl, ◌∙◌, true, ◌&&◌, inl, inr, List, ◌∷◌,
  arith, leb, ◌==◌, ==_iff, Bool-cases,
}
use narthex.Prelude.Words.{u64_mod, add64, sub64}
use narthex.Align.{nth_is_pow2, nth_align_pad}
use narthex.Align.Laws.{nth_align_pad_lem, nth_align_pad_least}
use narthex.Allocator.{NthSpan}
use narthex.DynArena.{span_at}
use narthex.FreeList.{carve_spans}
use narthex.FreeList.Key.{
  sizedown_to_csize, flist_set_csize, csize-set_csize, csize-set_span_idx, span_idx-set_span_idx,
  set_csize-lt, set_span_idx-lt,
}
use narthex.FreeList.Blocks.{
  NthFreeListMeta, new_meta, free_list_carve_span, nth_free_list_add_free,
}
use narthex.FreeList.Cover.{csize, span_idx, IsBlock, AllBlocks, SpansFit, covers, owners, Same}
use narthex.FreeList.Merge.{add_free-Same}
use narthex.FreeList.Order.{Ordered, Clear, add_free-Ordered}
use narthex.FreeList.Free.{apart-Clear}

-- A span that the debug assertions let through: it does not wrap, its cells fit the field, and it
-- has room for a header behind the padding.
pub record IsSpan (s : NthSpan) : Type 0 where
  pub ends : s.base + s.size < u64_mod
  pub fits : s.size < 2 ^ 52
  pub room : nth_align_pad s.base 16 + 16 ≤ s.size

pow2_16 : nth_is_pow2 16 ≡ true
unfolding nth_is_pow2
pow2_16 = refl

-- What carving makes of the span `i`.
pub record Carved (spans : List NthSpan) (count i : ℕ) : Type 0 where
  pub block : IsBlock spans count (free_list_carve_span (span_at spans i) i)
  pub idx : span_idx (free_list_carve_span (span_at spans i) i) ≡ i
  pub start :
      (free_list_carve_span (span_at spans i) i).at
      ≡ (span_at spans i).base + nth_align_pad (span_at spans i).base 16
  pub cells :
      csize (free_list_carve_span (span_at spans i) i)
      ≡ ((span_at spans i).size - nth_align_pad (span_at spans i).base 16) / 16

pub carve-Carved :
    (spans : List NthSpan) (count i : ℕ)
    → IsSpan (span_at spans i)
    → i < count
    → count ≤ 2 ^ 16
    → Carved spans count i
unfolding free_list_carve_span new_meta sizedown_to_csize
carve-Carved spans count i ok lt few =
    let s = span_at spans i in
    let pad : ℕ = nth_align_pad s.base 16 in
    let (small, hit) = nth_align_pad_lem s.base 16 pow2_16 (omega arith) (omega (arith, ok.ends)) in
    let at : add64 s.base pad ≡ s.base + pad = omega (arith, ok.ends, ok.room) in
    let cells : ℕ = (sub64 s.size pad) / 2 ^ 4 in
    let k : ℕ = flist_set_csize 0 cells in
    let kl : k < u64_mod = set_csize-lt 0 cells (omega arith) in
    let c : csize (free_list_carve_span s i) ≡ cells =
      csize-set_span_idx k i kl
      ∙ csize-set_csize 0 cells (omega arith) (omega (arith, ok.fits, ok.room)) in
    let idx : span_idx (free_list_carve_span s i) ≡ i =
      span_idx-set_span_idx k i kl (omega arith) in
    record {
      idx = idx;
      start = at;
      cells = omega (arith, c, ok.room, ok.fits);
      block = record {
        key_fits = set_span_idx-lt k i kl;
        aligned = omega (arith, at, hit);
        some_cells = omega (arith, c, ok.room, ok.fits);
        from = rw idx (omega (arith, at));
        to = rw idx (omega (arith, at, c, ok.room, ok.fits));
        counted = rw idx lt;
      };
    }

-- A cell is 16 bytes on a multiple of 16; `x` is in one that lies inside the span.
pub record InCell (s : NthSpan) (x : ℕ) : Type 0 where
  pub cell : ℕ
  pub from : s.base ≤ cell * 16
  pub to : cell * 16 + 16 ≤ s.base + s.size
  pub lower : cell * 16 ≤ x
  pub upper : x < cell * 16 + 16

-- Carving leaves out no cell of the span.
pub carve-InCell :
    (spans : List NthSpan) (count i x : ℕ)
    → IsSpan (span_at spans i)
    → i < count
    → count ≤ 2 ^ 16
    → InCell (span_at spans i) x
    → covers (free_list_carve_span (span_at spans i) i) x ≡ 1
carve-InCell spans count i x ok lt few c =
    let s = span_at spans i in
    let r = carve-Carved spans count i ok lt few in
    let pad : nth_align_pad s.base 16 ≤ c.cell * 16 - s.base =
      nth_align_pad_least s.base 16 (c.cell * 16 - s.base) pow2_16 (omega arith)
        (omega (arith, ok.ends)) (omega (arith, c.from)) in
    let (small, hit) = nth_align_pad_lem s.base 16 pow2_16 (omega arith) (omega (arith, ok.ends)) in
    ground (arith, r.start, r.cells, pad, hit, c.from, c.to, c.lower, c.upper)

-- The spans in use share no byte.
abbrev pub Apart : List NthSpan → ℕ → Type 0
Apart spans count =
    (i j x : ℕ)
    → i < count
    → j < count
    → (span_at spans i).base ≤ x
    → x < (span_at spans i).base + (span_at spans i).size
    → (span_at spans j).base ≤ x
    → x < (span_at spans j).base + (span_at spans j).size
    → i ≡ j

module _ (spans : List NthSpan) (count : ℕ) (few : count ≤ 2 ^ 16)
    (ok : (i : ℕ) → i < count → IsSpan (span_at spans i)) (apart : Apart spans count) where
  pub spans_fit : SpansFit spans count
  spans_fit i lt = ((ok i lt).ends, (ok i lt).fits)

  -- The first `i` spans lie on the free list, and nothing else.
  pub record Laid (i : ℕ) (free : List NthFreeListMeta) : Type 0 where
    pub blocks : AllBlocks spans count free
    pub order : Ordered free
    pub once : (x : ℕ) → owners free x ≤ 1
    pub within :
        (x : ℕ)
        → 0 < owners free x
        → (j : ℕ) × (j < i)
          × ((span_at spans j).base ≤ x)
          × (x < (span_at spans j).base + (span_at spans j).size)
    pub all :
        (j x : ℕ) → j < i → covers (free_list_carve_span (span_at spans j) j) x ≤ owners free x

  next-Laid :
      (i : ℕ) (free : List NthFreeListMeta)
      → i < count
      → Laid i free
      → Laid (i + 1) (nth_free_list_add_free free (free_list_carve_span (span_at spans i) i))
  next-Laid i free lt l = record {
    blocks = s.0;
    order = add_free-Ordered spans count spans_fit free m l.blocks c.block l.order clear;
    once = λ x. omega (arith, s.1 x, shared x);
    within = λ x h. elim (Bool-cases (leb 1 (covers m x))) [
      | inl mine ↦ (i, omega arith, ground (arith, here x), ground (arith, here x))
      | inr not_mine ↦
          let (j, a, b, d) = l.within x (ground (arith, s.1 x)) in (j, omega arith, b, d)
    ];
    all = λ j x h. elim (Bool-cases (j == i)) [
      | inl last ↦ rw ((==_iff j i).0 last) (omega (arith, s.1 x))
      | inr before ↦ omega (arith, s.1 x, l.all j x (ground arith))
    ];
  }
    where
      m : NthFreeListMeta
      m = free_list_carve_span (span_at spans i) i

      c : Carved spans count i
      c = carve-Carved spans count i (ok i lt) lt few

      here :
          (x : ℕ)
          → 0 < covers m x
          → ((span_at spans i).base ≤ x) × (x < (span_at spans i).base + (span_at spans i).size)
      here x h = ground (arith, rw c.idx at c.block.from, rw c.idx at c.block.to)

      shared : (x : ℕ) → covers m x + owners free x ≤ 1
      shared x = elim (Bool-cases (leb 1 (covers m x) && leb 1 (owners free x))) [
        | inl both ↦
            let (p, q) = here x (ground arith) in
            let (j, a, b, d) = l.within x (ground arith) in
            absurd (omega (arith, apart i j x lt (omega arith) p q b d))
        | inr one ↦ ground (arith, l.once x)
      ]

      clear : Clear m free
      clear = apart-Clear spans count m free c.block l.blocks shared

      s : Same spans count spans_fit (m ∷ free) (nth_free_list_add_free free m)
      s = add_free-Same spans count spans_fit free m l.blocks c.block

  pub carve_spans-Laid :
      (left i n : ℕ) (free : List NthFreeListMeta)
      → n ≡ i + left
      → n ≤ count
      → Laid i free
      → Laid n (carve_spans free spans i left)
  unfolding carve_spans
  carve_spans-Laid zero i n free e le l = let same : n ≡ i = omega arith in rw same l
  carve_spans-Laid (suc left) i n free e le l =
      let now : i < count = omega arith in
      let sum : n ≡ i + 1 + left = omega arith in
      carve_spans-Laid left (i + 1) n _ sum le (next-Laid i free now l)
