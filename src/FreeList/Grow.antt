-- ===== src/FreeList/Grow.antt =====
-- Handing a free list another span.
use narthex.Prelude.{
  ℕ, suc, ◌+◌, ◌^◌, ◌≤◌, ◌<◌, ◌≡◌, refl, ap, ◌∙◌, inl, inr, Option, none, some, List, [], ◌∷◌, ◌++◌,
  arith, ltb, leb, set, length, length-set, length-append, Bool-cases,
}
use narthex.Prelude.Words.{add64, mul64}
use narthex.Allocator.{NthSpan}
use narthex.DynArena.{span_at}
use narthex.DynArena.Inv.{span_at-set_self, span_at-set_ne, span_at-append}
use narthex.FreeList.{NthFreeList, place_span, grow_full, nth_free_list_grow}
use narthex.FreeList.Blocks.{NthFreeListMeta, free_list_carve_span, nth_free_list_add_free}
use narthex.FreeList.Cover.{span_idx, end, IsBlock, AllBlocks, SpansFit, covers, Same}
use narthex.FreeList.Merge.{add_free-Same}
use narthex.FreeList.Order.{Clear, add_free-Ordered}
use narthex.FreeList.Free.{apart-Clear}
use narthex.FreeList.Inv.{IsValid, holders}
use narthex.FreeList.Setup.{IsSpan, Carved, carve-Carved}

-- The array has `span_capacity` cells, `span_count` of them in use.
pub record HasCells (l : NthFreeList) : Type 0 where
  pub cells : length l.spans ≡ l.span_capacity
  pub room : l.span_count ≤ l.span_capacity

-- Blocks stay blocks under another array that agrees on the spans in use.
module _ (spans spans' : List NthSpan) (count count' : ℕ) (more : count ≤ count')
    (agree : (i : ℕ) → i < count → span_at spans' i ≡ span_at spans i) where
  still-IsBlock : (m : NthFreeListMeta) → IsBlock spans count m → IsBlock spans' count' m
  still-IsBlock m b = record {
    key_fits = b.key_fits;
    aligned = b.aligned;
    some_cells = b.some_cells;
    from = rw (agree (span_idx m) b.counted) b.from;
    to = rw (agree (span_idx m) b.counted) b.to;
    counted = omega (arith, b.counted);
  }

  still-AllBlocks :
      (ms : List NthFreeListMeta) → AllBlocks spans count ms → AllBlocks spans' count' ms
  still-AllBlocks [] all = tt
  still-AllBlocks (m ∷ ms) all = (still-IsBlock m all.0, still-AllBlocks ms all.1)

-- No block holds a byte of the span.
abbrev pub Unheld : NthFreeList → NthSpan → Type 0
Unheld l s = (x : ℕ) → s.base ≤ x → x < s.base + s.size → holders l x ≡ 0

module _ (l : NthFreeList) (s : NthSpan) (v : IsValid l) (ok : IsSpan s)
    (few : l.span_count < 2 ^ 16) (unheld : Unheld l s) where
  place_span-IsValid : l.span_count < length l.spans → IsValid (place_span l s).1
  unfolding place_span
  place_span-IsValid lt = rw count (rw self at valid)
    where
      n : ℕ
      n = l.span_count

      spans : List NthSpan
      spans = set l.spans n s

      self : span_at spans n ≡ s
      self = span_at-set_self l.spans n s lt

      count : add64 n 1 ≡ suc n
      count = omega arith

      agree : (i : ℕ) → i < n → span_at spans i ≡ span_at l.spans i
      agree i h = span_at-set_ne l.spans n i s (λ e. omega (arith, e))

      is_span : IsSpan (span_at spans n)
      is_span = rw self ok

      fit : SpansFit spans (suc n)
      fit i h = elim (Bool-cases (ltb i n)) [
        | inl old ↦ rw (agree i (ground arith)) (v.fit i (ground arith))
        | inr new ↦ let e : i ≡ n = ground arith in rw e (is_span.ends, is_span.fits)
      ]

      m : NthFreeListMeta
      m = free_list_carve_span (span_at spans n) n

      c : Carved spans (suc n) n
      c = carve-Carved spans (suc n) n is_span (omega arith) (omega arith)

      from : s.base ≤ m.at
      from = omega (arith, rw c.idx at c.block.from, ap (λ (t : NthSpan). t.base) self)

      to : end m ≤ s.base + s.size
      to = omega (arith, rw c.idx at c.block.to, ap (λ (t : NthSpan). t.base + t.size) self)

      free : AllBlocks spans (suc n) l.p_free
      free = still-AllBlocks l.spans spans n (suc n) (omega arith) agree l.p_free v.free

      shared : (x : ℕ) → covers m x + holders l x ≤ 1
      shared x = elim (Bool-cases (leb 1 (covers m x))) [
        | inl mine ↦
            let in_block : (m.at ≤ x) × (x < end m) = ground arith in
            ground (arith, unheld x (omega (arith, from)) (omega (arith, to)))
        | inr free_of_it ↦ ground (arith, v.once x)
      ]

      clear : Clear m l.p_free
      clear = apart-Clear spans (suc n) m l.p_free c.block free (λ x. omega (arith, shared x))

      same : Same spans (suc n) fit (m ∷ l.p_free) (nth_free_list_add_free l.p_free m)
      same = add_free-Same spans (suc n) fit l.p_free m free c.block

      valid : IsValid (record l {
        spans = spans;
        span_count = suc n;
        p_free = nth_free_list_add_free l.p_free m;
      })
      valid = record {
        few = omega arith;
        fit = fit;
        free = same.0;
        used = still-AllBlocks l.spans spans n (suc n) (omega arith) agree l.p_used v.used;
        once = λ x. omega (arith, same.1 x, shared x);
        ordered = add_free-Ordered spans (suc n) fit l.p_free m free c.block v.ordered clear;
      }

  place_span-HasCells : HasCells l → l.span_count < l.span_capacity → HasCells (place_span l s).1
  unfolding place_span
  place_span-HasCells h lt = record {
    cells = length-set l.spans l.span_count s ∙ h.cells;
    room = omega arith;
  }

-- `nth_free_list_grow` by a span that shares no byte with a block keeps a valid list valid, whether
-- `realloc` is called, fails or is not needed, up to 65535 spans. What `realloc` adds doubles the
-- array.
pub nth_free_list_grow-IsValid :
    (l : NthFreeList) (more : Option (List NthSpan)) (s : NthSpan)
    → IsValid l
    → HasCells l
    → IsSpan s
    → Unheld l s
    → l.span_count < 2 ^ 16
    → 0 < l.span_capacity
    → l.span_capacity < 2 ^ 60
    → ((cells : List NthSpan) → more ≡ some cells → length cells ≡ l.span_capacity)
    → let l' = (nth_free_list_grow l more s).1 in IsValid l' × HasCells l'
unfolding nth_free_list_grow grow_full
nth_free_list_grow-IsValid l more s v h ok unheld few pos bound doubles =
    elim (Bool-cases (leb l.span_capacity l.span_count)) [
      | inl full ↦ rw full (grown more doubles)
      | inr room ↦ rw room (
        place_span-IsValid l s v ok few unheld (ground (arith, h.cells)),
        place_span-HasCells l s v ok few unheld h (ground arith),
      )
    ]
  where
    wider : List NthSpan → NthFreeList
    wider cells = record l { spans = l.spans ++ cells; span_capacity = mul64 l.span_capacity 2 }

    size :
        (cells : List NthSpan)
        → length cells ≡ l.span_capacity
        → length (l.spans ++ cells) ≡ mul64 l.span_capacity 2
    size cells e = omega (arith, length-append l.spans cells, h.cells)

    wider-IsValid : (cells : List NthSpan) → IsValid (wider cells)
    wider-IsValid cells =
        let agree : (i : ℕ) → i < l.span_count → span_at (l.spans ++ cells) i ≡ span_at l.spans i =
          λ i lt. span_at-append l.spans cells i (omega (arith, h.cells, h.room)) in
        record {
          few = v.few;
          fit = λ i lt. rw (agree i lt) (v.fit i lt);
          free =
              still-AllBlocks l.spans (l.spans ++ cells) l.span_count l.span_count (omega arith)
                agree l.p_free v.free;
          used =
              still-AllBlocks l.spans (l.spans ++ cells) l.span_count l.span_count (omega arith)
                agree l.p_used v.used;
          once = v.once;
          ordered = v.ordered;
        }

    grown :
        (o : Option (List NthSpan))
        → ((cells : List NthSpan) → o ≡ some cells → length cells ≡ l.span_capacity)
        → IsValid (grow_full l o s).1 × HasCells (grow_full l o s).1
    grown none d = (v, h)
    grown (some cells) d =
        let e = size cells (d cells refl) in
        let w : HasCells (wider cells) = record { cells = e; room = omega (arith, h.room) } in
        (
          place_span-IsValid (wider cells) s (wider-IsValid cells) ok few unheld
              (omega (arith, e, h.room)),
          place_span-HasCells (wider cells) s (wider-IsValid cells) ok few unheld w
              (omega (arith, h.room)),
        )
