-- ===== src/FreeList/Shrink.antt =====
-- Taking the last span away.
use narthex.Prelude.{
  ℕ, suc, ◌+◌, ◌-◌, ◌≤◌, ◌<◌, ◌≡◌, ◌≢◌, ◌⊎◌, refl, sym, true, false, inl, inr, List, [], ◌∷◌, arith,
  ◌==◌, set, Bool-cases,
}
use narthex.Prelude.Words.{u64_mod}
use narthex.Allocator.{NthSpan, no_span}
use narthex.DynArena.{span_at}
use narthex.DynArena.Inv.{span_at-set_ne}
use narthex.FreeList.{NthFreeList, in_span, any_used_in, strip, nth_free_list_shrink}
use narthex.FreeList.Blocks.{NthFreeListMeta}
use narthex.FreeList.Cover.{span_idx, IsBlock, AllBlocks, SpansFit, owners}
use narthex.FreeList.Order.{Before, Ordered, Before-skip}
use narthex.FreeList.Inv.{IsValid}

module _ (spans : List NthSpan) (last : ℕ) (fit : SpansFit spans (suc last)) where
  emptied : List NthSpan
  emptied = set spans last no_span

  -- A block of another span stays a block.
  stays :
      (m : NthFreeListMeta)
      → IsBlock spans (suc last) m
      → span_idx m ≢ last
      → IsBlock emptied last m
  unfolding emptied
  stays m b ne =
      let same : span_at (set spans last no_span) (span_idx m) ≡ span_at spans (span_idx m) =
        span_at-set_ne spans last (span_idx m) no_span (λ e. ne (sym e)) in
      record {
        key_fits = b.key_fits;
        aligned = b.aligned;
        some_cells = b.some_cells;
        from = rw same b.from;
        to = rw same b.to;
        counted = ground (arith, b.counted);
      }

  -- The address of a block of the last span lies in it.
  inside :
      (m : NthFreeListMeta)
      → IsBlock spans (suc last) m
      → span_idx m ≡ last
      → in_span (span_at spans last) m.at ≡ true
  inside m b e = ground (arith, rw e at b.from, rw e at b.to, b.some_cells, fit last (omega arith))

  used-stay :
      (used : List NthFreeListMeta)
      → AllBlocks spans (suc last) used
      → any_used_in used (span_at spans last) last ≡ false
      → AllBlocks emptied last used
  unfolding any_used_in
  used-stay [] all none_in = tt
  used-stay (m ∷ rest) all none_in =
      (stays m all.0 (ground arith), used-stay rest all.1 (ground arith))

  strip-Before :
      (p : NthFreeListMeta) (free : List NthFreeListMeta)
      → IsBlock spans (suc last) p
      → AllBlocks spans (suc last) free
      → Ordered free
      → Before p free
      → Before p (strip free (span_at spans last))
  unfolding strip
  strip-Before p [] q all o h = tt
  strip-Before p (m ∷ rest) q all o h = elim (Bool-cases (in_span (span_at spans last) m.at)) [
    | inl gone ↦ rw gone (
        strip-Before p rest q all.1 o.1 (Before-skip spans (suc last) fit p m rest q all.0 h.0 o.0))
    | inr kept ↦ rw kept h
  ]

  -- What is stripped leaves the other blocks, in order.
  record Stripped (free left : List NthFreeListMeta) : Type 0 where
    blocks : AllBlocks emptied last left
    order : Ordered left
    fewer : (x : ℕ) → owners left x ≤ owners free x

  strip-Stripped :
      (free : List NthFreeListMeta)
      → AllBlocks spans (suc last) free
      → Ordered free
      → Stripped free (strip free (span_at spans last))
  unfolding strip
  strip-Stripped [] all o = record { blocks = tt; order = tt; fewer = λ x. omega arith }
  strip-Stripped (m ∷ rest) all o =
      let s = strip-Stripped rest all.1 o.1 in
      elim (Bool-cases (in_span (span_at spans last) m.at)) [
        | inl gone ↦
            rw gone
              (record { blocks = s.blocks; order = s.order; fewer = λ x. omega (arith, s.fewer x) })
        | inr kept ↦ rw kept (record {
          blocks = (stays m all.0 (λ e. ground (arith, kept, inside m all.0 e)), s.blocks);
          order = (strip-Before m rest all.0 all.1 o.1 o.0, s.order);
          fewer = λ x. omega (arith, s.fewer x);
        })
      ]

  emptied-SpansFit : SpansFit emptied last
  unfolding emptied
  emptied-SpansFit i lt =
      rw (span_at-set_ne spans last i no_span (λ e. ground (arith, e))) (fit i (omega arith))

-- Some block of the list lies in the span, or is counted to it.
abbrev pub SomeIn : NthSpan → ℕ → List NthFreeListMeta → Type 0
SomeIn s last [] = ⊥
SomeIn s last (m ∷ ms) =
    ((s.base ≤ m.at) × (m.at < s.base + s.size)) ⊎ (span_idx m ≡ last) ⊎ SomeIn s last ms

any_used_in-SomeIn :
    (used : List NthFreeListMeta) (s : NthSpan) (last : ℕ)
    → s.base + s.size < u64_mod
    → any_used_in used s last ≡ true
    → SomeIn s last used
unfolding any_used_in
any_used_in-SomeIn [] s last fit e = cc
any_used_in-SomeIn (m ∷ rest) s last fit e = elim (Bool-cases (in_span s m.at)) [
  | inl here ↦ inl (ground arith)
  | inr out ↦ elim (Bool-cases (span_idx m == last)) [
    | inl counted ↦ inr (inl (ground arith))
    | inr other ↦ inr (inr (any_used_in-SomeIn rest s last fit (rw (out, other) at e)))
  ]
]

-- The last span was handed back: the list is valid without it, and keeps all the used blocks.
pub record Shrunk (l : NthFreeList) (s : NthSpan) (l' : NthFreeList) : Type 0 where
  pub last_span : s ≡ span_at l.spans (l.span_count - 1)
  pub counted : suc l'.span_count ≡ l.span_count
  pub valid : IsValid l'
  pub used : l'.p_used ≡ l.p_used

-- `nth_free_list_shrink` of a valid list hands back the last span, and leaves a list that is valid
-- without it; or it changes nothing and returns no span, since there is none, or since a used block
-- lies in it.
pub nth_free_list_shrink_lem :
    (l : NthFreeList)
    → IsValid l
    → let (s, l') = nth_free_list_shrink l in
      Shrunk l s l'
      ⊎ ((s ≡ no_span)
          × (l' ≡ l)
          × ((l.span_count ≡ 0)
              ⊎ SomeIn (span_at l.spans (l.span_count - 1)) (l.span_count - 1) l.p_used))
unfolding nth_free_list_shrink emptied
nth_free_list_shrink_lem l v = elim (Bool-cases (l.span_count == 0)) [
  | inl empty ↦ rw empty (inr (refl, refl, inl (ground arith)))
  | inr some_span ↦ rw some_span (elim (Bool-cases (any_used_in l.p_used s last)) [
    | inl busy ↦ rw busy (
        inr
          (refl, refl, inr (any_used_in-SomeIn l.p_used s last (v.fit last (ground arith)).0 busy)))
    | inr idle ↦ rw idle (inl (shrunk (ground arith) idle))
  ])
]
  where
    last : ℕ
    last = l.span_count - 1

    s : NthSpan
    s = span_at l.spans last

    shrunk :
        suc last ≡ l.span_count
        → any_used_in l.p_used s last ≡ false
        → Shrunk l s (record l {
          p_free = strip l.p_free s;
          spans = set l.spans last no_span;
          span_count = last;
        })
    shrunk e idle =
        let free : AllBlocks l.spans (suc last) l.p_free = rw e v.free in
        let used : AllBlocks l.spans (suc last) l.p_used = rw e v.used in
        let fit : SpansFit l.spans (suc last) = rw e v.fit in
        let left = strip-Stripped l.spans last fit l.p_free free v.ordered in
        record {
          last_span = refl;
          counted = e;
          valid = record {
            few = omega (arith, v.few);
            fit = emptied-SpansFit l.spans last fit;
            free = left.blocks;
            used = used-stay l.spans last fit l.p_used used idle;
            once = λ x. omega (arith, v.once x, left.fewer x);
            ordered = left.order;
          };
          used = refl;
        }
