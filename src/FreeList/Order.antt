-- ===== src/FreeList/Order.antt =====
-- The free list stays in the order of addresses, and fully coalesced.
use narthex.Prelude.{
  ℕ, ◌≤◌, ◌<◌, ◌≡◌, refl, sym, ◌∙◌, false, ◌&&◌, ◌⊎◌, inl, inr, List, [], ◌∷◌, arith, ltb, ◌==◌,
  Bool-cases,
}
use narthex.Allocator.{NthSpan}
use narthex.FreeList.Blocks.{
  NthFreeListMeta, touches, absorb, merge_next, merge_prev, add_behind, nth_free_list_add_free,
}
use narthex.FreeList.Cover.{
  csize, span_idx, end, IsBlock, AllBlocks, SpansFit, past-end, touches-ends, absorb-Joined,
}

-- A free list in the order of addresses, with no two blocks left that could be one.
abbrev pub Before : NthFreeListMeta → List NthFreeListMeta → Type 0
Before m [] = Unit
Before m (n ∷ ns) = (end m ≤ n.at) × (touches m n ≡ false)

abbrev pub Ordered : List NthFreeListMeta → Type 0
Ordered [] = Unit
Ordered (m ∷ ms) = Before m ms × Ordered ms

-- The block overlaps none of the list.
abbrev pub Clear : NthFreeListMeta → List NthFreeListMeta → Type 0
Clear m [] = Unit
Clear m (n ∷ ns) = ((end m ≤ n.at) ⊎ (end n ≤ m.at)) × Clear m ns

-- The list starts no lower than the block.
abbrev From : NthFreeListMeta → List NthFreeListMeta → Type 0
From m [] = Unit
From m (n ∷ ns) = m.at ≤ n.at

-- The list starts with a block where `m` starts, in the same span.
abbrev Heads : NthFreeListMeta → List NthFreeListMeta → Type 0
Heads m [] = ⊥
Heads m (h ∷ t) = (h.at ≡ m.at) × (span_idx h ≡ span_idx m)

Before-Heads :
    (pp m : NthFreeListMeta) (ms r : List NthFreeListMeta)
    → Before pp (m ∷ ms)
    → Heads m r
    → Before pp r
Before-Heads pp m ms [] b h = tt
Before-Heads pp m ms (x ∷ r) b h = rw (h.0, h.1) b

module _ (spans : List NthSpan) (count : ℕ) (fit : SpansFit spans count) where
  pub touches-eq :
      (a b : NthFreeListMeta)
      → IsBlock spans count a
      → touches a b ≡ (span_idx a == span_idx b) && (end a == b.at)
  touches-eq a b p = rw (past-end spans count fit a (csize a) p (omega arith))

  pub Before-carry :
      (a b : NthFreeListMeta) (ms : List NthFreeListMeta)
      → IsBlock spans count a
      → IsBlock spans count b
      → span_idx a ≡ span_idx b
      → end a ≡ end b
      → Before b ms
      → Before a ms
  Before-carry a b [] p q same ends h = tt
  Before-carry a b (n ∷ ns) p q same ends h = (
    omega (arith, ends, h.0),
    touches-eq a n p ∙ (rw (same, ends) (sym (touches-eq b n q)) ∙ h.1),
  )

  -- What comes before a block comes before what is behind it.
  pub Before-skip :
      (p m : NthFreeListMeta) (ns : List NthFreeListMeta)
      → IsBlock spans count p
      → IsBlock spans count m
      → end p ≤ m.at
      → Before m ns
      → Before p ns
  Before-skip p m [] q b h before = tt
  Before-skip p m (n ∷ ns) q b h before =
      (omega (arith, before.0), touches-eq p n q ∙ ground (arith, before.0, b.some_cells))

  -- A block and the list behind it, in order.
  abbrev Chain : NthFreeListMeta → List NthFreeListMeta → Type 0
  Chain m ms = IsBlock spans count m × AllBlocks spans count ms × Before m ms × Ordered ms

  merge_next-Chain :
      (meta : NthFreeListMeta) (after : List NthFreeListMeta)
      → IsBlock spans count meta
      → AllBlocks spans count after
      → Ordered after
      → Clear meta after
      → From meta after
      → let (m, r) = merge_next meta after in
        Chain m r × (m.at ≡ meta.at) × (span_idx m ≡ span_idx meta)
  merge_next-Chain meta [] p q o c first = ((p, tt, tt, tt), refl, refl)
  merge_next-Chain meta (cur ∷ rest) p q o c first = elim (Bool-cases (touches meta cur)) [
    | inl e ↦
        let j = absorb-Joined spans count fit meta cur p q.0 e in
        let t = touches-ends spans count fit meta cur p e in
        rw e (
          (
            j.block,
            q.1,
            Before-carry (absorb meta cur) cur rest j.block q.0 (j.same_idx ∙ t.0)
                (omega (arith, j.sum, t.1)) o.0,
            o.1,
          ),
          refl,
          j.same_idx,
        )
    | inr e ↦
        rw e ((p, q, (omega (arith, c.0, first, q.0.some_cells, p.some_cells), e), o), refl, refl)
  ]

  merge_prev-Ordered :
      (prev meta : NthFreeListMeta) (after : List NthFreeListMeta)
      → IsBlock spans count prev
      → end prev ≤ meta.at
      → Chain meta after
      → Ordered (merge_prev prev (meta, after)) × Heads prev (merge_prev prev (meta, after))
  merge_prev-Ordered prev meta after p le (b, all, before, o) =
      elim (Bool-cases (touches prev meta)) [
        | inl e ↦
            let j = absorb-Joined spans count fit prev meta p b e in
            let t = touches-ends spans count fit prev meta p e in
            rw e (
              (
                Before-carry (absorb prev meta) meta after j.block b (j.same_idx ∙ t.0)
                    (omega (arith, j.sum, t.1)) before,
                o,
              ),
              (refl, j.same_idx),
            )
        | inr e ↦ rw e (((le, e), (before, o)), (refl, refl))
      ]

  merge-Ordered :
      (prev meta : NthFreeListMeta) (after : List NthFreeListMeta)
      → IsBlock spans count prev
      → IsBlock spans count meta
      → AllBlocks spans count after
      → Ordered after
      → end prev ≤ meta.at
      → Clear meta after
      → From meta after
      → Ordered (merge_prev prev (merge_next meta after))
        × Heads prev (merge_prev prev (merge_next meta after))
  merge-Ordered prev meta after p q all o le c first =
      let (chain, at, idx) = merge_next-Chain meta after q all o c first in
      merge_prev-Ordered prev (merge_next meta after).0 (merge_next meta after).1 p
        (omega (arith, at)) chain

  add_behind-Ordered :
      (prev : NthFreeListMeta) (free : List NthFreeListMeta) (meta : NthFreeListMeta)
      → AllBlocks spans count (prev ∷ free)
      → IsBlock spans count meta
      → Ordered (prev ∷ free)
      → Clear meta (prev ∷ free)
      → prev.at < meta.at
      → Ordered (add_behind prev free meta) × Heads prev (add_behind prev free meta)
  unfolding add_behind
  add_behind-Ordered prev [] meta all q o c lt =
      merge-Ordered prev meta [] all.0 q all.1 o.1 (omega (arith, c.0, q.some_cells)) c.1 tt
  add_behind-Ordered prev (cur ∷ rest) meta all q o c lt = elim (Bool-cases (ltb cur.at meta.at)) [
    | inl on ↦
        let (r, h) = add_behind-Ordered cur rest meta all.1 q o.1 c.1 (ground arith) in
        rw on ((Before-Heads prev cur rest (add_behind cur rest meta) o.0 h, r), (refl, refl))
    | inr here ↦ rw here (
        merge-Ordered prev meta (cur ∷ rest) all.0 q all.1 o.1 (omega (arith, c.0, q.some_cells))
          c.1 (ground arith))
  ]

  -- `nth_free_list_add_free` of a block that overlaps no free block keeps the free list in order,
  -- with no two neighbours left that are one piece of a span.
  pub add_free-Ordered :
      (free : List NthFreeListMeta) (meta : NthFreeListMeta)
      → AllBlocks spans count free
      → IsBlock spans count meta
      → Ordered free
      → Clear meta free
      → Ordered (nth_free_list_add_free free meta)
  unfolding nth_free_list_add_free
  add_free-Ordered [] meta all q o c = (tt, tt)
  add_free-Ordered (cur ∷ rest) meta all q o c = elim (Bool-cases (ltb cur.at meta.at)) [
    | inl on ↦ rw on (add_behind-Ordered cur rest meta all q o c (ground arith)).0
    | inr here ↦
        let ((b, r, before, o'), at, idx) =
          merge_next-Chain meta (cur ∷ rest) q all o c (ground arith) in
        rw here (before, o')
  ]
