-- ===== src/FreeList/Merge.antt =====
-- Putting a block on the free list, with coalescing on both sides, keeps the bytes that are
-- covered.
use narthex.Prelude.{ℕ, ◌+◌, ◌≡◌, refl, true, inl, inr, List, [], ◌∷◌, arith, ltb, Bool-cases}
use narthex.Allocator.{NthSpan}
use narthex.FreeList.Blocks.{
  NthFreeListMeta, touches, absorb, merge_next, merge_prev, add_behind, nth_free_list_add_free,
}
use narthex.FreeList.Cover.{IsBlock, AllBlocks, SpansFit, covers, Same, touches-ends, absorb-Joined}

module _ (spans : List NthSpan) (count : ℕ) (fit : SpansFit spans count) where
  covers-absorb :
      (a b : NthFreeListMeta)
      → IsBlock spans count a
      → IsBlock spans count b
      → touches a b ≡ true
      → (x : ℕ) → covers (absorb a b) x ≡ covers a x + covers b x
  covers-absorb a b p q e x =
      let j = absorb-Joined spans count fit a b p q e in
      let t = touches-ends spans count fit a b p e in ground (arith, j.sum, t.1)

  merge_next-Same :
      (meta : NthFreeListMeta) (after : List NthFreeListMeta)
      → IsBlock spans count meta
      → AllBlocks spans count after
      → Same spans count fit (meta ∷ after) ((merge_next meta after).0 ∷ (merge_next meta after).1)
  merge_next-Same meta [] p q = ((p, q), λ x. refl)
  merge_next-Same meta (cur ∷ rest) p q = elim (Bool-cases (touches meta cur)) [
    | inl e ↦ rw e (
      ((absorb-Joined spans count fit meta cur p q.0 e).block, q.1),
      λ x. omega (arith, covers-absorb meta cur p q.0 e x),
    )
    | inr e ↦ rw e ((p, q), λ x. refl)
  ]

  merge_prev-Same :
      (prev meta : NthFreeListMeta) (after : List NthFreeListMeta)
      → IsBlock spans count prev
      → IsBlock spans count meta
      → AllBlocks spans count after
      → Same spans count fit (prev ∷ (meta ∷ after)) (merge_prev prev (meta, after))
  merge_prev-Same prev meta after p q r = elim (Bool-cases (touches prev meta)) [
    | inl e ↦ rw e (
      ((absorb-Joined spans count fit prev meta p q e).block, r),
      λ x. omega (arith, covers-absorb prev meta p q e x),
    )
    | inr e ↦ rw e ((p, (q, r)), λ x. refl)
  ]

  merge-Same :
      (prev meta : NthFreeListMeta) (after : List NthFreeListMeta)
      → IsBlock spans count prev
      → IsBlock spans count meta
      → AllBlocks spans count after
      → Same spans count fit (meta ∷ (prev ∷ after)) (merge_prev prev (merge_next meta after))
  merge-Same prev meta after p q r =
      let (blocks, next) = merge_next-Same meta after q r in
      let (all, both) =
        merge_prev-Same prev (merge_next meta after).0 (merge_next meta after).1 p blocks.0
          blocks.1 in
      (all, λ x. omega (arith, next x, both x))

  add_behind-Same :
      (prev : NthFreeListMeta) (free : List NthFreeListMeta) (meta : NthFreeListMeta)
      → IsBlock spans count prev
      → AllBlocks spans count free
      → IsBlock spans count meta
      → Same spans count fit (meta ∷ (prev ∷ free)) (add_behind prev free meta)
  unfolding add_behind
  add_behind-Same prev [] meta p q r = merge-Same prev meta [] p r q
  add_behind-Same prev (cur ∷ rest) meta p q r = elim (Bool-cases (ltb cur.at meta.at)) [
    | inl on ↦
        let (all, same) = add_behind-Same cur rest meta q.0 q.1 r in
        rw on ((p, all), λ x. omega (arith, same x))
    | inr here ↦ rw here (merge-Same prev meta (cur ∷ rest) p r q)
  ]

  -- `nth_free_list_add_free` keeps the bytes that the free list and the new block cover, and leaves
  -- blocks inside their spans.
  pub add_free-Same :
      (free : List NthFreeListMeta) (meta : NthFreeListMeta)
      → AllBlocks spans count free
      → IsBlock spans count meta
      → Same spans count fit (meta ∷ free) (nth_free_list_add_free free meta)
  unfolding nth_free_list_add_free
  add_free-Same [] meta q r = ((r, q), λ x. refl)
  add_free-Same (cur ∷ rest) meta q r = elim (Bool-cases (ltb cur.at meta.at)) [
    | inl on ↦ rw on (add_behind-Same cur rest meta q.0 q.1 r)
    | inr front ↦ rw front (merge_next-Same meta (cur ∷ rest) r q)
  ]
