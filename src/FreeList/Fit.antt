-- ===== src/FreeList/Fit.antt =====
-- What the walk of the first fit takes from an ordered free list.
use narthex.Prelude.{
  ℕ, ◌^◌, ◌≤◌, ◌<◌, ◌≡◌, true, inl, inr, Option, none, some, List, [], ◌∷◌, arith, ltb, leb,
  Bool-cases,
}
use narthex.Prelude.Words.{add64}
use narthex.Allocator.{NthSpan}
use narthex.FreeList.Key.{flist_csize-lt}
use narthex.FreeList.Blocks.{
  NthFreeListMeta, add_behind, nth_free_list_add_free, nth_free_list_alloc, behind,
}
use narthex.FreeList.Cover.{csize, IsBlock, AllBlocks, SpansFit}
use narthex.FreeList.Order.{Ordered}
use narthex.FreeList.Take.{take_first}
use narthex.FreeList.Took.{Took, front, remainder, whole, split-Took, whole-Took}

-- No block has `c` cells.
abbrev pub Smaller : List NthFreeListMeta → ℕ → Type 0
Smaller [] c = Unit
Smaller (m ∷ ms) c = (csize m < c) × Smaller ms c

module _ (spans : List NthSpan) (count : ℕ) (fit : SpansFit spans count) (few : count ≤ 2 ^ 16)
    (c : ℕ) (pos : 0 < c) where
  abbrev pub Taken : List NthFreeListMeta → Option (NthFreeListMeta × List NthFreeListMeta) → Type 0
  Taken free none = Smaller free c
  Taken free (some (u, f)) = Took spans count fit few free c u f

  here :
      (m : NthFreeListMeta) (rest : List NthFreeListMeta)
      → IsBlock spans count m
      → AllBlocks spans count rest
      → Ordered (m ∷ rest)
      → c ≤ csize m
      → Taken (m ∷ rest) (some (nth_free_list_alloc m rest c))
  unfolding nth_free_list_alloc front remainder whole
  here m rest b all o le = elim (Bool-cases (ltb (add64 c 1) (csize m))) [
    | inl more ↦
        rw more (
          split-Took spans count fit few m rest c b all o pos
            (ground (arith, flist_csize-lt m.key)))
    | inr all_of_it ↦ rw all_of_it (whole-Took spans count fit few m rest c b all o pos le)
  ]

  further :
      (m : NthFreeListMeta) (rest : List NthFreeListMeta)
      → IsBlock spans count m
      → Ordered (m ∷ rest)
      → csize m < c
      → (r : Option (NthFreeListMeta × List NthFreeListMeta)) → Taken rest r
      → Taken (m ∷ rest) (behind m r)
  unfolding nth_free_list_add_free add_behind
  further m rest b o small none t = (small, t)
  further m rest b o small (some (u, f)) t = record {
    block = t.block;
    enough = t.enough;
    rest = (b, t.rest);
    same = λ x. omega (arith, t.same x);
    ordered = (t.before m b o.0, t.ordered);
    before = λ p q h. h;
    back = rw on (t.back_behind m o.0 (t.beyond m b o.0));
    back_behind = λ p h below. rw (on, t.back_behind m o.0 (t.beyond m b o.0));
    beyond = λ p q h. omega (arith, h.0, q.some_cells, t.beyond m b o.0);
  }
    where
      on : ltb m.at u.at ≡ true
      on = ground (arith, t.beyond m b o.0)

  pub take_first-Taken :
      (free : List NthFreeListMeta)
      → AllBlocks spans count free
      → Ordered free
      → Taken free (take_first free c)
  unfolding take_first
  take_first-Taken [] all o = tt
  take_first-Taken (m ∷ rest) all o = elim (Bool-cases (leb c (csize m))) [
    | inl big ↦ rw big (here m rest all.0 all.1 o (ground arith))
    | inr small ↦ rw small (
        further m rest all.0 o (ground arith) (take_first rest c) (take_first-Taken rest all.1 o.1))
  ]
