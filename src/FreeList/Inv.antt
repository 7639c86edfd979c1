-- ===== src/FreeList/Inv.antt =====
-- The state of a free-list allocator, and what its calls make of it.
use narthex.Prelude.{
  ℕ, ◌+◌, ◌/◌, ◌%◌, ◌^◌, ◌≤◌, ◌<◌, ◌≡◌, refl, ap, true, Option, none, some, List, ◌∷◌, arith, ◌==◌,
  ==_iff, ltb, inl, inr, Bool-cases, if◌then◌else◌,
}
use narthex.Prelude.Words.{u64_mod, sub64}
use narthex.FreeList.{
  NthFreeList, needed_csize, hand_out, nth_free_list_first_fit, nth_free_list_free,
}
use narthex.FreeList.Key.{sizeup_to_csize}
use narthex.FreeList.Blocks.{NthFreeListMeta, past, unlink}
use narthex.FreeList.Cover.{span_idx, end, AllBlocks, SpansFit, owners, past-end}
use narthex.FreeList.Order.{Ordered}
use narthex.FreeList.Take.{take_first, alloc_selected-first_loop}
use narthex.FreeList.Took.{Took}
use narthex.FreeList.Fit.{Smaller, Taken, take_first-Taken}

-- How many blocks of either list cover the byte at `x`.
abbrev pub holders : NthFreeList → ℕ → ℕ
holders l x = owners l.p_free x + owners l.p_used x

-- The blocks lie inside the spans, no byte is in two of them, and the free list is in order and
-- coalesced. A span index has 16 bits.
pub record IsValid (l : NthFreeList) : Type 0 where
  pub few : l.span_count ≤ 2 ^ 16
  pub fit : SpansFit l.spans l.span_count
  pub free : AllBlocks l.spans l.span_count l.p_free
  pub used : AllBlocks l.spans l.span_count l.p_used
  pub once : (x : ℕ) → holders l x ≤ 1
  pub ordered : Ordered l.p_free

-- `addr` was given out for `size` bytes: they lie in a block that is used now, 16 bytes behind its
-- header; the same bytes are in blocks as before; and `nth_free_list_free` undoes all of it.
pub record Given (l : NthFreeList) (size addr : ℕ) (l' : NthFreeList) : Type 0 where
  pub block : NthFreeListMeta
  pub used : l'.p_used ≡ block ∷ l.p_used
  pub behind_header : addr ≡ block.at + 16
  pub aligned : addr % 16 ≡ 0
  pub room : addr + size ≤ end block
  pub valid : IsValid l'
  pub same : (x : ℕ) → holders l' x ≡ holders l x
  pub undone : nth_free_list_free l' addr ≡ l

abbrev pub FirstFit : NthFreeList → ℕ → Option ℕ × NthFreeList → Type 0
FirstFit l size (none, l') = (l' ≡ l) × Smaller l.p_free ((size + 15) / 16 + 1)
FirstFit l size (some addr, l') = Given l size addr l'

module _ (l : NthFreeList) (v : IsValid l) (size : ℕ) where
  given :
      (u : NthFreeListMeta) (f : List NthFreeListMeta)
      → Took l.spans l.span_count v.fit v.few l.p_free ((size + 15) / 16 + 1) u f
      → FirstFit l size (hand_out l (some (u, f)))
  unfolding hand_out nth_free_list_free unlink
  given u f t =
      let at : past u 1 ≡ u.at + 16 =
        past-end l.spans l.span_count v.fit u 1 t.block (omega (arith, t.block.some_cells)) in
      let head : sub64 (past u 1) 16 ≡ u.at =
        omega (arith, at, t.block.to, v.fit (span_idx u) t.block.counted, t.block.some_cells) in
      record {
        block = u;
        used = refl;
        behind_header = at;
        aligned = omega (arith, at, t.block.aligned);
        room = omega (arith, at, t.enough);
        valid = record {
          few = v.few;
          fit = v.fit;
          free = t.rest;
          used = (t.block, v.used);
          once = λ x. omega (arith, v.once x, t.same x);
          ordered = t.ordered;
        };
        same = λ x. omega (arith, t.same x);
        undone = rw (head, found) (ap (λ p. record l { p_free = p }) t.back);
      }
    where
      found : (u.at == u.at) ≡ true
      found = (==_iff u.at u.at).1 refl

-- The same for a size that rounds up to cells without wrapping.
pub unwrapped-FirstFit :
    (l : NthFreeList) (size : ℕ)
    → IsValid l
    → size + 15 < u64_mod
    → FirstFit l size (nth_free_list_first_fit l size)
unfolding nth_free_list_first_fit sizeup_to_csize hand_out
unwrapped-FirstFit l size v lt =
    rw (cells, alloc_selected-first_loop l.p_free ((size + 15) / 16 + 1))
      (handed (take_first l.p_free ((size + 15) / 16 + 1)) (
        take_first-Taken l.spans l.span_count v.fit v.few ((size + 15) / 16 + 1) (omega arith)
          l.p_free v.free v.ordered))
  where
    cells : needed_csize size ≡ (size + 15) / 16 + 1
    cells = omega arith

    handed :
        (o : Option (NthFreeListMeta × List NthFreeListMeta))
        → Taken l.spans l.span_count v.fit v.few ((size + 15) / 16 + 1) (omega arith) l.p_free o
        → FirstFit l size (hand_out l o)
    handed none t = (refl, t)
    handed (some (u, f)) t = given l v size u f t

-- `SIZEUP_TO_CSIZE` wraps for the last 15 sizes of 64 bits.
wraps :
    (l : NthFreeList) (size : ℕ)
    → u64_mod ≤ size + 15
    → size < u64_mod
    → nth_free_list_first_fit l size ≡ nth_free_list_first_fit l 0
unfolding nth_free_list_first_fit sizeup_to_csize
wraps l size h lt =
    let same : needed_csize size ≡ needed_csize 0 = omega (arith, h, lt) in rw same refl

-- The number of bytes that a block has room for: `size`, but none where rounding it up wraps.
abbrev pub served : ℕ → ℕ
served size = if ltb (size + 15) u64_mod then size else 0

-- `nth_free_list_first_fit` of a size below 2 ^ 64 on a valid list either returns NULL and changes
-- nothing, and then no free block has the cells for the size and a header; or it returns the address
-- behind the header of a block with room for the size, on a multiple of 16, in no other block, leaves
-- the list valid and the bytes of its blocks the same, and `nth_free_list_free` of that address gives
-- back the list as it was. The size is the one asked for if that is below 2 ^ 64 - 15; for the last 15
-- sizes, where rounding up to cells wraps, all this holds for 0 bytes only.
pub nth_free_list_first_fit-FirstFit :
    (l : NthFreeList) (size : ℕ)
    → IsValid l
    → size < u64_mod
    → FirstFit l (served size) (nth_free_list_first_fit l size)
nth_free_list_first_fit-FirstFit l size v lt = elim (Bool-cases (ltb (size + 15) u64_mod)) [
  | inl small ↦ rw small (unwrapped-FirstFit l size v (ground (arith, small)))
  | inr wrapped ↦
      rw (wrapped, wraps l size (ground (arith, wrapped)) lt)
        (unwrapped-FirstFit l 0 v (omega arith))
]
