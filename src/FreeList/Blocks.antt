-- ===== src/FreeList/Blocks.antt =====
-- modules/allocator/free_list.c, lines 13 to 118: blocks and the lists they are on.
--
-- A list linked through `next` is the list of its blocks, each with its address and its key. A
-- header is written just before the block goes on a list.
use narthex.Prelude.{
  ℕ, zero, suc, Bool, ◌&&◌, Option, none, some, List, [], ◌∷◌, ltb, ◌==◌, if◌then◌else◌,
}
use narthex.Prelude.Words.{add64, sub64, mul64}
use narthex.Align.{nth_align_pad}
use narthex.Allocator.{NthSpan}
use narthex.FreeList.Key.{
  sizedown_to_csize, flist_csize, flist_span_idx, flist_set_csize, flist_set_span_idx,
}

pub record NthFreeListMeta : Type 0 where
  pub at : ℕ
  pub key : ℕ

abbrev pub meta_size : ℕ
meta_size = 16

-- `m + n` of a block pointer.
abbrev pub past : NthFreeListMeta → ℕ → ℕ
past m n = add64 m.at (mul64 n meta_size)

-- `b` starts in the same span where `a` ends.
abbrev pub touches : NthFreeListMeta → NthFreeListMeta → Bool
touches a b = (flist_span_idx a.key == flist_span_idx b.key) && (past a (flist_csize a.key) == b.at)

-- `a` takes in the cells of `b`.
abbrev pub absorb : NthFreeListMeta → NthFreeListMeta → NthFreeListMeta
absorb a b = record a {
  key = flist_set_csize a.key (add64 (flist_csize a.key) (flist_csize b.key));
}

-- Coalescing with the following block: the block and what comes behind it.
abbrev pub merge_next :
    NthFreeListMeta → List NthFreeListMeta → NthFreeListMeta × List NthFreeListMeta
merge_next meta [] = (meta, [])
merge_next meta (cur ∷ rest) =
    if touches meta cur then (absorb meta cur, rest) else (meta, cur ∷ rest)

-- Coalescing with the preceding block.
abbrev pub merge_prev :
    NthFreeListMeta → NthFreeListMeta × List NthFreeListMeta → List NthFreeListMeta
merge_prev prev (meta, after) =
    if touches prev meta then absorb prev meta ∷ after else prev ∷ (meta ∷ after)

-- The walk past `prev`, and what it leads to.
unfoldable pub add_behind :
    NthFreeListMeta → List NthFreeListMeta → NthFreeListMeta → List NthFreeListMeta
add_behind prev [] meta = merge_prev prev (merge_next meta [])
add_behind prev (cur ∷ rest) meta =
    let later = add_behind cur rest meta in
    if ltb cur.at meta.at then prev ∷ later else merge_prev prev (merge_next meta (cur ∷ rest))

-- `nth_free_list_add_free`, on the list behind `p_free`.
unfoldable pub nth_free_list_add_free :
    List NthFreeListMeta → NthFreeListMeta → List NthFreeListMeta
nth_free_list_add_free [] meta = meta ∷ []
nth_free_list_add_free (cur ∷ rest) meta =
    let (front, after) = merge_next meta (cur ∷ rest) in
    if ltb cur.at meta.at then add_behind cur rest meta else front ∷ after

-- A new header. Both fields are set, so what the word held before does not matter.
unfoldable pub new_meta : ℕ → ℕ → ℕ → NthFreeListMeta
new_meta at csize span_idx = record {
  at = at;
  key = flist_set_span_idx (flist_set_csize 0 csize) span_idx;
}

unfoldable pub free_list_carve_span : NthSpan → ℕ → NthFreeListMeta
free_list_carve_span s span_idx =
    let pad = nth_align_pad s.base meta_size in
    new_meta (add64 s.base pad) (sizedown_to_csize (sub64 s.size pad)) span_idx

-- `nth_free_list_alloc` on the block `meta` with `rest` behind it: the used block, and what takes
-- the place of `meta ∷ rest` on the free list.
unfoldable pub nth_free_list_alloc :
    NthFreeListMeta → List NthFreeListMeta → ℕ → NthFreeListMeta × List NthFreeListMeta
nth_free_list_alloc meta rest csize =
    if ltb (add64 csize 1) (flist_csize meta.key)
    then (
      record meta { key = flist_set_csize meta.key csize },
      new_meta (past meta csize) (sub64 (flist_csize meta.key) csize) (flist_span_idx meta.key)
          ∷ rest,
    )
    else (record meta { key = flist_set_csize meta.key (flist_csize meta.key) }, rest)

-- A block that was taken out from behind `m`: `m` stays in front of the rest.
abbrev pub behind :
    NthFreeListMeta
    → Option (NthFreeListMeta × List NthFreeListMeta)
    → Option (NthFreeListMeta × List NthFreeListMeta)
behind m none = none
behind m (some (u, f)) = some (u, m ∷ f)

-- The same on the block at place `i` of the free list.
unfoldable pub alloc_at :
    List NthFreeListMeta → ℕ → ℕ → Option (NthFreeListMeta × List NthFreeListMeta)
alloc_at [] i csize = none
alloc_at (m ∷ rest) zero csize = some (nth_free_list_alloc m rest csize)
alloc_at (m ∷ rest) (suc i) csize = behind m (alloc_at rest i csize)

-- The block whose header is at `head`, and the list without it.
unfoldable pub unlink : List NthFreeListMeta → ℕ → Option (NthFreeListMeta × List NthFreeListMeta)
unlink [] head = none
unlink (m ∷ rest) head =
    let later = behind m (unlink rest head) in if m.at == head then some (m, rest) else later
