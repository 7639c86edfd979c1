-- ===== src/FreeList.antt =====
-- modules/allocator/free_list.c: blocks with a header of 16 bytes, on a list of free ones, kept in
-- the order of their addresses, and a list of used ones, latest first. Poisoning is off, debug
-- assertions are hypotheses, and `malloc` and `realloc` are the cells that they add, as in
-- dyn_arena.c.
pub mod Key
pub mod Blocks
pub mod Cover
pub mod Merge
pub mod Order
pub mod Take
pub mod Took
pub mod Fit
pub mod Inv
pub mod Free
pub mod Fits
pub mod Shrink
pub mod Setup
pub mod Clear
pub mod Grow
pub mod Table
pub mod OnList
pub mod Realloc
mod Tests
use narthex.Prelude.{
  ℕ, zero, suc, ◌+◌, ◌-◌, Bool, true, false, ◌&&◌, ◌||◌, Option, none, some, List, [], ◌∷◌, ◌++◌,
  ltb, leb, ◌==◌, if◌then◌else◌, set,
}
use narthex.Prelude.Words.{u64_mod, add64, sub64, mul64}
use narthex.Result.{NthResult, result_ok, result_out_of_memory}
use narthex.Allocator.{NthSpan, no_span}
use narthex.DynArena.{span_at}
use Key.{sizeup_to_csize, flist_csize, flist_span_idx}
use Blocks.{
  NthFreeListMeta, meta_size, past, nth_free_list_add_free, free_list_carve_span, alloc_at, unlink,
}

pub record NthFreeList : Type 0 where
  pub p_free : List NthFreeListMeta
  pub p_used : List NthFreeListMeta
  pub spans : List NthSpan
  pub span_count : ℕ
  pub span_capacity : ℕ

-- The block that was taken goes on the used list; its user gets the address behind the header.
unfoldable pub hand_out :
    NthFreeList → Option (NthFreeListMeta × List NthFreeListMeta) → Option ℕ × NthFreeList
hand_out list none = (none, list)
hand_out list (some (u, free)) =
    (some (past u 1), record list { p_free = free; p_used = u ∷ list.p_used })

abbrev pub needed_csize : ℕ → ℕ
needed_csize size = add64 (sizeup_to_csize size) 1

-- The loop of `nth_free_list_first_fit` over the blocks from place `i` on.
unfoldable pub first_loop : List NthFreeListMeta → ℕ → ℕ → Option ℕ
first_loop [] csize i = none
first_loop (m ∷ rest) csize i =
    let later = first_loop rest csize (i + 1) in
    if leb csize (flist_csize m.key) then some i else later

abbrev pub alloc_selected :
    List NthFreeListMeta → Option ℕ → ℕ → Option (NthFreeListMeta × List NthFreeListMeta)
alloc_selected free none csize = none
alloc_selected free (some i) csize = alloc_at free i csize

unfoldable pub nth_free_list_first_fit : NthFreeList → ℕ → Option ℕ × NthFreeList
nth_free_list_first_fit list size =
    let csize = needed_csize size in
    hand_out list (alloc_selected list.p_free (first_loop list.p_free csize 0) csize)

-- The loops of the other two fits: the place selected so far, and its size.
unfoldable pub best_loop : List NthFreeListMeta → ℕ → Option ℕ → ℕ → Option ℕ × ℕ
best_loop [] i selected selected_csize = (selected, selected_csize)
best_loop (m ∷ rest) i selected selected_csize =
    let chosen = best_loop rest (i + 1) (some i) (flist_csize m.key) in
    let kept = best_loop rest (i + 1) selected selected_csize in
    if ltb selected_csize (flist_csize m.key) then chosen else kept

unfoldable pub nth_free_list_best_fit : NthFreeList → ℕ → Option ℕ × NthFreeList
nth_free_list_best_fit list size =
    let (selected, selected_csize) = best_loop list.p_free 0 none (u64_mod - 1) in
    hand_out list (alloc_selected list.p_free selected (needed_csize size))

unfoldable pub worst_loop : List NthFreeListMeta → ℕ → Option ℕ → ℕ → Option ℕ × ℕ
worst_loop [] i selected selected_csize = (selected, selected_csize)
worst_loop (m ∷ rest) i selected selected_csize =
    let chosen = worst_loop rest (i + 1) (some i) (flist_csize m.key) in
    let kept = worst_loop rest (i + 1) selected selected_csize in
    if ltb (flist_csize m.key) selected_csize then chosen else kept

unfoldable pub nth_free_list_worst_fit : NthFreeList → ℕ → Option ℕ × NthFreeList
nth_free_list_worst_fit list size =
    let csize = needed_csize size in
    let (selected, selected_csize) = worst_loop list.p_free 0 none 0 in
    if ltb selected_csize csize
    then (none, list)
    else hand_out list (alloc_selected list.p_free selected csize)

-- A block that was found goes to the free list.
abbrev pub give_back : NthFreeList → Option (NthFreeListMeta × List NthFreeListMeta) → NthFreeList
give_back list none = list
give_back list (some (u, used)) = record list {
  p_used = used;
  p_free = nth_free_list_add_free list.p_free u;
}

-- `last` runs over the used list to the block whose header lies before `addr`.
unfoldable pub nth_free_list_free : NthFreeList → ℕ → NthFreeList
nth_free_list_free list addr = give_back list (unlink list.p_used (sub64 addr meta_size))

-- The span `i` and the `left` spans behind it, as free blocks.
unfoldable pub carve_spans : List NthFreeListMeta → List NthSpan → ℕ → ℕ → List NthFreeListMeta
carve_spans free spans i zero = free
carve_spans free spans i (suc left) =
    carve_spans (nth_free_list_add_free free (free_list_carve_span (span_at spans i) i)) spans
      (i + 1) left

unfoldable pub nth_free_list_clear : NthFreeList → NthFreeList
nth_free_list_clear list = record list {
  p_used = [];
  p_free = carve_spans [] list.spans 0 list.span_count;
}

unfoldable pub place_span : NthFreeList → NthSpan → Bool × NthFreeList
place_span list s =
    let idx = list.span_count in
    (
      true,
      record list {
        spans = set list.spans idx s;
        span_count = add64 idx 1;
        p_free = nth_free_list_add_free list.p_free (free_list_carve_span s idx);
      },
    )

-- The branch for a full array; `more` is what `realloc` adds to it.
unfoldable pub grow_full : NthFreeList → Option (List NthSpan) → NthSpan → Bool × NthFreeList
grow_full list none s = (false, list)
grow_full list (some cells) s =
    place_span
      (record list { spans = list.spans ++ cells; span_capacity = mul64 list.span_capacity 2 }) s

unfoldable pub nth_free_list_grow :
    NthFreeList → Option (List NthSpan) → NthSpan → Bool × NthFreeList
nth_free_list_grow list more s =
    if leb list.span_capacity list.span_count then grow_full list more s else place_span list s

-- The address lies in the span.
abbrev pub in_span : NthSpan → ℕ → Bool
in_span s addr = leb s.base addr && ltb addr (add64 s.base s.size)

-- The loop over the used list: some block lies in the last span.
unfoldable pub any_used_in : List NthFreeListMeta → NthSpan → ℕ → Bool
any_used_in [] s last = false
any_used_in (m ∷ rest) s last =
    let later = any_used_in rest s last in
    if in_span s m.at then true else if flist_span_idx m.key == last then true else later

-- The loop over the free list.
unfoldable pub strip : List NthFreeListMeta → NthSpan → List NthFreeListMeta
strip [] s = []
strip (m ∷ rest) s = let later = strip rest s in if in_span s m.at then later else m ∷ later

unfoldable pub nth_free_list_shrink : NthFreeList → NthSpan × NthFreeList
nth_free_list_shrink list =
    let last = list.span_count - 1 in
    let ret = span_at list.spans last in
    if list.span_count == 0
    then (no_span, list)
    else if any_used_in list.p_used ret last
    then (no_span, list)
    else (
      ret,
      record list {
        p_free = strip list.p_free ret;
        spans = set list.spans last no_span;
        span_count = last;
      },
    )

-- `cells` is the array of four spans that `malloc` returns. A failed set-up leaves `*list` alone.
unfoldable pub nth_setup_free_list :
    NthFreeList → Option (List NthSpan) → NthSpan → NthResult × NthFreeList
nth_setup_free_list before none s = (result_out_of_memory, before)
nth_setup_free_list before (some cells) s = (
  result_ok,
  record {
    p_free = nth_free_list_add_free [] (free_list_carve_span s 0);
    p_used = [];
    spans = set cells 0 s;
    span_count = 1;
    span_capacity = 4;
  },
)

-- `[]` is the NULL array.
unfoldable pub nth_teardown_free_list : NthFreeList → NthFreeList
nth_teardown_free_list list = record {
  p_free = [];
  p_used = [];
  spans = [];
  span_count = 0;
  span_capacity = 0;
}
