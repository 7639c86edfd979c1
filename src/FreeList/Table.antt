-- ===== src/FreeList/Table.antt =====
-- modules/allocator/free_list.c, lines 352 to 478: a free list as an `NthAllocator`. The state
-- behind `ctx` is the list and the bytes at all addresses.
--
-- `memcpy` of `realloc` writes bytes, and so does the list itself: the fields `next` and `key` of
-- headers, as blocks are split, put on a list, taken off it and coalesced. Each such header is that
-- of a block, or lies in what is a free block then, so none of these bytes is data of a block in use.
-- `headers` is an argument: the bytes that a call which leaves a list may put there, of any values.
use narthex.Prelude.{
  ℕ, ◌+◌, ◌-◌, ◌*◌, Bool, true, false, ◌&&◌, Option, none, some, List, [], ◌∷◌, ltb, leb, ◌==◌,
  if◌then◌else◌,
}
use narthex.Prelude.Words.{sub64, mul64}
use narthex.Result.{Run, done}
use narthex.Allocator.{NthAllocator}
use narthex.FreeList.{
  NthFreeList, nth_free_list_first_fit, nth_free_list_best_fit, nth_free_list_worst_fit,
  nth_free_list_free, nth_free_list_clear,
}
use narthex.FreeList.Key.{flist_csize}
use narthex.FreeList.Blocks.{NthFreeListMeta, meta_size}

pub record Memory : Type 0 where
  pub list : NthFreeList
  pub byte : ℕ → ℕ

-- `head->key` of the used block at `head`. There is one for a pointer that was given out.
abbrev pub key_at : List NthFreeListMeta → ℕ → ℕ
key_at [] head = 0
key_at (m ∷ rest) head = if m.at == head then m.key else key_at rest head

-- `memcpy(to, from, n)`
abbrev pub copy_bytes : (ℕ → ℕ) → ℕ → ℕ → ℕ → (ℕ → ℕ)
copy_bytes byte to from n x = if leb to x && ltb x (to + n) then byte (from + (x - to)) else byte x

-- `old_size`, and the number of bytes that `realloc` copies.
abbrev pub old_size : NthFreeList → ℕ → ℕ
old_size list ptr =
    mul64 (sub64 (flist_csize (key_at list.p_used (sub64 ptr meta_size))) 1) meta_size

abbrev pub copied_size : NthFreeList → ℕ → ℕ → ℕ
copied_size list ptr size = if ltb (old_size list ptr) size then old_size list ptr else size

-- The byte at `x` is data of a block of the list: it lies in the block, behind the header.
unfoldable pub in_data : List NthFreeListMeta → ℕ → Bool
in_data [] x = false
in_data (m ∷ ms) x =
    let others = in_data ms x in
    if leb (m.at + meta_size) x && ltb x (m.at + flist_csize m.key * meta_size)
    then true
    else others

module _ (headers : NthFreeList → ℕ → ℕ) where
  -- The bytes after the list has become `list`.
  abbrev pub with_headers : NthFreeList → (ℕ → ℕ) → (ℕ → ℕ)
  with_headers list byte x = if in_data list.p_used x then byte x else headers list x

  abbrev pub put_list : Memory → NthFreeList → Memory
  put_list ctx list = record { list = list; byte = with_headers list ctx.byte }

  -- A fit that returns NULL writes nothing.
  unfoldable pub after_fit : Memory → Option ℕ × NthFreeList → Run (Option ℕ × Memory)
  after_fit ctx (none, list) = done (none, record ctx { list = list })
  after_fit ctx (some ptr, list) = done (some ptr, put_list ctx list)

  -- What follows a fit in `realloc`: copy, and free the old block.
  unfoldable pub moved : Memory → ℕ → ℕ → Option ℕ × NthFreeList → Run (Option ℕ × Memory)
  moved ctx ptr size (none, list) = done (none, record ctx { list = list })
  moved ctx ptr size (some new_ptr, list) =
      let fitted = put_list ctx list in
      let copied = record fitted {
        byte = copy_bytes fitted.byte new_ptr ptr (copied_size ctx.list ptr size);
      } in
      done (some new_ptr, put_list copied (nth_free_list_free list ptr))

  -- The three `realloc` differ in the fit alone.
  unfoldable pub realloc_by :
      (NthFreeList → ℕ → Option ℕ × NthFreeList) → Memory → Option ℕ → ℕ → Run (Option ℕ × Memory)
  realloc_by fit ctx none size = after_fit ctx (fit ctx.list size)
  realloc_by fit ctx (some ptr) size =
      if size == 0
      then done (none, put_list ctx (nth_free_list_free ctx.list ptr))
      else moved ctx ptr size (fit ctx.list size)

  free_list_alloc_alloc_ff : Memory → ℕ → ℕ → Run (Option ℕ × Memory)
  free_list_alloc_alloc_ff ctx size align = after_fit ctx (nth_free_list_first_fit ctx.list size)

  unfoldable pub free_list_alloc_realloc_ff : Memory → Option ℕ → ℕ → ℕ → Run (Option ℕ × Memory)
  free_list_alloc_realloc_ff ctx ptr size align = realloc_by nth_free_list_first_fit ctx ptr size

  free_list_alloc_alloc_bf : Memory → ℕ → ℕ → Run (Option ℕ × Memory)
  free_list_alloc_alloc_bf ctx size align = after_fit ctx (nth_free_list_best_fit ctx.list size)

  free_list_alloc_realloc_bf : Memory → Option ℕ → ℕ → ℕ → Run (Option ℕ × Memory)
  free_list_alloc_realloc_bf ctx ptr size align = realloc_by nth_free_list_best_fit ctx ptr size

  free_list_alloc_alloc_wf : Memory → ℕ → ℕ → Run (Option ℕ × Memory)
  free_list_alloc_alloc_wf ctx size align = after_fit ctx (nth_free_list_worst_fit ctx.list size)

  free_list_alloc_realloc_wf : Memory → Option ℕ → ℕ → ℕ → Run (Option ℕ × Memory)
  free_list_alloc_realloc_wf ctx ptr size align = realloc_by nth_free_list_worst_fit ctx ptr size

  -- The address 0 is NULL, which no used block lies behind.
  free_list_alloc_free : Memory → Option ℕ → Run Memory
  free_list_alloc_free ctx none = done (put_list ctx (nth_free_list_free ctx.list 0))
  free_list_alloc_free ctx (some ptr) = done (put_list ctx (nth_free_list_free ctx.list ptr))

  free_list_alloc_clear : Memory → Run Memory
  free_list_alloc_clear ctx = done (put_list ctx (nth_free_list_clear ctx.list))

  unfoldable pub nth_free_list_as_first_fit_allocator : Memory → NthAllocator Memory
  unfolding free_list_alloc_alloc_ff free_list_alloc_realloc_ff free_list_alloc_free
      free_list_alloc_clear
  nth_free_list_as_first_fit_allocator m = record {
    ctx = m;
    alloc = free_list_alloc_alloc_ff;
    free = free_list_alloc_free;
    realloc = free_list_alloc_realloc_ff;
    clear = free_list_alloc_clear;
  }

  unfoldable pub nth_free_list_as_best_fit_allocator : Memory → NthAllocator Memory
  unfolding free_list_alloc_alloc_bf free_list_alloc_realloc_bf free_list_alloc_free
      free_list_alloc_clear
  nth_free_list_as_best_fit_allocator m = record {
    ctx = m;
    alloc = free_list_alloc_alloc_bf;
    free = free_list_alloc_free;
    realloc = free_list_alloc_realloc_bf;
    clear = free_list_alloc_clear;
  }

  unfoldable pub nth_free_list_as_worst_fit_allocator : Memory → NthAllocator Memory
  unfolding free_list_alloc_alloc_wf free_list_alloc_realloc_wf free_list_alloc_free
      free_list_alloc_clear
  nth_free_list_as_worst_fit_allocator m = record {
    ctx = m;
    alloc = free_list_alloc_alloc_wf;
    free = free_list_alloc_free;
    realloc = free_list_alloc_realloc_wf;
    clear = free_list_alloc_clear;
  }
