-- ===== src/FreeList/Tests.antt =====
-- A free list over 256 bytes at address 0x1000, with a block of three cells used.
use narthex.Prelude.{
  ℕ, zero, suc, ◌+◌, ◌-◌, ◌≤◌, ◌<◌, ◌≡◌, ◌⊎◌, refl, inl, none, some, [], ◌∷◌, arith,
}
use narthex.Prelude.Words.{u64_mod}
use narthex.Align.{nth_align_pad}
use narthex.Allocator.{NthSpan, span, no_span}
use narthex.DynArena.{span_at}
use narthex.FreeList.{
  NthFreeList, nth_free_list_first_fit, nth_free_list_free, nth_free_list_clear,
  nth_free_list_shrink, nth_free_list_grow, nth_setup_free_list,
}
use narthex.FreeList.Key.{flist_csize, flist_span_idx}
use narthex.FreeList.Blocks.{NthFreeListMeta, nth_free_list_add_free}
use narthex.FreeList.Inv.{IsValid, holders, FirstFit, served, nth_free_list_first_fit-FirstFit}
use narthex.FreeList.Free.{nth_free_list_free-IsValid}
use narthex.FreeList.Fits.{nth_free_list_best_fit-none, nth_free_list_worst_fit-none}
use narthex.FreeList.{nth_free_list_best_fit, nth_free_list_worst_fit}
use narthex.FreeList.Setup.{IsSpan}
use narthex.FreeList.Clear.{AllFree, nth_free_list_clear-AllFree}
use narthex.FreeList.Shrink.{Shrunk, SomeIn, nth_free_list_shrink_lem}
use narthex.FreeList.Grow.{HasCells, nth_free_list_grow-IsValid}
use narthex.FreeList.Table.{Memory, free_list_alloc_realloc_ff}
use narthex.FreeList.Realloc.{Reallocated, free_list_alloc_realloc_ff-Reallocated}

abbrev used_block : NthFreeListMeta
used_block = record { at = 0x1000; key = 3 }

abbrev free_block : NthFreeListMeta
free_block = record { at = 0x1030; key = 13 }

abbrev list : NthFreeList
list = record {
  p_free = free_block ∷ [];
  p_used = used_block ∷ [];
  spans = span 0x1000 256 ∷ no_span ∷ no_span ∷ no_span ∷ [];
  span_count = 1;
  span_capacity = 4;
}

list-IsValid : IsValid list
unfolding flist_csize flist_span_idx
list-IsValid = record {
  few = omega arith;
  fit = fit;
  free = (
    record {
      key_fits = omega arith;
      aligned = refl;
      some_cells = omega arith;
      from = omega arith;
      to = omega arith;
      counted = omega arith;
    },
    tt,
  );
  used = (
    record {
      key_fits = omega arith;
      aligned = refl;
      some_cells = omega arith;
      from = omega arith;
      to = omega arith;
      counted = omega arith;
    },
    tt,
  );
  once = λ x. ground arith;
  ordered = (tt, tt);
}
  where
    fit :
        (i : ℕ)
        → i < 1
        → ((span_at list.spans i).base + (span_at list.spans i).size < u64_mod)
          × ((span_at list.spans i).size < 0x10_0000_0000_0000)
    fit zero h = (omega arith, omega arith)
    fit (suc i) h = absurd (omega arith)

list-IsSpan : (i : ℕ) → i < 1 → IsSpan (span_at list.spans i)
unfolding nth_align_pad
list-IsSpan zero h = record { ends = omega arith; fits = omega arith; room = omega arith }
list-IsSpan (suc i) h = absurd (omega arith)

abbrev other : NthSpan
other = span 0x2000 64

other-IsSpan : IsSpan other
unfolding nth_align_pad
other-IsSpan = record { ends = omega arith; fits = omega arith; room = omega arith }

merged : nth_free_list_add_free (free_block ∷ []) used_block ≡ record { at = 0x1000; key = 16 } ∷ []
unfolding nth_free_list_add_free flist_csize flist_span_idx narthex.FreeList.Key.flist_set_csize
merged = refl

nth_free_list_first_fit-FirstFit_example :
    FirstFit list (served 20) (nth_free_list_first_fit list 20)
nth_free_list_first_fit-FirstFit_example =
    nth_free_list_first_fit-FirstFit list 20 list-IsValid (omega arith)

nth_free_list_free-IsValid_example :
    IsValid (nth_free_list_free list 0x1010)
    × ((x : ℕ) → holders (nth_free_list_free list 0x1010) x ≡ holders list x)
nth_free_list_free-IsValid_example = nth_free_list_free-IsValid list 0x1010 list-IsValid

nth_free_list_best_fit-none_example : nth_free_list_best_fit list 20 ≡ (none, list)
nth_free_list_best_fit-none_example = nth_free_list_best_fit-none list 20

nth_free_list_worst_fit-none_example : nth_free_list_worst_fit list 20 ≡ (none, list)
nth_free_list_worst_fit-none_example = nth_free_list_worst_fit-none list 20

nth_free_list_clear-AllFree_example : AllFree (nth_free_list_clear list)
nth_free_list_clear-AllFree_example =
    nth_free_list_clear-AllFree list (omega arith) list-IsSpan (λ i j x hi hj a b c d. omega arith)

nth_free_list_shrink_lem_example :
    let (s, l') = nth_free_list_shrink list in
    Shrunk list s l'
    ⊎ ((s ≡ no_span)
        × (l' ≡ list)
        × ((list.span_count ≡ 0) ⊎ SomeIn (span 0x1000 256) 0 list.p_used))
nth_free_list_shrink_lem_example = nth_free_list_shrink_lem list list-IsValid

other-unheld : (x : ℕ) → 0x2000 ≤ x → x < 0x2000 + 64 → holders list x ≡ 0
unfolding flist_csize
other-unheld x lo hi = ground arith

nth_free_list_grow-IsValid_example :
    let l' = (nth_free_list_grow list none other).1 in IsValid l' × HasCells l'
nth_free_list_grow-IsValid_example =
    nth_free_list_grow-IsValid list none other list-IsValid
      (record { cells = refl; room = omega arith }) other-IsSpan other-unheld (omega arith)
      (omega arith) (omega arith) (λ cells e. cc)

abbrev memory : Memory
memory = record { list = list; byte = λ x. x }

free_list_alloc_realloc_ff-Reallocated_example :
    Reallocated memory used_block 40
      (free_list_alloc_realloc_ff (λ l x. 0) memory (some (0x1000 + 16)) 40 16)
free_list_alloc_realloc_ff-Reallocated_example =
    free_list_alloc_realloc_ff-Reallocated (λ l x. 0) memory used_block 40 16 list-IsValid
      (inl refl) (omega arith) (omega arith)

-- Of 2 ^ 64 - 1 bytes: one cell, whose 16 bytes are the header.
wrapped_size : nth_free_list_first_fit list (u64_mod - 1) ≡ (
  some 0x1040,
  record list {
    p_free = record { at = 0x1040; key = 12 } ∷ [];
    p_used = record { at = 0x1030; key = 1 } ∷ (used_block ∷ []);
  },
)
unfolding nth_free_list_first_fit narthex.FreeList.hand_out narthex.FreeList.first_loop
    narthex.FreeList.Key.sizeup_to_csize flist_csize narthex.FreeList.Blocks.alloc_at
    narthex.FreeList.Blocks.nth_free_list_alloc narthex.FreeList.Blocks.new_meta
    narthex.FreeList.Key.flist_set_csize narthex.FreeList.Key.flist_set_span_idx flist_span_idx
wrapped_size = refl
