-- ===== src/FreeList/Fits.antt =====
-- The best and the worst fit.
use narthex.Prelude.{ℕ, ◌+◌, ◌-◌, ◌≡◌, refl, false, none, List, [], ◌∷◌, arith, ltb}
use narthex.Prelude.Words.{u64_mod}
use narthex.FreeList.{
  NthFreeList, hand_out, best_loop, worst_loop, nth_free_list_best_fit, nth_free_list_worst_fit,
}
use narthex.FreeList.Key.{flist_csize, flist_csize-lt}
use narthex.FreeList.Blocks.{NthFreeListMeta}

best_loop-none :
    (free : List NthFreeListMeta) (i : ℕ)
    → best_loop free i none (u64_mod - 1) ≡ (none, u64_mod - 1)
unfolding best_loop
best_loop-none [] i = refl
best_loop-none (m ∷ rest) i = rw never (best_loop-none rest (i + 1))
  where
    never : ltb (u64_mod - 1) (flist_csize m.key) ≡ false
    never = ground (arith, flist_csize-lt m.key)

worst_loop-none : (free : List NthFreeListMeta) (i : ℕ) → worst_loop free i none 0 ≡ (none, 0)
unfolding worst_loop
worst_loop-none [] i = refl
worst_loop-none (m ∷ rest) i = rw never (worst_loop-none rest (i + 1))
  where
    never : ltb (flist_csize m.key) 0 ≡ false
    never = ground arith

-- `nth_free_list_best_fit` returns NULL for every list and every size, and changes nothing: the
-- test of its loop asks for a block larger than the largest number.
pub nth_free_list_best_fit-none :
    (l : NthFreeList) (size : ℕ) → nth_free_list_best_fit l size ≡ (none, l)
unfolding nth_free_list_best_fit hand_out
nth_free_list_best_fit-none l size = rw (best_loop-none l.p_free 0)

-- `nth_free_list_worst_fit` returns NULL for every list and every size, and changes nothing: the
-- test of its loop asks for a block smaller than nothing.
pub nth_free_list_worst_fit-none :
    (l : NthFreeList) (size : ℕ) → nth_free_list_worst_fit l size ≡ (none, l)
unfolding nth_free_list_worst_fit hand_out
nth_free_list_worst_fit-none l size = rw (worst_loop-none l.p_free 0) (ground arith)
