-- ===== src/FreeList/Take.antt =====
-- The loop of the first fit and the splitting that follows it, as one walk over the free list.
use narthex.Prelude.{
  ℕ, suc, ◌+◌, ◌≡◌, refl, ap, ◌∙◌, inl, inr, Option, none, some, List, [], ◌∷◌, arith, leb,
  if◌then◌else◌, Bool-cases,
}
use mathlib.Core.Option
use narthex.FreeList.{first_loop, alloc_selected}
use narthex.FreeList.Key.{flist_csize}
use narthex.FreeList.Blocks.{NthFreeListMeta, nth_free_list_alloc, alloc_at, behind}
use narthex.FreeList.Cover.{csize}

-- The first fit, taken in one walk.
unfoldable pub take_first :
    List NthFreeListMeta → ℕ → Option (NthFreeListMeta × List NthFreeListMeta)
take_first [] c = none
take_first (m ∷ rest) c =
    let later = behind m (take_first rest c) in
    if leb c (csize m) then some (nth_free_list_alloc m rest c) else later

first_loop-shift :
    (free : List NthFreeListMeta) (c i : ℕ)
    → first_loop free c (suc i) ≡ Option.map suc (first_loop free c i)
unfolding first_loop
first_loop-shift [] c i = refl
first_loop-shift (m ∷ rest) c i = elim (Bool-cases (leb c (flist_csize m.key))) [
  | inl fits ↦ rw fits
  | inr small ↦
      rw small
        (ap (first_loop rest c) {y = suc (i + 1)} (omega arith) ∙ first_loop-shift rest c (i + 1))
]

alloc_selected-suc :
    (m : NthFreeListMeta) (rest : List NthFreeListMeta) (o : Option ℕ) (c : ℕ)
    → alloc_selected (m ∷ rest) (Option.map suc o) c ≡ behind m (alloc_selected rest o c)
unfolding alloc_at
alloc_selected-suc m rest none c = refl
alloc_selected-suc m rest (some i) c = refl

-- The loop and the splitting that follows it are that walk.
pub alloc_selected-first_loop :
    (free : List NthFreeListMeta) (c : ℕ)
    → alloc_selected free (first_loop free c 0) c ≡ take_first free c
unfolding first_loop take_first alloc_at
alloc_selected-first_loop [] c = refl
alloc_selected-first_loop (m ∷ rest) c = elim (Bool-cases (leb c (flist_csize m.key))) [
  | inl fits ↦ rw fits
  | inr small ↦
      rw (small, first_loop-shift rest c 0, alloc_selected-suc, alloc_selected-first_loop rest c)
]
