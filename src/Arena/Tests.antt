-- ===== src/Arena/Tests.antt =====
-- An arena over 64 bytes at address 0x1001.
use narthex.Prelude.{ℕ, ◌+◌, ◌%◌, ◌≤◌, ◌<◌, ◌≡◌, ◌↔◌, refl, none, some, List, [], ◌∷◌, arith}
use narthex.Align.{nth_is_pow2, nth_align_pad}
use narthex.Allocator.{span}
use narthex.Arena.{NthArena, nth_arena_alloc}
use narthex.Arena.Bounds.{IsValid, IsAlignment, nth_arena_alloc-none, nth_arena_alloc-IsValid}
use narthex.Arena.Blocks.{Request, AreRequests, LaidOut, alloc_all, alloc_all-LaidOut}

abbrev small : NthArena
small = record { arena_span = span 0x1001 64; offset = 0 }

small-IsValid : IsValid small
small-IsValid = record { no_wrap = omega arith; within = omega arith }

by_16 : IsAlignment 16
unfolding nth_is_pow2
by_16 = (refl, omega arith)

abbrev requests : List Request
requests = (8, 16) ∷ (100, 16) ∷ (20, 16) ∷ []

requests-AreRequests : AreRequests requests
requests-AreRequests = (omega arith, by_16, (omega arith, by_16, (omega arith, by_16, tt)))

first :
    nth_arena_alloc small 8 16 ≡ (some 0x1010, record { arena_span = span 0x1001 64; offset = 23 })
unfolding nth_arena_alloc nth_align_pad
first = refl

placed : (alloc_all small requests).0 ≡ (0x1010, 8) ∷ (0x1020, 20) ∷ []
unfolding alloc_all nth_arena_alloc nth_align_pad
placed = refl

nth_arena_alloc-none_example :
    (nth_arena_alloc small 50 16 ≡ (none, small))
    ↔ ((addr : ℕ) → addr % 16 ≡ 0 → 0x1001 + 0 ≤ addr → 0x1001 + 64 < addr + 50)
nth_arena_alloc-none_example = nth_arena_alloc-none small 50 16 small-IsValid by_16

nth_arena_alloc-IsValid_example : IsValid (nth_arena_alloc small 8 16).1
nth_arena_alloc-IsValid_example = nth_arena_alloc-IsValid small 8 16 small-IsValid by_16

alloc_all-LaidOut_example : LaidOut (0x1001 + 0) (0x1001 + 64) (alloc_all small requests).0
alloc_all-LaidOut_example = alloc_all-LaidOut requests small small-IsValid requests-AreRequests
