-- ===== src/Arena.antt =====
-- modules/allocator/arena.c: the bump allocator over one span. NTH_POISON and AddressSanitizer are
-- off, as by default, so the poison macros expand to nothing; debug assertions are hypotheses.
pub mod Bounds
pub mod Blocks
mod Tests
use narthex.Prelude.{ℕ, Bool, true, false, Option, none, some, ltb, if◌then◌else◌}
use narthex.Prelude.Words.{add64, sub64}
use narthex.Result.{NthResult, result_ok, Run, done, trap}
use narthex.Align.{nth_align_pad}
use narthex.Allocator.{NthSpan, no_span, NthAllocator}

pub record NthArena : Type 0 where
  pub arena_span : NthSpan
  pub offset : ℕ

-- `none` is NULL.
unfoldable pub nth_arena_alloc : NthArena → ℕ → ℕ → Option ℕ × NthArena
nth_arena_alloc arena size align =
    let pad = nth_align_pad (add64 arena.arena_span.base arena.offset) align in
    let left = sub64 arena.arena_span.size arena.offset in
    if ltb left pad
    then (none, arena)
    else if ltb (sub64 left pad) size
    then (none, arena)
    else let at = add64 arena.offset pad in
      (some (add64 arena.arena_span.base at), record arena { offset = add64 at size })

-- `NthArenaMark` holds the offset.
unfoldable pub nth_arena_mark : NthArena → ℕ
nth_arena_mark arena = arena.offset

unfoldable pub nth_arena_restore : NthArena → ℕ → Bool × NthArena
nth_arena_restore arena mark =
    if ltb arena.offset mark then (false, arena) else (true, record arena { offset = mark })

unfoldable pub nth_arena_clean : NthArena → NthArena
nth_arena_clean arena = record arena { offset = 0 }

unfoldable pub nth_setup_arena : NthSpan → NthResult × NthArena
nth_setup_arena s = (result_ok, record { arena_span = s; offset = 0 })

unfoldable pub nth_teardown_arena : NthArena → NthArena
nth_teardown_arena arena = record { arena_span = no_span; offset = 0 }

arena_alloc_alloc : NthArena → ℕ → ℕ → Run (Option ℕ × NthArena)
arena_alloc_alloc ctx size align = done (nth_arena_alloc ctx size align)

-- An arena supports neither `free` nor `realloc`: both assert.
arena_alloc_free : NthArena → Option ℕ → Run NthArena
arena_alloc_free ctx ptr = trap

arena_alloc_realloc : NthArena → Option ℕ → ℕ → ℕ → Run (Option ℕ × NthArena)
arena_alloc_realloc ctx ptr size align = trap

arena_alloc_clear : NthArena → Run NthArena
arena_alloc_clear ctx = done (nth_arena_clean ctx)

unfoldable pub nth_arena_as_allocator : NthArena → NthAllocator NthArena
unfolding arena_alloc_alloc arena_alloc_free arena_alloc_realloc arena_alloc_clear
nth_arena_as_allocator arena = record {
  ctx = arena;
  alloc = arena_alloc_alloc;
  free = arena_alloc_free;
  realloc = arena_alloc_realloc;
  clear = arena_alloc_clear;
}
