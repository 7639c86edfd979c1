-- ===== src/DynArena.antt =====
-- modules/allocator/dyn_arena.c: the bump allocator over a growing array of spans. `malloc` and
-- `realloc` are arguments: the cells that they add, or `none` where they return NULL. The poison
-- macros expand to nothing and debug assertions are hypotheses, as in arena.c.
pub mod Inv
pub mod Placed
pub mod Place
pub mod Marks
mod Tests
use narthex.Prelude.{
  ℕ, zero, suc, ◌+◌, ◌-◌, ◌^◌, Bool, true, false, ◌&&◌, not, Option, none, some, List, [], ◌++◌,
  bit_and, bit_or, ltb, leb, ◌==◌, if◌then◌else◌, get_or, set,
}
use narthex.Prelude.Words.{add64, sub64, mul64, ◌<<<◌, ◌>>>◌}
use narthex.Result.{NthResult, result_ok, result_out_of_memory, Run, done, trap}
use narthex.Align.{nth_align_pad}
use narthex.Allocator.{NthSpan, no_span, NthAllocator}

-- `spans` is the array of `span_capacity` cells, the first `span_count` of them in use.
pub record NthDynArena : Type 0 where
  pub spans : List NthSpan
  pub span_count : ℕ
  pub span_capacity : ℕ
  pub span_idx : ℕ
  pub offset : ℕ

-- `spans[i]`; the invariant keeps `i` inside the array.
abbrev pub span_at : List NthSpan → ℕ → NthSpan
span_at spans i = get_or spans i no_span

push_span : NthDynArena → NthSpan → Bool × NthDynArena
push_span arena s = (
  true,
  record arena {
    spans = set arena.spans arena.span_count s;
    span_count = add64 arena.span_count 1;
  },
)

-- The branch for a full array; `more` is what `realloc` adds to it.
grow_full : NthDynArena → Option (List NthSpan) → NthSpan → Bool × NthDynArena
unfolding push_span
grow_full arena none s = (false, arena)
grow_full arena (some cells) s =
    push_span
      (record arena { spans = arena.spans ++ cells; span_capacity = mul64 arena.span_capacity 2 }) s

unfoldable pub nth_dyn_arena_grow :
    NthDynArena → Option (List NthSpan) → NthSpan → Bool × NthDynArena
unfolding push_span grow_full
nth_dyn_arena_grow arena more s =
    if leb arena.span_capacity arena.span_count then grow_full arena more s else push_span arena s

unfoldable pub nth_dyn_arena_shrink : NthDynArena → NthSpan × NthDynArena
nth_dyn_arena_shrink arena =
    let last = arena.span_count - 1 in
    if arena.span_count == 0
    then (no_span, arena)
    else if (arena.span_idx == last) && not ((arena.span_idx == 0) && (arena.offset == 0))
    then (no_span, arena)
    else (
      span_at arena.spans last,
      record arena { spans = set arena.spans last no_span; span_count = last },
    )

-- The span `i` becomes the current one, swapped to the place behind the old current span.
pub enter_span : NthDynArena → ℕ → ℕ → ℕ → Option ℕ × NthDynArena
enter_span arena i p size =
    let next = add64 arena.span_idx 1 in
    let moved =
      if i == next
      then arena.spans
      else set (set arena.spans next (span_at arena.spans i)) i (span_at arena.spans next) in
    (
      some (add64 (span_at moved next).base p),
      record arena { spans = moved; span_idx = next; offset = add64 p size },
    )

-- The `for` loop at index `i`, with `span_count - i` rounds to go.
scan_spans : NthDynArena → ℕ → ℕ → ℕ → ℕ → Option ℕ × NthDynArena
scan_spans arena size align zero i = (none, arena)
scan_spans arena size align (suc left) i =
    let s = span_at arena.spans i in
    let p = nth_align_pad s.base align in
    let later = scan_spans arena size align left (i + 1) in
    if ltb s.size p
    then later
    else if ltb (sub64 s.size p) size
    then later
    else enter_span arena i p size

unfoldable pub nth_dyn_arena_alloc : NthDynArena → ℕ → ℕ → Option ℕ × NthDynArena
unfolding scan_spans enter_span
nth_dyn_arena_alloc arena size align =
    let cur = span_at arena.spans arena.span_idx in
    let pad = nth_align_pad (add64 cur.base arena.offset) align in
    let left = sub64 cur.size arena.offset in
    let at = add64 arena.offset pad in
    if arena.span_count == 0
    then (none, arena)
    else if leb pad left && leb size (sub64 left pad)
    then (some (add64 cur.base at), record arena { offset = add64 at size })
    else scan_spans arena size align (arena.span_count - (arena.span_idx + 1)) (arena.span_idx + 1)

abbrev pub off_bits : ℕ
off_bits = 48

abbrev pub off_mask : ℕ
off_mask = 0xffff_ffff_ffff

-- `NthDynArenaMark`: the span index above 48 bits of offset.
unfoldable pub nth_dyn_arena_mark : NthDynArena → ℕ
nth_dyn_arena_mark arena = bit_or (arena.span_idx <<< off_bits) arena.offset

unfoldable pub nth_dyn_arena_restore : NthDynArena → ℕ → Bool × NthDynArena
nth_dyn_arena_restore arena mark =
    let idx = mark >>> off_bits in
    let off = bit_and mark off_mask in
    let limit = if idx == arena.span_idx then arena.offset else (span_at arena.spans idx).size in
    if ltb arena.span_idx idx
    then (false, arena)
    else if ltb limit off
    then (false, arena)
    else (true, record arena { span_idx = idx; offset = off })

unfoldable pub nth_dyn_arena_clean : NthDynArena → NthDynArena
nth_dyn_arena_clean arena = record arena { offset = 0; span_idx = 0 }

-- `cells` is the array of four spans that `malloc` returns. What a failed set-up leaves is
-- whatever `*arena` held before.
unfoldable pub nth_setup_dyn_arena :
    NthDynArena → Option (List NthSpan) → NthSpan → NthResult × NthDynArena
nth_setup_dyn_arena before none s = (result_out_of_memory, before)
nth_setup_dyn_arena before (some cells) s = (
  result_ok,
  record { spans = set cells 0 s; span_count = 1; span_capacity = 4; span_idx = 0; offset = 0 },
)

-- `[]` is the NULL array.
unfoldable pub nth_teardown_dyn_arena : NthDynArena → NthDynArena
nth_teardown_dyn_arena arena = record {
  spans = [];
  span_count = 0;
  span_capacity = 0;
  span_idx = 0;
  offset = 0;
}

dyn_arena_alloc_alloc : NthDynArena → ℕ → ℕ → Run (Option ℕ × NthDynArena)
dyn_arena_alloc_alloc ctx size align = done (nth_dyn_arena_alloc ctx size align)

dyn_arena_alloc_free : NthDynArena → Option ℕ → Run NthDynArena
dyn_arena_alloc_free ctx ptr = trap

dyn_arena_alloc_realloc : NthDynArena → Option ℕ → ℕ → ℕ → Run (Option ℕ × NthDynArena)
dyn_arena_alloc_realloc ctx ptr size align = trap

dyn_arena_alloc_clear : NthDynArena → Run NthDynArena
dyn_arena_alloc_clear ctx = done (nth_dyn_arena_clean ctx)

unfoldable pub nth_dyn_arena_as_allocator : NthDynArena → NthAllocator NthDynArena
unfolding dyn_arena_alloc_alloc dyn_arena_alloc_free dyn_arena_alloc_realloc dyn_arena_alloc_clear
nth_dyn_arena_as_allocator arena = record {
  ctx = arena;
  alloc = dyn_arena_alloc_alloc;
  free = dyn_arena_alloc_free;
  realloc = dyn_arena_alloc_realloc;
  clear = dyn_arena_alloc_clear;
}
