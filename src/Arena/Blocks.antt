-- ===== src/Arena/Blocks.antt =====
-- A run of allocations, and what a mark brings back.
use narthex.Prelude.{
  ℕ, ◌+◌, ◌≤◌, ◌<◌, ◌≡◌, refl, ◌∙◌, true, Option, none, some, List, [], ◌∷◌, arith,
}
use narthex.Prelude.Words.{u64_mod}
use narthex.Arena.{NthArena, nth_arena_alloc, nth_arena_mark, nth_arena_restore}
use narthex.Arena.Bounds.{
  IsValid, IsAlignment, nth_arena_alloc-Allocated, nth_arena_alloc-IsValid, offset-nth_arena_alloc,
  nth_arena_restore_lem,
}

-- A request is a size and an alignment; a block is an address and a size.
abbrev pub Request : Type 0
Request = ℕ × ℕ

abbrev pub Block : Type 0
Block = ℕ × ℕ

abbrev keep : Option ℕ → ℕ → List Block → List Block
keep none size rest = rest
keep (some addr) size rest = (addr, size) ∷ rest

-- The requests in order; the blocks that were returned, oldest first.
unfoldable pub alloc_all : NthArena → List Request → List Block × NthArena
alloc_all a [] = ([], a)
alloc_all a ((size, align) ∷ rs) =
    let (r, b) = nth_arena_alloc a size align in let (bs, c) = alloc_all b rs in (keep r size bs, c)

abbrev pub AreRequests : List Request → Type 0
AreRequests [] = Unit
AreRequests ((size, align) ∷ rs) = (size < u64_mod) × IsAlignment align × AreRequests rs

-- Each block starts where the one before it has ended, or later, and the last ends by `hi`.
abbrev pub LaidOut : ℕ → ℕ → List Block → Type 0
LaidOut lo hi [] = lo ≤ hi
LaidOut lo hi ((addr, size) ∷ bs) = (lo ≤ addr) × LaidOut (addr + size) hi bs

LaidOut-lower : (lo lo' hi : ℕ) (bs : List Block) → lo ≤ lo' → LaidOut lo' hi bs → LaidOut lo hi bs
LaidOut-lower lo lo' hi [] h l = omega arith
LaidOut-lower lo lo' hi ((addr, size) ∷ bs) h l = (omega arith, l.1)

module _ (a : NthArena) (size align : ℕ) (v : IsValid a) (sz : size < u64_mod)
    (al : IsAlignment align) where
  keep-LaidOut :
      (r : Option ℕ) (b : NthArena) (bs : List Block)
      → nth_arena_alloc a size align ≡ (r, b)
      → LaidOut (b.arena_span.base + b.offset) (b.arena_span.base + b.arena_span.size) bs
      → LaidOut
          (a.arena_span.base + a.offset)
          (a.arena_span.base + a.arena_span.size)
          (keep r size bs)
  keep-LaidOut none b bs e l =
      let (up, same) = rw e at (offset-nth_arena_alloc a size align v al) in
      LaidOut-lower _ (a.arena_span.base + b.offset) _ bs (omega arith) (rw same at l)
  keep-LaidOut (some addr) b bs e l =
      let d = nth_arena_alloc-Allocated a b size align addr v al sz e in
      (d.fresh, rw (← d.end, ← d.same_span) l)

-- The blocks of a run of allocations lie one behind the other from the bump pointer to the end of
-- the span, so no two of them overlap.
pub alloc_all-LaidOut :
    (rs : List Request) (a : NthArena)
    → IsValid a
    → AreRequests rs
    → LaidOut
        (a.arena_span.base + a.offset)
        (a.arena_span.base + a.arena_span.size)
        (alloc_all a rs).0
unfolding alloc_all
alloc_all-LaidOut [] a v ok = omega arith
alloc_all-LaidOut ((size, align) ∷ rs) a v (sz, al, ok) =
    keep-LaidOut a size align v sz al _ _ _ refl (
      alloc_all-LaidOut rs (nth_arena_alloc a size align).1
        (nth_arena_alloc-IsValid a size align v al) ok)

-- Allocations move the bump pointer up and leave the span alone.
pub alloc_all-offset :
    (rs : List Request) (a : NthArena)
    → IsValid a
    → AreRequests rs
    → (a.offset ≤ (alloc_all a rs).1.offset) × ((alloc_all a rs).1.arena_span ≡ a.arena_span)
unfolding alloc_all
alloc_all-offset [] a v ok = (omega arith, refl)
alloc_all-offset ((size, align) ∷ rs) a v (sz, al, ok) =
    let step = offset-nth_arena_alloc a size align v al in
    let rest =
      alloc_all-offset rs (nth_arena_alloc a size align).1
        (nth_arena_alloc-IsValid a size align v al) ok in
    (omega (arith, step.0, rest.0), rest.1 ∙ step.1)

-- Restoring the mark taken before a run of allocations gives back the arena as it was.
pub nth_arena_restore-mark :
    (rs : List Request) (a : NthArena)
    → IsValid a
    → AreRequests rs
    → nth_arena_restore (alloc_all a rs).1 (nth_arena_mark a) ≡ (true, a)
unfolding nth_arena_mark
nth_arena_restore-mark rs a v ok =
    ground (arith, alloc_all-offset rs a v ok, nth_arena_restore_lem (alloc_all a rs).1 a.offset)
