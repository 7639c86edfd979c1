-- ===== src/Arena/Bounds.antt =====
-- Each arena operation on every branch: where blocks lie, when the arena is full, marks.
use narthex.Prelude.{
  ℕ, ◌+◌, ◌-◌, ◌%◌, ◌≤◌, ◌<◌, ◌≡◌, ◌↔◌, true, false, none, some, arith, ap, ◌∙◌, ◌⊎◌, inl, inr,
  Bool-cases, ltb,
}
use narthex.Prelude.Words.{u64_mod, add64}
use narthex.Align.{nth_is_pow2, nth_align_pad}
use narthex.Align.Laws.{nth_align_pad_lem, nth_align_pad_least}
use narthex.Arena.{NthArena, nth_arena_alloc, nth_arena_restore}

-- The span does not wrap round the address space, and the offset stays inside it.
pub record IsValid (a : NthArena) : Type 0 where
  pub no_wrap : a.arena_span.base + a.arena_span.size < u64_mod
  pub within : a.offset ≤ a.arena_span.size

-- An alignment that the code accepts: a power of two of 64 bits.
abbrev pub IsAlignment : ℕ → Type 0
IsAlignment align = (nth_is_pow2 align ≡ true) × (align < u64_mod)

-- What a successful allocation of `size` bytes at `addr` has done to the arena.
pub record Allocated (a : NthArena) (size align addr : ℕ) (b : NthArena) : Type 0 where
  pub aligned : addr % align ≡ 0
  pub fresh : a.arena_span.base + a.offset ≤ addr
  pub end : b.arena_span.base + b.offset ≡ addr + size
  pub inside : addr + size ≤ a.arena_span.base + a.arena_span.size
  pub same_span : b.arena_span ≡ a.arena_span

-- A block that `nth_arena_alloc` returns is aligned, starts at or after the bump pointer, lies
-- inside the span, and ends at the new bump pointer.
pub nth_arena_alloc-Allocated :
    (a b : NthArena) (size align addr : ℕ)
    → IsValid a
    → IsAlignment align
    → size < u64_mod
    → nth_arena_alloc a size align ≡ (some addr, b)
    → Allocated a size align addr b
unfolding nth_arena_alloc
nth_arena_alloc-Allocated a b size align addr v al sz e =
    ground (arith, nth_align_pad_lem (add64 a.arena_span.base a.offset) align al.0 al.1)

-- An arena answers NULL just when no aligned block of `size` bytes fits between the bump pointer
-- and the end of the span, and then it is unchanged.
pub nth_arena_alloc-none :
    (a : NthArena) (size align : ℕ)
    → IsValid a
    → IsAlignment align
    → (nth_arena_alloc a size align ≡ (none, a)) ↔ (
        (addr : ℕ)
        → addr % align ≡ 0
        → a.arena_span.base + a.offset ≤ addr
        → a.arena_span.base + a.arena_span.size < addr + size)
unfolding nth_arena_alloc
nth_arena_alloc-none a size align v al = (
  λ h addr m lo. ground (
    arith,
    nth_align_pad_least start align (addr - start) al.0 al.1,
    ap (λ n. n % align) (back addr lo) ∙ m,
  ),
  λ none_fits. ground (
    arith,
    nth_align_pad_lem start align al.0 al.1,
    none_fits (start + nth_align_pad start align),
  ),
)
  where
    start : ℕ
    start = add64 a.arena_span.base a.offset

    back : (addr : ℕ) → a.arena_span.base + a.offset ≤ addr → start + (addr - start) ≡ addr
    back addr lo = omega arith

-- Every allocation keeps the invariant, on each branch.
pub nth_arena_alloc-IsValid :
    (a : NthArena) (size align : ℕ)
    → IsValid a
    → IsAlignment align
    → IsValid (nth_arena_alloc a size align).1
unfolding nth_arena_alloc
nth_arena_alloc-IsValid a size align v al =
    ground (arith, nth_align_pad_lem (add64 a.arena_span.base a.offset) align al.0 al.1)

-- `nth_arena_restore` accepts exactly the marks at or below the offset, and moves the offset there;
-- it refuses any other and changes nothing.
pub nth_arena_restore_lem :
    (a : NthArena) (mark : ℕ)
    → ((mark ≤ a.offset) × (nth_arena_restore a mark ≡ (true, record a { offset = mark })))
      ⊎ ((a.offset < mark) × (nth_arena_restore a mark ≡ (false, a)))
unfolding nth_arena_restore
nth_arena_restore_lem a mark = elim (Bool-cases (ltb a.offset mark)) [
  | inl over ↦ inr (ground arith, rw over)
  | inr under ↦ inl (ground arith, rw under)
]

pub nth_arena_restore-IsValid :
    (a : NthArena) (mark : ℕ) → IsValid a → IsValid (nth_arena_restore a mark).1
unfolding nth_arena_restore
nth_arena_restore-IsValid a mark v = ground arith

pub offset-nth_arena_alloc :
    (a : NthArena) (size align : ℕ)
    → IsValid a
    → IsAlignment align
    → (a.offset ≤ (nth_arena_alloc a size align).1.offset)
      × ((nth_arena_alloc a size align).1.arena_span ≡ a.arena_span)
unfolding nth_arena_alloc
offset-nth_arena_alloc a size align v al =
    ground (arith, nth_align_pad_lem (add64 a.arena_span.base a.offset) align al.0 al.1)
