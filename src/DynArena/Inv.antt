-- ===== src/DynArena/Inv.antt =====
-- The representation invariant of `NthDynArena`, and that every operation keeps it.
use narthex.Prelude.{
  ℕ, zero, suc, ◌+◌, ◌-◌, ◌^◌, ◌≤◌, ◌<◌, ◌≡◌, ◌≢◌, ◌⊎◌, inl, inr, refl, Bool, not, ◌&&◌, ◌||◌,
  bit_and, ltb, if◌then◌else◌, Option, none, some, List, [], ◌∷◌, ◌++◌, arith, ◌==◌, leb,
  Bool-cases, length, set, length-set, length-append,
}
use narthex.Prelude.Words.{u64_mod, mul64, ◌>>>◌}
use narthex.Result.{result_ok}
use narthex.Allocator.{NthSpan, no_span}
use narthex.DynArena.{
  NthDynArena, span_at, push_span, grow_full, nth_dyn_arena_grow, nth_dyn_arena_shrink,
  nth_dyn_arena_restore, nth_dyn_arena_clean, nth_setup_dyn_arena, off_bits, off_mask,
}

-- The array has `span_capacity` cells; the current span is in use, unless there is none at all; the
-- offset lies inside it; no span in use wraps round the address space.
pub record IsValid (a : NthDynArena) : Type 0 where
  pub cells : length a.spans ≡ a.span_capacity
  pub room : a.span_count ≤ a.span_capacity
  pub small : a.span_capacity < 2 ^ 62
  pub current :
      (a.span_idx < a.span_count) ⊎ ((a.span_count ≡ 0) × (a.span_idx ≡ 0) × (a.offset ≡ 0))
  pub within : a.offset ≤ (span_at a.spans a.span_idx).size
  pub no_wrap :
      (i : ℕ) → i < a.span_count → (span_at a.spans i).base + (span_at a.spans i).size < u64_mod

pub span_at-set_self :
    (xs : List NthSpan) (i : ℕ) (s : NthSpan) → i < length xs → span_at (set xs i s) i ≡ s
span_at-set_self [] i s h = absurd (omega arith)
span_at-set_self (x ∷ xs) zero s h = refl
span_at-set_self (x ∷ xs) (suc i) s h = span_at-set_self xs i s (omega arith)

pub span_at-set_ne :
    (xs : List NthSpan) (i j : ℕ) (s : NthSpan) → i ≢ j → span_at (set xs i s) j ≡ span_at xs j
span_at-set_ne [] i j s h = refl
span_at-set_ne (x ∷ xs) zero zero s h = absurd (h refl)
span_at-set_ne (x ∷ xs) zero (suc j) s h = refl
span_at-set_ne (x ∷ xs) (suc i) zero s h = refl
span_at-set_ne (x ∷ xs) (suc i) (suc j) s h = span_at-set_ne xs i j s (ground arith)

pub span_at-append :
    (xs ys : List NthSpan) (i : ℕ) → i < length xs → span_at (xs ++ ys) i ≡ span_at xs i
span_at-append [] ys i h = absurd (omega arith)
span_at-append (x ∷ xs) ys zero h = refl
span_at-append (x ∷ xs) ys (suc i) h = span_at-append xs ys i (omega arith)

-- A span that the caller may hand over: not NULL, not empty, below the end of memory.
pub record IsSpan (s : NthSpan) : Type 0 where
  pub not_null : 0 < s.base
  pub not_empty : 0 < s.size
  pub ends : s.base + s.size < u64_mod

-- Set-up with the four cells from `malloc` starts a valid arena, at the front of its one span.
pub nth_setup_dyn_arena-IsValid :
    (before : NthDynArena) (cells : List NthSpan) (s : NthSpan)
    → length cells ≡ 4
    → IsSpan s
    → let (r, a) = nth_setup_dyn_arena before (some cells) s in
      (r ≡ result_ok) × IsValid a × (span_at a.spans 0 ≡ s)
unfolding nth_setup_dyn_arena
nth_setup_dyn_arena-IsValid before cells s h ok = (
  refl,
  record {
    cells = rw length-set h;
    room = omega arith;
    small = omega arith;
    current = inl (omega arith);
    within = omega arith;
    no_wrap = λ i lt. ground (arith, span_at-set_self cells 0 s, ok.ends);
  },
  span_at-set_self cells 0 s (omega arith),
)

push_span-IsValid :
    (a : NthDynArena) (s : NthSpan)
    → IsValid a
    → IsSpan s
    → a.span_count < a.span_capacity
    → IsValid (push_span a s).1
unfolding push_span
push_span-IsValid a s v ok free = record {
  cells = rw length-set v.cells;
  room = omega (arith, v.small);
  small = v.small;
  current = ground arith;
  within = ground (
    arith,
    span_at-set_self a.spans a.span_count s,
    span_at-set_ne a.spans a.span_count a.span_idx s,
  );
  no_wrap = λ i lt. ground (
    arith,
    span_at-set_self a.spans a.span_count s,
    span_at-set_ne a.spans a.span_count i s,
    v.no_wrap i,
  );
}

grown-IsValid :
    (a : NthDynArena) (cells : List NthSpan)
    → IsValid a
    → length cells ≡ a.span_capacity
    → a.span_capacity < 2 ^ 61
    → IsValid (record a { spans = a.spans ++ cells; span_capacity = mul64 a.span_capacity 2 })
grown-IsValid a cells v h bound = record {
  cells = ground (arith, length-append a.spans cells);
  room = omega arith;
  small = omega arith;
  current = v.current;
  within = ground (arith, span_at-append a.spans cells a.span_idx);
  no_wrap = λ i lt. rw (span_at-append a.spans cells i (ground arith)) (v.no_wrap i lt);
}

-- Growing keeps a valid arena valid, whether `realloc` is called, fails or is not needed. What
-- `realloc` adds doubles the array.
pub nth_dyn_arena_grow-IsValid :
    (a : NthDynArena) (more : Option (List NthSpan)) (s : NthSpan)
    → IsValid a
    → IsSpan s
    → 0 < a.span_capacity
    → a.span_capacity < 2 ^ 61
    → ((cells : List NthSpan) → more ≡ some cells → length cells ≡ a.span_capacity)
    → IsValid (nth_dyn_arena_grow a more s).1
unfolding nth_dyn_arena_grow
nth_dyn_arena_grow-IsValid a more s v ok pos bound doubles =
    elim (Bool-cases (leb a.span_capacity a.span_count)) [
      | inl full ↦ rw full (go more doubles)
      | inr free ↦ rw free (push_span-IsValid a s v ok (ground arith))
    ]
  where
    go :
        (m : Option (List NthSpan))
        → ((cells : List NthSpan) → m ≡ some cells → length cells ≡ a.span_capacity)
        → IsValid (grow_full a m s).1
    go none d = v
    go (some cells) d =
        push_span-IsValid _ s (grown-IsValid a cells v (d cells refl) bound) ok (omega arith)

-- Shrinking keeps a valid arena valid.
pub nth_dyn_arena_shrink-IsValid :
    (a : NthDynArena) → IsValid a → IsValid (nth_dyn_arena_shrink a).1
unfolding nth_dyn_arena_shrink
nth_dyn_arena_shrink-IsValid a v = elim (Bool-cases refuse) [
  | inl stay ↦ ground arith
  | inr go ↦ ground (arith, shrunk (ground arith) (ground arith))
]
  where
    refuse : Bool
    refuse =
        (a.span_count == 0)
        || ((a.span_idx == a.span_count - 1) && not ((a.span_idx == 0) && (a.offset == 0)))

    shrunk :
        a.span_count ≢ 0
        → (a.span_idx < a.span_count - 1) ⊎ ((a.span_count ≡ 1) × (a.span_idx ≡ 0) × (a.offset ≡ 0))
        → IsValid (record a {
          spans = set a.spans (a.span_count - 1) no_span;
          span_count = a.span_count - 1;
        })
    shrunk ne way = record {
      cells = rw length-set v.cells;
      room = omega (arith, v.room);
      small = v.small;
      current = ground arith;
      within =
          ground (arith, span_at-set_ne a.spans (a.span_count - 1) a.span_idx no_span, v.within);
      no_wrap =
          λ i lt. ground (arith, span_at-set_ne a.spans (a.span_count - 1) i no_span, v.no_wrap i);
    }

pub nth_dyn_arena_clean-IsValid : (a : NthDynArena) → IsValid a → IsValid (nth_dyn_arena_clean a)
unfolding nth_dyn_arena_clean
nth_dyn_arena_clean-IsValid a v = record {
  cells = v.cells;
  room = v.room;
  small = v.small;
  current = ground arith;
  within = omega arith;
  no_wrap = v.no_wrap;
}

-- Restoring keeps a valid arena valid, for every mark.
pub nth_dyn_arena_restore-IsValid :
    (a : NthDynArena) (mark : ℕ) → IsValid a → IsValid (nth_dyn_arena_restore a mark).1
unfolding nth_dyn_arena_restore
nth_dyn_arena_restore-IsValid a mark v = elim (Bool-cases (ltb a.span_idx idx || ltb limit off)) [
  | inl refused ↦ ground arith
  | inr taken ↦ ground (arith, back (ground arith) (ground arith))
]
  where
    idx : ℕ
    idx = mark >>> off_bits

    off : ℕ
    off = bit_and mark off_mask

    limit : ℕ
    limit = if idx == a.span_idx then a.offset else (span_at a.spans idx).size

    back : idx ≤ a.span_idx → off ≤ limit → IsValid (record a { span_idx = idx; offset = off })
    back le fits = record {
      cells = v.cells;
      room = v.room;
      small = v.small;
      current = ground arith;
      within = ground arith;
      no_wrap = v.no_wrap;
    }
