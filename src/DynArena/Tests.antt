-- ===== src/DynArena/Tests.antt =====
-- A dynamic arena over two spans, of 16 and of 64 bytes.
use narthex.Prelude.{
  ℕ, zero, suc, ◌+◌, ◌<◌, ◌≤◌, ◌≡◌, refl, inl, true, none, some, List, [], ◌∷◌, arith, replicate,
}
use narthex.Prelude.Words.{u64_mod}
use narthex.Align.{nth_align_pad}
use narthex.Align.Tests.{is_pow2_16}
use narthex.Result.{result_ok}
use narthex.Allocator.{NthSpan, span, no_span}
use narthex.Arena.Bounds.{IsAlignment}
use narthex.Arena.Blocks.{Request, AreRequests}
use narthex.DynArena.{
  NthDynArena, span_at, nth_dyn_arena_alloc, nth_dyn_arena_grow, nth_dyn_arena_mark,
  nth_dyn_arena_restore, nth_setup_dyn_arena,
}
use narthex.DynArena.Inv.{IsValid, IsSpan, nth_setup_dyn_arena-IsValid, nth_dyn_arena_grow-IsValid}
use narthex.DynArena.Place.{Outcome, nth_dyn_arena_alloc-Outcome}
use narthex.DynArena.Marks.{
  Apart, Fresh, alloc_run, nth_dyn_arena_alloc-Fresh, nth_dyn_arena_restore-mark,
}

abbrev two : NthDynArena
two = record {
  spans = span 0x1000 16 ∷ span 0x2000 64 ∷ no_span ∷ no_span ∷ [];
  span_count = 2;
  span_capacity = 4;
  span_idx = 0;
  offset = 8;
}

two-IsValid : IsValid two
two-IsValid = record {
  cells = refl;
  room = omega arith;
  small = omega arith;
  current = inl (omega arith);
  within = omega arith;
  no_wrap = below;
}
  where
    below : (i : ℕ) → i < 2 → (span_at two.spans i).base + (span_at two.spans i).size < u64_mod
    below zero h = omega arith
    below (suc zero) h = omega arith
    below (suc (suc i)) h = absurd (omega arith)

two-Apart : Apart two
two-Apart zero zero x hi hj p q = refl
two-Apart zero (suc zero) x hi hj p q = absurd (omega arith)
two-Apart (suc zero) zero x hi hj p q = absurd (omega arith)
two-Apart (suc zero) (suc zero) x hi hj p q = refl
two-Apart (suc (suc i)) j x hi hj p q = absurd (omega arith)
two-Apart zero (suc (suc j)) x hi hj p q = absurd (omega arith)
two-Apart (suc zero) (suc (suc j)) x hi hj p q = absurd (omega arith)

by_16 : IsAlignment 16
by_16 = (is_pow2_16, omega arith)

abbrev moved_on : NthDynArena
moved_on = record two { span_idx = 1; offset = 20 }

second_span : nth_dyn_arena_alloc two 20 16 ≡ (some 0x2000, moved_on)
unfolding nth_dyn_arena_alloc nth_align_pad
second_span = refl

abbrev extra : NthSpan
extra = span 0x3000 32

extra-IsSpan : IsSpan extra
extra-IsSpan = record { not_null = omega arith; not_empty = omega arith; ends = omega arith }

abbrev requests : List Request
requests = (20, 16) ∷ (100, 16) ∷ (20, 16) ∷ []

requests-AreRequests : AreRequests requests
requests-AreRequests = (omega arith, by_16, (omega arith, by_16, (omega arith, by_16, tt)))

nth_setup_dyn_arena-IsValid_example :
    let (r, a) = nth_setup_dyn_arena two (some (replicate 4 no_span)) extra in
    (r ≡ result_ok) × IsValid a × (span_at a.spans 0 ≡ extra)
nth_setup_dyn_arena-IsValid_example =
    nth_setup_dyn_arena-IsValid two (replicate 4 no_span) extra refl extra-IsSpan

nth_dyn_arena_grow-IsValid_example : IsValid (nth_dyn_arena_grow two none extra).1
nth_dyn_arena_grow-IsValid_example =
    nth_dyn_arena_grow-IsValid two none extra two-IsValid extra-IsSpan (omega arith) (omega arith)
      (λ cells e. cc)

nth_dyn_arena_alloc-Outcome_example : Outcome two 20 16 (nth_dyn_arena_alloc two 20 16)
nth_dyn_arena_alloc-Outcome_example =
    nth_dyn_arena_alloc-Outcome two 20 16 two-IsValid by_16 (omega arith)

nth_dyn_arena_alloc-Fresh_example : Fresh two 20 0x2000 moved_on
nth_dyn_arena_alloc-Fresh_example =
    nth_dyn_arena_alloc-Fresh two moved_on 20 16 0x2000 two-IsValid two-Apart by_16 (omega arith)
      second_span

nth_dyn_arena_restore-mark_example :
    let b = alloc_run two requests in
    (nth_dyn_arena_restore b (nth_dyn_arena_mark two)
      ≡ (true, record b { span_idx = 0; offset = 8 }))
    × ((j : ℕ) → j ≤ 0 → span_at b.spans j ≡ span_at two.spans j)
nth_dyn_arena_restore-mark_example =
    nth_dyn_arena_restore-mark requests two two-IsValid requests-AreRequests (omega arith)
      (omega arith)
