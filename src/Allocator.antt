-- ===== src/Allocator.antt =====
-- modules/allocator/include/narthex/alloc/: `NthSpan` (span.h) and the table of functions
-- `NthAllocator` (allocator.h). A pointer is its address, and `none` is NULL. `Ctx` is the state
-- behind the `ctx` pointer; a call returns the new state, and traps where an assertion fails.
use narthex.Prelude.{ℕ, Option}
use narthex.Result.{Run}

pub record NthSpan : Type 0 where
  pub base : ℕ
  pub size : ℕ

abbrev pub span : ℕ → ℕ → NthSpan
span b n = record { base = b; size = n }

-- `(NthSpan){0}`
abbrev pub no_span : NthSpan
no_span = span 0 0

pub record NthAllocator (Ctx : Type 0) : Type 0 where
  pub ctx : Ctx
  pub alloc : Ctx → ℕ → ℕ → Run (Option ℕ × Ctx)
  pub free : Ctx → Option ℕ → Run Ctx
  pub realloc : Ctx → Option ℕ → ℕ → ℕ → Run (Option ℕ × Ctx)
  pub clear : Ctx → Run Ctx

module _ {Ctx : Type 0} where
  unfoldable pub nth_alloc : NthAllocator Ctx → ℕ → ℕ → Run (Option ℕ × Ctx)
  nth_alloc a size align = a.alloc a.ctx size align

  unfoldable pub nth_free : NthAllocator Ctx → Option ℕ → Run Ctx
  nth_free a ptr = a.free a.ctx ptr

  unfoldable pub nth_realloc : NthAllocator Ctx → Option ℕ → ℕ → ℕ → Run (Option ℕ × Ctx)
  nth_realloc a ptr new_size align = a.realloc a.ctx ptr new_size align

  unfoldable pub nth_clear : NthAllocator Ctx → Run Ctx
  nth_clear a = a.clear a.ctx
