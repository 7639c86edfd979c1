-- ===== src/Align.antt =====
-- include/narthex/inl/align.h: power-of-two alignment on 64-bit addresses. `nth_uptr` and
-- `nth_usize` are 64-bit words. The debug assertions that `align` is a power of two are hypotheses
-- of the theorems, not part of the functions, as in a release build.
pub mod Pow2
pub mod Laws
pub mod Tests
use narthex.Prelude.{ℕ, ◌+◌, ◌-◌, Bool, not, ◌&&◌, bit_and, ◌==◌}
use narthex.Prelude.Words.{add64, sub64, not64}

unfoldable pub nth_is_pow2 : ℕ → Bool
nth_is_pow2 v = not (v == 0) && (bit_and v (v - 1) == 0)

unfoldable pub nth_is_aligned : ℕ → ℕ → Bool
nth_is_aligned v align = bit_and v (sub64 align 1) == 0

-- The padding that takes `addr` up to the next multiple of `align`.
unfoldable pub nth_align_pad : ℕ → ℕ → ℕ
nth_align_pad addr align = bit_and (sub64 0 addr) (sub64 align 1)

unfoldable pub nth_align_up : ℕ → ℕ → ℕ
nth_align_up v align = let mask = sub64 align 1 in bit_and (add64 v mask) (not64 mask)

unfoldable pub nth_align_down : ℕ → ℕ → ℕ
nth_align_down v align = bit_and v (not64 (sub64 align 1))
