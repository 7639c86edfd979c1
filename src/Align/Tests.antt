-- ===== src/Align/Tests.antt =====
-- include/narthex/inl/align.h at concrete addresses.
use narthex.Prelude.{◌%◌, ◌≡◌, ◌↔◌, refl, true, arith}
use narthex.Align.{nth_is_pow2, nth_is_aligned, nth_align_pad}
use narthex.Align.Laws.{nth_is_aligned_iff}

pub is_pow2_16 : nth_is_pow2 16 ≡ true
unfolding nth_is_pow2
is_pow2_16 = refl

pad_1001 : nth_align_pad 0x1001 16 ≡ 15
unfolding nth_align_pad
pad_1001 = refl

nth_is_aligned_iff_example : (nth_is_aligned 0x1008 16 ≡ true) ↔ (0x1008 % 16 ≡ 0)
nth_is_aligned_iff_example = nth_is_aligned_iff 0x1008 16 is_pow2_16 (omega arith)
