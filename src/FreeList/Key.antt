-- ===== src/FreeList/Key.antt =====
-- modules/allocator/free_list.c, lines 21 to 36: sizes in cells of 16 bytes, and the packed `key`
-- of a block: 48 bits of size below 16 bits of span index.
use narthex.Prelude.{ℕ, ◌+◌, ◌-◌, ◌*◌, ◌/◌, ◌%◌, ◌^◌, ◌<◌, ◌≡◌, ap, ◌∙◌, bit_and, bit_or, arith}
use narthex.Prelude.Words.{u64_mod, add64, not64, ◌<<<◌, ◌>>>◌}
use narthex.Prelude.Bits.{
  bit_and_mask, bit_and_split, bit_or_split, bit_and-zero, bit_or-zero, zero-bit_or,
}

unfoldable pub sizeup_to_csize : ℕ → ℕ
sizeup_to_csize size = add64 size 15 >>> 4

unfoldable pub sizedown_to_csize : ℕ → ℕ
sizedown_to_csize size = size >>> 4

abbrev pub flist_csize_shift : ℕ
flist_csize_shift = 0

abbrev pub flist_span_idx_shift : ℕ
flist_span_idx_shift = 48

abbrev pub flist_csize_mask : ℕ
flist_csize_mask = 0xffff_ffff_ffff

abbrev pub flist_span_idx_mask : ℕ
flist_span_idx_mask = 0xffff

unfoldable pub flist_csize : ℕ → ℕ
flist_csize k = bit_and (k >>> flist_csize_shift) flist_csize_mask

unfoldable pub flist_span_idx : ℕ → ℕ
flist_span_idx k = bit_and (k >>> flist_span_idx_shift) flist_span_idx_mask

unfoldable pub flist_set_csize : ℕ → ℕ → ℕ
flist_set_csize k v =
    bit_or (bit_and k (not64 (flist_csize_mask <<< flist_csize_shift)))
      (bit_and v flist_csize_mask <<< flist_csize_shift)

unfoldable pub flist_set_span_idx : ℕ → ℕ → ℕ
flist_set_span_idx k v =
    bit_or (bit_and k (not64 (flist_span_idx_mask <<< flist_span_idx_shift)))
      (bit_and v flist_span_idx_mask <<< flist_span_idx_shift)

flist_csize-mod : (k : ℕ) → flist_csize k ≡ k % 2 ^ 48
unfolding flist_csize
flist_csize-mod k = ap (λ n. bit_and n flist_csize_mask) (omega arith) ∙ bit_and_mask 48 k

flist_span_idx-div : (k : ℕ) → k < u64_mod → flist_span_idx k ≡ k / 2 ^ 48
unfolding flist_span_idx
flist_span_idx-div k h = omega (arith, bit_and_mask 16 (k / 2 ^ 48))

flist_set_csize-fields :
    (k v : ℕ) → k < u64_mod → flist_set_csize k v ≡ k / 2 ^ 48 * 2 ^ 48 + v % 2 ^ 48
unfolding flist_set_csize
flist_set_csize-fields k v h =
    bit_or_split 48 (k / 2 ^ 48) 0 0 (v % 2 ^ 48) cleared filled (omega arith) (omega arith)
    ∙ rw (bit_or-zero, zero-bit_or)
  where
    cleared : bit_and k (not64 (flist_csize_mask <<< flist_csize_shift)) ≡ k / 2 ^ 48 * 2 ^ 48 + 0
    cleared =
        bit_and_split 48 (k / 2 ^ 48) (k % 2 ^ 48) (2 ^ 16 - 1) 0 (omega arith) (omega arith)
          (omega arith) (omega arith)
        ∙ rw (bit_and_mask 16 (k / 2 ^ 48), bit_and-zero) (omega arith)

    filled : (bit_and v flist_csize_mask <<< flist_csize_shift) ≡ 0 * 2 ^ 48 + v % 2 ^ 48
    filled = omega (arith, bit_and_mask 48 v)

flist_set_span_idx-fields :
    (k v : ℕ) → k < u64_mod → flist_set_span_idx k v ≡ v % 2 ^ 16 * 2 ^ 48 + k % 2 ^ 48
unfolding flist_set_span_idx
flist_set_span_idx-fields k v h =
    bit_or_split 48 0 (k % 2 ^ 48) (v % 2 ^ 16) 0 cleared filled (omega arith) (omega arith)
    ∙ rw (bit_or-zero, zero-bit_or)
  where
    cleared :
        bit_and k (not64 (flist_span_idx_mask <<< flist_span_idx_shift)) ≡ 0 * 2 ^ 48 + k % 2 ^ 48
    cleared =
        bit_and_split 48 (k / 2 ^ 48) (k % 2 ^ 48) 0 (2 ^ 48 - 1) (omega arith) (omega arith)
          (omega arith) (omega arith)
        ∙ rw (bit_and_mask 48 (k % 2 ^ 48), bit_and-zero) (omega arith)

    filled : (bit_and v flist_span_idx_mask <<< flist_span_idx_shift) ≡ v % 2 ^ 16 * 2 ^ 48 + 0
    filled = omega (arith, bit_and_mask 16 v)

-- The two fields of a key are set and read independently.
pub csize-set_csize : (k v : ℕ) → k < u64_mod → v < 2 ^ 48 → flist_csize (flist_set_csize k v) ≡ v
csize-set_csize k v h hv =
    omega (arith, flist_csize-mod (flist_set_csize k v), flist_set_csize-fields k v h)

pub span_idx-set_csize :
    (k v : ℕ) → k < u64_mod → flist_span_idx (flist_set_csize k v) ≡ flist_span_idx k
span_idx-set_csize k v h =
    let e = flist_set_csize-fields k v h in
    omega (
      arith,
      e,
      flist_span_idx-div (flist_set_csize k v) (omega (arith, e)),
      flist_span_idx-div k h,
    )

pub csize-set_span_idx :
    (k v : ℕ) → k < u64_mod → flist_csize (flist_set_span_idx k v) ≡ flist_csize k
csize-set_span_idx k v h = omega (
  arith,
  flist_csize-mod (flist_set_span_idx k v),
  flist_csize-mod k,
  flist_set_span_idx-fields k v h,
)

pub span_idx-set_span_idx :
    (k v : ℕ) → k < u64_mod → v < 2 ^ 16 → flist_span_idx (flist_set_span_idx k v) ≡ v
span_idx-set_span_idx k v h hv =
    let e = flist_set_span_idx-fields k v h in
    omega (arith, e, flist_span_idx-div (flist_set_span_idx k v) (omega (arith, e)))

pub set_csize-lt : (k v : ℕ) → k < u64_mod → flist_set_csize k v < u64_mod
set_csize-lt k v h = omega (arith, flist_set_csize-fields k v h)

pub set_span_idx-lt : (k v : ℕ) → k < u64_mod → flist_set_span_idx k v < u64_mod
set_span_idx-lt k v h = omega (arith, flist_set_span_idx-fields k v h)

pub flist_csize-lt : (k : ℕ) → flist_csize k < 2 ^ 48
flist_csize-lt k = omega (arith, flist_csize-mod k)

pub flist_span_idx-lt : (k : ℕ) → k < u64_mod → flist_span_idx k < 2 ^ 16
flist_span_idx-lt k h = omega (arith, flist_span_idx-div k h)

-- A key with both fields set does not depend on what the word held before, and it is determined by
-- its fields.
pub key-fields : (k : ℕ) → k < u64_mod → k ≡ flist_span_idx k * 2 ^ 48 + flist_csize k
key-fields k h = omega (arith, flist_csize-mod k, flist_span_idx-div k h)
