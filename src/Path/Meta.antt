-- ===== src/Path/Meta.antt =====
-- src/nth_path.c, lines 17 to 49: the packed `meta` word of a path. From the lowest bit: 16 bits of
-- length, 16 of capacity, 8 of flags, 24 of magic.
pub mod Flags
pub mod Fields
use narthex.Prelude.{ℕ, ◌*◌, ◌^◌, Bool, not, bit_and, bit_or, ◌==◌}
use narthex.Prelude.Words.{not64, ◌<<<◌, ◌>>>◌}

abbrev pub path_len_shift : ℕ
path_len_shift = 0

abbrev pub path_cap_shift : ℕ
path_cap_shift = 16

abbrev pub path_flags_shift : ℕ
path_flags_shift = 32

abbrev pub path_magic_shift : ℕ
path_magic_shift = 40

abbrev pub path_len_mask : ℕ
path_len_mask = 0xffff

abbrev pub path_cap_mask : ℕ
path_cap_mask = 0xffff

abbrev pub path_magic_mask : ℕ
path_magic_mask = 0xff_ffff

abbrev pub path_len_max : ℕ
path_len_max = path_len_mask

abbrev pub path_cap_max : ℕ
path_cap_max = path_cap_mask

abbrev pub path_flag_owned : ℕ
path_flag_owned = 0x01

abbrev pub path_flag_invalid : ℕ
path_flag_invalid = 0x02

abbrev pub path_flag_normalized : ℕ
path_flag_normalized = 0x04

abbrev pub path_magic : ℕ
path_magic = 0x4e5450

unfoldable pub path_len : ℕ → ℕ
path_len m = bit_and (m >>> path_len_shift) path_len_mask

unfoldable pub path_cap : ℕ → ℕ
path_cap m = bit_and (m >>> path_cap_shift) path_cap_mask

unfoldable pub path_set_len : ℕ → ℕ → ℕ
path_set_len m v =
    bit_or (bit_and m (not64 (path_len_mask <<< path_len_shift)))
      (bit_and v path_len_mask <<< path_len_shift)

unfoldable pub path_set_cap : ℕ → ℕ → ℕ
path_set_cap m v =
    bit_or (bit_and m (not64 (path_cap_mask <<< path_cap_shift)))
      (bit_and v path_cap_mask <<< path_cap_shift)

unfoldable pub path_has : ℕ → ℕ → Bool
path_has m f = not (bit_and (m >>> path_flags_shift) f == 0)

unfoldable pub path_set_flag : ℕ → ℕ → ℕ
path_set_flag m f = bit_or m (f <<< path_flags_shift)

unfoldable pub path_clr_flag : ℕ → ℕ → ℕ
path_clr_flag m f = bit_and m (not64 (f <<< path_flags_shift))

unfoldable pub path_alive : ℕ → Bool
path_alive m = bit_and (m >>> path_magic_shift) path_magic_mask == path_magic

abbrev pub path_meta_init : ℕ
path_meta_init = path_magic <<< path_magic_shift

abbrev pub path_meta_dead : ℕ
path_meta_dead = 0
