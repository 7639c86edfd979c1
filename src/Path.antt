-- ===== src/Path.antt =====
-- src/nth_path.c on POSIX. A path is a block of bytes behind `ptr` (`none` is NULL) and the packed
-- word `meta`. A C string is the list of its bytes before the NUL, and does not overlap the path's
-- own block. Each call is given the libc allocator that serves it. NTH_ASSERT traps.
pub mod Meta
pub mod Bytes
pub mod Text
pub mod Refine
pub mod Append
pub mod Calls
pub mod Query
pub mod Normalize
mod Tests
use mathlib.Core.Option
use narthex.Prelude.{
  ℕ, ◌+◌, ◌-◌, ◌/◌, Bool, true, false, not, ◌&&◌, Option, none, some, List, [], ◌∷◌, ◌++◌, ltb, leb,
  ◌==◌, if◌then◌else◌, length, get_or, set, take,
}
use narthex.Result.{
  NthResult, result_ok, result_out_of_memory, result_already_initialized, Run, done, trap, ◌>>=◌,
  ◌>>◌, nth_assert, is_ok,
}
use Meta.{
  path_len_max, path_cap_max, path_flag_owned, path_flag_invalid, path_flag_normalized, path_len,
  path_cap, path_set_len, path_set_cap, path_has, path_set_flag, path_clr_flag, path_alive,
  path_meta_init, path_meta_dead,
}
use Bytes.{Malloc, memcpy}

pub record NthPath : Type 0 where
  pub ptr : Option (List ℕ)
  pub meta : ℕ

abbrev pub path_sep : ℕ
path_sep = b'/'

abbrev pub path_is_sep : ℕ → Bool
path_is_sep c = c == b'/'

abbrev pub path_default_cap : ℕ
path_default_cap = 4096

-- The block behind `ptr`. A live path has one.
abbrev pub bytes : NthPath → List ℕ
bytes p = Option.get_or p.ptr []

abbrev pub with_flag : NthPath → ℕ → NthPath
with_flag p f = record p { meta = path_set_flag p.meta f }

-- The capacity that `path_grow` asks for: half as much again, at least what is needed, at most
-- what the 16-bit field holds.
unfoldable pub grown_cap : ℕ → ℕ → ℕ
grown_cap cap needed_len =
    let geometric = cap + cap / 2 in
    let enough = if leb geometric needed_len then needed_len + 1 else geometric in
    if ltb path_cap_max enough then path_cap_max else enough

unfoldable pub grow_to : NthPath → ℕ → Option (List ℕ) → Run (NthResult × NthPath)
grow_to path new_cap none = done (result_out_of_memory, with_flag path path_flag_invalid)
grow_to path new_cap (some extra) =
    done (
      result_ok,
      record { ptr = some (bytes path ++ extra); meta = path_set_cap path.meta new_cap },
    )

unfoldable pub path_grow : Malloc → NthPath → ℕ → Run (NthResult × NthPath)
path_grow mem path needed_len =
    let cap = path_cap path.meta in
    let new_cap = grown_cap cap needed_len in
    if ltb needed_len cap then done (result_ok, path) else do
      nth_assert (ltb needed_len path_len_max)
      if not (path_has path.meta path_flag_owned)
          then done (result_out_of_memory, with_flag path path_flag_invalid)
          else grow_to path new_cap (mem.more (new_cap - length (bytes path)))

unfoldable pub setup_empty : NthPath → Option (List ℕ) → NthResult × NthPath
setup_empty path none = (result_out_of_memory, path)
setup_empty path (some tmp) = (
  result_ok,
  record {
    ptr = some (set tmp 0 0);
    meta =
        path_set_flag
          (path_set_flag (path_set_cap (path_set_len path_meta_init 0) path_default_cap)
            path_flag_owned)
          path_flag_normalized;
  },
)

unfoldable pub nth_setup_path : Malloc → NthPath → NthResult × NthPath
nth_setup_path mem path =
    if path_alive path.meta
    then (result_already_initialized, path)
    else setup_empty path (mem.malloc path_default_cap)

unfoldable pub setup_copy : NthPath → List ℕ → ℕ → Option (List ℕ) → NthResult × NthPath
setup_copy path str cap none = (result_out_of_memory, path)
setup_copy path str cap (some tmp) = (
  result_ok,
  record {
    ptr = some (set (memcpy tmp 0 str) (length str) 0);
    meta =
        path_set_flag (path_set_cap (path_set_len path_meta_init (length str)) cap) path_flag_owned;
  },
)

-- `nth_setup_path_cstr`; `nth_setup_path_view` does the same with the bytes of the view.
unfoldable pub nth_setup_path_cstr : Malloc → NthPath → List ℕ → Run (NthResult × NthPath)
nth_setup_path_cstr mem path str =
    let len = length str in
    let cap = if ltb path_default_cap (len + 1) then len + 1 else path_default_cap in
    if path_alive path.meta
    then done (result_already_initialized, path)
    else do nth_assert (ltb len path_len_max); done (setup_copy path str cap (mem.malloc cap))

unfoldable pub nth_setup_path_view : Malloc → NthPath → List ℕ → Run (NthResult × NthPath)
nth_setup_path_view mem path view =
    let size = length view in
    let cap = if ltb path_default_cap (size + 1) then size + 1 else path_default_cap in
    if path_alive path.meta
    then done (result_already_initialized, path)
    else do nth_assert (ltb size path_len_max); done (setup_copy path view cap (mem.malloc cap))

-- The block of an owned path goes back to libc.
unfoldable pub nth_teardown_path : NthPath → NthPath
nth_teardown_path path =
    if path_alive path.meta then record { ptr = none; meta = path_meta_dead } else path

unfoldable pub write_text : NthPath → List ℕ → ℕ → NthPath
write_text path block len = record {
  ptr = some (set block len 0);
  meta = path_clr_flag (path_set_len path.meta len) path_flag_normalized;
}

-- `str` points to at least `len` bytes.
unfoldable pub nth_path_setn : Malloc → NthPath → List ℕ → ℕ → Run NthPath
nth_path_setn mem path str len = do
  nth_assert (path_alive path.meta)
  (r, grown) ← path_grow mem path len
  done (if is_ok r then (write_text grown (memcpy (bytes grown) 0 (take len str)) len) else grown)

unfoldable pub nth_path_set : Malloc → NthPath → List ℕ → Run NthPath
nth_path_set mem path str = do
  nth_assert (path_alive path.meta)
  nth_path_setn mem path str (length str)

-- `path_is_sep (path->ptr[cur - 1])` is read only where `cur > 0`.
unfoldable pub needs_sep : NthPath → Bool
needs_sep path =
    let cur = path_len path.meta in ltb 0 cur && not (path_is_sep (get_or (bytes path) (cur - 1) 0))

unfoldable pub append_text : NthPath → Bool → ℕ → List ℕ → NthPath
append_text path need_sep cur str =
    let block = if need_sep then set (bytes path) cur path_sep else bytes path in
    let at = if need_sep then cur + 1 else cur in
    write_text path (memcpy block at str) (at + length str)

unfoldable pub append_bytes : Malloc → NthPath → List ℕ → Run NthPath
append_bytes mem path str = do
  let cur = path_len path.meta
  (r, grown) ← path_grow mem path (cur + (if needs_sep path then 1 else 0) + length str)
  done (if is_ok r then (append_text grown (needs_sep path) cur str) else grown)

-- `str` points to at least `len` bytes.
unfoldable pub nth_path_appendn : Malloc → NthPath → List ℕ → ℕ → Run NthPath
nth_path_appendn mem path str len = do
  nth_assert (path_alive path.meta)
  if len == 0 then done path else append_bytes mem path (take len str)

unfoldable pub nth_path_append : Malloc → NthPath → List ℕ → Run NthPath
nth_path_append mem path str = do
  nth_assert (path_alive path.meta)
  nth_path_appendn mem path str (length str)

unfoldable pub nth_path_clear : NthPath → Run NthPath
nth_path_clear path = do
  nth_assert (path_alive path.meta)
  done (record {
    ptr = some (set (bytes path) 0 0);
    meta =
        path_clr_flag (path_set_flag (path_set_len path.meta 0) path_flag_normalized)
          path_flag_invalid;
  })

unfoldable pub copy_text : NthPath → NthPath → ℕ → NthPath
copy_text dst src len =
    let m = path_set_len dst.meta len in
    record {
      ptr = some (set (memcpy (bytes dst) 0 (take len (bytes src))) len 0);
      meta =
          if path_has src.meta path_flag_normalized
          then path_set_flag m path_flag_normalized
          else path_clr_flag m path_flag_normalized;
    }

-- The new `dst`; `dst` and `src` are two paths.
unfoldable pub nth_path_copy : Malloc → NthPath → NthPath → Run NthPath
nth_path_copy mem dst src = do
  nth_assert (path_alive dst.meta)
  nth_assert (path_alive src.meta)
  (r, grown) ← path_grow mem dst (path_len src.meta)
  done (if is_ok r then (copy_text grown src (path_len src.meta)) else grown)

unfoldable pub nth_path_length : NthPath → Run ℕ
nth_path_length path = nth_assert (path_alive path.meta) >> done (path_len path.meta)

unfoldable pub nth_path_empty : NthPath → Run Bool
nth_path_empty path = nth_assert (path_alive path.meta) >> done (path_len path.meta == 0)

unfoldable pub nth_path_is_absolute : NthPath → Run Bool
nth_path_is_absolute path = do
  nth_assert (path_alive path.meta)
  if path_len path.meta == 0 then done false else done (path_is_sep (get_or (bytes path) 0 0))

unfoldable pub nth_path_is_relative : NthPath → Run Bool
nth_path_is_relative path = do
  nth_assert (path_alive path.meta)
  absolute ← nth_path_is_absolute path
  done (not absolute)

unfoldable pub nth_path_is_alive : NthPath → Bool
nth_path_is_alive path = path_alive path.meta
