-- ===== src/Path/Normalize.antt =====
-- src/nth_path.c: `nth_path_normalize` on POSIX, in place. `malloc` and `realloc` say whether libc has
-- the room for the stack of offsets.
pub mod Spec
pub mod Scan
pub mod Writes
pub mod Round
pub mod Segment
pub mod Rounds
pub mod Start
pub mod Refine
pub mod Kept
pub mod Resplit
pub mod Twice
use narthex.Prelude.{
  ℕ, zero, suc, ◌+◌, ◌-◌, ◌*◌, Bool, true, false, not, ◌&&◌, Option, none, some, List, [], ◌∷◌, ltb,
  ◌==◌, if◌then◌else◌, length, get_or, set, take, drop,
}
use narthex.Result.{Run, done, trap, ◌>>=◌, ◌>>◌, nth_assert}
use narthex.Path.{NthPath, path_sep, path_is_sep, bytes, with_flag}
use narthex.Path.Meta.{
  path_len, path_set_len, path_has, path_set_flag, path_alive, path_flag_invalid,
  path_flag_normalized,
}
use narthex.Path.Bytes.{memcpy}

-- `while(read < len && !PATH_IS_SEP(buf[read])) read++`, with `n` bytes left.
unfoldable pub seg_end : List ℕ → ℕ → ℕ → ℕ
seg_end buf zero read = read
seg_end buf (suc n) read =
    let rest = seg_end buf n (suc read) in
    if not (path_is_sep (get_or buf read 0)) then rest else read

-- The end of the separators behind it, with `n` bytes left.
unfoldable pub seps_end : List ℕ → ℕ → ℕ → ℕ
seps_end buf zero next = next
seps_end buf (suc n) next =
    let rest = seps_end buf n (suc next) in if path_is_sep (get_or buf next 0) then rest else next

-- What the loop changes. The last offset that was pushed stands first in `stack`.
pub record Work : Type 0 where
  pub buf : List ℕ
  pub write : ℕ
  pub stack : List ℕ
  pub stack_cap : ℕ

-- The loop goes on, or gives up on memory and leaves the bytes as they are then.
pub data Outcome : Type 0 where
  going : Work → Outcome
  no_room : List ℕ → Outcome

abbrev pub write_byte : ℕ → Work → Work
write_byte b w = record w { buf = set w.buf w.write b; write = w.write + 1 }

abbrev pub write_sep : ℕ → Work → Work
write_sep root_end w = if ltb root_end w.write then write_byte path_sep w else w

-- `memmove(&buf[write], &buf[seg_start], seg_len); write += seg_len`
abbrev pub write_seg : ℕ → ℕ → Work → Work
write_seg seg_start seg_len w = record w {
  buf = memcpy w.buf w.write (take seg_len (drop seg_start w.buf));
  write = w.write + seg_len;
}

abbrev pub move_seg : ℕ → ℕ → Outcome → Outcome
move_seg seg_start seg_len (going w) = going (write_seg seg_start seg_len w)
move_seg seg_start seg_len (no_room buf) = no_room buf

-- "..": back to where the last real segment began, or kept.
unfoldable pub dot_dot : Bool → ℕ → Work → List ℕ → Work
dot_dot absolute root_end w (top ∷ stack) = record w { write = top; stack = stack }
dot_dot absolute root_end w [] =
    if absolute then w else write_byte b'.' (write_byte b'.' (write_sep root_end w))

module _ (realloc : ℕ → Bool) where
  unfoldable pub push : ℕ → Work → Outcome
  push rewind_to w =
      if length w.stack == w.stack_cap
      then if realloc (w.stack_cap * 2)
        then going (record w { stack = rewind_to ∷ w.stack; stack_cap = w.stack_cap * 2 })
        else no_room w.buf
      else going (record w { stack = rewind_to ∷ w.stack })

  unfoldable pub segment : Bool → ℕ → ℕ → ℕ → Work → Outcome
  segment absolute root_end seg_start seg_len w =
      if seg_len == 0
      then going w
      else if (seg_len == 1) && (get_or w.buf seg_start 0 == b'.')
      then going w
      else if (seg_len == 2)
          && (get_or w.buf seg_start 0 == b'.')
          && (get_or w.buf (seg_start + 1) 0 == b'.')
      then going (dot_dot absolute root_end w w.stack)
      else move_seg seg_start seg_len (push w.write (write_sep root_end w))

  -- `while(read < len)`: each round takes at least a byte, so `len - read` rounds are enough.
  unfoldable pub rounds : Bool → ℕ → ℕ → ℕ → ℕ → Work → Outcome
  rounds absolute root_end len zero read w = going w
  rounds absolute root_end len (suc n) read w = elim (ltb read len) [
    | false ↦ going w
    | true ↦
        let stop = seg_end w.buf (len - read) read in
        let next = seps_end w.buf (len - stop) stop in
        elim (segment absolute root_end read (stop - read) w) [
          | going w' ↦ rounds absolute root_end len n next w'
          | no_room buf ↦ no_room buf
        ]
  ]

-- `if(write == 0) buf[write++] = '.'`, the NUL and the word.
unfoldable pub finish : NthPath → Outcome → NthPath
finish path (no_room buf) = record {
  ptr = some buf;
  meta = path_set_flag path.meta path_flag_invalid;
}
finish path (going w) =
    let w' = if w.write == 0 then write_byte b'.' w else w in
    record {
      ptr = some (set w'.buf w'.write 0);
      meta = path_set_flag (path_set_len path.meta w'.write) path_flag_normalized;
    }

abbrev pub initial_cap : ℕ
initial_cap = 16

unfoldable pub normalize_bytes : Bool → (ℕ → Bool) → NthPath → NthPath
normalize_bytes malloc realloc path =
    let len = path_len path.meta in
    let buf = bytes path in
    let absolute = ltb 0 len && path_is_sep (get_or buf 0 0) in
    let root_end = if absolute then 1 else 0 in
    let buf' = if absolute then set buf 0 path_sep else buf in
    let read = if absolute then seps_end buf' (len - 1) 1 else 0 in
    if malloc
    then finish path (
        rounds realloc absolute root_end len len read
          (record { buf = buf'; write = root_end; stack = []; stack_cap = initial_cap }))
    else record { ptr = some buf'; meta = path_set_flag path.meta path_flag_invalid }

unfoldable pub nth_path_normalize : Bool → (ℕ → Bool) → NthPath → Run NthPath
nth_path_normalize malloc realloc path = do
  nth_assert (path_alive path.meta)
  if path_has path.meta path_flag_normalized
      then done path
      else done (normalize_bytes malloc realloc path)
