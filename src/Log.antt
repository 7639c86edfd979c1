-- ===== src/Log.antt =====
-- src/nth_log.c: the formatters, the room in the buffer and the output. Offsets are from `buf`, and
-- `bytes` is the memory there. `localtime_r` is a parameter. The threads are in `Log.Threads`.
mod Tests
pub mod Ends
pub mod Threads
pub mod Stamp
pub mod Alone
pub mod Calls
pub mod Output
pub mod Live
pub mod Safety
pub mod Steps
pub mod Text
pub mod Moves
pub mod Keep
pub mod Bytes
pub mod Lock
pub mod Inv
pub mod Family
use narthex.Prelude.{
  ℕ, zero, suc, ◌+◌, ◌-◌, ◌*◌, ◌/◌, ◌%◌, ◌^◌, Bool, true, false, ◌&&◌, Option, none, some, List, [],
  ◌∷◌, ◌++◌, length, get_or, take, drop, ltb, leb, ◌==◌, if◌then◌else◌,
}
use narthex.Prelude.Int.{ℤ, pos, negsuc, ◌+ℤ◌, ltb_ℤ, to_u32}
use narthex.Prelude.Words.{add64, sub64}
use narthex.Result.{NthResult, result_ok, result_invalid_argument, result_out_of_memory}

abbrev pub log_time_size : ℕ
log_time_size = 19

abbrev pub log_level_size : ℕ
log_level_size = 5

abbrev pub log_prefix_size : ℕ
log_prefix_size = log_time_size + 1 + log_level_size + 3

abbrev pub log_fixed_size : ℕ
log_fixed_size = log_prefix_size + 1

abbrev pub log_buffer_default : ℕ
log_buffer_default = 64 * 1024

abbrev pub log_format_max : ℕ
log_format_max = 2048

abbrev pub log_level_debug : ℕ
log_level_debug = 4

-- `g_log`, with the bytes that `buf` points to. `lock` says whether a thread holds the mutex.
pub record GLog : Type 0 where
  pub inflight : ℕ
  pub buf : Option ℕ
  pub bytes : ℕ → ℕ
  pub buf_size : ℕ
  pub buf_index : ℕ
  pub last_time : ℤ
  pub lock : Bool
  pub time : List ℕ
  pub flush_each : Bool

-- What `struct tm` says of a time. The C standard has the day and the time of day at 0 or more.
pub record Tm : Type 0 where
  pub tm_year : ℤ
  pub tm_yday : ℕ
  pub tm_hour : ℕ
  pub tm_min : ℕ
  pub tm_sec : ℕ

abbrev pub digit : ℕ → ℕ
digit n = n % 10 + b'0'

unfoldable pub stamp_of : Tm → List ℕ
stamp_of tm =
    let year = to_u32 (tm.tm_year +ℤ pos 1900) % 2 ^ 16 in
    let day = (tm.tm_yday + 1) % 2 ^ 16 in
    b'['
    ∷ digit (year / 1000)
    ∷ digit (year / 100)
    ∷ digit (year / 10)
    ∷ digit year
    ∷ b'-'
    ∷ digit (day / 100)
    ∷ digit (day / 10)
    ∷ digit day
    ∷ b' '
    ∷ digit (tm.tm_hour / 10)
    ∷ digit tm.tm_hour
    ∷ b':'
    ∷ digit (tm.tm_min / 10)
    ∷ digit tm.tm_min
    ∷ b':'
    ∷ digit (tm.tm_sec / 10)
    ∷ digit tm.tm_sec
    ∷ b']'
    ∷ []

-- `memcpy(&bytes[i], xs, length xs)`
unfoldable pub store : (ℕ → ℕ) → ℕ → List ℕ → (ℕ → ℕ)
store bytes i xs j = if leb i j && ltb j (i + length xs) then get_or xs (j - i) 0 else bytes j

-- The `n` bytes from `i`.
unfoldable pub load : (ℕ → ℕ) → ℕ → ℕ → List ℕ
load bytes i zero = []
load bytes i (suc n) = bytes i ∷ load bytes (suc i) n

abbrev pub level_name : ℕ → List ℕ
level_name level =
    if level == 0
    then b'F' ∷ b'T' ∷ b'L' ∷ []
    else if level == 1
    then b'E' ∷ b'R' ∷ b'R' ∷ []
    else if level == 2
    then b'W' ∷ b'R' ∷ b'N' ∷ []
    else if level == 3
    then b'M' ∷ b'S' ∷ b'G' ∷ []
    else b'D' ∷ b'B' ∷ b'G' ∷ []

-- " [LVL] - "
abbrev pub level_mark : ℕ → List ℕ
level_mark level = b' ' ∷ b'[' ∷ (level_name level ++ (b']' ∷ b' ' ∷ b'-' ∷ b' ' ∷ []))

unfoldable pub log_write_prefix : (ℕ → ℕ) → ℕ → ℕ → List ℕ → (ℕ → ℕ)
log_write_prefix bytes index level stamp =
    store (store bytes index stamp) (index + log_time_size) (level_mark level)

-- What `write` answers: the bytes it took, EINTR, or another error.
pub data Response : Type 0 where
  wrote : ℕ → Response
  interrupted failed : Response

-- How the loop of `log_raw_write` stands after some answers.
pub data Progress : Type 0 where
  finished gave_up waiting : Progress

-- `p` is what is left to write, and `out` what has been written.
unfoldable pub log_raw_write : List Response → List ℕ → List ℕ → List ℕ × Progress
log_raw_write rs [] out = (out, finished)
log_raw_write [] (b ∷ p) out = (out, waiting)
log_raw_write (failed ∷ rs) (b ∷ p) out = (out, gave_up)
log_raw_write (interrupted ∷ rs) (b ∷ p) out = log_raw_write rs (b ∷ p) out
log_raw_write (wrote zero ∷ rs) (b ∷ p) out = (out, gave_up)
log_raw_write (wrote (suc k) ∷ rs) (b ∷ p) out =
    log_raw_write rs (drop k p) (out ++ take (suc k) (b ∷ p))

-- A call of `log_append` after its guards: the level, the message, how much of it is copied, the
-- room that the line takes, and the size of the buffer.
pub record Entry : Type 0 where
  pub level : ℕ
  pub msg : List ℕ
  pub len : ℕ
  pub full : ℕ
  pub cap : ℕ

unfoldable pub entry_of : ℕ → ℕ → List ℕ → Entry
entry_of cap level msg =
    let level' = if ltb log_level_debug level then log_level_debug else level in
    let full = add64 log_fixed_size (length msg) in
    if ltb cap full
    then record { level = level'; msg = msg; len = sub64 cap log_fixed_size; full = cap; cap = cap }
    else record { level = level'; msg = msg; len = length msg; full = full; cap = cap }

module _ (localtime : ℤ → Option Tm) where
  unfoldable pub log_update_time : ℤ → List ℕ → List ℕ
  log_update_time now time = elim (localtime now) [ none ↦ time | some tm ↦ stamp_of tm ]

  abbrev pub refresh_time : ℤ → GLog → GLog
  refresh_time now g =
      if ltb_ℤ g.last_time now
      then record g { last_time = now; time = log_update_time now g.time }
      else g

-- `i = buf_index; buf_index = i + full`
abbrev pub take_room : ℕ → GLog → GLog
take_room full g = record g { buf_index = add64 g.buf_index full }

-- The rest of `log_flush_locked` after its wait, with what it hands to `log_raw_write`.
unfoldable pub flush_buffer : GLog → GLog × List ℕ
flush_buffer g =
    if g.buf_index == 0 then (g, []) else (record g { buf_index = 0 }, load g.bytes 0 g.buf_index)

-- The three writes of `log_append` without the lock, `i` being the room that it took.
unfoldable pub write_msg : Entry → ℕ → (ℕ → ℕ) → (ℕ → ℕ)
write_msg e i bytes = store bytes (i + log_prefix_size) (take e.len e.msg)

unfoldable pub write_newline : Entry → ℕ → (ℕ → ℕ) → (ℕ → ℕ)
write_newline e i bytes = store bytes (i + e.full - 1) (b'\n' ∷ [])

pub record NthLoggerDesc : Type 0 where
  pub buffer_size : ℕ
  pub flush_each : Bool

abbrev desc_size : Option NthLoggerDesc → ℕ
desc_size none = log_buffer_default
desc_size (some d) = if d.buffer_size == 0 then log_buffer_default else d.buffer_size

abbrev desc_flush_each : Option NthLoggerDesc → Bool
desc_flush_each none = false
desc_flush_each (some d) = d.flush_each

-- `malloc` is what the call of malloc returns: an address and the bytes there, or NULL.
unfoldable pub nth_init_log : Option NthLoggerDesc → Option (ℕ × (ℕ → ℕ)) → GLog → NthResult × GLog
nth_init_log desc malloc g =
    if leb (desc_size desc) log_fixed_size then (result_invalid_argument, g) else elim malloc [
      | none ↦ (result_out_of_memory, record g { buf = none })
      | some (p, bytes) ↦ (
        result_ok,
        record g {
          buf = some p;
          bytes = bytes;
          buf_size = desc_size desc;
          buf_index = 0;
          last_time = negsuc 0;
          inflight = 0;
          flush_each = desc_flush_each desc;
          lock = false;
        },
      )
    ]
