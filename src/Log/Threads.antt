-- ===== src/Log/Threads.antt =====
-- src/nth_log.c: threads that log and flush, interleaved in any order. What a thread does to
-- `g_log` under the lock, between two accesses of `inflight`, is one step; each write into the
-- buffer outside the lock is one. A wait on the lock is a thread that does not move; a wait on
-- `inflight` is a step that changes nothing. `lines` is a history for the theorems, which no step
-- reads: the lines for which room was taken, in that order.
use narthex.Prelude.{
  ℕ, ◌+◌, ◌^◌, ◌<◌, ◌≤◌, ◌≡◌, ◌≢◌, Bool, true, false, Option, List, [], ◌∷◌, ◌++◌, length, take,
  ◌==◌, if◌then◌else◌,
}
use narthex.Prelude.Int.{ℤ}
use narthex.Result.{result_ok}
use narthex.Prelude.Words.{add32, sub32, sub64}
use narthex.Log.{
  GLog, Tm, Entry, entry_of, refresh_time, take_room, flush_buffer, log_write_prefix, write_msg,
  NthLoggerDesc, nth_init_log, write_newline, level_mark, log_fixed_size, log_time_size,
}

-- Where a thread stands, with its local variables: outside, in `log_append` (`i` is the offset of
-- its line and `stamp` its time), or in `nth_flush`.
pub data Place : Type 0 where
  outside : Place
  at_lock at_test at_wait at_output at_reserve : Entry → ℤ → Place
  at_count at_unlock at_prefix at_msg at_newline at_release :
      Entry → (i : ℕ) → (stamp : List ℕ) → Place
  at_each : Place
  flush_lock flush_wait flush_output flush_unlock : Place

-- The log, what was handed to `log_raw_write`, and the history.
pub record Shared : Type 0 where
  pub log : GLog
  pub sent : List ℕ
  pub lines : List (List ℕ)

-- The line of an entry.
abbrev pub line_of : Entry → List ℕ → List ℕ
line_of e stamp = stamp ++ (level_mark e.level ++ (take e.len e.msg ++ (b'\n' ∷ [])))

abbrev pub set_lock : Bool → Shared → Shared
set_lock b s = record s { log = record s.log { lock = b } }

abbrev pub set_inflight : ℕ → Shared → Shared
set_inflight n s = record s { log = record s.log { inflight = n } }

abbrev pub set_bytes : (ℕ → ℕ) → Shared → Shared
set_bytes b s = record s { log = record s.log { bytes = b } }

abbrev pub flushed : Shared → Shared
flushed s = record s { log = (flush_buffer s.log).0; sent = s.sent ++ (flush_buffer s.log).1 }

-- The time that a line gets: `memcpy(stamp, g_log.time, LOG_TIME_SIZE)` after the update.
abbrev pub stamp_at : (ℤ → Option Tm) → ℤ → GLog → List ℕ
stamp_at localtime now g = take log_time_size (refresh_time localtime now g).time

abbrev pub reserved : (ℤ → Option Tm) → Entry → ℤ → Shared → Shared
reserved localtime e now s = record s {
  log = take_room e.full (refresh_time localtime now s.log);
  lines = s.lines ++ (line_of e (stamp_at localtime now s.log) ∷ []);
}

module _ (localtime : ℤ → Option Tm) where
  -- One step of one thread. A message is an object of C, so its length and the prefix fit a size.
  pub data Move (s : Shared) : Place → Shared → Place → Type 0 where
    call_log :
        (level : ℕ) (msg : List ℕ) (now : ℤ)
        → log_fixed_size + length msg < 2 ^ 64
        → Move s outside s (at_lock (entry_of s.log.buf_size level msg) now)
    call_flush : Move s outside s flush_lock
    lock :
        {e : Entry} {now : ℤ}
        → s.log.lock ≡ false
        → Move s (at_lock e now) (set_lock true s) (at_test e now)
    room :
        {e : Entry} {now : ℤ}
        → e.full ≤ sub64 e.cap s.log.buf_index
        → Move s (at_test e now) s (at_reserve e now)
    no_room :
        {e : Entry} {now : ℤ}
        → sub64 e.cap s.log.buf_index < e.full
        → Move s (at_test e now) s (at_wait e now)
    spin : {e : Entry} {now : ℤ} → s.log.inflight ≢ 0 → Move s (at_wait e now) s (at_wait e now)
    quiet : {e : Entry} {now : ℤ} → s.log.inflight ≡ 0 → Move s (at_wait e now) s (at_output e now)
    output : {e : Entry} {now : ℤ} → Move s (at_output e now) (flushed s) (at_reserve e now)
    reserve :
        {e : Entry} {now : ℤ}
        → Move s
            (at_reserve e now)
            (reserved localtime e now s)
            (at_count e s.log.buf_index (stamp_at localtime now s.log))
    count :
        {e : Entry} {i : ℕ} {st : List ℕ}
        → Move s (at_count e i st) (set_inflight (add32 s.log.inflight 1) s) (at_unlock e i st)
    unlock :
        {e : Entry} {i : ℕ} {st : List ℕ}
        → Move s (at_unlock e i st) (set_lock false s) (at_prefix e i st)
    prefix :
        {e : Entry} {i : ℕ} {st : List ℕ}
        → Move s
            (at_prefix e i st)
            (set_bytes (log_write_prefix s.log.bytes i e.level st) s)
            (at_msg e i st)
    message :
        {e : Entry} {i : ℕ} {st : List ℕ}
        → Move s (at_msg e i st) (set_bytes (write_msg e i s.log.bytes) s) (at_newline e i st)
    newline :
        {e : Entry} {i : ℕ} {st : List ℕ}
        → Move s
            (at_newline e i st)
            (set_bytes (write_newline e i s.log.bytes) s)
            (at_release e i st)
    release :
        {e : Entry} {i : ℕ} {st : List ℕ}
        → Move s (at_release e i st) (set_inflight (sub32 s.log.inflight 1) s) at_each
    each : s.log.flush_each ≡ true → Move s at_each s flush_lock
    not_each : s.log.flush_each ≡ false → Move s at_each s outside
    lock_flush : s.log.lock ≡ false → Move s flush_lock (set_lock true s) flush_wait
    spin_flush : s.log.inflight ≢ 0 → Move s flush_wait s flush_wait
    quiet_flush : s.log.inflight ≡ 0 → Move s flush_wait s flush_output
    output_flush : Move s flush_output (flushed s) flush_unlock
    unlock_flush : Move s flush_unlock (set_lock false s) outside

pub record World : Type 0 where
  pub shared : Shared
  pub place : ℕ → Place

abbrev pub put : (ℕ → Place) → ℕ → Place → (ℕ → Place)
put place i p j = if i == j then p else place j

module _ (localtime : ℤ → Option Tm) (n : ℕ) where
  pub data Step (w : World) : World → Type 0 where
    pick :
        (i : ℕ) {s : Shared} {p : Place}
        → i < n
        → Move localtime w.shared (w.place i) s p
        → Step w (record { shared = s; place = put w.place i p })

  -- `n` threads over the log that `nth_init_log` set up, its buffer size and `time` array being
  -- what C makes them.
  pub data Reachable : World → Type 0 where
    begin :
        (desc : Option NthLoggerDesc) (malloc : Option (ℕ × (ℕ → ℕ))) (g g' : GLog)
        → nth_init_log desc malloc g ≡ (result_ok, g')
        → g'.buf_size < 2 ^ 64
        → length g.time ≡ log_time_size
        → Reachable
            (record { shared = record { log = g'; sent = []; lines = [] }; place = λ _. outside })
    next : {v w : World} → Reachable v → Step v w → Reachable w
