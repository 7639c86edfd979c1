-- ===== src/Log/Tests.antt =====
-- src/nth_log.c: the log at concrete calls, and its theorems there.
use narthex.Prelude.{
  ℕ, ◌≤◌, ◌<◌, ◌≡◌, ◌⊎◌, refl, false, Option, none, some, List, [], ◌∷◌, ◌++◌, length, replicate,
  arith,
}
use narthex.Prelude.Int.{ℤ, pos, negsuc, ◌+ℤ◌}
use narthex.Result.{result_ok}
use narthex.Prelude.Words.{sub64}
use narthex.Log.{
  GLog, Tm, stamp_of, store, load, log_write_prefix, log_raw_write, wrote, interrupted, finished,
  entry_of, log_update_time, write_msg, write_newline, NthLoggerDesc, nth_init_log, log_time_size,
}
use narthex.Log.Threads.{
  outside, World, Reachable, begin, next, pick, call_log, call_flush, lock, lock_flush, quiet_flush,
  room, reserve, count, unlock, prefix, message, newline, release, not_each, line_of, stamp_at,
}
use narthex.Log.Inv.{holds, high, low, concat}
use narthex.Log.Calls.{
  log_flush_locked, append_line, finish_append, log_append, nth_logn, nth_term_log,
}
use narthex.Log.Output.{log_raw_write-finished}
use narthex.Log.Stamp.{number_at, stamp_of_fields}
use narthex.Log.Safety.{Reachable-lines, Reachable-Apart, Reachable-Quiet}
use narthex.Log.Live.{Advance, Reachable-Advance}
use narthex.Log.Ends.{nth_term_log-All}
use narthex.Log.Alone.{After, nth_logn-Alone}

-- 2024, day 60, 13:05:09
abbrev noon : Tm
noon = record { tm_year = pos 124; tm_yday = 59; tm_hour = 13; tm_min = 5; tm_sec = 9 }

abbrev clock : ℤ → Option Tm
clock t = some noon

abbrev zeroed : GLog
zeroed = record {
  inflight = 0;
  buf = none;
  bytes = λ _. 0;
  buf_size = 0;
  buf_index = 0;
  last_time = pos 0;
  lock = false;
  time = replicate 19 0;
  flush_each = false;
}

abbrev desc : Option NthLoggerDesc
desc = some (record { buffer_size = 64; flush_each = false })

abbrev opened : GLog
opened = record zeroed { buf = some 4096; buf_size = 64; last_time = negsuc 0 }

opened_lem : nth_init_log desc (some (4096, λ _. 0)) zeroed ≡ (result_ok, opened)
unfolding nth_init_log
opened_lem = refl

abbrev hello : List ℕ
hello = b'h' ∷ b'i' ∷ []

-- "[2024-060 13:05:09] [ERR] - hi\n"
abbrev hello_line : List ℕ
hello_line =
    b'[' ∷ b'2' ∷ b'0' ∷ b'2' ∷ b'4' ∷ b'-' ∷ b'0' ∷ b'6' ∷ b'0' ∷ b' ' ∷ b'1' ∷ b'3' ∷ b':' ∷ b'0'
    ∷ b'5' ∷ b':' ∷ b'0' ∷ b'9' ∷ b']' ∷ b' ' ∷ b'[' ∷ b'E' ∷ b'R' ∷ b'R' ∷ b']' ∷ b' ' ∷ b'-'
    ∷ b' ' ∷ b'h' ∷ b'i' ∷ b'\n' ∷ []

abbrev text_of : Option (GLog × List ℕ) → Option (List ℕ × List ℕ)
text_of none = none
text_of (some (g, out)) = some (load g.bytes 0 g.buf_index, out)

one_line : text_of (nth_logn clock 1 hello (pos 7) opened) ≡ some (hello_line, [])
unfolding nth_logn log_append finish_append append_line log_flush_locked entry_of log_update_time
    stamp_of log_write_prefix write_msg write_newline store load ◌+ℤ◌
one_line = refl

hello_fits : (entry_of 64 1 hello).full ≤ sub64 (entry_of 64 1 hello).cap 0
unfolding entry_of
hello_fits = omega arith

-- Two threads: thread 0 has taken room and writes, thread 1 waits for the lock.
abbrev at_start : (w : World) × Reachable clock 2 w
at_start = (_, begin desc (some (4096, λ _. 0)) zeroed opened opened_lem (omega arith) refl)

abbrev writing : (w : World) × Reachable clock 2 w
writing = (
  _,
  next
      (next
        (next
          (next
            (next
              (next
                (next at_start.1 (pick 0 (omega arith) (call_log 1 hello (pos 7) (omega arith))))
                (pick 1 (omega arith) (call_log 2 hello (pos 7) (omega arith))))
              (pick 0 (omega arith) (lock refl)))
            (pick 0 (omega arith) (room hello_fits)))
          (pick 0 (omega arith) reserve))
        (pick 0 (omega arith) count))
      (pick 0 (omega arith) unlock),
)

-- Thread 0 has written its line and is outside again.
abbrev logged : (w : World) × Reachable clock 2 w
logged = (
  _,
  next
      (next
        (next (next (next writing.1 (pick 0 (omega arith) prefix)) (pick 0 (omega arith) message))
          (pick 0 (omega arith) newline))
        (pick 0 (omega arith) release))
      (pick 0 (omega arith) (not_each refl)),
)

-- Thread 0 hands the buffer on.
abbrev flushing : (w : World) × Reachable clock 2 w
flushing = (
  _,
  next
      (next (next at_start.1 (pick 0 (omega arith) call_flush))
        (pick 0 (omega arith) (lock_flush refl)))
      (pick 0 (omega arith) (quiet_flush refl)),
)

Reachable-lines_example :
    (done : List (List ℕ)) × (pending : List (List ℕ)) × (writing.0.shared.lines ≡ done ++ pending)
    × (writing.0.shared.sent ≡ concat done)
    × (writing.0.shared.log.buf_index ≡ length (concat pending))
    × (writing.0.shared.log.lock ≡ false
        → writing.0.shared.log.inflight ≡ 0
        → load writing.0.shared.log.bytes 0 writing.0.shared.log.buf_index ≡ concat pending)
Reachable-lines_example = Reachable-lines clock 2 (omega arith) writing.0 writing.1

Reachable-Apart_example :
    ((high (writing.0.place 0) ≤ low (writing.0.place 1))
      ⊎ (high (writing.0.place 1) ≤ low (writing.0.place 0)))
    × (high (writing.0.place 0) ≤ writing.0.shared.log.buf_index)
    × (writing.0.shared.log.buf_index ≤ writing.0.shared.log.buf_size)
Reachable-Apart_example =
    Reachable-Apart clock 2 (omega arith) writing.0 writing.1 0 1 (omega arith)

Reachable-Quiet_example : (holds (flushing.0.place 1) ≡ false) × (high (flushing.0.place 1) ≡ 0)
Reachable-Quiet_example =
    Reachable-Quiet clock 2 (omega arith) flushing.0 flushing.1 0 1 tt (omega arith)

Reachable-Advance_example : (j : ℕ) × (j < 2) × Advance clock writing.0.shared (writing.0.place j)
Reachable-Advance_example = Reachable-Advance clock 2 (omega arith) writing.0 writing.1 1 (λ e. cc)

nth_logn-Alone_example :
    (g : GLog) × (out : List ℕ) × (nth_logn clock 1 hello (pos 7) opened ≡ some (g, out))
    × After clock 2 0 at_start.0
        (record {
          log = g;
          sent = [] ++ out;
          lines = [] ++ (line_of (entry_of 64 1 hello) (stamp_at clock (pos 7) opened) ∷ []);
        })
        outside
nth_logn-Alone_example =
    nth_logn-Alone clock 2 0 (omega arith) at_start.0 1 hello (pos 7) at_start.1 refl refl refl
      (omega arith)

log_raw_write-finished_example :
    log_raw_write (interrupted ∷ wrote 1 ∷ wrote 1 ∷ []) hello [] ≡ ([] ++ hello, finished)
log_raw_write-finished_example =
    log_raw_write-finished (interrupted ∷ wrote 1 ∷ wrote 1 ∷ []) hello [] tt (omega arith)

stamp_of_fields_example :
    (length (stamp_of noon) ≡ log_time_size)
    × (number_at (stamp_of noon) 1 4 ≡ 2024)
    × (number_at (stamp_of noon) 6 3 ≡ 60)
    × (number_at (stamp_of noon) 10 2 ≡ 13)
    × (number_at (stamp_of noon) 13 2 ≡ 5)
    × (number_at (stamp_of noon) 16 2 ≡ 9)
unfolding ◌+ℤ◌
stamp_of_fields_example =
    stamp_of_fields noon 2024 refl (omega arith) (omega arith) (omega arith) (omega arith)
      (omega arith)

nth_term_log-All_example :
    (g : GLog) × (out : List ℕ) × (nth_term_log logged.0.shared.log ≡ some (g, out))
    × (logged.0.shared.sent ++ out ≡ concat logged.0.shared.lines)
    × (g.buf ≡ none)
    × (g.buf_size ≡ 0)
nth_term_log-All_example = nth_term_log-All clock 2 (omega arith) logged.0 logged.1 refl refl
