-- ===== src/Log/Calls.antt =====
-- src/nth_log.c: the calls of a thread that no other disturbs, as functions. `none` is a call that
-- waits for ever, on a lock that is taken or on writers in flight. The second result is what goes
-- to `log_raw_write`.
use narthex.Prelude.{
  ℕ, ◌-◌, true, false, List, [], ◌++◌, length, take, Option, none, some, ltb, leb, ◌==◌,
  if◌then◌else◌,
}
use narthex.Prelude.Int.{ℤ}
use narthex.Prelude.Words.{add32, sub32, sub64}
use narthex.Log.{
  GLog, Tm, Entry, entry_of, refresh_time, take_room, flush_buffer, log_write_prefix, write_msg,
  write_newline, log_time_size, log_format_max,
}

infixl 5 ◌>>=◌
abbrev pub ◌>>=◌ {ℓ κ} : {A : Type ℓ} {B : Type κ} → Option A → (A → Option B) → Option B
none >>= f = none
some a >>= f = f a

unfoldable pub log_flush_locked : GLog → Option (GLog × List ℕ)
log_flush_locked g = if g.inflight == 0 then some (flush_buffer g) else none

unfoldable pub nth_flush : GLog → Option (GLog × List ℕ)
unfolding log_flush_locked
nth_flush g = if g.lock then none else do
  (g', out) ← log_flush_locked (record g { lock = true })
  some (record g' { lock = false }, out)

module _ (localtime : ℤ → Option Tm) where
  -- From the test for room to the release of the lock.
  unfoldable pub append_line : Entry → ℤ → GLog → GLog
  append_line e now g =
      let i = g.buf_index in
      let stamp = take log_time_size (refresh_time localtime now g).time in
      let taken = take_room e.full (refresh_time localtime now g) in
      let counted = record taken { inflight = add32 taken.inflight 1; lock = false } in
      let bytes =
        write_newline e i (write_msg e i (log_write_prefix counted.bytes i e.level stamp)) in
      record counted { bytes = bytes; inflight = sub32 counted.inflight 1 }

  -- What follows the test for room. The log comes with what was handed on so far.
  unfoldable pub finish_append : Entry → ℤ → GLog × List ℕ → Option (GLog × List ℕ)
  finish_append e now (g, out) = do
    let g2 = append_line e now g
    (g3, out2) ← if g2.flush_each then nth_flush g2 else some (g2, [])
    some (g3, out ++ out2)

  unfoldable pub log_append : ℕ → List ℕ → ℤ → GLog → Option (GLog × List ℕ)
  log_append level msg now g =
      let e = entry_of g.buf_size level msg in
      let locked = record g { lock = true } in
      if g.lock
      then none
      else (if ltb (sub64 e.cap g.buf_index) e.full
          then log_flush_locked locked
          else some (locked, []))
        >>= finish_append e now

  -- `msg` is the string up to its NUL, `strlen` its length.
  unfoldable pub nth_log : ℕ → List ℕ → ℤ → GLog → Option (GLog × List ℕ)
  nth_log level msg = log_append level msg

  unfoldable pub nth_logn : ℕ → List ℕ → ℤ → GLog → Option (GLog × List ℕ)
  nth_logn level msg = log_append level msg

  -- `formatted` is what `vsnprintf` makes of its arguments, `none` where it returns a negative
  -- number; `tmp` holds as much of it as fits with a NUL.
  unfoldable pub nth_logf : ℕ → Option (List ℕ) → ℤ → GLog → Option (GLog × List ℕ)
  nth_logf level none now g = some (g, [])
  nth_logf level (some formatted) now g =
      let tmp = take (log_format_max - 1) formatted in
      let len =
        if leb log_format_max (length formatted) then log_format_max - 1 else length formatted in
      log_append level (take len tmp) now g

unfoldable pub nth_term_log : GLog → Option (GLog × List ℕ)
unfolding log_flush_locked
nth_term_log g = if g.lock then none else do
  (g', out) ← log_flush_locked (record g { lock = true })
  some (record g' { lock = false; buf = none; buf_size = 0 }, out)
