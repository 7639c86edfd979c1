-- ===== src/Log/Ends.antt =====
-- src/nth_log.c: a flush, and the end of the log, when no call is under way.
use narthex.Prelude.{
  ℕ, ◌^◌, ◌<◌, ◌≡◌, refl, sym, ap, ◌∙◌, Bool-cases, inl, inr, true, false, List, ◌++◌, Option, none,
  some, arith, ◌==◌,
}
use narthex.Prelude.Int.{ℤ}
use narthex.Log.{GLog, Tm, flush_buffer, load}
use narthex.Log.Threads.{World, Reachable}
use narthex.Log.Inv.{concat}
use narthex.Log.Text.{concat-append}
use narthex.Log.Calls.{log_flush_locked, nth_flush, nth_term_log}
use narthex.Log.Alone.{flush_result, nth_flush-quiet}
use narthex.Log.Safety.{Reachable-lines}

zero_of : (k : ℕ) → (k == 0) ≡ true → k ≡ 0
zero_of k h = ground (arith, h)

flush_buffer_empty : (g : GLog) → (flush_buffer g).0.buf_index ≡ 0
unfolding flush_buffer
flush_buffer_empty g = ground arith

flush_buffer_sent : (g : GLog) → (flush_buffer g).1 ≡ load g.bytes 0 g.buf_index
unfolding flush_buffer load
flush_buffer_sent g = elim (Bool-cases (g.buf_index == 0)) [
  | inl empty ↦ rw empty (sym (ap (load g.bytes 0) (zero_of g.buf_index empty)))
  | inr filled ↦ rw filled
]

nth_term_log-quiet :
    (g : GLog)
    → g.lock ≡ false
    → g.inflight ≡ 0
    → nth_term_log g
      ≡ some (
        record (flush_buffer (record g { lock = true })).0 {
          lock = false;
          buf = none;
          buf_size = 0;
        },
        (flush_buffer (record g { lock = true })).1,
      )
unfolding nth_term_log log_flush_locked
nth_term_log-quiet g l z = ground (arith, l, z)

module _ (localtime : ℤ → Option Tm) (n : ℕ) (few : n < 2 ^ 32) (w : World)
    (r : Reachable localtime n w) (l : w.shared.log.lock ≡ false)
    (z : w.shared.log.inflight ≡ 0) where
  all_sent :
      w.shared.sent ++ load w.shared.log.bytes 0 w.shared.log.buf_index ≡ concat w.shared.lines
  all_sent =
      let (done, pending, all, sent, index, there) = Reachable-lines localtime n few w r in
      rw (sent, there l z, all) (sym (concat-append done pending))

  -- With fewer than 2 ^ 32 threads, in a reachable state where the lock is free and nobody is in
  -- flight, nth_flush returns, all lines that got room have then been handed to log_raw_write, in
  -- their order, and the buffer is empty.
  pub nth_flush-All :
      (g : GLog) × (out : List ℕ) × (nth_flush w.shared.log ≡ some (g, out))
      × (w.shared.sent ++ out ≡ concat w.shared.lines)
      × (g.buf_index ≡ 0)
      × (g.lock ≡ false)
  nth_flush-All =
      let locked : GLog = record w.shared.log { lock = true } in
      (
        (flush_result w.shared.log).0,
        (flush_result w.shared.log).1,
        nth_flush-quiet w.shared.log l z,
        ap (◌++◌ w.shared.sent) (flush_buffer_sent locked) ∙ all_sent,
        flush_buffer_empty locked,
        refl,
      )

  -- With fewer than 2 ^ 32 threads, in a reachable state where the lock is free and nobody is in
  -- flight, nth_term_log returns, all lines that got room have then been handed to log_raw_write,
  -- in their order, and the log has no buffer.
  pub nth_term_log-All :
      (g : GLog) × (out : List ℕ) × (nth_term_log w.shared.log ≡ some (g, out))
      × (w.shared.sent ++ out ≡ concat w.shared.lines)
      × (g.buf ≡ none)
      × (g.buf_size ≡ 0)
  nth_term_log-All =
      let locked : GLog = record w.shared.log { lock = true } in
      (
        record (flush_buffer locked).0 { lock = false; buf = none; buf_size = 0 },
        (flush_buffer locked).1,
        nth_term_log-quiet w.shared.log l z,
        ap (◌++◌ w.shared.sent) (flush_buffer_sent locked) ∙ all_sent,
        refl,
        refl,
      )
