-- ===== src/Log/Safety.antt =====
-- src/nth_log.c: what holds in every state that threads reach by logging and flushing.
use narthex.Prelude.{
  ℕ, ◌^◌, ◌≤◌, ◌<◌, ◌≡◌, ◌≢◌, ◌⊎◌, inl, refl, sym, ap, ◌∙◌, true, false, List, [], ◌++◌, length,
  Option, arith,
}
use narthex.Prelude.Int.{ℤ}
use narthex.Result.{result_ok}
use narthex.Log.{GLog, Tm, load, NthLoggerDesc, nth_init_log, log_fixed_size, log_time_size}
use narthex.Log.Threads.{
  Place, outside, at_output, flush_output, World, pick, Reachable, begin, next,
}
use narthex.Log.Family.{total-outside}
use narthex.Log.Inv.{holds, counts, low, high, concat, Knows, LockInv, TextInv}
use narthex.Log.Lock.{none_counts}
use narthex.Log.Text.{load_text, high-le, high-idle}
use narthex.Log.Steps.{Move-Inv}

-- What `nth_init_log` sets up when it succeeds.
pub nth_init_log-ok :
    (desc : Option NthLoggerDesc) (malloc : Option (ℕ × (ℕ → ℕ))) (g g' : GLog)
    → nth_init_log desc malloc g ≡ (result_ok, g')
    → (log_fixed_size < g'.buf_size)
      × (g'.buf_index ≡ 0)
      × (g'.time ≡ g.time)
      × (g'.inflight ≡ 0)
      × (g'.lock ≡ false)
unfolding nth_init_log
nth_init_log-ok desc malloc g g' h = ground (arith, h)

begin-LockInv :
    (n : ℕ) (g : GLog)
    → n < 2 ^ 32
    → g.inflight ≡ 0
    → g.lock ≡ false
    → LockInv n (record { log = g; sent = []; lines = [] }) (λ _. outside)
begin-LockInv n g few z l = record {
  few = few;
  beyond = λ i h. refl;
  locked = λ i h. absurd (ground (arith, h));
  held = λ h. absurd (ground (arith, h));
  single = λ i j h k. absurd (ground (arith, h));
  counted = z ∙ sym (total-outside counts refl n);
}

begin-TextInv :
    (g : GLog)
    → log_fixed_size < g.buf_size
    → g.buf_size < 2 ^ 64
    → g.buf_index ≡ 0
    → length g.time ≡ log_time_size
    → TextInv [] (record { log = g; sent = []; lines = [] }) (λ _. outside)
begin-TextInv g a b z t = record {
  size = (a, b);
  index = z;
  fits = omega arith;
  stamped = t;
  history = record { done = []; pending = []; all = refl; done_sent = refl; pending_text = refl };
  knows = λ i. tt;
  apart = λ i j ne. inl (omega arith);
  written = λ j k. absurd (omega arith);
}

-- Between the wait for those in flight and the end of the output.
abbrev pub Outputs : Place → Type 0
Outputs (at_output _ _) = Unit
Outputs flush_output = Unit
Outputs _ = ⊥

Outputs-holds : (p : Place) → Outputs p → holds p ≡ true
Outputs-holds (at_output e now) o = refl
Outputs-holds flush_output o = refl
Outputs-holds p o = absurd o

Outputs-inflight : (g : GLog) (t : List ℕ) (p : Place) → Outputs p → Knows g t p → g.inflight ≡ 0
Outputs-inflight g t (at_output e now) o kn = kn.1
Outputs-inflight g t flush_output o kn = kn
Outputs-inflight g t p o kn = absurd o

module _ (localtime : ℤ → Option Tm) (n : ℕ) (few : n < 2 ^ 32) where
  pub Reachable-Inv :
      {w : World}
      → Reachable localtime n w
      → (t : List ℕ) × LockInv n w.shared w.place × TextInv t w.shared w.place
  Reachable-Inv (begin desc malloc g g' ok size time) =
      let (a, b, c, d, e) = nth_init_log-ok desc malloc g g' ok in
      ([], begin-LockInv n g' few d e, begin-TextInv g' a size b (ap length c ∙ time))
  Reachable-Inv (next r (pick i lt mv)) =
      let (t, lk, inv) = Reachable-Inv r in Move-Inv localtime lk inv i lt mv

  -- With fewer than 2 ^ 32 threads, in every reachable state the lines that got room fall, in that
  -- order, into those that were handed to log_raw_write, whole and one behind the other, and those
  -- that have the room of the buffer. When the lock is free and nobody is in flight, the buffer
  -- holds the latter.
  pub Reachable-lines :
      (w : World)
      → Reachable localtime n w
      → (done : List (List ℕ)) × (pending : List (List ℕ)) × (w.shared.lines ≡ done ++ pending)
        × (w.shared.sent ≡ concat done)
        × (w.shared.log.buf_index ≡ length (concat pending))
        × (w.shared.log.lock ≡ false
            → w.shared.log.inflight ≡ 0
            → load w.shared.log.bytes 0 w.shared.log.buf_index ≡ concat pending)
  Reachable-lines w r =
      let (t, lk, inv) = Reachable-Inv r in
      (
        inv.history.done,
        inv.history.pending,
        inv.history.all,
        inv.history.done_sent,
        inv.index ∙ ap length inv.history.pending_text,
        λ free z.
            ap (load w.shared.log.bytes 0) inv.index
            ∙ load_text inv (λ a.
              high-idle (w.place a) (ground (arith, free, lk.locked a)) (none_counts lk z a))
            ∙ inv.history.pending_text,
      )

  -- With fewer than 2 ^ 32 threads, in every reachable state the bytes of the lines that two
  -- threads write do not overlap, and lie within the part of the buffer that is taken, which lies
  -- within the buffer.
  pub Reachable-Apart :
      (w : World)
      → Reachable localtime n w
      → (i j : ℕ) → i ≢ j
      → ((high (w.place i) ≤ low (w.place j)) ⊎ (high (w.place j) ≤ low (w.place i)))
        × (high (w.place i) ≤ w.shared.log.buf_index)
        × (w.shared.log.buf_index ≤ w.shared.log.buf_size)
  Reachable-Apart w r i j ne =
      let (t, lk, inv) = Reachable-Inv r in
      (
        inv.apart i j ne,
        omega (arith, inv.index, high-le w.shared.log t (w.place i) (inv.knows i)),
        inv.fits,
      )

  -- With fewer than 2 ^ 32 threads, while a thread hands the buffer to log_raw_write, no other has
  -- the lock or writes in the buffer.
  pub Reachable-Quiet :
      (w : World)
      → Reachable localtime n w
      → (i j : ℕ) → Outputs (w.place i)
      → i ≢ j
      → (holds (w.place j) ≡ false) × (high (w.place j) ≡ 0)
  Reachable-Quiet w r i j o ne =
      let (t, lk, inv) = Reachable-Inv r in
      let off : holds (w.place j) ≡ false =
        ground (arith, lk.single i j, Outputs-holds (w.place i) o) in
      (
        off,
        high-idle (w.place j) off
            (none_counts lk (Outputs-inflight w.shared.log t (w.place i) o (inv.knows i)) j),
      )
