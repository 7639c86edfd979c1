-- ===== src/Log/Live.antt =====
-- src/nth_log.c: the threads that log and flush never all wait for one another.
use narthex.Prelude.{
  ℕ, ◌^◌, ◌<◌, ◌≡◌, ◌≢◌, ◌⊎◌, inl, inr, refl, Bool-cases, true, false, Option, arith, ltb, ◌==◌,
}
use narthex.Prelude.Int.{ℤ}
use narthex.Prelude.Words.{sub64}
use narthex.Log.{Tm}
use narthex.Log.Threads.{
  Place, outside, at_lock, at_test, at_wait, at_output, at_reserve, at_count, at_unlock, at_prefix,
  at_msg, at_newline, at_release, at_each, flush_lock, flush_wait, flush_output, flush_unlock,
  Shared, Move, World, Reachable, lock, room, no_room, quiet, output, reserve, count, unlock,
  prefix, message, newline, release, each, not_each, lock_flush, quiet_flush, output_flush,
  unlock_flush,
}
use narthex.Log.Family.{total-pos}
use narthex.Log.Inv.{holds, counts, LockInv}
use narthex.Log.Safety.{Reachable-Inv}

-- What a call waits for.
abbrev Ready : Shared → Place → Type 0
Ready s outside = ⊥
Ready s (at_lock _ _) = s.log.lock ≡ false
Ready s (at_wait _ _) = s.log.inflight ≡ 0
Ready s flush_lock = s.log.lock ≡ false
Ready s flush_wait = s.log.inflight ≡ 0
Ready s _ = Unit

Ready-counts : (s : Shared) (p : Place) → 0 < counts p → Ready s p
Ready-counts s outside h = absurd (omega arith)
Ready-counts s p h = ground arith

Ready-holds : (s : Shared) (p : Place) → holds p ≡ true → Ready s p ⊎ (s.log.inflight ≢ 0)
Ready-holds s p h = elim (Bool-cases (s.log.inflight == 0)) [
  | inl z ↦ inl (ground (arith, z, Ready-zero s p h))
  | inr nz ↦ inr (λ e. ground (arith, nz, e))
]
  where
    Ready-zero : (s : Shared) (p : Place) → holds p ≡ true → s.log.inflight ≡ 0 → Ready s p
    Ready-zero s outside h z = absurd (ground (arith, h))
    Ready-zero s p h z = ground (arith, h, z)

Ready-free :
    (s : Shared) (p : Place) → holds p ≡ false → s.log.lock ≡ false → p ≢ outside → Ready s p
Ready-free s outside h l ne = absurd (ne refl)
Ready-free s p h l ne = ground (arith, h, l)

module _ (localtime : ℤ → Option Tm) where
  -- A step that is not a round of a wait.
  abbrev pub Advance : Shared → Place → Type 0
  Advance s p = (s' : Shared) × (p' : Place) × Move localtime s p s' p' × (p ≢ p')

  Ready-Advance : (s : Shared) (p : Place) → Ready s p → Advance s p
  Ready-Advance s outside h = absurd h
  Ready-Advance s (at_lock e now) h = (_, _, lock h, λ q. cc)
  Ready-Advance s (at_test e now) h = elim (Bool-cases (ltb (sub64 e.cap s.log.buf_index) e.full)) [
    | inl short ↦ (_, _, no_room (ground (arith, short)), λ q. cc)
    | inr enough ↦ (_, _, room (ground (arith, enough)), λ q. cc)
  ]
  Ready-Advance s (at_wait e now) h = (_, _, quiet h, λ q. cc)
  Ready-Advance s (at_output e now) h = (_, _, output, λ q. cc)
  Ready-Advance s (at_reserve e now) h = (_, _, reserve, λ q. cc)
  Ready-Advance s (at_count e i st) h = (_, _, count, λ q. cc)
  Ready-Advance s (at_unlock e i st) h = (_, _, unlock, λ q. cc)
  Ready-Advance s (at_prefix e i st) h = (_, _, prefix, λ q. cc)
  Ready-Advance s (at_msg e i st) h = (_, _, message, λ q. cc)
  Ready-Advance s (at_newline e i st) h = (_, _, newline, λ q. cc)
  Ready-Advance s (at_release e i st) h = (_, _, release, λ q. cc)
  Ready-Advance s at_each h = elim (Bool-cases s.log.flush_each) [
    | inl on ↦ (_, _, each on, λ q. cc)
    | inr off ↦ (_, _, not_each off, λ q. cc)
  ]
  Ready-Advance s flush_lock h = (_, _, lock_flush h, λ q. cc)
  Ready-Advance s flush_wait h = (_, _, quiet_flush h, λ q. cc)
  Ready-Advance s flush_output h = (_, _, output_flush, λ q. cc)
  Ready-Advance s flush_unlock h = (_, _, unlock_flush, λ q. cc)

  -- A thread inside a call is one of the first `n`.
  inside-lt :
      {n : ℕ} {s : Shared} {place : ℕ → Place}
      → LockInv n s place
      → (i : ℕ) → place i ≢ outside
      → i < n
  inside-lt {n} lk i ne = elim (Bool-cases (ltb i n)) [
    | inl below ↦ ground (arith, below)
    | inr above ↦ absurd (ne (lk.beyond i (ground (arith, above))))
  ]

  holds-inside : (p : Place) → holds p ≡ true → p ≢ outside
  holds-inside p h e = ground (arith, h, e)

  some_Ready :
      {n : ℕ} {s : Shared} {place : ℕ → Place}
      → LockInv n s place
      → (i : ℕ) → place i ≢ outside
      → (j : ℕ) × (j < n) × Ready s (place j)
  some_Ready {n} {s} {place} lk i ne = elim (Bool-cases s.log.lock) [
    | inl taken ↦
        let (h, is) = lk.held taken in
        elim (Ready-holds s (place h) is) [
          | inl ready ↦ (h, inside-lt lk h (holds-inside (place h) is), ready)
          | inr busy ↦
              let (j, lt, pos) = total-pos counts n place (ground (arith, busy, lk.counted)) in
              (j, lt, Ready-counts s (place j) pos)
        ]
    | inr free ↦
        (i, inside-lt lk i ne, Ready-free s (place i) (ground (arith, free, lk.locked i)) free ne)
  ]

  -- With fewer than 2 ^ 32 threads, in every reachable state where some thread is inside a call,
  -- some thread has a step that takes it on; neither the lock nor the wait for those in flight can
  -- stop all of them.
  pub Reachable-Advance :
      (n : ℕ)
      → n < 2 ^ 32
      → (w : World) → Reachable localtime n w
      → (i : ℕ) → w.place i ≢ outside
      → (j : ℕ) × (j < n) × Advance w.shared (w.place j)
  Reachable-Advance n few w r i ne =
      let (t, lk, inv) = Reachable-Inv localtime n few r in
      let (j, lt, ready) = some_Ready lk i ne in (j, lt, Ready-Advance w.shared (w.place j) ready)
