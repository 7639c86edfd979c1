-- ===== src/Log/Lock.antt =====
-- Every step keeps one holder of the lock, and `inflight` the number of the writers.
use narthex.Prelude.{ℕ, ◌+◌, ◌≤◌, ◌<◌, ◌≡◌, refl, inl, inr, Bool-cases, true, Option, arith, ltb}
use narthex.Prelude.Int.{ℤ}
use narthex.Log.{Tm, flush_buffer}
use narthex.Log.Threads.{
  Place, outside, Shared, Move, put, call_flush, lock, unlock, lock_flush, unlock_flush,
}
use narthex.Log.Family.{total, total-put, total-le, le-total}
use narthex.Log.Inv.{holds, counts, LockInv}

counts-le : (p : Place) → counts p ≤ 1
counts-le p = ground arith

-- With nothing in flight nobody writes.
pub none_counts :
    {n : ℕ} {s : Shared} {place : ℕ → Place} (lk : LockInv n s place)
    → s.log.inflight ≡ 0
    → (a : ℕ) → counts (place a) ≡ 0
none_counts {n} {place} lk z a = elim (Bool-cases (ltb a n)) [
  | inl below ↦ ground (arith, lk.counted, le-total counts n place a (ground arith))
  | inr above ↦ ground (arith, lk.beyond a (ground arith))
]

module _ (localtime : ℤ → Option Tm) {n : ℕ} {s : Shared} {place : ℕ → Place}
    (inv : LockInv n s place) (i : ℕ) (lt : i < n) where
  open inv use {few, beyond, locked, held, single, counted}

  record Mover (p p' : Place) : Type 0 where
    here : place i ≡ p
    sum : total counts n (put place i p') + counts p ≡ total counts n place + counts p'
    most : total counts n (put place i p') ≤ n
    least : counts p ≤ total counts n place

  mover : (p' : Place) → Mover (place i) p'
  mover p' = record {
    here = refl;
    sum = total-put counts n place i p' lt;
    most = total-le counts counts-le n (put place i p');
    least = le-total counts n place i lt;
  }

  Move-counted :
      {p p' : Place} {s' : Shared}
      → Move localtime s p s' p'
      → Mover p p'
      → s'.log.inflight ≡ total counts n (put place i p')
  unfolding flush_buffer
  Move-counted call_flush m = ground arith
  Move-counted mv m = ground arith

  Move-locked :
      {p p' : Place} {s' : Shared}
      → Move localtime s p s' p'
      → Mover p p'
      → (j : ℕ) → holds (put place i p' j) ≡ true
      → s'.log.lock ≡ true
  unfolding flush_buffer
  Move-locked call_flush m j h = ground (arith, locked j)
  Move-locked mv m j h = ground (arith, locked j, locked i, single i j)

  -- The mover holds the lock afterwards, or somebody did before and still does.
  Move-held :
      {p p' : Place} {s' : Shared}
      → Move localtime s p s' p'
      → Mover p p'
      → s'.log.lock ≡ true
      → (j : ℕ) × (holds (put place i p' j) ≡ true)
  unfolding flush_buffer
  Move-held unlock m h = absurd (ground (arith, h))
  Move-held unlock_flush m h = absurd (ground (arith, h))
  Move-held {p} {p'} mv m h = elim (Bool-cases (holds p')) [
    | inl now ↦ (i, ground (arith, now))
    | inr off ↦
        let (j, was) = held (ground (arith, h, off)) in (j, ground (arith, was, off, m.here))
  ]

  Move-single :
      {p p' : Place} {s' : Shared}
      → Move localtime s p s' p'
      → Mover p p'
      → (j k : ℕ) → holds (put place i p' j) ≡ true
      → holds (put place i p' k) ≡ true
      → j ≡ k
  Move-single call_flush m j k hj hk = ground (arith, single j k)
  Move-single (lock g) m j k hj hk = ground (arith, g, locked j, locked k)
  Move-single (lock_flush g) m j k hj hk = ground (arith, g, locked j, locked k)
  Move-single mv m j k hj hk =
      ground (arith, locked j, locked k, single i j, single i k, single j k)

  Move-beyond : (p' : Place) (j : ℕ) → n ≤ j → put place i p' j ≡ outside
  Move-beyond p' j h = ground (arith, beyond j)

  pub Move-LockInv :
      {p' : Place} {s' : Shared} → Move localtime s (place i) s' p' → LockInv n s' (put place i p')
  Move-LockInv {p'} mv = record {
    few = few;
    beyond = Move-beyond p';
    locked = Move-locked mv (mover p');
    held = Move-held mv (mover p');
    single = Move-single mv (mover p');
    counted = Move-counted mv (mover p');
  }
