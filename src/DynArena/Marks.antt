-- ===== src/DynArena/Marks.antt =====
-- Blocks never overlap, and a mark brings back the state it was taken in.
use mathlib.Core.Path.{ap₂}
use narthex.Prelude.{
  ℕ, ◌+◌, ◌*◌, ◌^◌, ◌≤◌, ◌<◌, ◌≡◌, ◌⊎◌, inl, inr, refl, sym, ap, ◌∙◌, true, Option, none, some,
  List, [], ◌∷◌, bit_and, bit_or, arith, ◌==◌, Bool-cases,
}
use narthex.Prelude.Words.{u64_mod, ◌<<<◌, ◌>>>◌}
use narthex.Prelude.Bits.{bit_or_fields, bit_and_mask, bit_or-zero, zero-bit_or}
use narthex.Allocator.{NthSpan}
use narthex.Arena.Bounds.{IsAlignment}
use narthex.Arena.Blocks.{Request, AreRequests}
use narthex.DynArena.{
  NthDynArena, span_at, nth_dyn_arena_alloc, nth_dyn_arena_mark, nth_dyn_arena_restore, off_bits,
  off_mask,
}
use narthex.DynArena.Inv.{IsValid}
use narthex.DynArena.Placed.{Placed}
use narthex.DynArena.Place.{Outcome, nth_dyn_arena_alloc-Outcome}

abbrev pub InSpan : NthSpan → ℕ → Type 0
InSpan s x = (s.base ≤ x) × (x < s.base + s.size)

-- The byte at `x` may belong to a block: it lies in a span before the current one, or below the
-- offset of the current one.
abbrev pub Used : NthDynArena → ℕ → Type 0
Used a x =
    ((j : ℕ) × (j < a.span_idx) × InSpan (span_at a.spans j) x)
    ⊎ (((span_at a.spans a.span_idx).base ≤ x) × (x < (span_at a.spans a.span_idx).base + a.offset))

-- The spans in use do not overlap.
abbrev pub Apart : NthDynArena → Type 0
Apart a =
    (i j x : ℕ)
    → i < a.span_count
    → j < a.span_count
    → InSpan (span_at a.spans i) x
    → InSpan (span_at a.spans j) x
    → i ≡ j

module _ (a b : NthDynArena) (size align addr : ℕ) (v : IsValid a)
    (p : Placed a size align addr b) where
  Placed-IsValid : IsValid b
  Placed-IsValid = record {
    cells = p.array ∙ (v.cells ∙ sym p.counts.1);
    room = omega (arith, v.room, p.counts);
    small = omega (arith, v.small, p.counts);
    current = inl p.in_use;
    within = omega (arith, p.inside, p.end);
    no_wrap =
        λ i lt. rw (p.moved i) (v.no_wrap (p.from i) (p.from_below i (omega (arith, p.counts))));
  }

  Placed-Apart : Apart a → Apart b
  Placed-Apart apart i j x hi hj in_i in_j =
      sym (p.from_from i)
      ∙ (ap p.from (
            apart (p.from i) (p.from j) x (p.from_below i (omega (arith, p.counts)))
              (p.from_below j (omega (arith, p.counts))) (rw (p.moved i) at in_i)
              (rw (p.moved j) at in_j))
          ∙ p.from_from j)

  Placed-kept : (j : ℕ) → j ≤ a.span_idx → span_at b.spans j ≡ span_at a.spans j
  Placed-kept j h = p.moved j ∙ ap (span_at a.spans) (p.from_kept j h)

  Placed-Used : (x : ℕ) → addr ≤ x → x < addr + size → Used b x
  Placed-Used x lo hi = inr (omega (arith, p.inside, p.end))

  -- The spans up to the old current one stay, and the position moves on.
  Placed-idx : a.span_idx ≤ b.span_idx
  Placed-idx = omega (arith, p.beyond)

  Placed-offset : b.span_idx ≡ a.span_idx → a.offset ≤ b.offset
  Placed-offset e = ground (arith, p.beyond, p.end, Placed-kept a.span_idx)

  Placed-mono : (x : ℕ) → Used a x → Used b x
  Placed-mono x (inl (j, lt, i)) =
      inl (j, omega (arith, Placed-idx), rw (Placed-kept j (omega arith)) i)
  Placed-mono x (inr u) = elim (Bool-cases (b.span_idx == a.span_idx)) [
    | inl same ↦ inr (ground (arith, u, Placed-offset, Placed-kept a.span_idx))
    | inr next ↦ inl (
      a.span_idx,
      ground (arith, Placed-idx),
      rw (Placed-kept a.span_idx (omega arith)) (u.0, omega (arith, u, v.within)),
    )
  ]

  Placed-fresh : Apart a → (x : ℕ) → addr ≤ x → x < addr + size → ¬ (Used a x)
  Placed-fresh apart x lo hi (inl (j, lt, i)) = omega (
    arith,
    Placed-idx,
    Placed-Apart apart j b.span_idx x (omega (arith, Placed-idx, p.in_use)) p.in_use
        (rw (Placed-kept j (omega arith)) i) (omega (arith, p.inside)),
  )
  Placed-fresh apart x lo hi (inr u) = elim p.beyond [
    | inl (same, from) ↦ omega arith
    | inr next ↦ omega (
      arith,
      Placed-Apart apart a.span_idx b.span_idx x (omega (arith, p.in_use)) p.in_use
          (rw (Placed-kept a.span_idx (omega arith)) (u.0, omega (arith, u, v.within)))
          (omega (arith, p.inside)),
    )
  ]

-- What an allocation does to the bytes in use. Each byte of the new block was free, and is in use
-- now; a byte in use stays so; the spans stay apart, and the arena valid.
pub record Fresh (a : NthDynArena) (size addr : ℕ) (b : NthDynArena) : Type 0 where
  pub was_free : (x : ℕ) → addr ≤ x → x < addr + size → ¬ (Used a x)
  pub now_used : (x : ℕ) → addr ≤ x → x < addr + size → Used b x
  pub still_used : (x : ℕ) → Used a x → Used b x
  pub apart : Apart b
  pub valid : IsValid b

-- Where the spans in use do not overlap, each byte of a block that `nth_dyn_arena_alloc` returns
-- was free before and is in use after, whatever span it lies in; bytes in use stay so, and the
-- arena stays valid with its spans apart.
pub nth_dyn_arena_alloc-Fresh :
    (a b : NthDynArena) (size align addr : ℕ)
    → IsValid a
    → Apart a
    → IsAlignment align
    → size < u64_mod
    → nth_dyn_arena_alloc a size align ≡ (some addr, b)
    → Fresh a size addr b
nth_dyn_arena_alloc-Fresh a b size align addr v apart al sz e =
    let p = rw e at (nth_dyn_arena_alloc-Outcome a size align v al sz) in
    record {
      was_free = Placed-fresh a b size align addr v p apart;
      now_used = Placed-Used a b size align addr v p;
      still_used = Placed-mono a b size align addr v p;
      apart = Placed-Apart a b size align addr v p apart;
      valid = Placed-IsValid a b size align addr v p;
    }

-- `b` was reached from `a` by allocations.
record Extends (a b : NthDynArena) : Type 0 where
  valid : IsValid b
  further : (a.span_idx < b.span_idx) ⊎ ((a.span_idx ≡ b.span_idx) × (a.offset ≤ b.offset))
  kept : (j : ℕ) → j ≤ a.span_idx → span_at b.spans j ≡ span_at a.spans j

Extends-refl : (a : NthDynArena) → IsValid a → Extends a a
Extends-refl a v = record { valid = v; further = inr (refl, omega arith); kept = λ j h. refl }

Extends-trans : (a b c : NthDynArena) → Extends a b → Extends b c → Extends a c
Extends-trans a b c p q = record {
  valid = q.valid;
  further = omega (arith, p.further, q.further);
  kept = λ j h. q.kept j (omega (arith, p.further)) ∙ p.kept j h;
}

Outcome-Extends :
    (a : NthDynArena) (size align : ℕ) (r : Option ℕ × NthDynArena)
    → IsValid a
    → Outcome a size align r
    → Extends a r.1
Outcome-Extends a size align (none, b) v o = rw o.0 (Extends-refl a v)
Outcome-Extends a size align (some addr, b) v p = record {
  valid = Placed-IsValid a b size align addr v p;
  further = ground (arith, p.beyond, Placed-offset a b size align addr v p);
  kept = Placed-kept a b size align addr v p;
}

-- A run of allocations, each of which may fail.
unfoldable pub alloc_run : NthDynArena → List Request → NthDynArena
alloc_run a [] = a
alloc_run a ((size, align) ∷ rs) = alloc_run (nth_dyn_arena_alloc a size align).1 rs

alloc_run-Extends :
    (rs : List Request) (a : NthDynArena) → IsValid a → AreRequests rs → Extends a (alloc_run a rs)
unfolding alloc_run
alloc_run-Extends [] a v ok = Extends-refl a v
alloc_run-Extends ((size, align) ∷ rs) a v (sz, al, ok) =
    let b = (nth_dyn_arena_alloc a size align).1 in
    let p =
      Outcome-Extends a size align (nth_dyn_arena_alloc a size align) v
        (nth_dyn_arena_alloc-Outcome a size align v al sz) in
    Extends-trans a b (alloc_run b rs) p (alloc_run-Extends rs b p.valid ok)

-- The two fields of a mark come back out of it.
mark_fields :
    (idx off : ℕ)
    → idx < 2 ^ 16
    → off < 2 ^ 48
    → let m = bit_or (idx <<< off_bits) off in (m >>> off_bits ≡ idx) × (bit_and m off_mask ≡ off)
mark_fields idx off hi ho =
    rw pack (omega arith, bit_and_mask 48 (idx * 2 ^ 48 + off) ∙ omega arith)
  where
    pack : bit_or (idx <<< off_bits) off ≡ idx * 2 ^ 48 + off
    pack =
        ap₂ bit_or high low
        ∙ (bit_or_fields 48 idx 0 0 off (omega arith) ho ∙ rw (bit_or-zero, zero-bit_or))
      where
        high : (idx <<< off_bits) ≡ idx * 2 ^ 48 + 0
        high = omega arith

        low : off ≡ 0 * 2 ^ 48 + off
        low = omega arith

-- Restoring the mark taken before a run of allocations succeeds, goes back to the same span and
-- offset, and finds the spans up to that one where they were. A mark holds 16 bits of span index
-- and 48 bits of offset.
pub nth_dyn_arena_restore-mark :
    (rs : List Request) (a : NthDynArena)
    → IsValid a
    → AreRequests rs
    → a.span_idx < 2 ^ 16
    → a.offset < 2 ^ 48
    → let b = alloc_run a rs in
      (nth_dyn_arena_restore b (nth_dyn_arena_mark a)
        ≡ (true, record b { span_idx = a.span_idx; offset = a.offset }))
      × ((j : ℕ) → j ≤ a.span_idx → span_at b.spans j ≡ span_at a.spans j)
unfolding nth_dyn_arena_restore nth_dyn_arena_mark
nth_dyn_arena_restore-mark rs a v ok hi ho =
    let e = alloc_run-Extends rs a v ok in
    let (i, o) = mark_fields a.span_idx a.offset hi ho in
    (rw (i, o) (ground (arith, e.further, e.kept a.span_idx, v.within)), e.kept)
