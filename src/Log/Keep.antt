-- ===== src/Log/Keep.antt =====
-- Steps that leave the text as it is: a write of bytes of a thread's own line, and those that write
-- nothing.
use narthex.Prelude.{
  ℕ, ◌≤◌, ◌<◌, ◌≡◌, ◌≢◌, ◌⊎◌, inl, inr, refl, true, List, arith, get_or, ◌==◌, Bool-cases, ◌∙◌,
}
use narthex.Log.{GLog}
use narthex.Log.Threads.{Place, outside, Shared, put, at_output}
use narthex.Log.Inv.{holds, low, high, unwritten, Knows, History, TextInv}

-- What a thread knows survives where the room stays and nothing starts to be in flight.
pub Knows-keep :
    (g g' : GLog) (t : List ℕ) (p : Place)
    → g'.buf_size ≡ g.buf_size
    → g'.buf_index ≡ g.buf_index
    → (holds p ≡ true → g.inflight ≡ 0 → g'.inflight ≡ 0)
    → Knows g t p
    → Knows g' t p
Knows-keep g g' t outside a b c h = tt
Knows-keep g g' t (at_output e now) a b c h = ground (arith, c refl h.1)
Knows-keep g g' t Place.flush_output a b c h = c refl h
Knows-keep g g' t p a b c h = ground arith

-- What such a step does to the buffer, when a thread goes from `p` to `p'`.
pub record Keeps (text : List ℕ) (g g' : GLog) (p p' : Place) : Type 0 where
  pub same_size : g'.buf_size ≡ g.buf_size
  pub same_index : g'.buf_index ≡ g.buf_index
  pub same_time : g'.time ≡ g.time
  pub line : ((low p ≤ low p') × (high p' ≤ high p)) ⊎ (high p' ≡ 0)
  pub frame : (j : ℕ) → (g'.bytes j ≡ g.bytes j) ⊎ (g'.bytes j ≡ get_or text j 0)
  pub progress :
      (j : ℕ)
      → unwritten p ≤ j
      → j < high p
      → ((unwritten p' ≤ j) × (j < high p')) ⊎ (g'.bytes j ≡ get_or text j 0)

module _ {text : List ℕ} {s : Shared} {place : ℕ → Place} (inv : TextInv text s place) (i : ℕ)
    (s' : Shared) (p p' : Place) (here : place i ≡ p) (k : Keeps text s.log s'.log p p') where
  keep-apart :
      (a b : ℕ)
      → a ≢ b
      → (high (put place i p' a) ≤ low (put place i p' b))
        ⊎ (high (put place i p' b) ≤ low (put place i p' a))
  keep-apart a b ne = elim (Bool-cases (i == a)) [
    | inl x ↦ ground (arith, k.line, inv.apart a b ne)
    | inr x ↦ ground (arith, k.line, inv.apart a b ne)
  ]

  keep-written :
      (j : ℕ)
      → j < s'.log.buf_index
      → (s'.log.bytes j ≡ get_or text j 0)
        ⊎ ((a : ℕ) × (unwritten (put place i p' a) ≤ j) × (j < high (put place i p' a)))
  keep-written j lt = elim (inv.written j (rw (← k.same_index) lt)) [
    | inl same ↦ inl (ground (arith, same, k.frame j))
    | inr (a, from, to) ↦ elim (Bool-cases (i == a)) [
      | inl me ↦ elim (k.progress j (ground arith) (ground arith)) [
        | inl still ↦ inr (a, ground arith, ground arith)
        | inr there ↦ inl there
      ]
      | inr other ↦ inr (a, ground arith, ground arith)
    ]
  ]

  keep-History : s'.lines ≡ s.lines → s'.sent ≡ s.sent → History text s'
  keep-History l o = record {
    done = inv.history.done;
    pending = inv.history.pending;
    all = l ∙ inv.history.all;
    done_sent = o ∙ inv.history.done_sent;
    pending_text = inv.history.pending_text;
  }

  pub Keep-TextInv :
      ((a : ℕ) → Knows s'.log text (put place i p' a))
      → s'.lines ≡ s.lines
      → s'.sent ≡ s.sent
      → TextInv text s' (put place i p')
  Keep-TextInv knows l o = record {
    size = ground (arith, inv.size, k.same_size);
    index = k.same_index ∙ inv.index;
    fits = ground (arith, inv.fits, k.same_index, k.same_size);
    stamped = ground (arith, inv.stamped, k.same_time);
    history = keep-History l o;
    knows = knows;
    apart = keep-apart;
    written = keep-written;
  }
