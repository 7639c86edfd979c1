-- ===== src/Log/Steps.antt =====
-- Every step of a thread keeps the invariant.
use mathlib.Core.List.{append_assoc, append-nil}
use narthex.Prelude.Shows.{get_or-append_if}
use narthex.Prelude.{
  ℕ, ◌+◌, ◌≤◌, ◌<◌, ◌≡◌, ◌≢◌, ◌⊎◌, inl, inr, refl, sym, ap, ◌∙◌, Bool-cases, true, false, List, [],
  ◌∷◌, ◌++◌, length, length-append, get_or, Option, arith, ltb, ◌==◌,
}
use narthex.Prelude.Int.{ℤ}
use narthex.Log.{GLog, Tm, Entry, flush_buffer}
use narthex.Log.Threads.{
  Place, at_output, at_reserve, at_count, flush_output, flush_unlock, Shared, Move, put, line_of,
  stamp_at, flushed, reserved, output, reserve, output_flush,
}
use narthex.Log.Family.{put_self, put-other, le-total}
use narthex.Log.Inv.{holds, counts, low, high, unwritten, concat, IsEntry, Knows, LockInv, TextInv}
use narthex.Log.Bytes.{length-line_of}
use narthex.Log.Lock.{none_counts, Move-LockInv}
use narthex.Log.Keep.{Knows-keep, Keep-TextInv}
use narthex.Log.Moves.{
  Move-inflight, Move-Kept, Move-own, length-stamp_at, refresh-time, text_after,
}
use narthex.Log.Text.{concat-append, load_text, high-le, Knows-append, high-idle, Knows-idle}

nil_of_length : (t : List ℕ) → length t ≡ 0 → [] ≡ t
nil_of_length [] h = refl
nil_of_length (x ∷ t) h = absurd (omega arith)

module _ (localtime : ℤ → Option Tm) {n : ℕ} {s : Shared} {place : ℕ → Place}
    (lk : LockInv n s place) {text : List ℕ} (inv : TextInv text s place) (i : ℕ) (lt : i < n) where
  -- What holds of thread `i` holds of it where it stands now, and what holds of the others stays.
  everyone :
      (g : GLog) (t : List ℕ) (p' : Place)
      → Knows g t p'
      → ((a : ℕ) → i ≢ a → Knows g t (place a))
      → (a : ℕ) → Knows g t (put place i p' a)
  everyone g t p' own rest a = elim (Bool-cases (i == a)) [
    | inl me ↦ rw me own
    | inr other ↦ rw other (rest a (λ e. ground arith))
  ]

  alone : (p : Place) → place i ≡ p → holds p ≡ true → (a : ℕ) → i ≢ a → holds (place a) ≡ false
  alone p here h a ne = ground (arith, lk.single i a)

  -- Taking room.
  module _ (e : Entry) (now : ℤ) (here : place i ≡ at_reserve e now) where
    abbrev st : List ℕ
    st = stamp_at localtime now s.log

    abbrev s' : Shared
    s' = reserved localtime e now s

    abbrev p' : Place
    p' = at_count e s.log.buf_index st

    mine : IsEntry s.log.buf_size e × (s.log.buf_index + e.full ≤ s.log.buf_size)
    mine = rw here at (inv.knows i)

    long : length (line_of e st) ≡ e.full
    long = length-line_of e st 0 mine.0 (length-stamp_at localtime now s.log inv.stamped)

    reserve-Knows : (a : ℕ) → Knows s'.log (text ++ line_of e st) (put place i p' a)
    reserve-Knows =
        everyone s'.log (text ++ line_of e st) p'
          (Move-own localtime lk inv i lt (reserve {e = e} {now = now}) mine)
          (λ a ne.
            Knows-append s.log s'.log text (line_of e st) (place a) (ground arith)
              (alone (at_reserve e now) here refl a ne) (inv.knows a))

    before : (a : ℕ) → high (place a) ≤ s.log.buf_index
    before a = omega (arith, inv.index, high-le s.log text (place a) (inv.knows a))

    reserve_index : s'.log.buf_index ≡ length (text ++ line_of e st)
    reserve_index =
        ground (arith, inv.index, inv.size, mine, long, length-append text (line_of e st))

    reserve_apart :
        (a b : ℕ)
        → a ≢ b
        → (high (put place i p' a) ≤ low (put place i p' b))
          ⊎ (high (put place i p' b) ≤ low (put place i p' a))
    reserve_apart a b ne = elim (Bool-cases (i == a)) [
      | inl x ↦ rw (x, put-other place i p' b (ground (arith, ne))) (inr (before b))
      | inr x ↦ elim (Bool-cases (i == b)) [
        | inl y ↦ rw (y, x) (inl (before a))
        | inr y ↦ rw (x, y) (inv.apart a b ne)
      ]
    ]

    reserve_written :
        (j : ℕ)
        → j < s'.log.buf_index
        → (s'.log.bytes j ≡ get_or (text ++ line_of e st) j 0)
          ⊎ ((a : ℕ) × (unwritten (put place i p' a) ≤ j) × (j < high (put place i p' a)))
    reserve_written j k = elim (Bool-cases (ltb j s.log.buf_index)) [
      | inl old ↦ elim (inv.written j (ground arith)) [
        | inl same ↦ inl (ground (arith, same, inv.index, get_or-append_if text (line_of e st) j 0))
        | inr (a, from, to) ↦ elim (Bool-cases (i == a)) [
          | inl me ↦ absurd (ground (arith, here))
          | inr other ↦ inr (a, rw other from, rw other to)
        ]
      ]
      | inr new ↦ inr (
        i,
        rw (put_self place i p') (ground arith),
        rw (put_self place i p')
            (ground (arith, k, reserve_index, inv.index, long, length-append text (line_of e st))),
      )
    ]

    reserve_text : text ++ line_of e st ≡ concat (inv.history.pending ++ (line_of e st ∷ []))
    reserve_text =
        ap (λ t. t ++ line_of e st) inv.history.pending_text
        ∙ ap (◌++◌ (concat inv.history.pending)) (sym (append-nil (line_of e st)))
        ∙ sym (concat-append inv.history.pending (line_of e st ∷ []))

    reserve-TextInv : TextInv (text ++ line_of e st) s' (put place i p')
    reserve-TextInv = record {
      size = ground (arith, inv.size);
      index = reserve_index;
      fits = ground (arith, mine, inv.size);
      stamped = refresh-time localtime now s.log inv.stamped;
      history = record {
        done = inv.history.done;
        pending = inv.history.pending ++ (line_of e st ∷ []);
        all =
            ap (λ ls. ls ++ (line_of e st ∷ [])) inv.history.all
            ∙ append_assoc inv.history.done inv.history.pending (line_of e st ∷ []);
        done_sent = inv.history.done_sent;
        pending_text = reserve_text;
      };
      knows = reserve-Knows;
      apart = reserve_apart;
      written = reserve_written;
    }

  -- Handing the text on.
  module _ (p p' : Place) (here : place i ≡ p) (h : holds p ≡ true) (none : high p ≡ 0)
      (z : s.log.inflight ≡ 0) (own : Knows (flushed s).log [] p') (none' : high p' ≡ 0) where
    no_line : (a : ℕ) → high (place a) ≡ 0
    no_line a = elim (Bool-cases (i == a)) [
      | inl me ↦ ground (arith, here, none)
      | inr other ↦ high-idle (place a) (alone p here h a (ground arith)) (none_counts lk z a)
    ]

    no_line_after : (a : ℕ) → high (put place i p' a) ≡ 0
    no_line_after a = ground (arith, none', no_line a)

    sent_text : (flush_buffer s.log).1 ≡ text
    unfolding flush_buffer
    sent_text = elim (Bool-cases (s.log.buf_index == 0)) [
      | inl empty ↦ rw empty (nil_of_length text (ground (arith, inv.index)))
      | inr some_text ↦ rw (some_text, inv.index) (load_text inv no_line)
    ]

    output_sent :
        s.sent ++ (flush_buffer s.log).1 ≡ concat (inv.history.done ++ inv.history.pending)
    output_sent =
        ap (◌++◌ s.sent) (sent_text ∙ inv.history.pending_text)
        ∙ ap (λ t. t ++ concat inv.history.pending) inv.history.done_sent
        ∙ sym (concat-append inv.history.done inv.history.pending)

    output-TextInv : TextInv [] (flushed s) (put place i p')
    unfolding flush_buffer
    output-TextInv = record {
      size = ground (arith, inv.size);
      index = ground arith;
      fits = ground arith;
      stamped = ground (arith, inv.stamped);
      history = record {
        done = inv.history.done ++ inv.history.pending;
        pending = [];
        all = inv.history.all ∙ sym (append-nil (inv.history.done ++ inv.history.pending));
        done_sent = output_sent;
        pending_text = refl;
      };
      knows = everyone (flushed s).log [] p' own (λ a ne.
          Knows-idle s.log (flushed s).log text [] (place a) (ground arith) (alone p here h a ne)
            (none_counts lk z a) (inv.knows a));
      apart = λ a b ne. inl (omega (arith, no_line_after a));
      written = λ j k. absurd (ground (arith, k));
    }

  -- The text after a step, and that the invariant holds with it.
  Move-TextInv :
      {p p' : Place} {s' : Shared} (mv : Move localtime s p s' p')
      → place i ≡ p
      → TextInv (text_after localtime lk inv i lt mv) s' (put place i p')
  Move-TextInv (reserve {e} {now}) here = reserve-TextInv e now here
  Move-TextInv (output {e} {now}) here =
      let kn : IsEntry s.log.buf_size e × (s.log.inflight ≡ 0) = rw here at (inv.knows i) in
      output-TextInv (at_output e now) (at_reserve e now) here refl refl kn.1
        (Move-own localtime lk inv i lt (output {e = e} {now = now}) kn) refl
  Move-TextInv output_flush here =
      let kn : s.log.inflight ≡ 0 = rw here at (inv.knows i) in
      output-TextInv flush_output flush_unlock here refl refl kn tt refl
  Move-TextInv {p} {p'} {s'} mv here =
      let kn : Knows s.log text p = rw here at (inv.knows i) in
      Keep-TextInv inv i s' p p' here (Move-Kept localtime lk inv i lt mv kn)
        (everyone s'.log text p' (Move-own localtime lk inv i lt mv kn) (λ a ne.
          Knows-keep s.log s'.log text (place a) refl refl
            (Move-inflight localtime lk inv i lt mv here
              (ground (arith, here, le-total counts n place i lt)) a ne)
            (inv.knows a)))
        refl refl

  pub Move-Inv :
      {p' : Place} {s' : Shared}
      → Move localtime s (place i) s' p'
      → (t : List ℕ) × LockInv n s' (put place i p') × TextInv t s' (put place i p')
  Move-Inv mv =
      (text_after localtime lk inv i lt mv, Move-LockInv localtime lk i lt mv, Move-TextInv mv refl)
