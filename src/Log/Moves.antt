-- ===== src/Log/Moves.antt =====
-- Every step keeps the text: a step of a writer brings it nearer, taking room adds a line to it,
-- and a flush hands all of it on.
use narthex.Prelude.Shows.{Shows, Shows-at, Shows-last}
use narthex.Prelude.{
  ℕ, ◌+◌, ◌^◌, ◌≤◌, ◌<◌, ◌≡◌, ◌≢◌, ◌⊎◌, inl, inr, refl, sym, ◌∙◌, Bool-cases, ◌&&◌, ltb, leb, true,
  List, [], ◌++◌, length, length-take, get_or, Option, arith,
}
use narthex.Prelude.Int.{ℤ}
use narthex.Log.{
  GLog, Tm, Entry, entry_of, refresh_time, flush_buffer, stamp_of, log_update_time, log_fixed_size,
  log_time_size,
}
use narthex.Log.Threads.{
  Place, at_prefix, at_msg, at_newline, at_release, Shared, Move, line_of, stamp_at, call_log,
  call_flush, room, quiet, output, reserve, prefix, message, newline, quiet_flush, output_flush,
}
use narthex.Log.Family.{total}
use narthex.Log.Inv.{holds, counts, low, high, unwritten, IsEntry, Knows, LockInv, TextInv}
use narthex.Log.Bytes.{
  Writes, length-line_of, log_write_prefix-Writes, write_msg-Writes, write_newline-Writes,
}
use narthex.Log.Keep.{Keeps}

entry_of-IsEntry :
    (size level : ℕ) (msg : List ℕ)
    → log_fixed_size < size
    → size < 2 ^ 64
    → log_fixed_size + length msg < 2 ^ 64
    → IsEntry size (entry_of size level msg)
unfolding entry_of
entry_of-IsEntry size level msg a b c = ground arith

pub refresh-time :
    (localtime : ℤ → Option Tm) (now : ℤ) (g : GLog)
    → length g.time ≡ log_time_size
    → length (refresh_time localtime now g).time ≡ log_time_size
unfolding log_update_time stamp_of
refresh-time localtime now g h = ground arith

pub length-stamp_at :
    (localtime : ℤ → Option Tm) (now : ℤ) (g : GLog)
    → length g.time ≡ log_time_size
    → length (stamp_at localtime now g) ≡ log_time_size
unfolding log_update_time stamp_of
length-stamp_at localtime now g h =
    ground (arith, length-take log_time_size (refresh_time localtime now g).time)

-- A write of the bytes of a line, from the first that is missing, changes each only into that of
-- the text.
module _ (g : GLog) {text : List ℕ} {a z : ℕ} {b' : ℕ → ℕ} (e : Entry) (st : List ℕ) (i : ℕ)
    (has : Shows text i (line_of e st)) (long : length (line_of e st) ≡ e.full)
    (w : Writes e st i a z g.bytes b') (from : i ≤ a) (to : z ≤ i + e.full) where
  written_byte : (x : ℕ) → a ≤ x → x < z → b' x ≡ get_or text x 0
  written_byte x h k =
      w.inside x h k
      ∙ sym (Shows-at text i (line_of e st) x has (omega arith) (omega (arith, long)))

  write_frame : (x : ℕ) → (b' x ≡ g.bytes x) ⊎ (b' x ≡ get_or text x 0)
  write_frame x = elim (Bool-cases (leb a x && ltb x z)) [
    | inl within ↦ inr (written_byte x (ground arith) (ground arith))
    | inr beside ↦ inl (w.outside x (ground arith))
  ]

  write-Keeps :
      (p p' : Place)
      → (low p ≡ low p') × (high p ≡ high p') × (unwritten p ≡ a) × (unwritten p' ≡ z)
      → Keeps text g (record g { bytes = b' }) p p'
  write-Keeps p p' (l, h, u, u') = record {
    same_size = refl;
    same_index = refl;
    same_time = refl;
    line = inl (omega arith);
    frame = write_frame;
    progress = λ j m k. elim (Bool-cases (ltb j z)) [
      | inl now ↦ inr (written_byte j (omega arith) (ground arith))
      | inr later ↦ inl (ground arith)
    ];
  }

module _ (localtime : ℤ → Option Tm) {n : ℕ} {s : Shared} {place : ℕ → Place}
    (lk : LockInv n s place) {text : List ℕ} (inv : TextInv text s place) (i : ℕ) (lt : i < n) where
  -- What the text is afterwards.
  abbrev pub text_after : {p p' : Place} {s' : Shared} → Move localtime s p s' p' → List ℕ
  text_after output = []
  text_after output_flush = []
  text_after (reserve {e} {now}) = text ++ line_of e (stamp_at localtime now s.log)
  text_after _ = text

  abbrev pub Kept : {p p' : Place} {s' : Shared} → Move localtime s p s' p' → Type 0
  Kept output = Unit
  Kept output_flush = Unit
  Kept reserve = Unit
  Kept {p} {p'} {s'} _ = Keeps text s.log s'.log p p'

  pub Move-inflight :
      {p p' : Place} {s' : Shared}
      → Move localtime s p s' p'
      → place i ≡ p
      → counts p ≤ total counts n place
      → (a : ℕ) → i ≢ a
      → holds (place a) ≡ true
      → s.log.inflight ≡ 0
      → s'.log.inflight ≡ 0
  unfolding flush_buffer
  Move-inflight call_flush here c a ne h z = z
  Move-inflight mv here c a ne h z = ground (arith, lk.single i a, lk.counted)

  pub Move-Kept :
      {p p' : Place} {s' : Shared} (mv : Move localtime s p s' p') → Knows s.log text p → Kept mv
  Move-Kept output kn = tt
  Move-Kept output_flush kn = tt
  Move-Kept reserve kn = tt
  Move-Kept (prefix {e} {i = o} {st}) (ok, long, has) =
      write-Keeps s.log e st o has (length-line_of e st o ok long)
        (log_write_prefix-Writes e st o ok long s.log.bytes) (omega arith) (omega (arith, ok.1))
        (at_prefix e o st) (at_msg e o st) (refl, refl, refl, refl)
  Move-Kept (message {e} {i = o} {st}) (ok, long, has) =
      write-Keeps s.log e st o has (length-line_of e st o ok long)
        (write_msg-Writes e st o ok long s.log.bytes) (omega arith) (omega arith) (at_msg e o st)
        (at_newline e o st) (refl, refl, refl, refl)
  Move-Kept (newline {e} {i = o} {st}) (ok, long, has) =
      write-Keeps s.log e st o has (length-line_of e st o ok long)
        (write_newline-Writes e st o ok long s.log.bytes) (omega (arith, ok.1)) (omega arith)
        (at_newline e o st) (at_release e o st) (refl, refl, refl, refl)
  Move-Kept mv kn = record {
    same_size = refl;
    same_index = refl;
    same_time = refl;
    line = ground arith;
    frame = λ j. inl refl;
    progress = λ j h k. ground arith;
  }

  pub Move-own :
      {p p' : Place} {s' : Shared} (mv : Move localtime s p s' p')
      → Knows s.log text p
      → Knows s'.log (text_after mv) p'
  unfolding flush_buffer
  Move-own output kn = ground (arith, inv.size)
  Move-own output_flush kn = tt
  Move-own (reserve {e} {now}) kn = (
    ground (arith, kn),
    length-stamp_at localtime now s.log inv.stamped,
    Shows-last text (line_of e (stamp_at localtime now s.log)) s.log.buf_index inv.index,
  )
  Move-own (call_log level msg now h) kn =
      entry_of-IsEntry s.log.buf_size level msg inv.size.0 inv.size.1 h
  Move-own (room h) kn = ground (arith, h, inv.fits, inv.size)
  Move-own (quiet h) kn = ground (arith, h)
  Move-own (quiet_flush h) kn = h
  Move-own mv kn = ground arith
