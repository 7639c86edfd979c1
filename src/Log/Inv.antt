-- ===== src/Log/Inv.antt =====
-- The invariant of the threads that log: `text` is what the buffer holds once every line that has
-- room is written.
use narthex.Prelude.Shows.{Shows}
use narthex.Prelude.{
  ℕ, ◌+◌, ◌-◌, ◌^◌, ◌≤◌, ◌<◌, ◌≡◌, ◌≢◌, ◌⊎◌, Bool, true, false, List, [], ◌∷◌, ◌++◌, length, get_or,
}
use narthex.Log.{GLog, Entry, log_fixed_size, log_prefix_size, log_time_size, log_level_debug}
use narthex.Log.Threads.{
  Place, outside, at_lock, at_test, at_wait, at_output, at_reserve, at_count, at_unlock, at_prefix,
  at_msg, at_newline, at_release, flush_wait, flush_output, flush_unlock, Shared, line_of,
}
use narthex.Log.Family.{total}

-- Between `nth_mutex_lock` and `nth_mutex_unlock`.
abbrev pub holds : Place → Bool
holds (at_test _ _) = true
holds (at_wait _ _) = true
holds (at_output _ _) = true
holds (at_reserve _ _) = true
holds (at_count _ _ _) = true
holds (at_unlock _ _ _) = true
holds flush_wait = true
holds flush_output = true
holds flush_unlock = true
holds _ = false

-- 1 for a thread that `inflight` counts.
abbrev pub counts : Place → ℕ
counts (at_unlock _ _ _) = 1
counts (at_prefix _ _ _) = 1
counts (at_msg _ _ _) = 1
counts (at_newline _ _ _) = 1
counts (at_release _ _ _) = 1
counts _ = 0

-- The bytes of the line that a thread writes lie from `low` up to `high`; those from `unwritten` on
-- are still to come. Another thread has none.
abbrev pub low : Place → ℕ
low (at_count _ i _) = i
low (at_unlock _ i _) = i
low (at_prefix _ i _) = i
low (at_msg _ i _) = i
low (at_newline _ i _) = i
low (at_release _ i _) = i
low _ = 0

abbrev pub high : Place → ℕ
high (at_count e i _) = i + e.full
high (at_unlock e i _) = i + e.full
high (at_prefix e i _) = i + e.full
high (at_msg e i _) = i + e.full
high (at_newline e i _) = i + e.full
high (at_release e i _) = i + e.full
high _ = 0

abbrev pub unwritten : Place → ℕ
unwritten (at_count _ i _) = i
unwritten (at_unlock _ i _) = i
unwritten (at_prefix _ i _) = i
unwritten (at_msg _ i _) = i + log_prefix_size
unwritten (at_newline e i _) = i + e.full - 1
unwritten (at_release e i _) = i + e.full
unwritten _ = 0

abbrev pub IsEntry : ℕ → Entry → Type 0
IsEntry size e =
    (e.cap ≡ size)
    × (e.full ≡ e.len + log_fixed_size)
    × (e.full ≤ e.cap)
    × (e.len ≤ length e.msg)
    × (e.level ≤ log_level_debug)

-- What a thread's local variables say.
abbrev pub Knows : GLog → List ℕ → Place → Type 0
Knows g t (at_lock e _) = IsEntry g.buf_size e
Knows g t (at_test e _) = IsEntry g.buf_size e
Knows g t (at_wait e _) = IsEntry g.buf_size e
Knows g t (at_output e _) = IsEntry g.buf_size e × (g.inflight ≡ 0)
Knows g t (at_reserve e _) = IsEntry g.buf_size e × (g.buf_index + e.full ≤ g.buf_size)
Knows g t (at_count e i st) =
    IsEntry g.buf_size e × (length st ≡ log_time_size) × Shows t i (line_of e st)
Knows g t (at_unlock e i st) =
    IsEntry g.buf_size e × (length st ≡ log_time_size) × Shows t i (line_of e st)
Knows g t (at_prefix e i st) =
    IsEntry g.buf_size e × (length st ≡ log_time_size) × Shows t i (line_of e st)
Knows g t (at_msg e i st) =
    IsEntry g.buf_size e × (length st ≡ log_time_size) × Shows t i (line_of e st)
Knows g t (at_newline e i st) =
    IsEntry g.buf_size e × (length st ≡ log_time_size) × Shows t i (line_of e st)
Knows g t (at_release e i st) =
    IsEntry g.buf_size e × (length st ≡ log_time_size) × Shows t i (line_of e st)
Knows g t flush_output = g.inflight ≡ 0
Knows g t _ = Unit

abbrev pub concat : List (List ℕ) → List ℕ
concat [] = []
concat (l ∷ ls) = l ++ concat ls

-- The lock has one holder, and `inflight` counts the writers.
pub record LockInv (n : ℕ) (s : Shared) (place : ℕ → Place) : Type 0 where
  pub few : n < 2 ^ 32
  pub beyond : (i : ℕ) → n ≤ i → place i ≡ outside
  pub locked : (i : ℕ) → holds (place i) ≡ true → s.log.lock ≡ true
  pub held : s.log.lock ≡ true → (i : ℕ) × (holds (place i) ≡ true)
  pub single : (i j : ℕ) → holds (place i) ≡ true → holds (place j) ≡ true → i ≡ j
  pub counted : s.log.inflight ≡ total counts n place

-- The lines fall into those that were handed on and those in the buffer.
pub record History (text : List ℕ) (s : Shared) : Type 0 where
  pub done : List (List ℕ)
  pub pending : List (List ℕ)
  pub all : s.lines ≡ done ++ pending
  pub done_sent : s.sent ≡ concat done
  pub pending_text : text ≡ concat pending

-- Every byte of the text is in the buffer or still to come from its writer.
pub record TextInv (text : List ℕ) (s : Shared) (place : ℕ → Place) : Type 0 where
  pub size : (log_fixed_size < s.log.buf_size) × (s.log.buf_size < 2 ^ 64)
  pub index : s.log.buf_index ≡ length text
  pub fits : s.log.buf_index ≤ s.log.buf_size
  pub stamped : length s.log.time ≡ log_time_size
  pub history : History text s
  pub knows : (i : ℕ) → Knows s.log text (place i)
  pub apart :
      (i j : ℕ) → i ≢ j → (high (place i) ≤ low (place j)) ⊎ (high (place j) ≤ low (place i))
  pub written :
      (j : ℕ)
      → j < s.log.buf_index
      → (s.log.bytes j ≡ get_or text j 0)
        ⊎ ((i : ℕ) × (unwritten (place i) ≤ j) × (j < high (place i)))
