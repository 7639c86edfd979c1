-- ===== src/Log/Bytes.antt =====
-- What the writes of `log_append` leave in the buffer: each byte that changes is one of the line.
use narthex.Prelude.Shows.{get_or-append_if}
use narthex.Prelude.{
  ℕ, ◌+◌, ◌-◌, ◌≤◌, ◌<◌, ◌≡◌, ◌⊎◌, List, [], ◌∷◌, ◌++◌, length, take, length-append, length-take,
  get_or, ltb, if◌then◌else◌, arith,
}
use narthex.Log.{
  Entry, store, log_write_prefix, write_msg, write_newline, level_mark, log_prefix_size,
  log_time_size,
}
use narthex.Log.Threads.{line_of}
use narthex.Log.Inv.{IsEntry}

length-level_mark : (level : ℕ) → length (level_mark level) ≡ 9
length-level_mark level = ground arith

-- Some bytes of the line of `e` come to stand in their places, and no other byte changes.
pub record Writes (e : Entry) (st : List ℕ) (i a z : ℕ) (b b' : ℕ → ℕ) : Type 0 where
  pub inside : (j : ℕ) → a ≤ j → j < z → b' j ≡ get_or (line_of e st) (j - i) 0
  pub outside : (j : ℕ) → (j < a) ⊎ (z ≤ j) → b' j ≡ b j

module _ {size : ℕ} (e : Entry) (st : List ℕ) (i : ℕ) (ok : IsEntry size e)
    (long : length st ≡ log_time_size) where
  length-msg : length (take e.len e.msg) ≡ e.len
  length-msg = ground (arith, length-take e.len e.msg)

  abbrev behind : List ℕ
  behind = take e.len e.msg ++ (b'\n' ∷ [])

  pub length-line_of : length (line_of e st) ≡ e.full
  length-line_of = omega (
    arith,
    ok.1,
    long,
    length-append st (level_mark e.level ++ behind),
    length-append (level_mark e.level) behind,
    length-level_mark e.level,
    length-append (take e.len e.msg) (b'\n' ∷ []),
    length-msg,
  )

  byte_of_line :
      (k : ℕ)
      → get_or (line_of e st) k 0 ≡ (
          if ltb k 19
          then get_or st k 0
          else if ltb k 28
          then get_or (level_mark e.level) (k - 19) 0
          else if ltb k (28 + e.len)
          then get_or (take e.len e.msg) (k - 28) 0
          else get_or (b'\n' ∷ []) (k - 28 - e.len) 0)
  byte_of_line k = ground (
    arith,
    long,
    ok.1,
    length-level_mark e.level,
    length-msg,
    get_or-append_if st (level_mark e.level ++ behind) k 0,
    get_or-append_if (level_mark e.level) behind (k - 19) 0,
    get_or-append_if (take e.len e.msg) (b'\n' ∷ []) (k - 28) 0,
  )

  pub log_write_prefix-Writes :
      (b : ℕ → ℕ) → Writes e st i i (i + log_prefix_size) b (log_write_prefix b i e.level st)
  unfolding log_write_prefix store
  log_write_prefix-Writes b = record {
    inside = λ j h k. ground (arith, byte_of_line (j - i), length-level_mark e.level);
    outside = λ j h. ground (arith, length-level_mark e.level);
  }

  pub write_msg-Writes :
      (b : ℕ → ℕ) → Writes e st i (i + log_prefix_size) (i + e.full - 1) b (write_msg e i b)
  unfolding write_msg store
  write_msg-Writes b = record {
    inside = λ j h k. ground (arith, byte_of_line (j - i), length-msg, ok.1);
    outside = λ j h. ground (arith, length-msg, ok.1);
  }

  pub write_newline-Writes :
      (b : ℕ → ℕ) → Writes e st i (i + e.full - 1) (i + e.full) b (write_newline e i b)
  unfolding write_newline store
  write_newline-Writes b = record {
    inside = λ j h k. ground (arith, byte_of_line (j - i), ok.1);
    outside = λ j h. ground (arith, ok.1);
  }
