-- ===== src/Path/Text.antt =====
-- What a path is to its user: a text with a capacity and three flags, and what each call makes of
-- it. No packed word, no byte block, no terminator.
use narthex.Prelude.{
  ℕ, ◌-◌, Bool, true, false, ◌&&◌, not, Option, none, some, List, [], ◌∷◌, ◌++◌, ltb, ◌==◌,
  if◌then◌else◌, length, get_or,
}
use narthex.Result.{Run, done, trap, ◌>>=◌}
use narthex.Path.{path_sep, path_is_sep, grown_cap}
use narthex.Path.Meta.{path_len_max}
use narthex.Path.Bytes.{Malloc}

pub record PathText : Type 0 where
  pub text : List ℕ
  pub cap : ℕ
  pub owned : Bool
  pub invalid : Bool
  pub normalized : Bool

abbrev pub fail : PathText → PathText
fail s = record s { invalid = true }

abbrev pub extend : PathText → ℕ → Option (List ℕ) → Bool × PathText
extend s new_cap none = (false, fail s)
extend s new_cap (some extra) = (true, record s { cap = new_cap })

-- Room for `needed` bytes and the terminator: there already, or from libc; a text of 65535 bytes
-- or more traps.
unfoldable pub reserve : Malloc → PathText → ℕ → Run (Bool × PathText)
reserve mem s needed =
    if ltb needed s.cap
    then done (true, s)
    else if not (ltb needed path_len_max)
    then trap
    else if not s.owned
    then done (false, fail s)
    else done (extend s (grown_cap s.cap needed) (mem.more (grown_cap s.cap needed - s.cap)))

abbrev pub replace : List ℕ → Bool × PathText → PathText
replace t (true, s) = record s { text = t; normalized = false }
replace t (false, s) = s

unfoldable pub set_text : Malloc → PathText → List ℕ → Run PathText
set_text mem s t = do r ← reserve mem s (length t); done (replace t r)

unfoldable pub sep_before : List ℕ → Bool
sep_before t = ltb 0 (length t) && not (path_is_sep (get_or t (length t - 1) 0))

-- One separator between two parts, unless the first is empty or ends in one.
unfoldable pub join : List ℕ → List ℕ → List ℕ
join t str = if sep_before t then t ++ (path_sep ∷ str) else t ++ str

unfoldable pub append_text : Malloc → PathText → List ℕ → Run PathText
append_text mem s str = if length str == 0 then done s else set_text mem s (join s.text str)

unfoldable pub clear_text : PathText → PathText
clear_text s = record s { text = []; invalid = false; normalized = true }

abbrev pub take_over : PathText → Bool × PathText → PathText
take_over src (true, dst) = record dst { text = src.text; normalized = src.normalized }
take_over src (false, dst) = dst

unfoldable pub copy_text : Malloc → PathText → PathText → Run PathText
copy_text mem dst src = do r ← reserve mem dst (length src.text); done (take_over src r)
