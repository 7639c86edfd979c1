-- ===== src/Path/Query.antt =====
-- src/nth_path.c, lines 402 to 530: views into a path, and comparisons. The pointer of a view is
-- the list of the bytes from there to the end of its block, and NULL is `none`.
pub mod Loops
pub mod Filename
pub mod Extension
pub mod Directory
pub mod Equal
use mathlib.Core.Option
use narthex.Prelude.{
  ℕ, zero, suc, ◌+◌, ◌-◌, Bool, true, false, ◌&&◌, Option, none, some, List, [], ◌∷◌, ltb, ◌==◌,
  if◌then◌else◌, length, get_or, take, drop,
}
use narthex.Result.{Run, done, ◌>>=◌, ◌>>◌, nth_assert}
use narthex.Path.{NthPath, bytes, path_is_sep}
use narthex.Path.Meta.{path_len, path_alive}

pub record NthPathView : Type 0 where
  pub ptr : Option (List ℕ)
  pub size : ℕ

-- `{0}`
abbrev pub no_view : NthPathView
no_view = record { ptr = none; size = 0 }

-- The bytes that the view shows.
abbrev pub contents : NthPathView → List ℕ
contents v = take v.size (Option.get_or v.ptr [])

abbrev pub sep_at : List ℕ → ℕ → Bool
sep_at buf i = path_is_sep (get_or buf i 0)

-- `while(start > 0 && !PATH_IS_SEP(path->ptr[start - 1])) start--;`
unfoldable pub back_to_sep : List ℕ → ℕ → ℕ
back_to_sep buf zero = zero
back_to_sep buf (suc i) = let before = back_to_sep buf i in if sep_at buf i then suc i else before

-- `while(end > 0 && PATH_IS_SEP(path->ptr[end - 1])) end--;`
unfoldable pub back_over_seps : List ℕ → ℕ → ℕ
back_over_seps buf zero = zero
back_over_seps buf (suc i) =
    let before = back_over_seps buf i in if sep_at buf i then before else suc i

-- The same down to 1, for `dir_end`.
unfoldable pub back_to_root : List ℕ → ℕ → ℕ
back_to_root buf zero = zero
back_to_root buf (suc zero) = 1
back_to_root buf (suc (suc i)) =
    let before = back_to_root buf (suc i) in if sep_at buf (suc i) then before else suc (suc i)

unfoldable pub filename_in : List ℕ → ℕ → NthPathView
filename_in buf len =
    let start = back_to_sep buf len in
    if len == 0
    then no_view
    else if sep_at buf (len - 1)
    then no_view
    else record { ptr = some (drop start buf); size = len - start }

unfoldable pub nth_path_filename : NthPath → Run NthPathView
nth_path_filename path = do
  nth_assert (path_alive path.meta)
  done (filename_in (bytes path) (path_len path.meta))

unfoldable pub directory_in : List ℕ → ℕ → NthPathView
directory_in buf len =
    let end = back_over_seps buf len in
    let start = back_to_sep buf end in
    if end == 0
    then record { ptr = some buf; size = if ltb 0 len then 1 else 0 }
    else if start == 0
    then record { ptr = some buf; size = 0 }
    else if end == len
    then record { ptr = some buf; size = back_to_root buf start }
    else record { ptr = some buf; size = end }

unfoldable pub nth_path_directory : NthPath → Run NthPathView
nth_path_directory path = do
  nth_assert (path_alive path.meta)
  done (directory_in (bytes path) (path_len path.meta))

abbrev pub dot : ℕ
dot = b'.'

-- `while(j < i && fname.ptr[j] == '.') j++;` with `left` rounds to go.
unfoldable pub over_dots : List ℕ → ℕ → ℕ → ℕ
over_dots f zero j = j
over_dots f (suc left) j =
    let next = over_dots f left (j + 1) in if get_or f j 0 == dot then next else j

-- The loop that looks for the last dot, from `i` down to 1.
unfoldable pub extension_at : List ℕ → ℕ → ℕ → NthPathView
extension_at f size zero = no_view
extension_at f size (suc zero) = no_view
extension_at f size (suc (suc i)) =
    let before = extension_at f size (suc i) in
    if get_or f (suc i) 0 == dot
    then if over_dots f (suc i) 0 == suc i
      then no_view
      else record { ptr = some (drop (suc i) f); size = size - suc i }
    else before

abbrev pub extension_in : Option (List ℕ) → ℕ → NthPathView
extension_in none size = no_view
extension_in (some f) size = if size == 0 then no_view else extension_at f size size

abbrev pub extension_of : NthPathView → NthPathView
extension_of fname = extension_in fname.ptr fname.size

unfoldable pub nth_path_extension : NthPath → Run NthPathView
nth_path_extension path = do
  nth_assert (path_alive path.meta)
  fname ← nth_path_filename path
  done (extension_of fname)

abbrev pub shortened : NthPathView → Option (List ℕ) → ℕ → NthPathView
shortened fname none n = fname
shortened fname (some e) n = record fname { size = fname.size - n }

unfoldable pub nth_path_stem : NthPath → Run NthPathView
nth_path_stem path = do
  nth_assert (path_alive path.meta)
  fname ← nth_path_filename path
  ext ← nth_path_extension path
  done (shortened fname ext.ptr ext.size)

-- `memcmp(xs, ys, n) == 0`
unfoldable pub memcmp_zero : List ℕ → List ℕ → ℕ → Bool
memcmp_zero xs ys zero = true
memcmp_zero [] [] (suc n) = true
memcmp_zero [] (y ∷ ys) (suc n) = false
memcmp_zero (x ∷ xs) [] (suc n) = false
memcmp_zero (x ∷ xs) (y ∷ ys) (suc n) = (x == y) && memcmp_zero xs ys n

unfoldable pub nth_path_view_equal : NthPathView → NthPathView → Bool
nth_path_view_equal a b =
    if a.size == b.size
    then if a.size == 0
      then true
      else memcmp_zero (Option.get_or a.ptr []) (Option.get_or b.ptr []) a.size
    else false

unfoldable pub nth_path_view_equal_cstr : NthPathView → List ℕ → Bool
nth_path_view_equal_cstr view str =
    if view.size == length str
    then if length str == 0 then true else memcmp_zero (Option.get_or view.ptr []) str (length str)
    else false

abbrev pub whole_view : NthPath → NthPathView
whole_view path = record { ptr = path.ptr; size = path_len path.meta }

unfoldable pub nth_path_equal_view : NthPath → NthPathView → Run Bool
nth_path_equal_view path view = do
  nth_assert (path_alive path.meta)
  done (nth_path_view_equal (whole_view path) view)

unfoldable pub nth_path_equal : NthPath → NthPath → Run Bool
nth_path_equal a b = do
  nth_assert (path_alive a.meta)
  nth_assert (path_alive b.meta)
  nth_path_equal_view a (whole_view b)
