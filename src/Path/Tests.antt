-- ===== src/Path/Tests.antt =====
-- Paths over blocks of 8 bytes, with a libc that always has memory and one that never has.
use mathlib.Core.Option
use narthex.Prelude.{
  ℕ, ◌≡◌, ◌↔◌, refl, sym, ap, ◌∙◌, true, false, none, some, List, [], ◌∷◌, arith, length, take,
  replicate, length-replicate,
}
use narthex.Result.{done}
use narthex.Path.{
  NthPath, nth_setup_path, nth_path_setn, nth_path_appendn, nth_path_copy, path_default_cap,
}
use narthex.Path.Meta.{path_alive}
use narthex.Path.Bytes.{Malloc}
use narthex.Path.Query.{
  NthPathView, contents, filename_in, back_to_sep, extension_at, over_dots, extension_of,
  nth_path_filename, nth_path_view_equal_cstr, nth_path_equal,
}
use narthex.Path.Query.Filename.{IsFilename, nth_path_filename-IsFilename}
use narthex.Path.Query.Extension.{Parts, nth_path_stem-extension}
use narthex.Path.Query.Equal.{nth_path_view_equal_cstr_iff, nth_path_equal-text}
use narthex.Path.Text
use narthex.Path.Text.{PathText, set_text, clear_text}
use narthex.Path.Refine.{path_of, Holds, Refines, nth_path_setn-Refines}
use narthex.Path.Normalize.{nth_path_normalize}
use narthex.Path.Normalize.Spec.{normal, walk_parts, step_part, split_on_seps, render}
use narthex.Path.Normalize.Refine.{normalize_text, nth_path_normalize-Refines}
use narthex.Path.Normalize.Twice.{nth_path_normalize-again}
use narthex.Path.Append.{nth_path_appendn-Refines}
use narthex.Path.Calls.{fresh, SetUp, nth_setup_path-SetUp, nth_path_copy-Refines}

length-filled : (n : ℕ) (xs : List ℕ) → some (replicate n 0) ≡ some xs → length xs ≡ n
length-filled n xs e = ap (λ o. length (Option.get_or o [])) (sym e) ∙ length-replicate n 0

none-filled : (n : ℕ) (xs : List ℕ) → none ≡ some xs → length xs ≡ n
none-filled n xs e = cc

abbrev plenty : Malloc
plenty = record {
  malloc = λ n. some (replicate n 0);
  length-malloc = length-filled;
  more = λ n. some (replicate n 0);
  length-more = length-filled;
}

abbrev nothing : Malloc
nothing = record {
  malloc = λ n. none;
  length-malloc = none-filled;
  more = λ n. none;
  length-more = none-filled;
}

-- "a/b"
abbrev a_b : PathText
a_b = record {
  text = 97 ∷ 47 ∷ 98 ∷ [];
  cap = 8;
  owned = true;
  invalid = false;
  normalized = false;
}

-- "/usr"
abbrev usr : PathText
usr = record {
  text = 47 ∷ 117 ∷ 115 ∷ 114 ∷ [];
  cap = 8;
  owned = true;
  invalid = false;
  normalized = true;
}

a_b-Holds : Holds (path_of a_b (replicate 4 0)) a_b
a_b-Holds = record { rest = replicate 4 0; is = refl; fits = (refl, omega arith) }

usr-Holds : Holds (path_of usr (replicate 3 0)) usr
usr-Holds = record { rest = replicate 3 0; is = refl; fits = (refl, omega arith) }

abbrev dead : NthPath
dead = record { ptr = none; meta = 0 }

dead-not_alive : path_alive 0 ≡ false
unfolding path_alive
dead-not_alive = refl

nth_path_setn-Refines_example :
    Refines
      (nth_path_setn plenty (path_of a_b (replicate 4 0)) (replicate 20 120) 12)
      (set_text plenty a_b (take 12 (replicate 20 120)))
nth_path_setn-Refines_example =
    nth_path_setn-Refines plenty (path_of a_b (replicate 4 0)) a_b (replicate 20 120) 12 a_b-Holds
      (omega arith)

nth_path_appendn-Refines_example :
    Refines
      (nth_path_appendn nothing (path_of a_b (replicate 4 0)) (99 ∷ 100 ∷ []) 1)
      (Text.append_text nothing a_b (take 1 (99 ∷ 100 ∷ [])))
nth_path_appendn-Refines_example =
    nth_path_appendn-Refines nothing (path_of a_b (replicate 4 0)) a_b (99 ∷ 100 ∷ []) 1 a_b-Holds
      (omega arith)

nth_setup_path-SetUp_example :
    SetUp dead
      (fresh [] path_default_cap true)
      (some (replicate path_default_cap 0))
      (nth_setup_path plenty dead)
nth_setup_path-SetUp_example = nth_setup_path-SetUp plenty dead dead-not_alive

nth_path_copy-Refines_example :
    Refines
      (nth_path_copy plenty (path_of a_b (replicate 4 0)) (path_of usr (replicate 3 0)))
      (Text.copy_text plenty a_b usr)
nth_path_copy-Refines_example =
    nth_path_copy-Refines plenty (path_of a_b (replicate 4 0)) (path_of usr (replicate 3 0)) a_b usr
      a_b-Holds usr-Holds

-- "src/a.tar.gz"
abbrev archive : PathText
archive = record {
  text = 115 ∷ 114 ∷ 99 ∷ 47 ∷ 97 ∷ 46 ∷ 116 ∷ 97 ∷ 114 ∷ 46 ∷ 103 ∷ 122 ∷ [];
  cap = 16;
  owned = true;
  invalid = false;
  normalized = false;
}

archive-Holds : Holds (path_of archive (replicate 3 0)) archive
archive-Holds = record { rest = replicate 3 0; is = refl; fits = (refl, omega arith) }

-- "a.tar.gz" and ".gz"
archive_filename :
    contents (filename_in archive.text 12) ≡ 97 ∷ 46 ∷ 116 ∷ 97 ∷ 114 ∷ 46 ∷ 103 ∷ 122 ∷ []
unfolding filename_in back_to_sep
archive_filename = refl

archive_extension : contents (extension_of (filename_in archive.text 12)) ≡ 46 ∷ 103 ∷ 122 ∷ []
unfolding filename_in back_to_sep extension_at over_dots
archive_extension = refl

nth_path_filename-IsFilename_example :
    (v : NthPathView) × (nth_path_filename (path_of archive (replicate 3 0)) ≡ done v)
    × IsFilename archive.text (contents v)
nth_path_filename-IsFilename_example =
    nth_path_filename-IsFilename (path_of archive (replicate 3 0)) archive archive-Holds

nth_path_stem-extension_example : Parts (path_of archive (replicate 3 0))
nth_path_stem-extension_example =
    nth_path_stem-extension (path_of archive (replicate 3 0)) archive archive-Holds

nth_path_view_equal_cstr_iff_example :
    (nth_path_view_equal_cstr (record { ptr = some usr.text; size = 4 }) (47 ∷ []) ≡ true)
    ↔ (usr.text ≡ 47 ∷ [])
nth_path_view_equal_cstr_iff_example =
    nth_path_view_equal_cstr_iff (record { ptr = some usr.text; size = 4 }) (47 ∷ []) (omega arith)

nth_path_equal-text_example :
    (nth_path_equal (path_of usr (replicate 3 0)) (path_of a_b (replicate 4 0)) ≡ done true)
    ↔ (usr.text ≡ a_b.text)
nth_path_equal-text_example =
    nth_path_equal-text (path_of usr (replicate 3 0)) (path_of a_b (replicate 4 0)) usr a_b
      usr-Holds a_b-Holds

-- "/a/.././b//c"
abbrev winding : PathText
winding = record {
  text = 47 ∷ 97 ∷ 47 ∷ 46 ∷ 46 ∷ 47 ∷ 46 ∷ 47 ∷ 98 ∷ 47 ∷ 47 ∷ 99 ∷ [];
  cap = 16;
  owned = true;
  invalid = false;
  normalized = false;
}

winding-normal : normal winding.text ≡ 47 ∷ 98 ∷ 47 ∷ 99 ∷ []
unfolding normal walk_parts step_part split_on_seps render
winding-normal = refl

nth_path_normalize-Refines_example :
    Refines
      (nth_path_normalize true (λ n. true) (path_of winding (replicate 3 0)))
      (done (normalize_text true winding))
nth_path_normalize-Refines_example =
    nth_path_normalize-Refines true (λ n. true) (path_of winding (replicate 3 0)) winding
      (λ n. refl) (record { rest = replicate 3 0; is = refl; fits = (refl, omega arith) })
      (omega arith)

-- "/b/c"
abbrev direct : PathText
direct = record winding { text = 47 ∷ 98 ∷ 47 ∷ 99 ∷ [] }

nth_path_normalize-again_example :
    Refines
      (nth_path_normalize true (λ n. true) (path_of direct (replicate 11 0)))
      (done (record direct { normalized = true }))
nth_path_normalize-again_example =
    nth_path_normalize-again (λ n. true) (path_of direct (replicate 11 0)) direct winding.text
      (λ n. refl) (record { rest = replicate 11 0; is = refl; fits = (refl, omega arith) })
      (omega arith) (sym winding-normal)
