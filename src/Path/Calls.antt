-- ===== src/Path/Calls.antt =====
-- The other calls of src/nth_path.c against `Path.Text`: set-up, tear-down, clearing, copying and
-- the questions about a path.
use narthex.Prelude.{
  ℕ, suc, ◌+◌, ◌^◌, ◌<◌, ◌≡◌, refl, ◌∙◌, Bool, true, false, not, Option, none, some, List, [], ◌∷◌,
  ◌++◌, arith, ltb, ◌==◌, if◌then◌else◌, length, get_or, drop, length-append, length-drop,
}
use narthex.Result.{NthResult, result_ok, result_out_of_memory, Run, done, trap}
use narthex.Path.{
  NthPath, path_is_sep, path_default_cap, setup_empty, nth_setup_path, setup_copy,
  nth_setup_path_cstr, nth_setup_path_view, nth_path_clear, copy_text, nth_path_copy,
  nth_path_length, nth_path_empty, nth_path_is_absolute, nth_path_is_relative,
}
use narthex.Path.Meta.{
  path_len_max, path_alive, path_flag_normalized, path_flag_owned, path_meta_init, path_set_cap,
  path_set_flag, path_clr_flag, path_set_len,
}
use narthex.Path.Meta.Fields.{
  meta_of, path_alive-meta_of, path_len-meta_of, path_set_len-meta_of, path_set_cap-meta_of,
  set_owned-meta_of, set_normalized-meta_of, clr_invalid-meta_of, clr_normalized-meta_of,
  has_normalized-meta_of, meta_init-eq,
}
use narthex.Path.Bytes.{Malloc, memcpy, overwrite, take-append_self}
use narthex.Path.Text
use narthex.Path.Text.{PathText, clear_text}
use narthex.Path.Refine.{path_of, Fits, Holds, Refines, path_grow-Refines, after_grow}

-- A path that was just made owns its block and is valid.
abbrev pub fresh : List ℕ → ℕ → Bool → PathText
fresh t cap normalized = record {
  text = t;
  cap = cap;
  owned = true;
  invalid = false;
  normalized = normalized;
}

-- What a set-up returns, after what malloc gave it.
abbrev pub SetUp : NthPath → PathText → Option (List ℕ) → NthResult × NthPath → Type 0
SetUp path s none (r, p) = (r ≡ result_out_of_memory) × (p ≡ path)
SetUp path s (some block) (r, p) = (r ≡ result_ok) × Holds p s

made :
    (len cap : ℕ)
    → len < 2 ^ 16
    → cap < 2 ^ 16
    → path_set_flag (path_set_cap (path_set_len path_meta_init len) cap) path_flag_owned
      ≡ meta_of len cap true false false
made len cap hl hc = rw (
  meta_init-eq,
  path_set_len-meta_of 0 0 false false false (omega arith) (omega arith) len hl,
  path_set_cap-meta_of len 0 false false false hl (omega arith) cap hc,
  set_owned-meta_of len cap false false false hl hc,
)

setup_empty-SetUp :
    (path : NthPath) (o : Option (List ℕ))
    → ((xs : List ℕ) → o ≡ some xs → length xs ≡ path_default_cap)
    → SetUp path (fresh [] path_default_cap true) o (setup_empty path o)
unfolding setup_empty memcpy
setup_empty-SetUp path none len = (refl, refl)
setup_empty-SetUp path (some tmp) len = (
  refl,
  record {
    rest = drop 1 tmp;
    is = rw (
      overwrite [] tmp [] 0 (omega (arith, len tmp refl)) refl,
      made 0 path_default_cap (omega arith) (omega arith),
      set_normalized-meta_of 0 path_default_cap true false false (omega arith) (omega arith),
    );
    fits = (omega (arith, len tmp refl, length-drop 1 tmp), omega arith);
  },
)

-- `nth_setup_path` makes an empty path of the default capacity, or leaves what was there.
pub nth_setup_path-SetUp :
    (mem : Malloc) (path : NthPath)
    → path_alive path.meta ≡ false
    → SetUp path
        (fresh [] path_default_cap true)
        (mem.malloc path_default_cap)
        (nth_setup_path mem path)
unfolding nth_setup_path
nth_setup_path-SetUp mem path dead =
    rw dead (setup_empty-SetUp path _ (mem.length-malloc path_default_cap))

setup_copy-SetUp :
    (path : NthPath) (str : List ℕ) (cap : ℕ) (o : Option (List ℕ))
    → length str < cap
    → cap < 2 ^ 16
    → ((xs : List ℕ) → o ≡ some xs → length xs ≡ cap)
    → SetUp path (fresh str cap false) o (setup_copy path str cap o)
unfolding setup_copy
setup_copy-SetUp path str cap none room lt len = (refl, refl)
setup_copy-SetUp path str cap (some tmp) room lt len = (
  refl,
  record {
    rest = drop (suc (length str)) tmp;
    is = rw (
      overwrite [] tmp str (length str) (omega (arith, len tmp refl)) (omega arith),
      made (length str) cap (omega arith) lt,
    );
    fits = (omega (arith, len tmp refl, length-drop (suc (length str)) tmp), lt);
  },
)

-- The capacity of a set-up from a text of `n` bytes.
abbrev pub cap_for : ℕ → ℕ
cap_for n = if ltb path_default_cap (n + 1) then n + 1 else path_default_cap

abbrev pub SetUpRun : NthPath → PathText → Option (List ℕ) → Run (NthResult × NthPath) → Type 0
SetUpRun path s o (done x) = SetUp path s o x
SetUpRun path s o trap = ⊥

-- `nth_setup_path_cstr` on a dead path and a string of up to 65534 bytes makes an owned, valid path
-- that holds the string, if malloc succeeds; otherwise it says so and leaves what was there.
pub nth_setup_path_cstr-SetUp :
    (mem : Malloc) (path : NthPath) (str : List ℕ)
    → path_alive path.meta ≡ false
    → length str < path_len_max
    → SetUpRun path
        (fresh str (cap_for (length str)) false)
        (mem.malloc (cap_for (length str)))
        (nth_setup_path_cstr mem path str)
unfolding nth_setup_path_cstr
nth_setup_path_cstr-SetUp mem path str dead lt =
    rw (dead, small)
      (setup_copy-SetUp path str (cap_for (length str)) _ (ground arith) (ground arith)
        (mem.length-malloc (cap_for (length str))))
  where
    small : ltb (length str) path_len_max ≡ true
    small = ground arith

-- A view is copied as a C string is.
pub nth_setup_path_view-cstr :
    (mem : Malloc) (path : NthPath) (str : List ℕ)
    → nth_setup_path_view mem path str ≡ nth_setup_path_cstr mem path str
unfolding nth_setup_path_view nth_setup_path_cstr
nth_setup_path_view-cstr mem path str = refl

-- `nth_path_clear` empties the text, makes an invalid path valid again and sets NORMALIZED, as
-- `clear_text` says; the path stays live and NUL-terminated.
pub nth_path_clear-Refines :
    (p : NthPath) (s : PathText) → Holds p s → Refines (nth_path_clear p) (done (clear_text s))
unfolding nth_path_clear clear_text memcpy
nth_path_clear-Refines p s h =
    rw
      (
        h.is,
        path_alive-meta_of (length s.text) s.cap s.owned s.invalid s.normalized
            (omega (arith, h.fits)) h.fits.1,
        path_set_len-meta_of (length s.text) s.cap s.owned s.invalid s.normalized
            (omega (arith, h.fits)) h.fits.1 0 (omega arith),
        set_normalized-meta_of 0 s.cap s.owned s.invalid s.normalized (omega arith) h.fits.1,
        clr_invalid-meta_of 0 s.cap s.owned s.invalid true (omega arith) h.fits.1,
      )
      (record {
        rest = drop 1 (s.text ++ (0 ∷ h.rest));
        is = rw (overwrite [] (s.text ++ (0 ∷ h.rest)) [] 0 (omega (arith, block)) refl);
        fits = (omega (arith, block, h.fits, length-drop 1 (s.text ++ (0 ∷ h.rest))), h.fits.1);
      })
  where
    block : length (s.text ++ (0 ∷ h.rest)) ≡ s.cap
    block = length-append s.text (0 ∷ h.rest) ∙ h.fits.0

-- The flag comes from the source.
copied_flag :
    (len cap : ℕ) (owned invalid old new : Bool)
    → len < 2 ^ 16
    → cap < 2 ^ 16
    → (if new
        then path_set_flag (meta_of len cap owned invalid old) path_flag_normalized
        else path_clr_flag (meta_of len cap owned invalid old) path_flag_normalized)
      ≡ meta_of len cap owned invalid new
copied_flag len cap owned invalid old true hl hc =
    set_normalized-meta_of len cap owned invalid old hl hc
copied_flag len cap owned invalid old false hl hc =
    clr_normalized-meta_of len cap owned invalid old hl hc

copy_text-Holds :
    (d s : PathText) (rest src_rest : List ℕ)
    → Fits d rest
    → Fits s src_rest
    → length s.text < d.cap
    → Holds
        (copy_text (path_of d rest) (path_of s src_rest) (length s.text))
        (record d { text = s.text; normalized = s.normalized })
unfolding copy_text
copy_text-Holds d s rest src_rest fits fits_src room = record {
  rest = drop (suc (length s.text)) (d.text ++ (0 ∷ rest));
  is = rw (
    take-append_self s.text (0 ∷ src_rest),
    overwrite [] (d.text ++ (0 ∷ rest)) s.text (length s.text) (omega (arith, block)) (omega arith),
    has_normalized-meta_of (length s.text) s.cap s.owned s.invalid s.normalized (omega arith)
        fits_src.1,
    path_set_len-meta_of (length d.text) d.cap d.owned d.invalid d.normalized (omega arith) fits.1
        (length s.text) (omega arith),
    copied_flag (length s.text) d.cap d.owned d.invalid d.normalized s.normalized (omega arith)
        fits.1,
  );
  fits = (omega (arith, block, length-drop (suc (length s.text)) (d.text ++ (0 ∷ rest))), fits.1);
}
  where
    block : length (d.text ++ (0 ∷ rest)) ≡ d.cap
    block = length-append d.text (0 ∷ rest) ∙ fits.0

-- `nth_path_copy` gives `dst` the text and the NORMALIZED flag of `src`, as `copy_text` says, if it
-- has the room or gets it; on failure, or on a text too long, both sides say the same too.
pub nth_path_copy-Refines :
    (mem : Malloc) (dst src : NthPath) (d s : PathText)
    → Holds dst d
    → Holds src s
    → Refines (nth_path_copy mem dst src) (Text.copy_text mem d s)
unfolding nth_path_copy Text.copy_text
nth_path_copy-Refines mem dst src d s hd hs =
    rw
      (
        hd.is,
        hs.is,
        path_alive-meta_of (length d.text) d.cap d.owned d.invalid d.normalized
            (omega (arith, hd.fits)) hd.fits.1,
        path_alive-meta_of (length s.text) s.cap s.owned s.invalid s.normalized
            (omega (arith, hs.fits)) hs.fits.1,
        path_len-meta_of (length s.text) s.cap s.owned s.invalid s.normalized
            (omega (arith, hs.fits)) hs.fits.1,
      )
      (after_grow (length s.text) d.text _ _ (λ g. copy_text g (path_of s hs.rest) (length s.text))
        (Text.take_over s) (path_grow-Refines mem d hd.rest (length s.text) hd.fits)
        (λ q u hq room e. rw hq.is (copy_text-Holds u s hq.rest hs.rest hq.fits hs.fits room))
        (λ u. refl))

abbrev pub starts_with_sep : List ℕ → Bool
starts_with_sep [] = false
starts_with_sep (x ∷ xs) = path_is_sep x

-- A live path answers the length of the text it holds, whether that is empty, and whether its first
-- byte is a separator.
pub nth_path-questions :
    (p : NthPath) (s : PathText)
    → Holds p s
    → (nth_path_length p ≡ done (length s.text))
      × (nth_path_empty p ≡ done (length s.text == 0))
      × (nth_path_is_absolute p ≡ done (starts_with_sep s.text))
      × (nth_path_is_relative p ≡ done (not (starts_with_sep s.text)))
unfolding nth_path_length nth_path_empty nth_path_is_absolute nth_path_is_relative
nth_path-questions p s h =
    rw
      (
        h.is,
        path_alive-meta_of (length s.text) s.cap s.owned s.invalid s.normalized
            (omega (arith, h.fits)) h.fits.1,
        path_len-meta_of (length s.text) s.cap s.owned s.invalid s.normalized
            (omega (arith, h.fits)) h.fits.1,
      )
      (refl, refl, first s.text h.rest, rw (first s.text h.rest) refl)
  where
    first :
        (t rest : List ℕ)
        → (if length t == 0 then done false else done (path_is_sep (get_or (t ++ (0 ∷ rest)) 0 0)))
          ≡ done (starts_with_sep t)
    first [] rest = refl
    first (x ∷ t) rest = ground arith
