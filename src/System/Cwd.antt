-- ===== src/System/Cwd.antt =====
-- modules/filesystem/system.c: `fs_compute_cwd` on POSIX. `getcwd` answers for a buffer of a size;
-- `realloc` says whether libc has room.
use narthex.Prelude.{
  ℕ, zero, suc, ◌*◌, ◌^◌, ◌<◌, ◌≡◌, refl, ◌∙◌, inl, inr, Bool, true, false, Option, none, some,
  List, arith, length, ltb, if◌then◌else◌, Bool-cases,
}
use narthex.Prelude.Words.{mul64}
use narthex.Result.{result_platform_error, result_out_of_memory}
use narthex.System.Exe.{Computed, value, failure, fs_default_cap, twice, at_least}

-- The text, NULL with ERANGE, or NULL with another error.
pub data Answer : Type 0 where
  answer : List ℕ → Answer
  too_small refused : Answer

module _ (getcwd : ℕ → Answer) (realloc : ℕ → Bool) where
  -- The loop that doubles the buffer while it is too small; `none` out of fuel.
  unfoldable pub read_cwd : ℕ → ℕ → Option Computed
  read_cwd zero cap = none
  read_cwd (suc fuel) cap =
      let rest = read_cwd fuel (mul64 cap 2) in
      elim (getcwd cap) [
        | answer text ↦ some (value text)
        | refused ↦ some (failure result_platform_error)
        | too_small ↦ if realloc (mul64 cap 2) then rest else some (failure result_out_of_memory)
      ]

  unfoldable pub fs_compute_cwd : Bool → ℕ → Option Computed
  fs_compute_cwd malloc fuel =
      if malloc then read_cwd fuel fs_default_cap else some (failure result_out_of_memory)

module _ (getcwd : ℕ → Answer) (realloc : ℕ → Bool) (dir : List ℕ)
    (answers : (n : ℕ) → getcwd n ≡ (if ltb (length dir) n then answer dir else too_small))
    (grows : (n : ℕ) → realloc n ≡ true) where
  fits :
      (fuel cap : ℕ)
      → ltb (length dir) cap ≡ true
      → read_cwd getcwd realloc (suc fuel) cap ≡ some (value dir)
  unfolding read_cwd
  fits fuel cap h = rw (read_cwd, answers cap, h) refl

  doubled :
      (fuel cap : ℕ)
      → ltb (length dir) cap ≡ false
      → cap * 2 < 2 ^ 64
      → read_cwd getcwd realloc (suc fuel) cap ≡ read_cwd getcwd realloc fuel (cap * 2)
  unfolding read_cwd
  doubled fuel cap h lt =
      let same : mul64 cap 2 ≡ cap * 2 = omega (arith, lt) in
      rw (read_cwd, answers cap, h, same, grows (cap * 2)) refl

  read_cwd-done :
      (fuel cap : ℕ)
      → length dir < cap * 2 ^ fuel
      → cap * 2 ^ fuel < 2 ^ 64
      → read_cwd getcwd realloc (suc fuel) cap ≡ some (value dir)
  read_cwd-done zero cap h lt = fits zero cap (ground (arith, h))
  read_cwd-done (suc fuel) cap h lt = elim (Bool-cases (ltb (length dir) cap)) [
    | inl short ↦ fits (suc fuel) cap short
    | inr long ↦
        doubled (suc fuel) cap long (omega (arith, twice cap fuel, at_least (cap * 2) fuel, lt))
        ∙ read_cwd-done fuel (cap * 2) (rw (← twice cap fuel) h) (rw (← twice cap fuel) lt)
  ]

-- Where `getcwd` answers the working directory to a buffer that holds it with its NUL, and ERANGE to
-- a smaller one, and libc has room, `fs_compute_cwd` ends after one round more than the doublings
-- that the directory needs, with the directory.
pub fs_compute_cwd-dir :
    (getcwd : ℕ → Answer) (realloc : ℕ → Bool) (dir : List ℕ) (fuel : ℕ)
    → ((n : ℕ) → getcwd n ≡ (if ltb (length dir) n then answer dir else too_small))
    → ((n : ℕ) → realloc n ≡ true)
    → length dir < fs_default_cap * 2 ^ fuel
    → fs_default_cap * 2 ^ fuel < 2 ^ 64
    → fs_compute_cwd getcwd realloc true (suc fuel) ≡ some (value dir)
unfolding fs_compute_cwd
fs_compute_cwd-dir getcwd realloc dir fuel answers grows h lt =
    read_cwd-done getcwd realloc dir answers grows fuel fs_default_cap h lt
