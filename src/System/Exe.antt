-- ===== src/System/Exe.antt =====
-- modules/filesystem/system.c: `fs_compute_exe` on POSIX. `readlink` gives the target of
-- /proc/self/exe in a buffer of a size, `none` where it fails; `realloc` says whether libc has room.
use native.Mathlib.Nat.{pow-suc, one-le-pow, mul_comm, mul_assoc, mul-le-mul_left}
use narthex.Prelude.{
  ℕ, zero, suc, ◌-◌, ◌*◌, ◌^◌, ◌≤◌, ◌<◌, ◌≡◌, refl, sym, ap, ◌∙◌, inl, inr, Bool, true, false, not,
  Option, none, some, ◌⊎◌, List, [], ◌∷◌, arith, length, length-take, take, get_or, ltb,
  if◌then◌else◌, Bool-cases,
}
use narthex.Prelude.Words.{mul64}
use narthex.Result.{NthResult, result_platform_error, result_out_of_memory}
use narthex.Path.{path_is_sep}

-- What `compute` makes: a value, or the reason why there is none.
pub data Computed : Type 0 where
  value : List ℕ → Computed
  failure : NthResult → Computed

abbrev pub fs_default_cap : ℕ
fs_default_cap = 4096

-- `while(len > 0 && !FS_IS_SEP(buf[len - 1])) len--`
unfoldable pub strip_name : List ℕ → ℕ → ℕ
strip_name buf zero = zero
strip_name buf (suc n) =
    let rest = strip_name buf n in if not (path_is_sep (get_or buf n 0)) then rest else suc n

unfoldable pub directory_of : List ℕ → List ℕ
directory_of buf =
    let len = strip_name buf (length buf) in take (if ltb 0 len then len - 1 else len) buf

module _ (readlink : ℕ → Option (List ℕ)) (realloc : ℕ → Bool) where
  -- The loop that doubles the buffer until the target is shorter; `none` out of fuel.
  unfoldable pub read_exe : ℕ → ℕ → Option Computed
  read_exe zero cap = none
  read_exe (suc fuel) cap =
      let rest = read_exe fuel (mul64 cap 2) in
      elim (readlink cap) [
        | none ↦ some (failure result_platform_error)
        | some target ↦
            if ltb (length target) cap
            then some (value (directory_of target))
            else if realloc (mul64 cap 2)
            then rest
            else some (failure result_out_of_memory)
      ]

  unfoldable pub fs_compute_exe : Bool → ℕ → Option Computed
  fs_compute_exe malloc fuel =
      if malloc then read_exe fuel fs_default_cap else some (failure result_out_of_memory)

strip_name_le : (buf : List ℕ) (n : ℕ) → strip_name buf n ≤ n
unfolding strip_name
strip_name_le buf zero = omega arith
strip_name_le buf (suc n) = ground (arith, strip_name_le buf n)

-- A separator stands before the name.
strip_name-sep :
    (buf : List ℕ) (n : ℕ)
    → 0 < strip_name buf n
    → path_is_sep (get_or buf (strip_name buf n - 1) 0) ≡ true
unfolding strip_name
strip_name-sep buf zero h = absurd (omega (arith, h))
strip_name-sep buf (suc n) h = elim (Bool-cases (path_is_sep (get_or buf n 0))) [
  | inl sep ↦ let e : suc n - 1 ≡ n = omega arith in rw (sep, e, sep) refl
  | inr other ↦ rw other (strip_name-sep buf n (rw other at h))
]

-- No separator stands in the name.
strip_name-name :
    (buf : List ℕ) (n k : ℕ) → strip_name buf n ≤ k → k < n → path_is_sep (get_or buf k 0) ≡ false
unfolding strip_name
strip_name-name buf zero k a b = absurd (omega (arith, b))
strip_name-name buf (suc n) k a b = elim (Bool-cases (path_is_sep (get_or buf n 0))) [
  | inl sep ↦ absurd (ground (arith, sep, a, b))
  | inr other ↦ elim (Bool-cases (ltb k n)) [
    | inl before ↦ strip_name-name buf n k (rw other at a) (ground (arith, before))
    | inr last ↦ let e : k ≡ n = ground (arith, last, b) in rw (e, other) refl
  ]
]

take-all : (t : List ℕ) (n : ℕ) → length t < n → take n t ≡ t
take-all [] zero h = refl
take-all [] (suc n) h = refl
take-all (c ∷ t) zero h = absurd (omega (arith, h))
take-all (c ∷ t) (suc n) h = ap (λ u. c ∷ u) (take-all t n (omega (arith, h)))

pub twice : (n k : ℕ) → n * 2 ^ suc k ≡ n * 2 * 2 ^ k
twice n k = ap (λ (x : ℕ). n * x) (pow-suc 2 k ∙ mul_comm (2 ^ k) 2) ∙ sym (mul_assoc n 2 (2 ^ k))

pub at_least : (n k : ℕ) → n ≤ n * 2 ^ k
at_least n k =
    let h : n * 1 ≤ n * 2 ^ k = mul-le-mul_left n (one-le-pow k 2 (omega arith)) in omega (arith, h)

module _ (readlink : ℕ → Option (List ℕ)) (realloc : ℕ → Bool) (target : List ℕ)
    (links : (n : ℕ) → readlink n ≡ some (take n target)) (grows : (n : ℕ) → realloc n ≡ true) where
  short_enough :
      (fuel cap : ℕ)
      → ltb (length target) cap ≡ true
      → read_exe readlink realloc (suc fuel) cap ≡ some (value (directory_of target))
  unfolding read_exe
  short_enough fuel cap h =
      let all : take cap target ≡ target = take-all target cap (ground (arith, h)) in
      rw (read_exe, links cap, all, h) refl

  doubled :
      (fuel cap : ℕ)
      → ltb (length target) cap ≡ false
      → cap * 2 < 2 ^ 64
      → read_exe readlink realloc (suc fuel) cap ≡ read_exe readlink realloc fuel (cap * 2)
  unfolding read_exe
  doubled fuel cap h lt =
      let full : ltb (length (take cap target)) cap ≡ false =
        ground (arith, h, length-take cap target) in
      let same : mul64 cap 2 ≡ cap * 2 = omega (arith, lt) in
      rw (read_exe, links cap, full, same, grows (cap * 2)) refl

  read_exe-done :
      (fuel cap : ℕ)
      → length target < cap * 2 ^ fuel
      → cap * 2 ^ fuel < 2 ^ 64
      → read_exe readlink realloc (suc fuel) cap ≡ some (value (directory_of target))
  read_exe-done zero cap h lt = short_enough zero cap (ground (arith, h))
  read_exe-done (suc fuel) cap h lt = elim (Bool-cases (ltb (length target) cap)) [
    | inl short ↦ short_enough (suc fuel) cap short
    | inr long ↦
        doubled (suc fuel) cap long (omega (arith, twice cap fuel, at_least (cap * 2) fuel, lt))
        ∙ read_exe-done fuel (cap * 2) (rw (← twice cap fuel) h) (rw (← twice cap fuel) lt)
  ]

-- What is before the last separator of a text; nothing if it has none.
abbrev pub IsBeforeName : List ℕ → List ℕ → Type 0
IsBeforeName t d =
    ((d ≡ []) × ((k : ℕ) → k < length t → path_is_sep (get_or t k 0) ≡ false))
    ⊎ ((n : ℕ) × (n < length t)
        × (d ≡ take n t)
        × (path_is_sep (get_or t n 0) ≡ true)
        × ((k : ℕ) → n < k → k < length t → path_is_sep (get_or t k 0) ≡ false))

directory_of-IsBeforeName : (t : List ℕ) → IsBeforeName t (directory_of t)
unfolding directory_of
directory_of-IsBeforeName t = elim (Bool-cases (ltb 0 (strip_name t (length t)))) [
  | inl some_sep ↦
      let n = strip_name t (length t) in
      inr (
        n - 1,
        ground (arith, some_sep, strip_name_le t (length t)),
        rw some_sep refl,
        strip_name-sep t (length t) (ground (arith, some_sep)),
        λ k a b. strip_name-name t (length t) k (omega (arith, a)) b,
      )
  | inr no_sep ↦
      let z : strip_name t (length t) ≡ 0 = ground (arith, no_sep) in
      inl (rw z refl, λ k b. strip_name-name t (length t) k (omega (arith, z)) b)
]

-- Where /proc/self/exe has the target, `readlink` cuts it to the size of the buffer and libc has
-- room, `fs_compute_exe` ends after one round more than the doublings that the target needs, with
-- what is before the last separator of the target: its directory, but for a target in the root,
-- which gives the empty text.
pub fs_compute_exe-IsBeforeName :
    (readlink : ℕ → Option (List ℕ)) (realloc : ℕ → Bool) (target : List ℕ) (fuel : ℕ)
    → ((n : ℕ) → readlink n ≡ some (take n target))
    → ((n : ℕ) → realloc n ≡ true)
    → length target < fs_default_cap * 2 ^ fuel
    → fs_default_cap * 2 ^ fuel < 2 ^ 64
    → (d : List ℕ) × (fs_compute_exe readlink realloc true (suc fuel) ≡ some (value d))
      × IsBeforeName target d
unfolding fs_compute_exe
fs_compute_exe-IsBeforeName readlink realloc target fuel links grows h lt = (
  directory_of target,
  read_exe-done readlink realloc target links grows fuel fs_default_cap h lt,
  directory_of-IsBeforeName target,
)
