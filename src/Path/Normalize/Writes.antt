-- ===== src/Path/Normalize/Writes.antt =====
-- src/nth_path.c: what a byte is after the writes of `nth_path_normalize`.
use narthex.Prelude.{
  ℕ, zero, suc, ◌+◌, ◌-◌, ◌≤◌, ◌<◌, ◌≡◌, refl, ap, List, [], ◌∷◌, ◌&&◌, arith, length, take, drop,
  set, get_or, ltb, leb, ◌==◌, if◌then◌else◌,
}
use narthex.Path.Bytes.{memcpy}

pub get_or-set :
    (xs : List ℕ) (i v j : ℕ)
    → i < length xs
    → get_or (set xs i v) j 0 ≡ (if j == i then v else get_or xs j 0)
get_or-set [] i v j h = absurd (omega arith)
get_or-set (x ∷ xs) zero v zero h = ground arith
get_or-set (x ∷ xs) zero v (suc j) h = ground arith
get_or-set (x ∷ xs) (suc i) v zero h = ground arith
get_or-set (x ∷ xs) (suc i) v (suc j) h = ground (arith, get_or-set xs i v j (omega arith))

pub length-memcpy : (buf : List ℕ) (i : ℕ) (xs : List ℕ) → length (memcpy buf i xs) ≡ length buf
unfolding memcpy
length-memcpy buf zero [] = refl
length-memcpy [] zero (x ∷ xs) = refl
length-memcpy (b ∷ buf) zero (x ∷ xs) = ap suc (length-memcpy buf zero xs)
length-memcpy [] (suc i) xs = refl
length-memcpy (b ∷ buf) (suc i) xs = ap suc (length-memcpy buf i xs)

pub get_or-memcpy :
    (buf : List ℕ) (i : ℕ) (xs : List ℕ) (j : ℕ)
    → i + length xs ≤ length buf
    → get_or (memcpy buf i xs) j 0
      ≡ (if leb i j && ltb j (i + length xs) then get_or xs (j - i) 0 else get_or buf j 0)
unfolding memcpy
get_or-memcpy buf zero [] j h = ground arith
get_or-memcpy [] zero (x ∷ xs) j h = absurd (omega arith)
get_or-memcpy (b ∷ buf) zero (x ∷ xs) zero h = ground arith
get_or-memcpy (b ∷ buf) zero (x ∷ xs) (suc j) h =
    ground (arith, get_or-memcpy buf zero xs j (omega arith))
get_or-memcpy [] (suc i) [] j h = absurd (omega arith)
get_or-memcpy [] (suc i) (x ∷ xs) j h = absurd (omega arith)
get_or-memcpy (b ∷ buf) (suc i) xs zero h = ground arith
get_or-memcpy (b ∷ buf) (suc i) xs (suc j) h =
    ground (arith, get_or-memcpy buf i xs j (omega arith))

-- The `n` bytes from `i`.
pub length-take-drop : (xs : List ℕ) (i n : ℕ) → i + n ≤ length xs → length (take n (drop i xs)) ≡ n
length-take-drop xs zero zero h = refl
length-take-drop [] zero (suc n) h = absurd (omega arith)
length-take-drop (x ∷ xs) zero (suc n) h = ap suc (length-take-drop xs zero n (omega arith))
length-take-drop [] (suc i) zero h = refl
length-take-drop [] (suc i) (suc n) h = absurd (omega arith)
length-take-drop (x ∷ xs) (suc i) n h = length-take-drop xs i n (omega arith)

pub get_or-take-drop :
    (xs : List ℕ) (i n k : ℕ)
    → k < n
    → i + n ≤ length xs
    → get_or (take n (drop i xs)) k 0 ≡ get_or xs (i + k) 0
get_or-take-drop xs zero zero k h e = absurd (omega arith)
get_or-take-drop [] i (suc n) k h e = absurd (omega arith)
get_or-take-drop (x ∷ xs) zero (suc n) zero h e = ground arith
get_or-take-drop (x ∷ xs) zero (suc n) (suc k) h e =
    ground (arith, get_or-take-drop xs zero n k (omega arith) (omega arith))
get_or-take-drop (x ∷ xs) (suc i) (suc n) k h e =
    ground (arith, get_or-take-drop xs i (suc n) k h (omega arith))
get_or-take-drop xs (suc i) zero k h e = absurd (omega arith)
