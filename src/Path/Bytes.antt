-- ===== src/Path/Bytes.antt =====
-- C's copies into a byte array, and the allocator of libc that a path takes its array from.
use native.Mathlib.Nat.{zero-add}
use narthex.Prelude.{
  ◌+◌, ◌<◌, ◌∙◌, take, drop, set, get_or, ℕ, zero, suc, ◌≡◌, refl, ap, Option, some, List, [], ◌∷◌,
  ◌++◌, arith, length,
}

-- `memcpy(&buf[i], xs, n)` for the `n` bytes `xs`. A write past the end of `buf` is dropped: the
-- theorems on what a path holds afterwards show that there is none.
unfoldable pub memcpy : List ℕ → ℕ → List ℕ → List ℕ
memcpy buf zero [] = buf
memcpy [] zero (x ∷ xs) = []
memcpy (b ∷ buf) zero (x ∷ xs) = x ∷ memcpy buf zero xs
memcpy [] (suc i) xs = []
memcpy (b ∷ buf) (suc i) xs = b ∷ memcpy buf i xs

-- `malloc n` is a block of `n` bytes of any contents, or NULL. `realloc` keeps what a block held
-- and adds bytes of any contents: `more n` is what it adds when a block grows by `n`.
pub record Malloc : Type 0 where
  pub malloc : ℕ → Option (List ℕ)
  pub length-malloc : (n : ℕ) (xs : List ℕ) → malloc n ≡ some xs → length xs ≡ n
  pub more : ℕ → Option (List ℕ)
  pub length-more : (n : ℕ) (xs : List ℕ) → more n ≡ some xs → length xs ≡ n

-- Copying a text to the front of a block and terminating it.
overwrite_front :
    (block t : List ℕ)
    → length t < length block
    → set (memcpy block 0 t) (length t) 0 ≡ t ++ (0 ∷ drop (suc (length t)) block)
unfolding memcpy
overwrite_front [] t h = absurd (omega arith)
overwrite_front (b ∷ block) [] h = refl
overwrite_front (b ∷ block) (x ∷ t) h = ap (◌∷◌ x) (overwrite_front block t (omega arith))

-- The same behind what the block keeps.
pub overwrite :
    (front block t : List ℕ) (end : ℕ)
    → length t < length block
    → end ≡ length front + length t
    → set (memcpy (front ++ block) (length front) t) end 0
      ≡ front ++ (t ++ (0 ∷ drop (suc (length t)) block))
unfolding memcpy
overwrite [] block t end h e =
    ap (λ n. set (memcpy block 0 t) n 0) (e ∙ zero-add (length t)) ∙ overwrite_front block t h
overwrite (a ∷ front) block t zero h e = absurd (omega arith)
overwrite (a ∷ front) block t (suc end) h e =
    ap (◌∷◌ a) (overwrite front block t end h (omega arith))

pub get_or-append :
    (xs ys : List ℕ) (i d : ℕ) → i < length xs → get_or (xs ++ ys) i d ≡ get_or xs i d
get_or-append [] ys i d h = absurd (omega arith)
get_or-append (x ∷ xs) ys zero d h = refl
get_or-append (x ∷ xs) ys (suc i) d h = get_or-append xs ys i d (omega arith)

pub set-append :
    (front ys : List ℕ) (y v : ℕ) → set (front ++ (y ∷ ys)) (length front) v ≡ front ++ (v ∷ ys)
set-append [] ys y v = refl
set-append (x ∷ front) ys y v = ap (◌∷◌ x) (set-append front ys y v)

pub take-length : (xs : List ℕ) → take (length xs) xs ≡ xs
take-length [] = refl
take-length (x ∷ xs) = ap (◌∷◌ x) (take-length xs)

pub take-append_self : (xs ys : List ℕ) → take (length xs) (xs ++ ys) ≡ xs
take-append_self [] ys = refl
take-append_self (x ∷ xs) ys = ap (◌∷◌ x) (take-append_self xs ys)
