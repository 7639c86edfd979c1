-- ===== src/Prelude/Shows.antt =====
-- A list that has the elements of another from some place on.
use narthex.Prelude.Lists.{length, length-append, get_or}
use narthex.Prelude.Tests.{ltb, if◌then◌else◌}
use Prim.Native.Nat.{ℕ, zero, suc, ◌+◌, ◌-◌, ◌≤◌, ◌<◌}
use mathlib.Core.Path.{◌≡◌}
use mathlib.Core.List.{List, [], ◌∷◌, ◌++◌}
use native.Mathlib.Omega.{arith}

pub get_or-append_if :
    (xs ys : List ℕ) (k d : ℕ)
    → get_or (xs ++ ys) k d
      ≡ (if ltb k (length xs) then get_or xs k d else get_or ys (k - length xs) d)
get_or-append_if [] ys k d = ground arith
get_or-append_if (x ∷ xs) ys zero d = ground arith
get_or-append_if (x ∷ xs) ys (suc k) d = ground (arith, get_or-append_if xs ys k d)

-- `text` has the bytes `l` from `i` on.
pub record Shows (text : List ℕ) (i : ℕ) (l : List ℕ) : Type 0 where
  pub ends : i + length l ≤ length text
  pub byte : (k : ℕ) → k < length l → get_or text (i + k) 0 ≡ get_or l k 0

pub Shows-at :
    (t : List ℕ) (i : ℕ) (l : List ℕ) (x : ℕ)
    → Shows t i l
    → i ≤ x
    → x < i + length l
    → get_or t x 0 ≡ get_or l (x - i) 0
Shows-at t i l x h a b =
    let e : i + (x - i) ≡ x = omega arith in rw e at (h.byte (x - i) (omega arith))

pub Shows-append : (t : List ℕ) (i : ℕ) (l m : List ℕ) → Shows t i l → Shows (t ++ m) i l
Shows-append t i l m h = record {
  ends = omega (arith, h.ends, length-append t m);
  byte = λ k lt. ground (arith, get_or-append_if t m (i + k) 0, h.ends, h.byte k lt);
}

pub Shows-last : (t l : List ℕ) (i : ℕ) → i ≡ length t → Shows (t ++ l) i l
Shows-last t l i e = record {
  ends = omega (arith, e, length-append t l);
  byte = λ k lt. ground (arith, e, get_or-append_if t l (i + k) 0);
}
