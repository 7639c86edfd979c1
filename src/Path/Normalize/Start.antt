-- ===== src/Path/Normalize/Start.antt =====
-- src/nth_path.c: where the loop of `nth_path_normalize` starts, and what it leaves behind.
use narthex.Prelude.{
  ℕ, suc, ◌+◌, ◌<◌, ◌≡◌, refl, true, false, List, [], ◌∷◌, ◌++◌, arith, length, length-append, drop,
  set, get_or, ◌==◌, if◌then◌else◌,
}
use narthex.Prelude.Shows.{Shows, get_or-append_if}
use narthex.Path.{path_sep, path_is_sep}
use narthex.Path.Normalize.{Work, seps_end, initial_cap}
use narthex.Path.Normalize.Spec.{Parts, split_on_seps, walk_parts, render, is_rooted, normal}
use narthex.Path.Normalize.Scan.{skip, split-skip, seps_end_lem, Shows-skip, length-skip}
use narthex.Path.Normalize.Rounds.{Ready}

-- The bytes of a text with the NUL behind them.
pub set-end :
    (b t : List ℕ)
    → length t < length b
    → ((k : ℕ) → k < length t → get_or b k 0 ≡ get_or t k 0)
    → set b (length t) 0 ≡ t ++ (0 ∷ drop (suc (length t)) b)
set-end [] t h e = absurd (omega arith)
set-end (x ∷ b) [] h e = refl
set-end (x ∷ b) (c ∷ t) h e =
    λ i. e 0 (omega arith) i ∷ set-end b t (omega arith) (λ k lt. e (suc k) (omega arith)) i

abbrev pub start : List ℕ → ℕ → Work
start buf write = record { buf = buf; write = write; stack = []; stack_cap = initial_cap }

abbrev pub nothing : Parts
nothing = record { parts = []; real = 0 }

-- A relative text starts with no root.
pub relative-Ready : (t rest : List ℕ) → Ready [] t (length t) 0 (start (t ++ (0 ∷ rest)) 0) nothing
unfolding render
relative-Ready t rest = record {
  written = record {
    write_is = refl;
    out = λ k lt. absurd (omega arith);
    stack_is = refl;
    enough = omega arith;
  };
  at_end = omega arith;
  inside = omega (arith, length-append t (0 ∷ rest));
  left = record {
    ends = omega (arith, length-append t (0 ∷ rest));
    byte = λ k lt. ground (arith, get_or-append_if t (0 ∷ rest) k 0);
  };
  behind = omega arith;
  gap = λ h left. absurd (omega arith);
}

-- An absolute one with one separator, and the loop behind the separators it starts with.
module _ (u rest : List ℕ) where
  abbrev pub rooted : List ℕ
  rooted = path_sep ∷ (u ++ (0 ∷ rest))

  rooted_left : Shows rooted 1 u
  rooted_left = record {
    ends = omega (arith, length-append u (0 ∷ rest));
    byte = λ k lt.
        let e : 1 + k ≡ suc k = omega arith in
        rw e (ground (arith, get_or-append_if u (0 ∷ rest) k 0));
  }

  pub absolute-Ready :
      Ready
        (path_sep ∷ [])
        (skip u)
        (suc (length u))
        (seps_end rooted (length u) 1)
        (start rooted 1)
        nothing
  unfolding render
  absolute-Ready = record {
    written = record {
      write_is = refl;
      out = λ k lt. ground arith;
      stack_is = refl;
      enough = omega arith;
    };
    at_end = omega (arith, seps_end_lem rooted 1 u rooted_left);
    inside = omega (arith, length-append u (0 ∷ rest));
    left =
        Shows-skip rooted 1 (seps_end rooted (length u) 1) u rooted_left
          (seps_end_lem rooted 1 u rooted_left);
    behind = omega (arith, seps_end_lem rooted 1 u rooted_left, length-skip u);
    gap = λ h left. absurd (omega (arith, h));
  }

abbrev pub tidy : List ℕ → List ℕ
tidy t = if length t == 0 then b'.' ∷ [] else t

pub normal-rooted :
    (c : ℕ) (u : List ℕ)
    → path_is_sep c ≡ true
    → normal (c ∷ u)
      ≡ tidy (render (path_sep ∷ []) (walk_parts true nothing (split_on_seps [] (skip u))).parts)
unfolding normal split_on_seps
normal-rooted c u sep = rw (sep, split-skip u) refl

pub normal-relative :
    (t : List ℕ)
    → is_rooted t ≡ false
    → normal t ≡ tidy (render [] (walk_parts false nothing (split_on_seps [] t)).parts)
unfolding normal
normal-relative t e = rw e refl
