-- ===== src/System/Tests.antt =====
-- Two threads that ask for the working directory; the second one spins until the first is done.
use narthex.Prelude.{ℕ, ◌≡◌, ◌≢◌, refl, some, List, [], ◌∷◌, arith, take, ltb, true, if◌then◌else◌}
use narthex.System.{Event, call, go_on, computed, got, at_compute, start, step, run, fs_cached_get}
use narthex.System.Exe.{
  value, strip_name, directory_of, fs_compute_exe, IsBeforeName, fs_compute_exe-IsBeforeName,
}
use narthex.System.Cwd.{answer, too_small, fs_compute_cwd, fs_compute_cwd-dir}
use narthex.System.Agree.{run-agree}
use narthex.Core.{nth_lifecycle_is_alive, nth_lifecycle_begin_init, nth_lifecycle_end_init}

-- "/a"
abbrev dir : List ℕ
dir = 47 ∷ 97 ∷ []

abbrev first_call : List (ℕ × Event)
first_call =
    (0, call)
    ∷ (0, go_on)
    ∷ (0, go_on)
    ∷ (1, call)
    ∷ (1, go_on)
    ∷ (1, go_on)
    ∷ (0, computed dir)
    ∷ (0, go_on)
    ∷ (0, go_on)
    ∷ []

abbrev second_call : List (ℕ × Event)
second_call = (1, go_on) ∷ (1, go_on) ∷ []

first-got : (run start first_call).place 0 ≡ got (some dir)
unfolding run step fs_cached_get nth_lifecycle_is_alive nth_lifecycle_begin_init
    nth_lifecycle_end_init
first-got = refl

second-got : (run (run start first_call) second_call).place 1 ≡ got (some dir)
unfolding run step fs_cached_get nth_lifecycle_is_alive nth_lifecycle_begin_init
    nth_lifecycle_end_init
second-got = refl

run-agree_example :
    (some dir ≡ some dir)
    × ((v : List ℕ) × (some dir ≡ some v))
    × ((k : ℕ) → (run (run start first_call) second_call).place k ≢ at_compute)
run-agree_example = run-agree first_call second_call 0 1 (some dir) (some dir) first-got second-got

-- "/opt/narthex"
abbrev program : List ℕ
program = 47 ∷ 111 ∷ 112 ∷ 116 ∷ 47 ∷ 110 ∷ 97 ∷ 114 ∷ 116 ∷ 104 ∷ 101 ∷ 120 ∷ []

program-directory : directory_of program ≡ 47 ∷ 111 ∷ 112 ∷ 116 ∷ []
unfolding directory_of strip_name
program-directory = refl

-- "/a", a program in the root.
in_root-directory : directory_of dir ≡ []
unfolding directory_of strip_name
in_root-directory = refl

fs_compute_exe-IsBeforeName_example :
    (d : List ℕ) × (fs_compute_exe (λ n. some (take n program)) (λ n. true) true 2 ≡ some (value d))
    × IsBeforeName program d
fs_compute_exe-IsBeforeName_example =
    fs_compute_exe-IsBeforeName (λ n. some (take n program)) (λ n. true) program 1 (λ n. refl)
      (λ n. refl) (omega arith) (omega arith)

fs_compute_cwd-dir_example :
    fs_compute_cwd (λ n. if ltb 2 n then answer dir else too_small) (λ n. true) true 2
    ≡ some (value dir)
fs_compute_cwd-dir_example =
    fs_compute_cwd-dir (λ n. if ltb 2 n then answer dir else too_small) (λ n. true) dir 1
      (λ n. refl) (λ n. refl) (omega arith) (omega arith)
