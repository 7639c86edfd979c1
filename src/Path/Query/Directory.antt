-- ===== src/Path/Query/Directory.antt =====
-- The directory of a path that names a file.
use narthex.Prelude.{ℕ, ◌-◌, ◌≤◌, ◌<◌, ◌≡◌, true, false, List, length, take}
use narthex.Path.Query.{sep_at}

-- `d` is the directory part of the text `t`: `t` starts with `d`, then come separators only up to
-- `name`, and none from there on. A separator at the start stays in `d`, and no other ends it.
pub record IsDirectory (t d : List ℕ) : Type 0 where
  pub size : ℕ
  pub name : ℕ
  pub prefix : d ≡ take size t
  pub order : (size ≤ name) × (name ≤ length t)
  pub gap : (j : ℕ) → size ≤ j → j < name → sep_at t j ≡ true
  pub no_sep : (j : ℕ) → name ≤ j → j < length t → sep_at t j ≡ false
  pub root : sep_at t 0 ≡ true → 0 < size
  pub bare : 1 < size → sep_at t (size - 1) ≡ false
