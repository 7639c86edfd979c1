-- ===== src/Path/Normalize/Spec.antt =====
-- src/nth_path.c: the text that `nth_path_normalize` makes, by the segments of the path.
use narthex.Prelude.{
  ℕ, suc, Bool, false, ◌&&◌, List, [], ◌∷◌, ◌++◌, ltb, ◌==◌, if◌then◌else◌, length, get_or,
}
use narthex.Path.{path_sep, path_is_sep}

-- The parts of a text between separators, `cur` being the start of the first; no part is empty.
abbrev pub part_of : List ℕ → List (List ℕ)
part_of [] = []
part_of (c ∷ cur) = (c ∷ cur) ∷ []

unfoldable pub split_on_seps : List ℕ → List ℕ → List (List ℕ)
split_on_seps cur [] = part_of cur
split_on_seps cur (c ∷ t) =
    let stop = part_of cur ++ split_on_seps [] t in
    let more = split_on_seps (cur ++ (c ∷ [])) t in if path_is_sep c then stop else more

abbrev pub is_dot : List ℕ → Bool
is_dot s = (length s == 1) && (get_or s 0 0 == b'.')

abbrev pub is_dot_dot : List ℕ → Bool
is_dot_dot s = (length s == 2) && (get_or s 0 0 == b'.') && (get_or s 1 0 == b'.')

-- The parts that stay, the last one first; the first `real` of them can be taken back by "..".
pub record Parts : Type 0 where
  pub parts : List (List ℕ)
  pub real : ℕ

abbrev pub take_back : Bool → Parts → List ℕ → List (List ℕ) → ℕ → Parts
take_back absolute p s (_ ∷ ps) (suc r) = record { parts = ps; real = r }
take_back absolute p s _ _ = if absolute then p else record p { parts = s ∷ p.parts }

unfoldable pub step_part : Bool → Parts → List ℕ → Parts
step_part absolute p s =
    if is_dot s
    then p
    else if is_dot_dot s
    then take_back absolute p s p.parts p.real
    else record { parts = s ∷ p.parts; real = suc p.real }

unfoldable pub walk_parts : Bool → Parts → List (List ℕ) → Parts
walk_parts absolute p [] = p
walk_parts absolute p (s ∷ ss) = walk_parts absolute (step_part absolute p s) ss

-- The parts behind the root, with a separator between two.
unfoldable pub render : List ℕ → List (List ℕ) → List ℕ
render root [] = root
render root (s ∷ ss) =
    let front = render root ss in
    (if ltb (length root) (length front) then front ++ (path_sep ∷ []) else front) ++ s

abbrev pub is_rooted : List ℕ → Bool
is_rooted [] = false
is_rooted (c ∷ t) = path_is_sep c

abbrev pub root_of : List ℕ → List ℕ
root_of t = if is_rooted t then path_sep ∷ [] else []

unfoldable pub normal : List ℕ → List ℕ
normal t =
    let kept = walk_parts (is_rooted t) (record { parts = []; real = 0 }) (split_on_seps [] t) in
    let text = render (root_of t) kept.parts in if length text == 0 then b'.' ∷ [] else text
