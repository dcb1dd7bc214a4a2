-- ===== src/Common/Text/Path.antt =====
-- `filepath.Clean` and `filepath.Join` of two elements, for the separator `/`.
use Prim.Native.Nat.{ℕ}
use mathlib.Core.Bool.{Bool, true, false, ◌||◌}
use mathlib.Core.List.{List, [], ◌∷◌, ◌++◌}
use go_runit.Common.Tests.{◌==◌, if◌then◌else◌}
use go_runit.Common.Text.{codes, equal, is_empty, split}

-- `..` against the segments so far, the last one first.
abbrev parent : Bool → List (List ℕ) → List (List ℕ)
parent true [] = []
parent false [] = codes ".." ∷ []
parent rooted (top ∷ rest) = if equal top (codes "..") then codes ".." ∷ top ∷ rest else rest

abbrev enter : Bool → List (List ℕ) → List ℕ → List (List ℕ)
enter rooted stack seg =
    if is_empty seg || equal seg (codes ".")
    then stack
    else if equal seg (codes "..")
    then parent rooted stack
    else seg ∷ stack

unfoldable pub walk : Bool → List (List ℕ) → List (List ℕ) → List (List ℕ)
walk rooted stack [] = stack
walk rooted stack (seg ∷ segs) = walk rooted (enter rooted stack seg) segs

-- The segments, the last one first, with separators between them.
unfoldable pub path_text : List (List ℕ) → List ℕ
path_text [] = []
path_text (s ∷ []) = s
path_text (s ∷ t ∷ stack) = path_text (t ∷ stack) ++ b'/' ∷ s

abbrev is_rooted : List ℕ → Bool
is_rooted [] = false
is_rooted (c ∷ cs) = c == b'/'

abbrev dot_if_empty : List ℕ → List ℕ
dot_if_empty [] = codes "."
dot_if_empty (c ∷ cs) = c ∷ cs

unfoldable pub clean : List ℕ → List ℕ
clean p =
    let rooted = is_rooted p in
    let text = path_text (walk rooted [] (split p b'/')) in
    if rooted then b'/' ∷ text else dot_if_empty text

unfoldable pub join_path : List ℕ → List ℕ → List ℕ
join_path [] [] = []
join_path [] (c ∷ cs) = clean (c ∷ cs)
join_path (c ∷ cs) name = clean ((c ∷ cs) ++ b'/' ∷ name)
