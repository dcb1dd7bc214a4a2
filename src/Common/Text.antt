-- ===== src/Common/Text.antt =====
-- Go strings as lists of bytes: package strings, and the decimal forms of strconv. White space is that
-- of ASCII.
pub mod Lines
pub mod Decimal
pub mod Path
use Prim.Native.Char.{code}
use Prim.Native.String.{String}
use Prim.Native.Nat.{ℕ, zero, suc, ◌+◌, ◌-◌}
use mathlib.Core.Bool.{Bool, true, false, not, ◌&&◌, ◌||◌}
use mathlib.Core.Option.{Option, none, some}
use mathlib.Core.List.{List, [], ◌∷◌, ◌++◌, reverse}
use go_runit.Common.Tests.{leb, ◌==◌, if◌then◌else◌}

-- The bytes of an ASCII literal.
abbrev pub codes : String → List ℕ
codes String.[] = []
codes (String.◌∷◌ c s) = code c ∷ codes s

-- `s == t`
abbrev pub equal : List ℕ → List ℕ → Bool
equal [] [] = true
equal (x ∷ xs) (y ∷ ys) = x == y && equal xs ys
equal _ _ = false

abbrev pub is_empty : List ℕ → Bool
is_empty [] = true
is_empty (c ∷ cs) = false

-- `strings.HasPrefix(s, p)`, `strings.TrimPrefix(s, p)`
abbrev pub has_prefix : List ℕ → List ℕ → Bool
has_prefix s [] = true
has_prefix [] (p ∷ ps) = false
has_prefix (c ∷ s) (p ∷ ps) = c == p && has_prefix s ps

abbrev pub drop_prefix : List ℕ → List ℕ → List ℕ
drop_prefix s [] = s
drop_prefix [] (p ∷ ps) = []
drop_prefix (c ∷ s) (p ∷ ps) = drop_prefix s ps

pub trim_prefix : List ℕ → List ℕ → List ℕ
trim_prefix s p = if has_prefix s p then drop_prefix s p else s

-- `strings.Contains(s, p)`
pub contains : List ℕ → List ℕ → Bool
contains [] p = is_empty p
contains (c ∷ s) p = has_prefix (c ∷ s) p || contains s p

-- Tab, line feed, vertical tab, form feed, carriage return and space.
abbrev pub is_space : ℕ → Bool
is_space c = c == 32 || leb 9 c && leb c 13

unfoldable pub trim_left : List ℕ → List ℕ
trim_left [] = []
trim_left (c ∷ cs) = let rest = trim_left cs in if is_space c then rest else c ∷ cs

-- `strings.TrimSpace`: from the end on, a space goes if nothing but spaces follows it.
abbrev pub keep_unless_space : ℕ → List ℕ → List ℕ
keep_unless_space c [] = if is_space c then [] else c ∷ []
keep_unless_space c (d ∷ ds) = c ∷ d ∷ ds

unfoldable pub trim_right : List ℕ → List ℕ
trim_right [] = []
trim_right (c ∷ cs) = keep_unless_space c (trim_right cs)

unfoldable pub trim_space : List ℕ → List ℕ
unfolding trim_left trim_right
trim_space s = trim_right (trim_left s)

-- `strings.Split(s, sep)` for one byte: a list that is never empty.
abbrev pub onto_first : ℕ → List (List ℕ) → List (List ℕ)
onto_first c [] = (c ∷ []) ∷ []
onto_first c (w ∷ ws) = (c ∷ w) ∷ ws

unfoldable pub split : List ℕ → ℕ → List (List ℕ)
split [] sep = [] ∷ []
split (c ∷ cs) sep = let rest = split cs sep in if c == sep then [] ∷ rest else onto_first c rest

-- `strings.SplitN(s, sep, 2)`: the parts on either side of the first separator, if there is one.
abbrev pub in_front : ℕ → Option (List ℕ × List ℕ) → Option (List ℕ × List ℕ)
in_front c none = none
in_front c (some (k, v)) = some (c ∷ k, v)

unfoldable pub split_first : List ℕ → ℕ → Option (List ℕ × List ℕ)
split_first [] sep = none
split_first (c ∷ cs) sep =
    let rest = split_first cs sep in if c == sep then some ([], cs) else in_front c rest

-- `strings.Fields`: `inside` tells whether the byte before belongs to a word.
abbrev pub drop_empty : List (List ℕ) → List (List ℕ)
drop_empty [] = []
drop_empty ([] ∷ ws) = drop_empty ws
drop_empty ((c ∷ w) ∷ ws) = (c ∷ w) ∷ drop_empty ws

split_spaces : List ℕ → List (List ℕ)
split_spaces [] = [] ∷ []
split_spaces (c ∷ cs) =
    let rest = split_spaces cs in if is_space c then [] ∷ rest else onto_first c rest

unfoldable pub fields : List ℕ → List (List ℕ)
unfolding split_spaces
fields s = drop_empty (split_spaces s)
