-- ===== src/Builder.antt =====
-- service_builder.go: the quoting of words for the scripts. A string is its bytes: the special
-- characters are ASCII, so that a test of its runes is one of its bytes.
pub mod Quoting
pub mod Line
pub mod Config
pub mod Store
pub mod Scripts
pub mod Build
pub mod Make
use go_runit.Common.{map, not, ℕ, Bool, true, false, List, [], ◌∷◌, ◌++◌, if◌then◌else◌, ◌==◌, ◌||◌}
use go_runit.Wire.{Bytes}

-- `strings.ContainsRune`
unfoldable pub contains_rune : Bytes → ℕ → Bool
contains_rune [] c = false
contains_rune (x ∷ xs) c = if c == x then true else contains_rune xs c

-- Space, tab, newline, the quotes 39 and 34, backslash 92, and ``$`!*?[](){}<>|&;~``.
abbrev pub special_chars : Bytes
special_chars =
    32 ∷ 9 ∷ 10 ∷ 39 ∷ 34 ∷ 92 ∷ b'$' ∷ 96 ∷ b'!' ∷ b'*' ∷ b'?' ∷ b'[' ∷ b']' ∷ b'(' ∷ b')' ∷ b'{'
    ∷ b'}' ∷ b'<' ∷ b'>' ∷ b'|' ∷ b'&' ∷ b';' ∷ b'~' ∷ []

unfoldable pub needs_shell_quoting : Bytes → Bool
needs_shell_quoting [] = false
needs_shell_quoting (r ∷ rs) =
    if contains_rune special_chars r then true else needs_shell_quoting rs

-- `strings.ReplaceAll` of a quote by: quote, backslash, quote, quote.
unfoldable pub replace_quotes : Bytes → Bytes
replace_quotes [] = []
replace_quotes (c ∷ cs) =
    let rest = replace_quotes cs in if c == 39 then 39 ∷ 92 ∷ 39 ∷ 39 ∷ rest else c ∷ rest

unfoldable pub shell_quote : Bytes → Bytes
shell_quote [] = 39 ∷ 39 ∷ []
shell_quote (c ∷ cs) =
    if not (needs_shell_quoting (c ∷ cs)) then c ∷ cs else 39 ∷ replace_quotes (c ∷ cs) ++ 39 ∷ []

-- `strings.Join(parts, " ")`
unfoldable pub join_words : List Bytes → Bytes
join_words [] = []
join_words (w ∷ []) = w
join_words (w ∷ v ∷ ws) = w ++ 32 ∷ join_words (v ∷ ws)

-- `#!/bin/sh`, a newline and `exec `
abbrev pub finish_prefix : Bytes
finish_prefix =
    b'#' ∷ b'!' ∷ b'/' ∷ b'b' ∷ b'i' ∷ b'n' ∷ b'/' ∷ b's' ∷ b'h' ∷ 10 ∷ b'e' ∷ b'x' ∷ b'e' ∷ b'c'
    ∷ 32 ∷ []

-- `buildFinishScript`, for the command `finish`.
unfoldable pub build_finish_script : List Bytes → Bytes
build_finish_script finish = finish_prefix ++ join_words (map shell_quote finish) ++ 10 ∷ []
