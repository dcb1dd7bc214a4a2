-- ===== src/Builder/Quoting.antt =====
-- Quoted words, read by the quoting rules of the POSIX Shell Command Language (2.2 Quoting).
use go_runit.Common.{
  inl, inr, ℕ, ◌≡◌, ◌≢◌, refl, ap, false, Option, none, some, [], ◌∷◌, ◌++◌, if◌then◌else◌, ◌==◌,
  ==_iff, Bool-cases, arith, get_or,
}
use go_runit.Wire.{Bytes}
use go_runit.Builder.{
  contains_rune, special_chars, needs_shell_quoting, replace_quotes, shell_quote,
}

-- Outside quotes, between single quotes, and behind a backslash.
pub data Mode : Type 0 where
  plain quoted escaped : Mode

-- The characters that end, expand or quote a word unless they are quoted themselves:
-- ``|&;<>()$` "*?[~``, tab, newline, and, read by the modes, the single quote and the backslash.
abbrev pub active_chars : Bytes
active_chars =
    b'|' ∷ b'&' ∷ b';' ∷ b'<' ∷ b'>' ∷ b'(' ∷ b')' ∷ b'$' ∷ 96 ∷ 32 ∷ 34 ∷ b'*' ∷ b'?' ∷ b'[' ∷ b'~'
    ∷ 9 ∷ 10 ∷ []

abbrev prepend : ℕ → Option Bytes → Option Bytes
prepend c none = none
prepend c (some w) = some (c ∷ w)

-- The value of a text that is one word with no expansion, and none for any other.
pub read : Mode → Bytes → Option Bytes
unfolding contains_rune
read plain [] = some []
read plain (c ∷ cs) =
    let in_quotes = read quoted cs in
    let behind = read escaped cs in
    let rest = read plain cs in
    if c == 39
    then in_quotes
    else if c == 92
    then behind
    else if contains_rune active_chars c
    then none
    else prepend c rest
read quoted [] = none
read quoted (c ∷ cs) =
    let rest = read plain cs in
    let more = read quoted cs in if c == 39 then rest else prepend c more
read escaped [] = none
read escaped (c ∷ cs) = prepend c (read plain cs)

-- A word that starts with `#` is a comment, and no text is no word.
unfoldable pub read_word : Bytes → Option Bytes
read_word [] = none
read_word (c ∷ cs) = if c == b'#' then none else read plain (c ∷ cs)

read-replace_quotes : (s : Bytes) → read quoted (replace_quotes s ++ 39 ∷ []) ≡ some s
unfolding read replace_quotes
read-replace_quotes [] = refl
read-replace_quotes (c ∷ cs) = elim (Bool-cases (c == 39)) [
  | inl e ↦
      rw (e, read-replace_quotes cs) (ap (λ x. some (x ∷ cs)) (omega (arith, (==_iff c 39).0 e)))
  | inr e ↦ rw (e, e, read-replace_quotes cs) refl
]

-- A character that needs no quoting stands for itself.
pub plain-ordinary :
    (c : ℕ)
    → contains_rune special_chars c ≡ false
    → (c ≢ 39) × (c ≢ 92) × (contains_rune active_chars c ≡ false)
unfolding contains_rune
plain-ordinary c h = ground arith

read-plain : (s : Bytes) → needs_shell_quoting s ≡ false → read plain s ≡ some s
unfolding read needs_shell_quoting
read-plain [] h = refl
read-plain (c ∷ cs) h = elim (Bool-cases (contains_rune special_chars c)) [
  | inl e ↦ absurd (ground (arith, e))
  | inr e ↦ ground (arith, plain-ordinary c e, read-plain cs (rw e at h))
]

-- A word that does not start with `#` is quoted so that a shell reads it back, whatever bytes it has.
pub read_word-shell_quote : (s : Bytes) → get_or s 0 0 ≢ b'#' → read_word (shell_quote s) ≡ some s
unfolding read_word shell_quote read
read_word-shell_quote [] h = refl
read_word-shell_quote (c ∷ cs) h = elim (Bool-cases (needs_shell_quoting (c ∷ cs))) [
  | inl e ↦ rw e (read-replace_quotes (c ∷ cs))
  | inr e ↦ rw e (ground (arith, h, read-plain (c ∷ cs) e))
]
