-- ===== src/Tests/Words.antt =====
-- Quoted words.
use go_runit.Common.{◌++◌, ◌≡◌, refl, none, some, [], ◌∷◌, arith}
use go_runit.Builder.Line.{read_line, build_finish_script_lem}
use go_runit.Builder.{
  build_finish_script, finish_prefix, shell_quote, needs_shell_quoting, contains_rune,
}
use go_runit.Wire.{Bytes}
use go_runit.Builder.Quoting.{read_word}

-- `it's $x`
abbrev words : Bytes
words = b'i' ∷ b't' ∷ 39 ∷ b's' ∷ 32 ∷ b'$' ∷ b'x' ∷ []

-- `#x` is left as it is, and starts a comment.
hash_unquoted : read_word (shell_quote (b'#' ∷ b'x' ∷ [])) ≡ none
unfolding read_word shell_quote needs_shell_quoting contains_rune
hash_unquoted = refl

-- `cat` and a word with a space and a quote.
build_finish_script_lem_example :
    (t : Bytes) × (build_finish_script ((b'c' ∷ b'a' ∷ b't' ∷ []) ∷ words ∷ [])
      ≡ finish_prefix ++ t ++ 10 ∷ [])
    × (read_line t ≡ some ((b'c' ∷ b'a' ∷ b't' ∷ []) ∷ words ∷ []))
build_finish_script_lem_example =
    build_finish_script_lem (b'c' ∷ b'a' ∷ b't' ∷ []) (words ∷ []) (omega arith, (omega arith, tt))
