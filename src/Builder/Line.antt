-- ===== src/Builder/Line.antt =====
-- A line of quoted words, read by the quoting rules of the POSIX shell.
use mathlib.Core.List.{append-nil, append_assoc}
use go_runit.Common.{
  ℕ, ◌≡◌, ◌≢◌, ◌∙◌, refl, sym, ap, Bool, true, false, not, ◌&&◌, Option, none, some, List, [], ◌∷◌,
  ◌++◌, map, if◌then◌else◌, ◌==◌, ==_iff, Bool-cases, arith, get_or, inl, inr,
}
use go_runit.Wire.{Bytes}
use go_runit.Builder.{
  contains_rune, special_chars, needs_shell_quoting, replace_quotes, shell_quote, join_words,
  build_finish_script, finish_prefix,
}
use go_runit.Builder.Quoting.{Mode, plain, quoted, escaped, active_chars, plain-ordinary}

-- A word cannot start with `#`, which starts a comment; a second space is not expected.
abbrev pub starts : Bytes → Bool
starts [] = false
starts (c ∷ cs) = not (c == b'#') && not (c == 32)

abbrev pub begin_word : Bool → Option (List Bytes) → Option (List Bytes)
begin_word true (some ws) = some ([] ∷ ws)
begin_word _ _ = none

abbrev pub extend : ℕ → Option (List Bytes) → Option (List Bytes)
extend c (some (w ∷ ws)) = some ((c ∷ w) ∷ ws)
extend c _ = none

-- The words of a text, the first one begun: single spaces part them, and a text with an expansion, an
-- operator or an open quote has none.
unfoldable pub read_words : Mode → Bytes → Option (List Bytes)
read_words plain [] = some ([] ∷ [])
read_words plain (c ∷ cs) =
    let in_quotes = read_words quoted cs in
    let behind = read_words escaped cs in
    let rest = read_words plain cs in
    if c == 39
    then in_quotes
    else if c == 92
    then behind
    else if c == 32
    then begin_word (starts cs) rest
    else if contains_rune active_chars c
    then none
    else extend c rest
read_words quoted [] = none
read_words quoted (c ∷ cs) =
    let rest = read_words plain cs in
    let more = read_words quoted cs in if c == 39 then rest else extend c more
read_words escaped [] = none
read_words escaped (c ∷ cs) = extend c (read_words plain cs)

unfoldable pub read_line : Bytes → Option (List Bytes)
read_line cs = if starts cs then read_words plain cs else none

abbrev glue : Bytes → Option (List Bytes) → Option (List Bytes)
glue [] r = r
glue (c ∷ cs) r = extend c (glue cs r)

glue-some : (w x : Bytes) (xs : List Bytes) → glue w (some (x ∷ xs)) ≡ some ((w ++ x) ∷ xs)
glue-some [] x xs = refl
glue-some (c ∷ cs) x xs = rw (glue-some cs x xs) refl

read_words-replace_quotes :
    (s t : Bytes) → read_words quoted (replace_quotes s ++ 39 ∷ t) ≡ glue s (read_words plain t)
unfolding read_words replace_quotes
read_words-replace_quotes [] t = refl
read_words-replace_quotes (c ∷ cs) t = elim (Bool-cases (c == 39)) [
  | inl e ↦
      rw (e, read_words-replace_quotes cs t)
        (ap (λ x. extend x (glue cs (read_words plain t))) (omega (arith, (==_iff c 39).0 e)))
  | inr e ↦ rw (e, e, read_words-replace_quotes cs t) refl
]

not-space : (c : ℕ) → contains_rune special_chars c ≡ false → c ≢ 32
unfolding contains_rune
not-space c h = ground arith

read_words-plain :
    (s t : Bytes)
    → needs_shell_quoting s ≡ false
    → read_words plain (s ++ t) ≡ glue s (read_words plain t)
unfolding read_words needs_shell_quoting
read_words-plain [] t h = refl
read_words-plain (c ∷ cs) t h = elim (Bool-cases (contains_rune special_chars c)) [
  | inl e ↦ absurd (ground (arith, e))
  | inr e ↦ ground (arith, plain-ordinary c e, not-space c e, read_words-plain cs t (rw e at h))
]

read_words-shell_quote :
    (s t : Bytes) → read_words plain (shell_quote s ++ t) ≡ glue s (read_words plain t)
unfolding shell_quote read_words
read_words-shell_quote [] t = refl
read_words-shell_quote (c ∷ cs) t = elim (Bool-cases (needs_shell_quoting (c ∷ cs))) [
  | inl e ↦
      rw (e, append_assoc (replace_quotes (c ∷ cs)) (39 ∷ []) t)
        (read_words-replace_quotes (c ∷ cs) t)
  | inr e ↦ rw e (read_words-plain (c ∷ cs) t e)
]

head-plain :
    (c : ℕ) (cs : Bytes)
    → needs_shell_quoting (c ∷ cs) ≡ false
    → contains_rune special_chars c ≡ false
unfolding needs_shell_quoting
head-plain c cs h = elim (Bool-cases (contains_rune special_chars c)) [
  | inl e ↦ absurd (ground (arith, e))
  | inr e ↦ e
]

starts-shell_quote : (s t : Bytes) → get_or s 0 0 ≢ b'#' → starts (shell_quote s ++ t) ≡ true
unfolding shell_quote
starts-shell_quote [] t h = refl
starts-shell_quote (c ∷ cs) t h = elim (Bool-cases (needs_shell_quoting (c ∷ cs))) [
  | inl e ↦ rw e refl
  | inr e ↦ rw e (ground (arith, h, not-space c (head-plain c cs e)))
]

-- None of the words starts with `#`.
abbrev pub NoHash : List Bytes → Type 0
NoHash [] = Unit
NoHash (w ∷ ws) = (get_or w 0 0 ≢ b'#') × NoHash ws

pub starts-join :
    (w : Bytes) (ws : List Bytes)
    → get_or w 0 0 ≢ b'#'
    → starts (join_words (map shell_quote (w ∷ ws))) ≡ true
unfolding join_words
starts-join w [] h = rw (append-nil (shell_quote w)) at (starts-shell_quote w [] h)
starts-join w (v ∷ ws) h = starts-shell_quote w (32 ∷ join_words (map shell_quote (v ∷ ws))) h

read_words-space :
    (t : Bytes) (ws : List Bytes)
    → starts t ≡ true
    → read_words plain t ≡ some ws
    → read_words plain (32 ∷ t) ≡ some ([] ∷ ws)
unfolding read_words
read_words-space t ws h e = rw (h, e) refl

pub read_words-join :
    (w : Bytes) (ws : List Bytes)
    → NoHash ws
    → read_words plain (join_words (map shell_quote (w ∷ ws))) ≡ some (w ∷ ws)
unfolding join_words read_words
read_words-join w [] h =
    ap (read_words plain) (sym (append-nil (shell_quote w)))
    ∙ read_words-shell_quote w []
    ∙ glue-some w [] []
    ∙ ap (λ x. some (x ∷ [])) (append-nil w)
read_words-join w (v ∷ ws) h =
    let t = join_words (map shell_quote (v ∷ ws)) in
    read_words-shell_quote w (32 ∷ t)
    ∙ ap (glue w) (read_words-space t (v ∷ ws) (starts-join v ws h.0) (read_words-join v ws h.1))
    ∙ glue-some w [] (v ∷ ws)
    ∙ ap (λ x. some (x ∷ v ∷ ws)) (append-nil w)

-- A finish script for a command of at least one word, none of which starts with `#`, is the line
-- `#!/bin/sh` and the line `exec` with a text that a shell reads as exactly the words of the command.
pub build_finish_script_lem :
    (w : Bytes) (ws : List Bytes)
    → NoHash (w ∷ ws)
    → (t : Bytes) × (build_finish_script (w ∷ ws) ≡ finish_prefix ++ t ++ 10 ∷ [])
      × (read_line t ≡ some (w ∷ ws))
unfolding build_finish_script read_line
build_finish_script_lem w ws h = (
  join_words (map shell_quote (w ∷ ws)),
  refl,
  rw (starts-join w ws h.0) (read_words-join w ws h.1),
)
