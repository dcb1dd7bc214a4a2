-- ===== src/Systemd/Unit/Words.antt =====
-- The values of a unit file that hold words, read by the quoting rules of systemd: words stand between
-- white space; a word may be in double quotes, within which a backslash starts an escape of C.
use go_runit.Common.{
  ℕ, ◌≡◌, ◌≢◌, ◌∙◌, refl, ap, inl, inr, Bool, false, ◌||◌, Option, none, some, List, [], ◌∷◌, ◌++◌,
  ◌+◌, ◌-◌, ◌*◌, ◌/◌, ◌%◌, ◌==◌, ltb, if◌then◌else◌, Bool-cases, arith, append_assoc, ==_iff, ◌<◌,
}
use go_runit.Wire.{Bytes}
use go_runit.Builder.{contains_rune}
use go_runit.Systemd.Unit.{
  hex_digit, quote_byte, quote_bytes, contains_any, quoted_arg, rest_args, escape_quotes,
}

data Mode : Type 0 where
  between in_word in_quotes in_escape in_hex : Mode
  in_digit : ℕ → Mode

-- Space, tab, newline and carriage return.
abbrev is_blank : ℕ → Bool
is_blank c = c == 32 || c == 9 || c == 10 || c == 13

-- The byte that a letter behind a backslash stands for; a quote and a backslash for themselves.
abbrev escape_byte : ℕ → ℕ
escape_byte c =
    if c == b'a'
    then 7
    else if c == b'b'
    then 8
    else if c == b'f'
    then 12
    else if c == b'n'
    then 10
    else if c == b'r'
    then 13
    else if c == b't'
    then 9
    else if c == b'v'
    then 11
    else c

abbrev digit_value : ℕ → ℕ
digit_value c = if ltb c 58 then c - 48 else c - 87

-- A byte of the word that is being read, and the end of that word.
abbrev onto : ℕ → Option (List Bytes) → Option (List Bytes)
onto c (some (w ∷ ws)) = some ((c ∷ w) ∷ ws)
onto c _ = none

abbrev ended : Option (List Bytes) → Option (List Bytes)
ended (some ws) = some ([] ∷ ws)
ended none = none

-- In a word, the first of the result is what is left of it.
read_mode : Mode → Bytes → Option (List Bytes)
read_mode between [] = some []
read_mode in_word [] = some ([] ∷ [])
read_mode _ [] = none
read_mode between (c ∷ cs) =
    let skipped = read_mode between cs in
    let quoted = read_mode in_quotes cs in
    let started = read_mode in_word cs in
    if is_blank c
    then skipped
    else if c == 34
    then quoted
    else if c == 92
    then none
    else onto c started
read_mode in_word (c ∷ cs) =
    let skipped = read_mode between cs in
    let rest = read_mode in_word cs in
    if is_blank c then ended skipped else if c == 34 || c == 92 then none else onto c rest
read_mode in_quotes (c ∷ cs) =
    let closed = read_mode in_word cs in
    let escaped = read_mode in_escape cs in
    let rest = read_mode in_quotes cs in
    if c == 34 then closed else if c == 92 then escaped else onto c rest
read_mode in_escape (c ∷ cs) =
    let hex = read_mode in_hex cs in
    let rest = read_mode in_quotes cs in if c == b'x' then hex else onto (escape_byte c) rest
read_mode in_hex (c ∷ cs) = read_mode (in_digit c) cs
read_mode (in_digit d) (c ∷ cs) = onto (digit_value d * 16 + digit_value c) (read_mode in_quotes cs)

pub unit_words : Bytes → Option (List Bytes)
unfolding read_mode
unit_words v = read_mode between v

-- A word that needs no quotes: no white space, no double quote and no backslash.
abbrev pub IsBare : Bytes → Type 0
IsBare [] = Unit
IsBare (c ∷ cs) = (is_blank c ≡ false) × ((c == 34) ≡ false) × ((c == 92) ≡ false) × IsBare cs

abbrev after_word : Bytes → Option (List Bytes) → Option (List Bytes)
after_word [] r = r
after_word (c ∷ cs) r = onto c (after_word cs r)

bare-in_word :
    (w rest : Bytes)
    → IsBare w
    → read_mode in_word (w ++ rest) ≡ after_word w (read_mode in_word rest)
unfolding read_mode
bare-in_word [] rest h = refl
bare-in_word (c ∷ cs) rest (a, b, d, h) = rw (a, b, d, bare-in_word cs rest h) refl

bare-between :
    (w rest : Bytes)
    → w ≢ []
    → IsBare w
    → read_mode between (w ++ rest) ≡ after_word w (read_mode in_word rest)
unfolding read_mode
bare-between [] rest e h = absurd (e refl)
bare-between (c ∷ cs) rest e (a, b, d, h) = rw (a, b, d, bare-in_word cs rest h) refl

-- A byte below 32, or 127, by its two digits.
hex_digit-value : (n : ℕ) → n < 16 → digit_value (hex_digit n) ≡ n
hex_digit-value n h = ground (arith, h)

hex_digits-value :
    (c : ℕ) → c < 256 → digit_value (hex_digit (c / 16)) * 16 + digit_value (hex_digit (c % 16)) ≡ c
hex_digits-value c h =
    rw (hex_digit-value (c / 16) (omega (arith, h)), hex_digit-value (c % 16) (omega arith))
      (omega arith)

-- A byte is a given one, or it is not.
one_of : (c d : ℕ) {A : Type 0} → (c ≡ d → A) → ((c == d) ≡ false → A) → A
one_of c d f g = elim (Bool-cases (c == d)) [ inl e ↦ f ((==_iff c d).0 e) | inr e ↦ g e ]

byte-in_quotes :
    (c : ℕ) (rest : Bytes)
    → read_mode in_quotes (quote_byte c ++ rest) ≡ onto c (read_mode in_quotes rest)
unfolding read_mode
byte-in_quotes c rest = elim (Bool-cases (ltb c 32 || c == 127)) [
  | inl e ↦ ground (arith, e, hex_digits-value c)
  | inr e ↦ ground (arith, e)
]

bytes-in_quotes :
    (w rest : Bytes)
    → read_mode in_quotes (quote_bytes w ++ 34 ∷ rest) ≡ after_word w (read_mode in_word rest)
unfolding read_mode quote_bytes
bytes-in_quotes [] rest = refl
bytes-in_quotes (c ∷ cs) rest =
    ap (read_mode in_quotes) (append_assoc (quote_byte c) (quote_bytes cs) (34 ∷ rest))
    ∙ byte-in_quotes c (quote_bytes cs ++ 34 ∷ rest)
    ∙ ap (onto c) (bytes-in_quotes cs rest)

after_word-ended : (w : Bytes) (ws : List Bytes) → after_word w (some ([] ∷ ws)) ≡ some (w ∷ ws)
after_word-ended [] ws = refl
after_word-ended (c ∷ cs) ws = rw (after_word-ended cs ws) refl

-- An argument is not empty and has no carriage return.
abbrev pub IsArgument : Bytes → Type 0
IsArgument w = (w ≢ []) × (contains_rune w 13 ≡ false)

abbrev pub AllArguments : List Bytes → Type 0
AllArguments [] = Unit
AllArguments (w ∷ ws) = IsArgument w × AllArguments ws

-- What is not quoted needs no quotes.
special : Bytes
special = 32 ∷ 9 ∷ 10 ∷ 34 ∷ 39 ∷ 92 ∷ b'$' ∷ []

ordinary-IsBare :
    (w : Bytes) → contains_rune w 13 ≡ false → contains_any w special ≡ false → IsBare w
unfolding contains_any contains_rune special
ordinary-IsBare [] r h = tt
ordinary-IsBare (c ∷ cs) r h = (
  ground (arith, r, h),
  ground (arith, h),
  ground (arith, h),
  ordinary-IsBare cs (ground (arith, r)) (ground (arith, h)),
)

quoted_arg-between :
    (w rest : Bytes)
    → IsArgument w
    → read_mode between (quoted_arg w ++ rest) ≡ after_word w (read_mode in_word rest)
unfolding special read_mode
quoted_arg-between w rest h = elim (Bool-cases (contains_any w special)) [
  | inl e ↦ rw (e, append_assoc (quote_bytes w) (34 ∷ []) rest) (bytes-in_quotes w rest)
  | inr e ↦ rw e (bare-between w rest h.0 (ordinary-IsBare w h.1 e))
]

rest_args-in_word :
    (args : List Bytes) → AllArguments args → read_mode in_word (rest_args args) ≡ some ([] ∷ args)
unfolding rest_args read_mode
rest_args-in_word [] h = refl
rest_args-in_word (arg ∷ args) h =
    rw
      (
        quoted_arg-between arg (rest_args args) h.0,
        rest_args-in_word args h.1,
        after_word-ended arg args,
      )
      refl

-- A program that is a bare word, and its arguments.
pub unit_words-command :
    (w : Bytes) (args : List Bytes)
    → w ≢ []
    → IsBare w
    → AllArguments args
    → unit_words (w ++ rest_args args) ≡ some (w ∷ args)
unfolding unit_words
unit_words-command w args e h k =
    rw (bare-between w (rest_args args) e h, rest_args-in_word args k) (after_word-ended w args)

-- Text without a backslash, and, for a key, without a double quote.
abbrev pub IsKeyText : Bytes → Type 0
IsKeyText k = (contains_rune k 34 ≡ false) × (contains_rune k 92 ≡ false)

key-in_quotes :
    (k rest : Bytes)
    → IsKeyText k
    → read_mode in_quotes (k ++ rest) ≡ after_word k (read_mode in_quotes rest)
unfolding read_mode contains_rune
key-in_quotes [] rest h = refl
key-in_quotes (c ∷ cs) rest h = ground (arith, key-in_quotes cs rest)

value-in_quotes :
    (v : Bytes)
    → contains_rune v 92 ≡ false
    → read_mode in_quotes (escape_quotes v ++ 34 ∷ []) ≡ some (v ∷ [])
unfolding read_mode contains_rune escape_quotes
value-in_quotes [] h = refl
value-in_quotes (c ∷ cs) h =
    one_of c 34
      (λ e.
        rw (e, value-in_quotes cs (ground (arith, h))) (ap (λ x. onto x (some (cs ∷ []))) (refl)))
      (λ n. ground (arith, n, h, value-in_quotes cs))

after_word-some : (k v : Bytes) → after_word k (some (v ∷ [])) ≡ some ((k ++ v) ∷ [])
after_word-some [] v = refl
after_word-some (c ∷ cs) v = rw (after_word-some cs v) refl

-- An entry of the environment is one word.
pub unit_words-entry :
    (k v : Bytes)
    → IsKeyText k
    → contains_rune v 92 ≡ false
    → unit_words (34 ∷ k ++ b'=' ∷ escape_quotes v ++ 34 ∷ []) ≡ some ((k ++ b'=' ∷ v) ∷ [])
unfolding unit_words read_mode
unit_words-entry k v h e =
    rw
      (
        append_assoc k (b'=' ∷ escape_quotes v) (34 ∷ []),
        key-in_quotes k (b'=' ∷ (escape_quotes v ++ 34 ∷ [])) h,
        value-in_quotes v e,
      )
      (after_word-some k (b'=' ∷ v))

-- A command is read as its words: the program is one word, and no argument is lost.
abbrev pub IsCommand : List Bytes → Type 0
IsCommand [] = Unit
IsCommand (w ∷ ws) = (w ≢ []) × IsBare w × AllArguments ws
