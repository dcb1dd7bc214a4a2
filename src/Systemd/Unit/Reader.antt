-- ===== src/Systemd/Unit/Reader.antt =====
-- The text of a unit file, read line by line.
use go_runit.Common.{
  ◌≡◌, ◌∙◌, refl, ap, Bool, true, false, not, ◌&&◌, inl, inr, Option, none, some, List, [], ◌∷◌,
  ◌++◌, map, ◌==◌, if◌then◌else◌, Bool-cases,
}
use go_runit.Common.Text.{codes, split, split_first}
use go_runit.Common.Text.Lines.{
  Lacks, lacks, lacks-Lacks, Lacks-append, split-append, split_first-append,
}
use go_runit.Wire.{Bytes}
use go_runit.Systemd.Unit.{
  DirectiveKey, key_text, section_text, unit_section, service_section, install_section, Line,
  section, managed, blank, directive, line_text, unit_text,
}

-- A line of a unit file: `[name]`, a comment, an empty line, or `key=value`.
pub data RawLine : Type 0 where
  header comment other : Bytes → RawLine
  empty : RawLine
  pair : Bytes → Bytes → RawLine

abbrev pair_of : Bytes → Option (Bytes × Bytes) → RawLine
pair_of l none = other l
pair_of l (some (k, v)) = pair k v

unfoldable read_raw : Bytes → RawLine
read_raw [] = empty
read_raw (c ∷ cs) =
    if c == b'['
    then header cs
    else if c == b'#'
    then comment cs
    else pair_of (c ∷ cs) (split_first (c ∷ cs) b'=')

-- The lines, each ended by a newline.
abbrev raw_lines : List Bytes → List RawLine
raw_lines [] = []
raw_lines (l ∷ []) = []
raw_lines (l ∷ k ∷ ls) = read_raw l ∷ raw_lines (k ∷ ls)

unfoldable pub read_unit : Bytes → List RawLine
unfolding read_raw
read_unit t = raw_lines (split t 10)

abbrev pub raw : Line → RawLine
raw (section s) = header (section_text s ++ b']' ∷ [])
raw managed = comment (codes " Managed by go-runit systemd adapter")
raw blank = empty
raw (directive k v) = pair (key_text k) v

-- No value has a newline.
abbrev pub AreOneLine : List Line → Type 0
AreOneLine [] = Unit
AreOneLine (directive k v ∷ ls) = Lacks 10 v × AreOneLine ls
AreOneLine (l ∷ ls) = AreOneLine ls

-- A key is not empty, starts neither a section nor a comment, and has no newline and no `=`.
is_key_text : Bytes → Bool
unfolding lacks
is_key_text [] = false
is_key_text (c ∷ cs) =
    not (c == b'[') && not (c == b'#') && lacks 10 (c ∷ cs) && lacks b'=' (c ∷ cs)

key_text-IsKey : (k : DirectiveKey) → is_key_text (key_text k) ≡ true
unfolding is_key_text key_text lacks
key_text-IsKey DirectiveKey.description = refl
key_text-IsKey DirectiveKey.after = refl
key_text-IsKey DirectiveKey.service_type = refl
key_text-IsKey DirectiveKey.restart = refl
key_text-IsKey DirectiveKey.restart_sec = refl
key_text-IsKey DirectiveKey.kill_mode = refl
key_text-IsKey DirectiveKey.kill_signal = refl
key_text-IsKey DirectiveKey.timeout_stop_sec = refl
key_text-IsKey DirectiveKey.user = refl
key_text-IsKey DirectiveKey.group = refl
key_text-IsKey DirectiveKey.nice = refl
key_text-IsKey DirectiveKey.io_scheduling_class = refl
key_text-IsKey DirectiveKey.io_scheduling_priority = refl
key_text-IsKey DirectiveKey.memory_limit = refl
key_text-IsKey DirectiveKey.limit_nofile = refl
key_text-IsKey DirectiveKey.limit_nproc = refl
key_text-IsKey DirectiveKey.limit_cpu = refl
key_text-IsKey DirectiveKey.root_directory = refl
key_text-IsKey DirectiveKey.working_directory = refl
key_text-IsKey DirectiveKey.umask = refl
key_text-IsKey DirectiveKey.environment = refl
key_text-IsKey DirectiveKey.exec_start = refl
key_text-IsKey DirectiveKey.exec_stop_post = refl
key_text-IsKey DirectiveKey.standard_output = refl
key_text-IsKey DirectiveKey.standard_error = refl
key_text-IsKey DirectiveKey.syslog_identifier = refl
key_text-IsKey DirectiveKey.wanted_by = refl

and-true : (a b : Bool) → (a && b) ≡ true → (a ≡ true) × (b ≡ true)
and-true true b h = (refl, h)
and-true false b h = absurd (cc)

not-true : (a : Bool) → not a ≡ true → a ≡ false
not-true false h = refl
not-true true h = absurd (cc)

-- What a key of a directive promises to the reader.
record IsReadable (k : Bytes) : Type 0 where
  pairs : (v : Bytes) → read_raw (k ++ b'=' ∷ v) ≡ pair k v
  no_newline : Lacks 10 k

key-IsReadable : (k : Bytes) → is_key_text k ≡ true → IsReadable k
unfolding is_key_text read_raw
key-IsReadable [] h = absurd (cc)
key-IsReadable (c ∷ cs) h =
    let a = and-true _ (lacks b'=' (c ∷ cs)) h in
    let b = and-true _ (lacks 10 (c ∷ cs)) a.0 in
    let d = and-true (not (c == b'[')) (not (c == b'#')) b.0 in
    record {
      pairs = λ v.
          rw
            (
              not-true (c == b'[') d.0,
              not-true (c == b'#') d.1,
              split_first-append b'=' (c ∷ cs) v (lacks-Lacks b'=' (c ∷ cs) a.1),
            )
            refl;
      no_newline = lacks-Lacks 10 (c ∷ cs) b.1;
    }

line-Lacks : (l : Line) → AreOneLine (l ∷ []) → Lacks 10 (line_text l)
unfolding lacks
line-Lacks (section unit_section) h = lacks-Lacks 10 (line_text (section unit_section)) refl
line-Lacks (section service_section) h = lacks-Lacks 10 (line_text (section service_section)) refl
line-Lacks (section install_section) h = lacks-Lacks 10 (line_text (section install_section)) refl
line-Lacks managed h = lacks-Lacks 10 (line_text managed) refl
line-Lacks blank h = tt
line-Lacks (directive k v) h =
    Lacks-append 10 (key_text k) (b'=' ∷ v)
      (key-IsReadable (key_text k) (key_text-IsKey k)).no_newline (refl, h.0)

read_raw-line_text : (l : Line) → read_raw (line_text l) ≡ raw l
unfolding read_raw
read_raw-line_text (section s) = refl
read_raw-line_text managed = refl
read_raw-line_text blank = refl
read_raw-line_text (directive k v) = (key-IsReadable (key_text k) (key_text-IsKey k)).pairs v

-- One line of the text after another.
one : (l : Line) (ls : List Line) → AreOneLine (l ∷ ls) → AreOneLine (l ∷ []) × AreOneLine ls
one (section s) ls h = (tt, h)
one managed ls h = (tt, h)
one blank ls h = (tt, h)
one (directive k v) ls h = ((h.0, tt), h.1)

split-cons : (t : Bytes) → (w : Bytes) × (r : List Bytes) × (split t 10 ≡ w ∷ r)
unfolding split
split-cons [] = ([], [], refl)
split-cons (c ∷ cs) = elim (Bool-cases (c == 10)) [
  | inl e ↦ ([], split cs 10, rw e refl)
  | inr e ↦ let q = split-cons cs in (c ∷ q.0, q.1, rw (e, q.2) refl)
]

raw_lines-step :
    (l : Bytes) (t : Bytes) → raw_lines (l ∷ split t 10) ≡ read_raw l ∷ raw_lines (split t 10)
raw_lines-step l t = let q = split-cons t in rw q.2 refl

pub read_unit-unit_text : (ls : List Line) → AreOneLine ls → read_unit (unit_text ls) ≡ map raw ls
unfolding read_unit unit_text split
read_unit-unit_text [] h = refl
read_unit-unit_text (l ∷ ls) h =
    let o = one l ls h in
    ap raw_lines (split-append 10 (line_text l) (unit_text ls) (line-Lacks l o.0))
    ∙ raw_lines-step (line_text l) (unit_text ls)
    ∙ ap (λ x. x ∷ raw_lines (split (unit_text ls) 10)) (read_raw-line_text l)
    ∙ ap (λ x. raw l ∷ x) (read_unit-unit_text ls o.1)
