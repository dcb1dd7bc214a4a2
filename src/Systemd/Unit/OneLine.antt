-- ===== src/Systemd/Unit/OneLine.antt =====
-- Configurations whose texts are single lines, and the lines of their units.
use go_runit.Common.{
  ◌≡◌, refl, ℕ, Bool, true, false, inl, inr, Option, none, some, List, [], ◌∷◌, ◌++◌, ◌==◌,
  if◌then◌else◌, Bool-cases, arith,
}
use go_runit.Common.Int.{ℤ, pos, negsuc}
use go_runit.Common.Text.{codes}
use go_runit.Common.Text.Lines.{Lacks, Lacks-append, lacks, lacks-Lacks}
use go_runit.Common.Text.Decimal.{format_int, format_mode}
use go_runit.Common.Text.Decimal.Digits.{format_int-Lacks, format_mode-Lacks}
use go_runit.Wire.{Bytes}
use go_runit.Builder.{contains_rune}
use go_runit.Builder.Config.{ChpstConfig, ConfigSvlogd, EnvMap, ServiceBuilderConfig}
use go_runit.Builder.Scripts.{is_nonzero}
use go_runit.Systemd.Unit.{
  DirectiveKey, Line, section, managed, blank, directive, set_text, io_lines, chpst_lines,
  env_lines, stop_line, log_lines, rest_args, escape_quotes, quote_byte, quote_bytes, quoted_arg,
  contains_any,
}
use go_runit.Systemd.Unit.Reader.{AreOneLine}
use go_runit.Systemd.Unit.Words.{IsBare, IsCommand}
use go_runit.Systemd.Unit.Values.{AllDirectives}

abbrev pub ChpstIsOneLine : Option ChpstConfig → Type 0
ChpstIsOneLine none = Unit
ChpstIsOneLine (some h) = Lacks 10 h.user × Lacks 10 h.group × Lacks 10 h.root

abbrev pub EnvIsOneLine : EnvMap → Type 0
EnvIsOneLine [] = Unit
EnvIsOneLine ((k, v) ∷ env) = (Lacks 10 k × Lacks 10 v) × EnvIsOneLine env

abbrev pub SvlogdIsOneLine : Option (ConfigSvlogd (List Bytes)) → Type 0
SvlogdIsOneLine none = Unit
SvlogdIsOneLine (some l) = Lacks 10 l.prefix

-- No text of the configuration that a unit has outside of a command has a newline.
pub record IsOneLine (c : ServiceBuilderConfig) : Type 0 where
  pub name : Lacks 10 c.name
  pub chpst : ChpstIsOneLine c.chpst
  pub cwd : Lacks 10 c.cwd
  pub env : EnvIsOneLine c.env
  pub svlogd : SvlogdIsOneLine c.svlogd
  pub stderr_path : Lacks 10 c.stderr_path

-- Directives with values of one line.
abbrev pub AreSound : List Line → Type 0
AreSound [] = Unit
AreSound (directive k v ∷ ls) = Lacks 10 v × AreSound ls
AreSound _ = ⊥

pub AreSound-AllDirectives : (ls : List Line) → AreSound ls → AllDirectives ls
AreSound-AllDirectives [] h = tt
AreSound-AllDirectives (directive k v ∷ ls) h = AreSound-AllDirectives ls h.1
AreSound-AllDirectives (section s ∷ ls) h = absurd h
AreSound-AllDirectives (managed ∷ ls) h = absurd h
AreSound-AllDirectives (blank ∷ ls) h = absurd h

pub AreSound-AreOneLine : (xs ys : List Line) → AreSound xs → AreOneLine ys → AreOneLine (xs ++ ys)
AreSound-AreOneLine [] ys h k = k
AreSound-AreOneLine (directive j v ∷ ls) ys h k = (h.0, AreSound-AreOneLine ls ys h.1 k)
AreSound-AreOneLine (section s ∷ ls) ys h k = absurd h
AreSound-AreOneLine (managed ∷ ls) ys h k = absurd h
AreSound-AreOneLine (blank ∷ ls) ys h k = absurd h

pub AreSound-append : (xs ys : List Line) → AreSound xs → AreSound ys → AreSound (xs ++ ys)
AreSound-append [] ys h k = k
AreSound-append (directive j v ∷ ls) ys h k = (h.0, AreSound-append ls ys h.1 k)
AreSound-append (section s ∷ ls) ys h k = absurd h
AreSound-append (managed ∷ ls) ys h k = absurd h
AreSound-append (blank ∷ ls) ys h k = absurd h

pub set_text-AreSound : (k : DirectiveKey) (s : Bytes) → Lacks 10 s → AreSound (set_text k s)
set_text-AreSound k [] h = tt
set_text-AreSound k (c ∷ cs) h = (h, tt)

-- A line that stands under a condition.
if-AreSound :
    (b : Bool) (k : DirectiveKey) (v : Bytes)
    → Lacks 10 v
    → AreSound (if b then directive k v ∷ [] else [])
if-AreSound true k v h = (h, tt)
if-AreSound false k v h = tt

pub umask-AreSound :
    (n : ℕ) → AreSound (if n == 0 then [] else directive DirectiveKey.umask (format_mode n) ∷ [])
umask-AreSound n = elim (Bool-cases (n == 0)) [
  | inl e ↦ rw e tt
  | inr e ↦ rw e (format_mode-Lacks n, tt)
]

io-AreSound : (n : ℤ) → AreSound (io_lines n)
io-AreSound (pos n) = ground (arith, format_int-Lacks (pos n))
io-AreSound (negsuc n) = ((refl, tt), (format_int-Lacks (negsuc n), tt))

pub chpst-AreSound : (o : Option ChpstConfig) → ChpstIsOneLine o → AreSound (chpst_lines o)
chpst-AreSound none h = tt
chpst-AreSound (some c) h =
    AreSound-append _ _
      (AreSound-append _ _
        (AreSound-append _ _
          (AreSound-append _ _
            (AreSound-append _ _
              (AreSound-append _ _
                (AreSound-append _ _
                  (AreSound-append _ _ (set_text-AreSound DirectiveKey.user c.user h.0)
                    (set_text-AreSound DirectiveKey.group c.group h.1))
                  (if-AreSound (is_nonzero c.nice) DirectiveKey.nice (format_int c.nice)
                    (format_int-Lacks c.nice)))
                (io-AreSound c.io_nice))
              (if-AreSound _ DirectiveKey.memory_limit (format_int c.limit_mem)
                (format_int-Lacks c.limit_mem)))
            (if-AreSound _ DirectiveKey.limit_nofile (format_int c.limit_files)
              (format_int-Lacks c.limit_files)))
          (if-AreSound _ DirectiveKey.limit_nproc (format_int c.limit_procs)
            (format_int-Lacks c.limit_procs)))
        (if-AreSound _ DirectiveKey.limit_cpu (format_int c.limit_cpu)
          (format_int-Lacks c.limit_cpu)))
      (set_text-AreSound DirectiveKey.root_directory c.root h.2)

escape_quotes-Lacks : (v : Bytes) → Lacks 10 v → Lacks 10 (escape_quotes v)
unfolding escape_quotes
escape_quotes-Lacks [] h = tt
escape_quotes-Lacks (c ∷ cs) h = elim (Bool-cases (c == 34)) [
  | inl e ↦ rw e (refl, (refl, escape_quotes-Lacks cs h.1))
  | inr e ↦ rw e (h.0, escape_quotes-Lacks cs h.1)
]

pub env-AreSound : (env : EnvMap) → EnvIsOneLine env → AreSound (env_lines env)
unfolding env_lines
env-AreSound [] h = tt
env-AreSound ((k, v) ∷ env) h = (
  Lacks-append 10 (34 ∷ k ++ b'=' ∷ escape_quotes v) (34 ∷ [])
      (Lacks-append 10 (34 ∷ k) (b'=' ∷ escape_quotes v) (refl, h.0.0)
        (refl, escape_quotes-Lacks v h.0.1))
      (refl, tt),
  env-AreSound env h.1,
)

quote_byte-Lacks : (c : ℕ) → Lacks 10 (quote_byte c)
quote_byte-Lacks c = ground arith

quote_bytes-Lacks : (w : Bytes) → Lacks 10 (quote_bytes w)
unfolding quote_bytes
quote_bytes-Lacks [] = tt
quote_bytes-Lacks (c ∷ cs) =
    Lacks-append 10 (quote_byte c) (quote_bytes cs) (quote_byte-Lacks c) (quote_bytes-Lacks cs)

plain-Lacks :
    (w : Bytes) → contains_any w (32 ∷ 9 ∷ 10 ∷ 34 ∷ 39 ∷ 92 ∷ b'$' ∷ []) ≡ false → Lacks 10 w
unfolding contains_any contains_rune
plain-Lacks [] h = tt
plain-Lacks (c ∷ cs) h = (ground (arith, h), plain-Lacks cs (ground (arith, h)))

quoted_arg-Lacks : (w : Bytes) → Lacks 10 (quoted_arg w)
quoted_arg-Lacks w = elim (Bool-cases (contains_any w (32 ∷ 9 ∷ 10 ∷ 34 ∷ 39 ∷ 92 ∷ b'$' ∷ []))) [
  | inl e ↦ rw e (refl, Lacks-append 10 (quote_bytes w) (34 ∷ []) (quote_bytes-Lacks w) (refl, tt))
  | inr e ↦ rw e (plain-Lacks w e)
]

rest_args-Lacks : (ws : List Bytes) → Lacks 10 (rest_args ws)
unfolding rest_args
rest_args-Lacks [] = tt
rest_args-Lacks (w ∷ ws) =
    Lacks-append 10 (32 ∷ quoted_arg w) (rest_args ws) (refl, quoted_arg-Lacks w)
      (rest_args-Lacks ws)

bare-Lacks : (w : Bytes) → IsBare w → Lacks 10 w
bare-Lacks [] h = tt
bare-Lacks (c ∷ cs) h = (ground (arith, h.0), bare-Lacks cs h.3)

-- A command is written in one line.
pub command-Lacks : (w : Bytes) (ws : List Bytes) → IsBare w → Lacks 10 (w ++ rest_args ws)
command-Lacks w ws h = Lacks-append 10 w (rest_args ws) (bare-Lacks w h) (rest_args-Lacks ws)

pub stop-AreSound : (f : List Bytes) → IsCommand f → AreSound (stop_line f)
stop-AreSound [] h = tt
stop-AreSound (w ∷ ws) h = (command-Lacks w ws h.1, tt)

pub log-AreSound :
    (l : Option (ConfigSvlogd (List Bytes))) (path : Bytes)
    → SvlogdIsOneLine l
    → Lacks 10 path
    → AreSound (log_lines l path)
unfolding lacks
log-AreSound (some l) path h k =
    let journal = lacks-Lacks 10 (codes "journal") refl in
    (journal, (journal, set_text-AreSound DirectiveKey.syslog_identifier l.prefix h))
log-AreSound none [] h k =
    let journal = lacks-Lacks 10 (codes "journal") refl in (journal, (journal, tt))
log-AreSound none (c ∷ cs) h k = (
  lacks-Lacks 10 (codes "journal") refl,
  (Lacks-append 10 (codes "file:") (c ∷ cs) (lacks-Lacks 10 (codes "file:") refl) k, tt),
)
