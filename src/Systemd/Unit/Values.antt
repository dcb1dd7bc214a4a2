-- ===== src/Systemd/Unit/Values.antt =====
-- The values of a key among the lines of a unit, part by part.
use go_runit.Common.{
  ◌≡◌, refl, ap, ℕ, inl, inr, Option, none, some, List, [], ◌∷◌, ◌++◌, map, ◌==◌, if◌then◌else◌,
  Bool-cases, arith,
}
use go_runit.Common.Int.{ℤ, pos, negsuc}
use go_runit.Common.Text.{codes, equal}
use go_runit.Common.Text.Decimal.{format_int, format_mode}
use go_runit.Wire.{Bytes}
use go_runit.Builder.Config.{ConfigSvlogd, EnvMap}
use go_runit.Builder.Scripts.{is_nonzero}
use go_runit.Systemd.Unit.{
  DirectiveKey, key_text, Line, section, managed, blank, directive, set_text, set_positive,
  io_lines, env_lines, stop_line, log_lines, rest_args, escape_quotes,
}
use go_runit.Systemd.Unit.Reader.{raw}
use go_runit.Systemd.Unit.Fields.{
  Pairs, sections, values, given, positive, nonzero, io_class, io_priority, error_of, identifier_of,
}

abbrev pub AllDirectives : List Line → Type 0
AllDirectives [] = Unit
AllDirectives (directive k v ∷ ls) = AllDirectives ls
AllDirectives _ = ⊥

abbrev pub pairs_of : List Line → Pairs
pairs_of [] = []
pairs_of (directive k v ∷ ls) = (key_text k, v) ∷ pairs_of ls
pairs_of (_ ∷ ls) = pairs_of ls

pub sections-append :
    (xs ys : List Line)
    → AllDirectives xs
    → sections (map raw (xs ++ ys))
      ≡ (pairs_of xs ++ (sections (map raw ys)).0, (sections (map raw ys)).1)
unfolding sections
sections-append [] ys h = refl
sections-append (directive k v ∷ xs) ys h = rw (sections-append xs ys h) refl
sections-append (section s ∷ xs) ys h = absurd h
sections-append (managed ∷ xs) ys h = absurd h
sections-append (blank ∷ xs) ys h = absurd h

unfoldable pub found : Bytes → List Line → List Bytes
found key ls = values key (pairs_of ls)

pub found-append :
    (key : Bytes) (xs ys : List Line) → found key (xs ++ ys) ≡ found key xs ++ found key ys
unfolding found
found-append key [] ys = refl
found-append key (directive k v ∷ xs) ys = elim (Bool-cases (equal (key_text k) key)) [
  | inl e ↦ rw (e, found-append key xs ys) refl
  | inr e ↦ rw (e, found-append key xs ys) refl
]
found-append key (section s ∷ xs) ys = found-append key xs ys
found-append key (managed ∷ xs) ys = found-append key xs ys
found-append key (blank ∷ xs) ys = found-append key xs ys

-- The values, if the key is the one of the directive.
abbrev pub at_key : Bytes → DirectiveKey → List Bytes → List Bytes
at_key key k vs = if equal (key_text k) key then vs else []

at_key-nil : (key : Bytes) (k : DirectiveKey) → [] ≡ at_key key k []
at_key-nil key k = elim (Bool-cases (equal (key_text k) key)) [
  | inl e ↦ rw e refl
  | inr e ↦ rw e refl
]

abbrev pub entry_text : Bytes → Bytes → Bytes
entry_text k v = 34 ∷ k ++ b'=' ∷ escape_quotes v ++ 34 ∷ []

abbrev pub env_values : EnvMap → List Bytes
env_values [] = []
env_values ((k, v) ∷ env) = entry_text k v ∷ env_values env

abbrev pub command_values : List Bytes → List Bytes
command_values [] = []
command_values (w ∷ ws) = (w ++ rest_args ws) ∷ []

module _ (key : Bytes) where
  pub found-set_text :
      (k : DirectiveKey) (s : Bytes) → found key (set_text k s) ≡ at_key key k (given s)
  unfolding found
  found-set_text k [] = at_key-nil key k
  found-set_text k (c ∷ cs) = refl

  pub found-set_positive :
      (k : DirectiveKey) (n : ℤ) → found key (set_positive k n) ≡ at_key key k (positive n)
  unfolding found
  found-set_positive k (pos n) = elim (Bool-cases (n == 0)) [
    | inl e ↦ rw e (at_key-nil key k)
    | inr e ↦ rw e refl
  ]
  found-set_positive k (negsuc n) = at_key-nil key k

  pub found-nice :
      (n : ℤ)
      → found key (if is_nonzero n then directive DirectiveKey.nice (format_int n) ∷ [] else [])
        ≡ at_key key DirectiveKey.nice (nonzero n)
  unfolding found
  found-nice (pos n) = elim (Bool-cases (n == 0)) [
    | inl e ↦ rw e (at_key-nil key DirectiveKey.nice)
    | inr e ↦ rw e refl
  ]
  found-nice (negsuc n) = refl

  pub found-io :
      (n : ℤ)
      → found key (io_lines n)
        ≡ at_key key DirectiveKey.io_scheduling_class (io_class n)
          ++ at_key key DirectiveKey.io_scheduling_priority (io_priority n)
  unfolding found
  found-io (pos n) = ground arith
  found-io (negsuc n) = ground arith

  pub found-umask :
      (n : ℕ)
      → found key (if n == 0 then [] else directive DirectiveKey.umask (format_mode n) ∷ [])
        ≡ at_key key DirectiveKey.umask (if n == 0 then [] else format_mode n ∷ [])
  unfolding found
  found-umask n = ground arith

  pub found-env :
      (env : EnvMap)
      → found key (env_lines env) ≡ at_key key DirectiveKey.environment (env_values env)
  unfolding env_lines found
  found-env [] = at_key-nil key DirectiveKey.environment
  found-env ((k, v) ∷ env) = elim (Bool-cases (equal (key_text DirectiveKey.environment) key)) [
    | inl e ↦ rw e (ap (λ vs. entry_text k v ∷ vs) (rw e at (found-env env)))
    | inr e ↦ rw e (rw e at (found-env env))
  ]

  pub found-stop :
      (f : List Bytes)
      → found key (stop_line f) ≡ at_key key DirectiveKey.exec_stop_post (command_values f)
  unfolding found
  found-stop [] = at_key-nil key DirectiveKey.exec_stop_post
  found-stop (w ∷ ws) = refl

  log_values :
      (e : Bytes) (ls : List Line) (vs : List Bytes)
      → found key ls ≡ at_key key DirectiveKey.syslog_identifier vs
      → found key (
          directive DirectiveKey.standard_output (codes "journal")
          ∷ directive DirectiveKey.standard_error e
          ∷ ls)
        ≡ at_key key DirectiveKey.standard_output (codes "journal" ∷ [])
          ++ at_key key DirectiveKey.standard_error (e ∷ [])
          ++ at_key key DirectiveKey.syslog_identifier vs
  unfolding found
  log_values e ls vs h = ground (arith, h)

  pub found-log :
      (l : Option (ConfigSvlogd (List Bytes))) (path : Bytes)
      → found key (log_lines l path)
        ≡ at_key key DirectiveKey.standard_output (codes "journal" ∷ [])
          ++ at_key key DirectiveKey.standard_error (error_of l path ∷ [])
          ++ at_key key DirectiveKey.syslog_identifier (identifier_of l)
  unfolding found
  found-log (some l) path =
      log_values (codes "journal") (set_text DirectiveKey.syslog_identifier l.prefix)
        (given l.prefix) (found-set_text DirectiveKey.syslog_identifier l.prefix)
  found-log none [] =
      log_values (codes "journal") [] [] (at_key-nil key DirectiveKey.syslog_identifier)
  found-log none (c ∷ cs) =
      log_values (codes "file:" ++ c ∷ cs) [] [] (at_key-nil key DirectiveKey.syslog_identifier)

  pub found-start :
      (v : Bytes)
      → found key (directive DirectiveKey.exec_start v ∷ [])
        ≡ at_key key DirectiveKey.exec_start (v ∷ [])
  unfolding found
  found-start v = refl
