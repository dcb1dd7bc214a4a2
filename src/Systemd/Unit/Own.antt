-- ===== src/Systemd/Unit/Own.antt =====
-- The lines that a unit has of its own, and the values of a key in them.
use go_runit.Systemd.Unit.Values.{
  found-start, pairs_of, found, found-append, at_key, env_values, command_values, found-set_text,
  found-set_positive, found-nice, found-io, found-umask, found-env, found-stop, found-log,
}
use go_runit.Common.{
  ◌≡◌, ◌∙◌, refl, ap, Option, none, some, List, [], ◌∷◌, ◌++◌, ◌==◌, if◌then◌else◌,
}
use go_runit.Common.Text.{codes}
use go_runit.Common.Text.Decimal.{format_mode}
use go_runit.Wire.{Bytes}
use go_runit.Builder.Config.{ChpstConfig, ServiceBuilderConfig}
use go_runit.Systemd.Unit.{
  DirectiveKey, Line, directive, set_text, chpst_lines, env_lines, stop_line, log_lines, rest_args,
}
use go_runit.Systemd.Unit.Fields.{
  Pairs, given, positive, nonzero, io_class, io_priority, of_chpst, error_of, identifier_of,
}

abbrev pub chpst_values : Bytes → ChpstConfig → List Bytes
chpst_values key h =
    at_key key DirectiveKey.user (given h.user)
    ++ at_key key DirectiveKey.group (given h.group)
    ++ at_key key DirectiveKey.nice (nonzero h.nice)
    ++ (at_key key DirectiveKey.io_scheduling_class (io_class h.io_nice)
        ++ at_key key DirectiveKey.io_scheduling_priority (io_priority h.io_nice))
    ++ at_key key DirectiveKey.memory_limit (positive h.limit_mem)
    ++ at_key key DirectiveKey.limit_nofile (positive h.limit_files)
    ++ at_key key DirectiveKey.limit_nproc (positive h.limit_procs)
    ++ at_key key DirectiveKey.limit_cpu (positive h.limit_cpu)
    ++ at_key key DirectiveKey.root_directory (given h.root)

joined :
    (key : Bytes) (xs ys : List Line) {us vs : List Bytes}
    → found key xs ≡ us
    → found key ys ≡ vs
    → found key (xs ++ ys) ≡ us ++ vs
joined key xs ys h k = rw (found-append key xs ys, h, k) refl

found-some : (key : Bytes) (c : ChpstConfig) → found key (chpst_lines (some c)) ≡ chpst_values key c
found-some key c =
    joined key _ _
      (joined key _ _
        (joined key _ _
          (joined key _ _
            (joined key _ _
              (joined key _ _
                (joined key _ _
                  (joined key _ _ (found-set_text key DirectiveKey.user c.user)
                    (found-set_text key DirectiveKey.group c.group))
                  (found-nice key c.nice))
                (found-io key c.io_nice))
              (found-set_positive key DirectiveKey.memory_limit c.limit_mem))
            (found-set_positive key DirectiveKey.limit_nofile c.limit_files))
          (found-set_positive key DirectiveKey.limit_nproc c.limit_procs))
        (found-set_positive key DirectiveKey.limit_cpu c.limit_cpu))
      (found-set_text key DirectiveKey.root_directory c.root)

found-chpst :
    (key : Bytes) (o : Option ChpstConfig) (f : ChpstConfig → List Bytes)
    → ((h : ChpstConfig) → chpst_values key h ≡ f h)
    → found key (chpst_lines o) ≡ of_chpst o f
unfolding found
found-chpst key none f h = refl
found-chpst key (some c) f h = found-some key c ∙ h c

-- The lines of the section `Service` behind the fixed ones, and the values of a key in them.
module _ (c : ServiceBuilderConfig) (w : Bytes) (ws : List Bytes) where
  unfoldable pub own_lines : List Line
  own_lines =
      chpst_lines c.chpst
      ++ set_text DirectiveKey.working_directory c.cwd
      ++ (if c.umask == 0 then [] else directive DirectiveKey.umask (format_mode c.umask) ∷ [])
      ++ env_lines c.env
      ++ directive DirectiveKey.exec_start (w ++ rest_args ws) ∷ []
      ++ stop_line c.finish
      ++ log_lines c.svlogd c.stderr_path

  unfoldable pub own_values : Bytes → List Bytes → List Bytes
  own_values key vs =
      vs
      ++ at_key key DirectiveKey.working_directory (given c.cwd)
      ++ at_key key DirectiveKey.umask (if c.umask == 0 then [] else format_mode c.umask ∷ [])
      ++ at_key key DirectiveKey.environment (env_values c.env)
      ++ at_key key DirectiveKey.exec_start ((w ++ rest_args ws) ∷ [])
      ++ at_key key DirectiveKey.exec_stop_post (command_values c.finish)
      ++ (at_key key DirectiveKey.standard_output (codes "journal" ∷ [])
          ++ at_key key DirectiveKey.standard_error (error_of c.svlogd c.stderr_path ∷ [])
          ++ at_key key DirectiveKey.syslog_identifier (identifier_of c.svlogd))

  pub found-own :
      (key : Bytes) (f : ChpstConfig → List Bytes)
      → ((h : ChpstConfig) → chpst_values key h ≡ f h)
      → found key own_lines ≡ own_values key (of_chpst c.chpst f)
  unfolding own_lines own_values
  found-own key f h =
      joined key _ _
        (joined key _ _
          (joined key _ _
            (joined key _ _
              (joined key _ _
                (joined key _ _ (found-chpst key c.chpst f h)
                  (found-set_text key DirectiveKey.working_directory c.cwd))
                (found-umask key c.umask))
              (found-env key c.env))
            (found-start key (w ++ rest_args ws)))
          (found-stop key c.finish))
        (found-log key c.svlogd c.stderr_path)

  -- The pairs of the section `Service`.
  unfoldable pub own_pairs : Pairs
  own_pairs =
      (codes "Type", codes "simple")
      ∷ (codes "Restart", codes "always")
      ∷ (codes "RestartSec", codes "1")
      ∷ (codes "KillMode", codes "mixed")
      ∷ (codes "KillSignal", codes "SIGTERM")
      ∷ (codes "TimeoutStopSec", codes "10")
      ∷ pairs_of own_lines

  none_of : (o : Option ChpstConfig) → of_chpst o (λ h. []) ≡ []
  none_of none = refl
  none_of (some h) = refl

  -- The values of a key that is not one of `ChpstConfig`.
  pub found-other :
      (key : Bytes)
      → ((h : ChpstConfig) → chpst_values key h ≡ [])
      → found key own_lines ≡ own_values key []
  found-other key h = found-own key (λ c. []) h ∙ ap (own_values key) (none_of c.chpst)
