-- ===== src/Systemd/Unit/ReadBack.antt =====
-- The text of a unit file, read back to the fields of the configuration.
use go_runit.Common.Text.Lines.{lacks-Lacks, Lacks-append, lacks}
use go_runit.Systemd.Unit.OneLine.{
  log-AreSound, stop-AreSound, command-Lacks, env-AreSound, umask-AreSound, set_text-AreSound,
  chpst-AreSound, AreSound-append, AreSound-AreOneLine, AreSound-AllDirectives, IsOneLine, AreSound,
}
use go_runit.Systemd.Unit.Words.{
  IsCommand, unit_words, IsKeyText, unit_words-command, unit_words-entry,
}
use go_runit.Systemd.Unit.Own.{own_lines, own_values, own_pairs, found-own, found-other}
use go_runit.Builder.{contains_rune}
use go_runit.Common.{◌≡◌, ◌∙◌, refl, sym, ap, false, inr, List, [], ◌∷◌, ◌++◌, map, append-nil}
use go_runit.Common.Text.{codes, split_first}
use go_runit.Wire.{Bytes}
use go_runit.Builder.Config.{EnvMap, ServiceBuilderConfig}
use go_runit.Systemd.Unit.{
  DirectiveKey, key_text, last_lines, unit_lines, unit_text, build_systemd_unit,
}
use go_runit.Systemd.Unit.Reader.{read_unit, raw, AreOneLine, read_unit-unit_text}
use go_runit.Systemd.Unit.Fields.{
  Pairs, sections, given, positive, nonzero, io_class, io_priority, one_command, of_env, IsService,
}
use go_runit.Systemd.Unit.Values.{pairs_of, sections-append, found, env_values, command_values}

command-words : (f : List Bytes) → IsCommand f → map unit_words (command_values f) ≡ one_command f
command-words [] h = refl
command-words (w ∷ ws) h = rw (unit_words-command w ws h.0 h.1 h.2) refl

-- The entries of the environment are read as they are.
abbrev pub AllEntries : EnvMap → Type 0
AllEntries [] = Unit
AllEntries ((k, v) ∷ env) = (IsKeyText k × (contains_rune v 92 ≡ false)) × AllEntries env

env-words : (env : EnvMap) → AllEntries env → map unit_words (env_values env) ≡ of_env env
env-words [] h = refl
env-words ((k, v) ∷ env) h = rw (unit_words-entry k v h.0.0 h.0.1, env-words env h.1) refl

module _ (c : ServiceBuilderConfig) (w : Bytes) (ws : List Bytes) where
  own-AreSound : IsOneLine c → IsCommand (w ∷ ws) → IsCommand c.finish → AreSound (own_lines c w ws)
  unfolding own_lines
  own-AreSound o h k =
      AreSound-append _ _
        (AreSound-append _ _
          (AreSound-append _ _
            (AreSound-append _ _
              (AreSound-append _ _
                (AreSound-append _ _ (chpst-AreSound c.chpst o.chpst)
                  (set_text-AreSound DirectiveKey.working_directory c.cwd o.cwd))
                (umask-AreSound c.umask))
              (env-AreSound c.env o.env))
            (command-Lacks w ws h.1, tt))
          (stop-AreSound c.finish k))
        (log-AreSound c.svlogd c.stderr_path o.svlogd o.stderr_path)

  unit-AreOneLine : IsOneLine c → AreSound (own_lines c w ws) → AreOneLine (unit_lines c w ws)
  unfolding unit_lines own_lines lacks
  unit-AreOneLine o h = (
    Lacks-append 10 c.name (codes " service") o.name (lacks-Lacks 10 (codes " service") refl),
    (
      lacks-Lacks 10 (codes "network.target") refl,
      (
        lacks-Lacks 10 (codes "simple") refl,
        (
          lacks-Lacks 10 (codes "always") refl,
          (
            lacks-Lacks 10 (codes "1") refl,
            (
              lacks-Lacks 10 (codes "mixed") refl,
              (
                lacks-Lacks 10 (codes "SIGTERM") refl,
                (
                  lacks-Lacks 10 (codes "10") refl,
                  AreSound-AreOneLine (own_lines c w ws) last_lines h
                      (lacks-Lacks 10 (codes "multi-user.target") refl, tt),
                ),
              ),
            ),
          ),
        ),
      ),
    ),
  )

  sections-unit :
      AreSound (own_lines c w ws)
      → sections (map raw (unit_lines c w ws)) ≡ (
        [],
        (
          codes "Unit",
          (codes "Description", c.name ++ codes " service")
              ∷ (codes "After", codes "network.target")
              ∷ [],
        )
            ∷ (codes "Service", own_pairs c w ws)
            ∷ (codes "Install", (codes "WantedBy", codes "multi-user.target") ∷ [])
            ∷ [],
      )
  unfolding unit_lines sections split_first key_text own_lines own_pairs
  sections-unit h =
      rw
        (
          sections-append (own_lines c w ws) last_lines
              (AreSound-AllDirectives (own_lines c w ws) h),
          append-nil (pairs_of (own_lines c w ws)),
        )
        refl

  own-IsService :
      c.cmd ≡ w ∷ ws
      → IsCommand (w ∷ ws)
      → IsCommand c.finish
      → AllEntries c.env
      → IsService c (own_pairs c w ws)
  unfolding key_text own_values own_pairs found
  own-IsService e h k m = record {
    service_type = ap (λ vs. codes "simple" ∷ vs) (found-other c w ws (codes "Type") (λ h. refl));
    restart = ap (λ vs. codes "always" ∷ vs) (found-other c w ws (codes "Restart") (λ h. refl));
    restart_sec = ap (λ vs. codes "1" ∷ vs) (found-other c w ws (codes "RestartSec") (λ h. refl));
    kill_mode = ap (λ vs. codes "mixed" ∷ vs) (found-other c w ws (codes "KillMode") (λ h. refl));
    kill_signal =
        ap (λ vs. codes "SIGTERM" ∷ vs) (found-other c w ws (codes "KillSignal") (λ h. refl));
    timeout_stop_sec =
        ap (λ vs. codes "10" ∷ vs) (found-other c w ws (codes "TimeoutStopSec") (λ h. refl));
    user =
        found-own c w ws (codes "User") (λ h. given h.user) (λ h. simp (append-nil))
        ∙ simp (append-nil);
    group =
        found-own c w ws (codes "Group") (λ h. given h.group) (λ h. simp (append-nil))
        ∙ simp (append-nil);
    nice =
        found-own c w ws (codes "Nice") (λ h. nonzero h.nice) (λ h. simp (append-nil))
        ∙ simp (append-nil);
    io_scheduling_class =
        found-own c w ws (codes "IOSchedulingClass") (λ h. io_class h.io_nice)
          (λ h. simp (append-nil))
        ∙ simp (append-nil);
    io_scheduling_priority =
        found-own c w ws (codes "IOSchedulingPriority") (λ h. io_priority h.io_nice)
          (λ h. simp (append-nil))
        ∙ simp (append-nil);
    memory_limit =
        found-own c w ws (codes "MemoryLimit") (λ h. positive h.limit_mem) (λ h. simp (append-nil))
        ∙ simp (append-nil);
    limit_nofile =
        found-own c w ws (codes "LimitNOFILE") (λ h. positive h.limit_files)
          (λ h. simp (append-nil))
        ∙ simp (append-nil);
    limit_nproc =
        found-own c w ws (codes "LimitNPROC") (λ h. positive h.limit_procs) (λ h. simp (append-nil))
        ∙ simp (append-nil);
    limit_cpu =
        found-own c w ws (codes "LimitCPU") (λ h. positive h.limit_cpu) (λ h. simp (append-nil))
        ∙ simp (append-nil);
    root_directory =
        found-own c w ws (codes "RootDirectory") (λ h. given h.root) (λ h. refl)
        ∙ simp (append-nil);
    working_directory =
        found-other c w ws (codes "WorkingDirectory") (λ h. refl) ∙ simp (append-nil);
    umask = found-other c w ws (codes "UMask") (λ h. refl) ∙ simp (append-nil);
    environment =
        ap (map unit_words)
          (found-other c w ws (codes "Environment") (λ h. refl) ∙ simp (append-nil))
        ∙ env-words c.env m;
    exec_start =
        ap (map unit_words) (found-other c w ws (codes "ExecStart") (λ h. refl))
        ∙ command-words (w ∷ ws) h
        ∙ sym (ap one_command e);
    exec_stop_post =
        ap (map unit_words)
          (found-other c w ws (codes "ExecStopPost") (λ h. refl) ∙ simp (append-nil))
        ∙ command-words c.finish k;
    standard_output = found-other c w ws (codes "StandardOutput") (λ h. refl);
    standard_error = found-other c w ws (codes "StandardError") (λ h. refl);
    syslog_identifier = found-other c w ws (codes "SyslogIdentifier") (λ h. refl);
  }

-- A command of at least one word. Conditions: the program and that of the finish command are words that
-- need no quotes, no argument is empty or has a carriage return, no key of the environment has a double
-- quote or a backslash, no value a backslash, and the texts outside of the commands have no newline. The unit
-- file is generated, and its text, read by sections and lines `key=value`, has the sections Unit, Service
-- and Install. In Service, each key that systemd gives to a field has the values of that field of the
-- configuration: User, Group, Nice, the scheduling class and priority, the limits, RootDirectory,
-- WorkingDirectory, UMask, the outputs and SyslogIdentifier, and none where the field is not set. ExecStart
-- and ExecStopPost read back, by the rules of quotes and escapes, to the words of the command and of the
-- finish command, and the Environment lines to the entries of the environment in their order. The fixed
-- keys have their fixed values.
pub build_systemd_unit-IsRead :
    (c : ServiceBuilderConfig) (w : Bytes) (ws : List Bytes)
    → c.cmd ≡ w ∷ ws
    → IsCommand (w ∷ ws)
    → IsCommand c.finish
    → AllEntries c.env
    → IsOneLine c
    → (t : Bytes) × (ps : Pairs) × (build_systemd_unit c ≡ inr t)
      × (sections (read_unit t) ≡ (
        [],
        (
          codes "Unit",
          (codes "Description", c.name ++ codes " service")
              ∷ (codes "After", codes "network.target")
              ∷ [],
        )
            ∷ (codes "Service", ps)
            ∷ (codes "Install", (codes "WantedBy", codes "multi-user.target") ∷ [])
            ∷ [],
      ))
      × IsService c ps
unfolding build_systemd_unit
build_systemd_unit-IsRead c w ws e h k m o =
    let sound = own-AreSound c w ws o h k in
    (
      unit_text (unit_lines c w ws),
      own_pairs c w ws,
      rw e refl,
      ap sections (read_unit-unit_text (unit_lines c w ws) (unit-AreOneLine c w ws o sound))
          ∙ sections-unit c w ws sound,
      own-IsService c w ws e h k m,
    )
