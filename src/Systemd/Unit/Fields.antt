-- ===== src/Systemd/Unit/Fields.antt =====
-- What a unit file says of a configuration: its sections, and the values of each key of systemd in them.
use go_runit.Common.{◌≡◌, Option, none, some, List, [], ◌∷◌, ◌++◌, map, ◌==◌, if◌then◌else◌, leb}
use go_runit.Common.Int.{ℤ, pos, negsuc}
use go_runit.Common.Text.{codes, equal, split_first}
use go_runit.Common.Text.Decimal.{format_int, format_mode}
use go_runit.Wire.{Bytes}
use go_runit.Builder.Config.{ChpstConfig, ConfigSvlogd, EnvMap, ServiceBuilderConfig}
use go_runit.Systemd.Unit.Reader.{RawLine, header, comment, other, empty, pair}
use go_runit.Systemd.Unit.Words.{unit_words}

abbrev pub Pairs : Type 0
Pairs = List (Bytes × Bytes)

-- A unit file by its sections: the pairs before the first one, and those of each, by its name.
abbrev name_of : Option (Bytes × Bytes) → Bytes
name_of none = []
name_of (some (name, rest)) = name

unfoldable pub sections : List RawLine → Pairs × List (Bytes × Pairs)
sections [] = ([], [])
sections (header h ∷ ls) = ([], (name_of (split_first h b']'), (sections ls).0) ∷ (sections ls).1)
sections (pair k v ∷ ls) = ((k, v) ∷ (sections ls).0, (sections ls).1)
sections (other l ∷ ls) = ((l, []) ∷ (sections ls).0, (sections ls).1)
sections (comment l ∷ ls) = sections ls
sections (empty ∷ ls) = sections ls

-- The values of a key, in their order.
abbrev pub values : Bytes → Pairs → List Bytes
values key [] = []
values key ((k, v) ∷ ps) = let rest = values key ps in if equal k key then v ∷ rest else rest

-- A text that is not empty, a positive number, and a number that is not 0.
abbrev pub given : Bytes → List Bytes
given [] = []
given (c ∷ cs) = (c ∷ cs) ∷ []

abbrev pub positive : ℤ → List Bytes
positive (pos n) = if n == 0 then [] else format_int (pos n) ∷ []
positive (negsuc n) = []

abbrev pub nonzero : ℤ → List Bytes
nonzero (pos n) = if n == 0 then [] else format_int (pos n) ∷ []
nonzero (negsuc n) = format_int (negsuc n) ∷ []

-- The classes 2, best effort, up to 3, and 3, idle, above.
abbrev pub io_class : ℤ → List Bytes
io_class (pos n) = if n == 0 then [] else if leb n 3 then codes "2" ∷ [] else codes "3" ∷ []
io_class (negsuc n) = codes "2" ∷ []

abbrev pub io_priority : ℤ → List Bytes
io_priority (pos n) = if n == 0 then [] else if leb n 3 then format_int (pos n) ∷ [] else []
io_priority (negsuc n) = format_int (negsuc n) ∷ []

abbrev pub of_chpst : Option ChpstConfig → (ChpstConfig → List Bytes) → List Bytes
of_chpst none f = []
of_chpst (some h) f = f h

abbrev pub one_command : List Bytes → List (Option (List Bytes))
one_command [] = []
one_command (w ∷ ws) = some (w ∷ ws) ∷ []

abbrev pub of_env : EnvMap → List (Option (List Bytes))
of_env [] = []
of_env ((k, v) ∷ env) = some ((k ++ b'=' ∷ v) ∷ []) ∷ of_env env

abbrev pub error_of : Option (ConfigSvlogd (List Bytes)) → Bytes → Bytes
error_of none (c ∷ cs) = codes "file:" ++ c ∷ cs
error_of _ _ = codes "journal"

abbrev pub identifier_of : Option (ConfigSvlogd (List Bytes)) → List Bytes
identifier_of none = []
identifier_of (some l) = given l.prefix

-- The section `Service` says what the configuration says.
pub record IsService (c : ServiceBuilderConfig) (ps : Pairs) : Type 0 where
  pub service_type : values (codes "Type") ps ≡ codes "simple" ∷ []
  pub restart : values (codes "Restart") ps ≡ codes "always" ∷ []
  pub restart_sec : values (codes "RestartSec") ps ≡ codes "1" ∷ []
  pub kill_mode : values (codes "KillMode") ps ≡ codes "mixed" ∷ []
  pub kill_signal : values (codes "KillSignal") ps ≡ codes "SIGTERM" ∷ []
  pub timeout_stop_sec : values (codes "TimeoutStopSec") ps ≡ codes "10" ∷ []
  pub user : values (codes "User") ps ≡ of_chpst c.chpst (λ h. given h.user)
  pub group : values (codes "Group") ps ≡ of_chpst c.chpst (λ h. given h.group)
  pub nice : values (codes "Nice") ps ≡ of_chpst c.chpst (λ h. nonzero h.nice)
  pub io_scheduling_class :
      values (codes "IOSchedulingClass") ps ≡ of_chpst c.chpst (λ h. io_class h.io_nice)
  pub io_scheduling_priority :
      values (codes "IOSchedulingPriority") ps ≡ of_chpst c.chpst (λ h. io_priority h.io_nice)
  pub memory_limit : values (codes "MemoryLimit") ps ≡ of_chpst c.chpst (λ h. positive h.limit_mem)
  pub limit_nofile :
      values (codes "LimitNOFILE") ps ≡ of_chpst c.chpst (λ h. positive h.limit_files)
  pub limit_nproc : values (codes "LimitNPROC") ps ≡ of_chpst c.chpst (λ h. positive h.limit_procs)
  pub limit_cpu : values (codes "LimitCPU") ps ≡ of_chpst c.chpst (λ h. positive h.limit_cpu)
  pub root_directory : values (codes "RootDirectory") ps ≡ of_chpst c.chpst (λ h. given h.root)
  pub working_directory : values (codes "WorkingDirectory") ps ≡ given c.cwd
  pub umask : values (codes "UMask") ps ≡ (if c.umask == 0 then [] else format_mode c.umask ∷ [])
  pub environment : map unit_words (values (codes "Environment") ps) ≡ of_env c.env
  pub exec_start : map unit_words (values (codes "ExecStart") ps) ≡ one_command c.cmd
  pub exec_stop_post : map unit_words (values (codes "ExecStopPost") ps) ≡ one_command c.finish
  pub standard_output : values (codes "StandardOutput") ps ≡ codes "journal" ∷ []
  pub standard_error : values (codes "StandardError") ps ≡ error_of c.svlogd c.stderr_path ∷ []
  pub syslog_identifier : values (codes "SyslogIdentifier") ps ≡ identifier_of c.svlogd
