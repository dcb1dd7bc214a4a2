-- ===== src/Systemd/Unit.antt =====
-- systemd_builder.go: the text of a unit file, line by line.
pub mod Reader
pub mod Words
pub mod Fields
mod Values
mod Own
pub mod OneLine
pub mod ReadBack
pub mod Install
pub mod Privilege
use go_runit.Common.{
  ◌+◌, ltb, leb, ℕ, Bool, true, false, not, ◌||◌, ◌⊎◌, inl, inr, Option, none, some, List, [], ◌∷◌,
  ◌++◌, map, ◌==◌, ◌/◌, ◌%◌, if◌then◌else◌,
}
use go_runit.Common.Int.{ℤ, pos, negsuc}
use go_runit.Common.Text.{codes, is_empty}
use go_runit.Common.Text.Decimal.{format_int, format_mode}
use go_runit.Wire.{Bytes}
use go_runit.Builder.{contains_rune}
use go_runit.Builder.Config.{ChpstConfig, ConfigSvlogd, EnvMap, ServiceBuilderConfig}
use go_runit.Builder.Scripts.{is_positive, is_nonzero}

pub data DirectiveKey : Type 0 where
  description after service_type restart restart_sec kill_mode kill_signal timeout_stop_sec :
      DirectiveKey
  user group nice io_scheduling_class io_scheduling_priority memory_limit : DirectiveKey
  limit_nofile limit_nproc limit_cpu root_directory working_directory umask : DirectiveKey
  environment exec_start exec_stop_post : DirectiveKey
  standard_output standard_error syslog_identifier wanted_by : DirectiveKey

pub key_text : DirectiveKey → Bytes
key_text description = codes "Description"
key_text after = codes "After"
key_text service_type = codes "Type"
key_text restart = codes "Restart"
key_text restart_sec = codes "RestartSec"
key_text kill_mode = codes "KillMode"
key_text kill_signal = codes "KillSignal"
key_text timeout_stop_sec = codes "TimeoutStopSec"
key_text user = codes "User"
key_text group = codes "Group"
key_text nice = codes "Nice"
key_text io_scheduling_class = codes "IOSchedulingClass"
key_text io_scheduling_priority = codes "IOSchedulingPriority"
key_text memory_limit = codes "MemoryLimit"
key_text limit_nofile = codes "LimitNOFILE"
key_text limit_nproc = codes "LimitNPROC"
key_text limit_cpu = codes "LimitCPU"
key_text root_directory = codes "RootDirectory"
key_text working_directory = codes "WorkingDirectory"
key_text umask = codes "UMask"
key_text environment = codes "Environment"
key_text exec_start = codes "ExecStart"
key_text exec_stop_post = codes "ExecStopPost"
key_text standard_output = codes "StandardOutput"
key_text standard_error = codes "StandardError"
key_text syslog_identifier = codes "SyslogIdentifier"
key_text wanted_by = codes "WantedBy"

pub data Section : Type 0 where
  unit_section service_section install_section : Section

abbrev pub section_text : Section → Bytes
section_text unit_section = codes "Unit"
section_text service_section = codes "Service"
section_text install_section = codes "Install"

pub data Line : Type 0 where
  section : Section → Line
  managed blank : Line
  directive : DirectiveKey → Bytes → Line

abbrev pub line_text : Line → Bytes
line_text (section s) = b'[' ∷ section_text s ++ b']' ∷ []
line_text managed = codes "# Managed by go-runit systemd adapter"
line_text blank = []
line_text (directive k v) = key_text k ++ b'=' ∷ v

-- `%q` of a text of ASCII bytes; a byte above is kept, as part of a printable character.
abbrev hex_digit : ℕ → ℕ
hex_digit n = if ltb n 10 then 48 + n else 87 + n

abbrev quote_byte : ℕ → Bytes
quote_byte c =
    if c == 34
    then 92 ∷ 34 ∷ []
    else if c == 92
    then 92 ∷ 92 ∷ []
    else if c == 7
    then 92 ∷ b'a' ∷ []
    else if c == 8
    then 92 ∷ b'b' ∷ []
    else if c == 12
    then 92 ∷ b'f' ∷ []
    else if c == 10
    then 92 ∷ b'n' ∷ []
    else if c == 13
    then 92 ∷ b'r' ∷ []
    else if c == 9
    then 92 ∷ b't' ∷ []
    else if c == 11
    then 92 ∷ b'v' ∷ []
    else if ltb c 32 || c == 127
    then 92 ∷ b'x' ∷ hex_digit (c / 16) ∷ hex_digit (c % 16) ∷ []
    else c ∷ []

unfoldable pub quote_bytes : Bytes → Bytes
quote_bytes [] = []
quote_bytes (c ∷ cs) = quote_byte c ++ quote_bytes cs

-- `strings.ContainsAny(arg, …)`: space, tab, newline, the quotes 34 and 39, backslash, `$`.
unfoldable pub contains_any : Bytes → Bytes → Bool
contains_any [] chars = false
contains_any (c ∷ cs) chars = if contains_rune chars c then true else contains_any cs chars

abbrev quoted_arg : Bytes → Bytes
quoted_arg arg =
    if contains_any arg (32 ∷ 9 ∷ 10 ∷ 34 ∷ 39 ∷ 92 ∷ b'$' ∷ [])
    then 34 ∷ quote_bytes arg ++ 34 ∷ []
    else arg

unfoldable pub rest_args : List Bytes → Bytes
rest_args [] = []
rest_args (arg ∷ args) = (32 ∷ quoted_arg arg) ++ rest_args args

-- `strings.ReplaceAll(value, …)`: a double quote gets a backslash.
unfoldable pub escape_quotes : Bytes → Bytes
escape_quotes [] = []
escape_quotes (c ∷ cs) = let rest = escape_quotes cs in if c == 34 then 92 ∷ 34 ∷ rest else c ∷ rest

abbrev pub set_text : DirectiveKey → Bytes → List Line
set_text k s = if is_empty s then [] else directive k s ∷ []

abbrev pub set_positive : DirectiveKey → ℤ → List Line
set_positive k n = if is_positive n then directive k (format_int n) ∷ [] else []

abbrev at_most_three : ℤ → Bool
at_most_three (pos n) = leb n 3
at_most_three (negsuc n) = true

abbrev pub io_lines : ℤ → List Line
io_lines n =
    if is_nonzero n
    then if at_most_three n
      then directive io_scheduling_class (codes "2")
        ∷ directive io_scheduling_priority (format_int n)
        ∷ []
      else directive io_scheduling_class (codes "3") ∷ []
    else []

abbrev pub chpst_lines : Option ChpstConfig → List Line
chpst_lines none = []
chpst_lines (some c) =
    set_text user c.user
    ++ set_text group c.group
    ++ (if is_nonzero c.nice then directive nice (format_int c.nice) ∷ [] else [])
    ++ io_lines c.io_nice
    ++ set_positive memory_limit c.limit_mem
    ++ set_positive limit_nofile c.limit_files
    ++ set_positive limit_nproc c.limit_procs
    ++ set_positive limit_cpu c.limit_cpu
    ++ set_text root_directory c.root

-- The entries of the map, in the order in which `range` visits them.
unfoldable pub env_lines : EnvMap → List Line
env_lines [] = []
env_lines ((k, v) ∷ env) =
    directive environment (34 ∷ k ++ b'=' ∷ escape_quotes v ++ 34 ∷ []) ∷ env_lines env

abbrev pub stop_line : List Bytes → List Line
stop_line [] = []
stop_line (w ∷ ws) = directive exec_stop_post (w ++ rest_args ws) ∷ []

abbrev pub log_lines : Option (ConfigSvlogd (List Bytes)) → Bytes → List Line
log_lines (some l) path =
    directive standard_output (codes "journal")
    ∷ directive standard_error (codes "journal")
    ∷ set_text syslog_identifier l.prefix
log_lines none [] =
    directive standard_output (codes "journal") ∷ directive standard_error (codes "journal") ∷ []
log_lines none (c ∷ cs) =
    directive standard_output (codes "journal")
    ∷ directive standard_error (codes "file:" ++ c ∷ cs)
    ∷ []

abbrev pub first_lines : Bytes → List Line
first_lines name =
    section unit_section
    ∷ directive description (name ++ codes " service")
    ∷ directive after (codes "network.target")
    ∷ managed
    ∷ blank
    ∷ section service_section
    ∷ directive service_type (codes "simple")
    ∷ directive restart (codes "always")
    ∷ directive restart_sec (codes "1")
    ∷ directive kill_mode (codes "mixed")
    ∷ directive kill_signal (codes "SIGTERM")
    ∷ directive timeout_stop_sec (codes "10")
    ∷ []

abbrev pub last_lines : List Line
last_lines = blank ∷ section install_section ∷ directive wanted_by (codes "multi-user.target") ∷ []

-- The lines for the command `w ∷ ws`.
unfoldable pub unit_lines : ServiceBuilderConfig → Bytes → List Bytes → List Line
unit_lines c w ws =
    first_lines c.name
    ++ chpst_lines c.chpst
    ++ set_text working_directory c.cwd
    ++ (if c.umask == 0 then [] else directive umask (format_mode c.umask) ∷ [])
    ++ env_lines c.env
    ++ directive exec_start (w ++ rest_args ws) ∷ []
    ++ stop_line c.finish
    ++ log_lines c.svlogd c.stderr_path
    ++ last_lines

pub unit_text : List Line → Bytes
unit_text [] = []
unit_text (l ∷ ls) = line_text l ++ 10 ∷ unit_text ls

-- `command not specified`
pub data UnitError : Type 0 where
  no_command : UnitError

abbrev unit_for : ServiceBuilderConfig → List Bytes → UnitError ⊎ Bytes
unit_for c [] = inl no_command
unit_for c (w ∷ ws) = inr (unit_text (unit_lines c w ws))

unfoldable pub build_systemd_unit : ServiceBuilderConfig → UnitError ⊎ Bytes
build_systemd_unit c = unit_for c c.cmd
