-- ===== src/Defaults.antt =====
-- runit.go: the names of the files of a service, the default durations, paths and modes.
use go_runit.Common.{ℕ, String}
use go_runit.Common.Int.{ℤ, pos}
use go_runit.Common.Text.{codes}
use go_runit.Wire.{Bytes}

abbrev pub supervise_name : String
supervise_name = "supervise"

abbrev pub control_name : String
control_name = "control"

abbrev pub status_name : String
status_name = "status"

-- Durations, in nanoseconds.
abbrev pub default_watch_debounce : ℤ
default_watch_debounce = pos 25000000

abbrev pub default_dial_timeout : ℤ
default_dial_timeout = pos 2000000000

abbrev pub default_write_timeout : ℤ
default_write_timeout = pos 1000000000

abbrev pub default_read_timeout : ℤ
default_read_timeout = pos 1000000000

abbrev pub default_backoff_min : ℤ
default_backoff_min = pos 10000000

abbrev pub default_backoff_max : ℤ
default_backoff_max = pos 1000000000

abbrev pub default_max_attempts : ℤ
default_max_attempts = pos 10

-- Paths of programs.
abbrev pub default_chpst_path : Bytes
default_chpst_path = codes "chpst"

abbrev pub default_svlogd_path : Bytes
default_svlogd_path = codes "svlogd"

abbrev pub default_runsvdir_path : Bytes
default_runsvdir_path = codes "runsvdir"

abbrev pub default_sv_path : Bytes
default_sv_path = codes "sv"

-- Modes of files.
abbrev pub dir_mode : ℕ
dir_mode = 0o755

abbrev pub file_mode : ℕ
file_mode = 0o644

abbrev pub exec_mode : ℕ
exec_mode = 0o755

abbrev pub default_umask : ℕ
default_umask = 0o022
