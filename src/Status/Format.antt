-- ===== src/Status/Format.antt =====
-- status_format_constants.go: the sizes of the status files and the positions of their fields.
use go_runit.Common.{ℕ}

abbrev pub runit_status_size : ℕ
runit_status_size = 20

abbrev pub runit_tai64_start : ℕ
runit_tai64_start = 0

abbrev pub runit_tai64_end : ℕ
runit_tai64_end = 8

abbrev pub runit_nano_start : ℕ
runit_nano_start = 8

abbrev pub runit_nano_end : ℕ
runit_nano_end = 12

abbrev pub runit_pid_start : ℕ
runit_pid_start = 12

abbrev pub runit_pid_end : ℕ
runit_pid_end = 16

abbrev pub runit_paused_flag : ℕ
runit_paused_flag = 16

abbrev pub runit_want_flag : ℕ
runit_want_flag = 17

abbrev pub runit_term_flag : ℕ
runit_term_flag = 18

abbrev pub runit_run_flag : ℕ
runit_run_flag = 19

abbrev pub daemontools_status_size : ℕ
daemontools_status_size = 18

abbrev pub daemontools_tai64_start : ℕ
daemontools_tai64_start = 0

abbrev pub daemontools_tai64_end : ℕ
daemontools_tai64_end = 8

abbrev pub daemontools_nano_start : ℕ
daemontools_nano_start = 8

abbrev pub daemontools_nano_end : ℕ
daemontools_nano_end = 12

abbrev pub daemontools_pid_start : ℕ
daemontools_pid_start = 12

abbrev pub daemontools_pid_end : ℕ
daemontools_pid_end = 16

abbrev pub daemontools_status_flag : ℕ
daemontools_status_flag = 16

abbrev pub daemontools_want_flag : ℕ
daemontools_want_flag = 17

abbrev pub s6_status_size_pre220 : ℕ
s6_status_size_pre220 = 35

abbrev pub s6_status_size_current : ℕ
s6_status_size_current = 43

abbrev pub s6_max_status_size : ℕ
s6_max_status_size = s6_status_size_current

abbrev pub s6_pid_start_pre220 : ℕ
s6_pid_start_pre220 = 28

abbrev pub s6_pid_end_pre220 : ℕ
s6_pid_end_pre220 = 32

abbrev pub s6_flags_byte_pre220 : ℕ
s6_flags_byte_pre220 = 34

abbrev pub s6_pid_start_current : ℕ
s6_pid_start_current = 24

abbrev pub s6_pid_end_current : ℕ
s6_pid_end_current = 32

abbrev pub s6_flags_byte_current : ℕ
s6_flags_byte_current = 42
