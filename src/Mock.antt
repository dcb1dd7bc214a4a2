-- ===== src/Mock.antt =====
-- test_mock_supervisor.go: the status files that the mock supervisor writes, `MockSupervisor.
-- UpdateStatus` for each supervision system. The wall clock, in seconds and nanoseconds, is an argument.
pub mod RoundTrip
pub mod Make
pub mod Initial
pub mod Create
use go_runit.Common.{
  ℕ, ◌+◌, ◌-◌, ◌%◌, ◌^◌, Bool, true, false, ◌&&◌, List, [], ◌∷◌, bit_or, replicate, if◌then◌else◌,
}
use go_runit.Common.Int.{ℤ, pos, ltb_ℤ, word64}
use go_runit.Service.{ServiceType}
use go_runit.Wire.{Bytes, copy, be_bytes, le_bytes, write_at}
use go_runit.Status.{tai64_offset}
use go_runit.Status.Format.{
  runit_tai64_start, runit_nano_start, runit_pid_start, runit_paused_flag, runit_want_flag,
  runit_term_flag, runit_run_flag, daemontools_tai64_start, daemontools_nano_start,
  daemontools_pid_start, daemontools_status_flag, daemontools_want_flag, s6_pid_start_pre220,
  s6_flags_byte_pre220,
}

-- The flag bits of status_decode.go.
abbrev pub s6_flag_normally_up : ℕ
s6_flag_normally_up = 2

abbrev pub s6_flag_ready : ℕ
s6_flag_ready = 8

-- `uint64(now.Unix()) + TAI64Offset`.
abbrev pub tai_of : ℕ → ℕ
tai_of sec = (sec % 2 ^ 64 + tai64_offset) % 2 ^ 64

-- `uint32(pid)`.
abbrev pub uint32 : ℤ → ℕ
uint32 pid = word64 pid % 2 ^ 32

abbrev pub put : Bytes → ℕ → ℕ → Bytes
put s i b = write_at s i (b ∷ [])

unfoldable pub update_s6 : ℕ → ℕ → Bool → ℤ → Bytes
unfolding copy
update_s6 sec nano running pid =
    let has_pid = ltb_ℤ (pos 0) pid in
    let stamp = be_bytes 8 (tai_of sec) in
    let nanos = be_bytes 4 (nano % 2 ^ 32) in
    let s0 = write_at (write_at (replicate 35 0) 0 stamp) 8 nanos in
    let s1 = if running && has_pid then write_at (write_at s0 12 stamp) 20 nanos else s0 in
    let s2 = if has_pid then write_at s1 s6_pid_start_pre220 (be_bytes 4 (uint32 pid)) else s1 in
    let f0 : ℕ = if running && has_pid then bit_or 0 s6_flag_ready else 0 in
    let f1 = if running then bit_or f0 s6_flag_normally_up else f0 in put s2 s6_flags_byte_pre220 f1

unfoldable pub update_daemontools : ℕ → ℕ → Bool → ℤ → Bytes
unfolding copy
update_daemontools sec nano running pid =
    let s0 = write_at (replicate 18 0) daemontools_tai64_start (be_bytes 8 (tai_of sec)) in
    let s1 = write_at s0 daemontools_nano_start (be_bytes 4 (nano % 2 ^ 32)) in
    let s2 = write_at s1 daemontools_pid_start (le_bytes 4 (uint32 pid)) in
    let s3 = put s2 daemontools_status_flag 0 in
    put s3 daemontools_want_flag (if running then b'u' else b'd')

unfoldable pub update_runit : ℕ → ℕ → Bool → ℤ → Bytes
unfolding copy
update_runit sec nano running pid =
    let s0 = write_at (replicate 20 0) runit_tai64_start (be_bytes 8 (tai_of sec)) in
    let s1 = write_at s0 runit_nano_start (be_bytes 4 (nano % 2 ^ 32)) in
    let s2 = write_at s1 runit_pid_start (le_bytes 4 (uint32 pid)) in
    let s3 = put s2 runit_paused_flag 0 in
    let up = put s3 runit_want_flag b'u' in
    let s4 =
      if running
      then (if ltb_ℤ (pos 0) pid then put up runit_run_flag 1 else up)
      else put (put s3 runit_want_flag b'd') runit_run_flag 0 in
    put s4 runit_term_flag 0

-- The file that `UpdateStatus` writes.
unfoldable pub update_status : ServiceType → ℕ → ℕ → Bool → ℤ → Bytes
update_status ServiceType.s6 sec nano running pid = update_s6 sec nano running pid
update_status ServiceType.daemontools sec nano running pid = update_daemontools sec nano running pid
update_status _ sec nano running pid = update_runit sec nano running pid
