-- ===== src/Mock/Make.antt =====
-- test_mock_supervisor.go: the files of a mock supervisor, from `NewMockSupervisorWithType` to
-- `Cleanup`, and `CreateMockService`.
use go_runit.Common.{ℕ, ◌⊎◌, inl, inr, Bool, Option, none, some, [], replicate}
use go_runit.Common.Int.{ℤ}
use go_runit.Common.Text.{codes}
use go_runit.Common.Text.Path.{join_path}
use go_runit.Service.{ServiceType}
use go_runit.Wire.{copy, Bytes, be_bytes, le_bytes, write_at}
use go_runit.Status.Format.{
  runit_tai64_start, runit_pid_start, runit_paused_flag, runit_want_flag, runit_term_flag,
  runit_run_flag, daemontools_tai64_start, daemontools_pid_start, daemontools_status_flag,
  daemontools_want_flag, s6_pid_start_pre220, s6_flags_byte_pre220,
}
use go_runit.Builder.Build.{FileSystem}
use go_runit.Mock.{put, tai_of, update_status}

pub record MockSupervisor : Type 0 where
  pub service_dir : Bytes
  pub supervise_dir : Bytes
  pub control_file : Bytes
  pub status_file : Bytes
  pub service_type : ServiceType

-- The first status file: the s6 one is all zeros, with no time stamp.
unfoldable pub initial_s6 : Bytes
unfolding copy
initial_s6 =
    put (write_at (replicate 35 0) s6_pid_start_pre220 (be_bytes 2 0)) s6_flags_byte_pre220 0

unfoldable pub initial_daemontools : ℕ → Bytes
unfolding copy
initial_daemontools sec =
    let s0 = write_at (replicate 18 0) daemontools_tai64_start (be_bytes 8 (tai_of sec)) in
    let s1 = write_at s0 daemontools_pid_start (le_bytes 4 0) in
    put (put s1 daemontools_status_flag 0) daemontools_want_flag b'd'

unfoldable pub initial_runit : ℕ → Bytes
unfolding copy
initial_runit sec =
    let s0 = write_at (replicate 20 0) runit_tai64_start (be_bytes 8 (tai_of sec)) in
    let s1 = write_at s0 runit_pid_start (le_bytes 4 0) in
    let s2 = put (put s1 runit_paused_flag 0) runit_want_flag b'd' in
    put (put s2 runit_term_flag 0) runit_run_flag 0

unfoldable pub initial_status : ServiceType → ℕ → Bytes
initial_status ServiceType.s6 sec = initial_s6
initial_status ServiceType.daemontools sec = initial_daemontools sec
initial_status _ sec = initial_runit sec

-- The errors, with the text of the one that the system returned; that of the second `os.MkdirAll` is
-- returned as it is.
pub data MockError : Type 0 where
  creating_supervise_dir making_directory creating_status_file creating_control_file :
      Bytes → MockError

abbrev pub mock_supervisor : Bytes → ServiceType → MockSupervisor
mock_supervisor dir t = record {
  service_dir = dir;
  supervise_dir = join_path dir (codes "supervise");
  control_file = join_path (join_path dir (codes "supervise")) (codes "control");
  status_file = join_path (join_path dir (codes "supervise")) (codes "status");
  service_type = t;
}

-- `if err != nil { return nil, … }`
abbrev pub mock_step {ℓ} :
    {S : Type ℓ}
    → (Bytes → MockError)
    → Option Bytes × S
    → (S → (MockError ⊎ MockSupervisor) × S)
    → (MockError ⊎ MockSupervisor) × S
mock_step failed (some e, s) rest = (inl (failed e), s)
mock_step failed (none, s) rest = rest s

-- The calls of `os` on a file system, at the time `sec`.
unfoldable pub new_mock_supervisor_with_type {ℓ} :
    {S : Type ℓ} → FileSystem S → Bytes → ServiceType → ℕ → S → (MockError ⊎ MockSupervisor) × S
unfolding initial_status
new_mock_supervisor_with_type fs dir t sec s =
    let m = mock_supervisor dir t in
    mock_step creating_supervise_dir (fs.mkdir_all m.supervise_dir 493 s) (λ s1.
      mock_step making_directory (fs.mkdir_all m.supervise_dir 493 s1) (λ s2.
        mock_step creating_status_file (fs.write_file m.status_file (initial_status t sec) 420 s2)
          (λ s3.
            mock_step creating_control_file (fs.write_file m.control_file [] 420 s3)
              (λ s4. (inr m, s4)))))

unfoldable pub new_mock_supervisor {ℓ} :
    {S : Type ℓ} → FileSystem S → Bytes → ℕ → S → (MockError ⊎ MockSupervisor) × S
unfolding new_mock_supervisor_with_type
new_mock_supervisor fs dir sec s = new_mock_supervisor_with_type fs dir ServiceType.runit sec s

-- `UpdateStatus`, which writes the status file.
unfoldable pub update_mock {ℓ} :
    {S : Type ℓ} → FileSystem S → MockSupervisor → ℕ → ℕ → Bool → ℤ → S → Option Bytes × S
update_mock fs m sec nano running pid s =
    fs.write_file m.status_file (update_status m.service_type sec nano running pid) 420 s
