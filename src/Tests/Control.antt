-- ===== src/Tests/Control.antt =====
-- A client, answers of the system, and the theorems on control at them.
use go_runit.Common.{
  ℕ, zero, suc, ◌≤◌, ◌≡◌, ◌↔◌, inr, refl, none, some, [], ◌∷◌, length, take, arith, if◌then◌else◌,
}
use go_runit.Common.Int.{pos, pos_part}
use go_runit.Operation.{op_byte}
use go_runit.Service.{is_operation_supported, config_runit}
use go_runit.Errors.{ok, external}
use go_runit.Status.Decode.Total.{
  runit_record, daemontools_record, s6_current_record, s6_pre220_record,
}
use go_runit.Client.{Client, Round, Rounds, refused, control_path, start_loop, send_loop}
use go_runit.Client.Methods.{
  up, quit, runit_family, daemontools_family, s6_family, op_of, call, restart,
}
use go_runit.Client.Outcome.{GetsThrough, left_error, final_error}
use go_runit.Client.Backoff.{waits, delays}
use go_runit.Client.Refuse.{
  config_of, type_of, call_supported, IsSafeCall, call-IsSafeCall, Restarts, restart_delivers,
}
use go_runit.Client.Report.{Supports, call_ok_iff, call_final, call_schedule}
use go_runit.Client.Read.{StatusFile, status_runit, status_daemontools, status_s6}
use go_runit.Client.Read.Whole.{IsReport, status_reports, status_whole}
use go_runit.Tests.Files.{running_file}

-- A client with the defaults of runit.go, but three attempts.
abbrev client : Client
client = record {
  service_dir = "etc" ∷ "service" ∷ "web" ∷ [];
  dial_timeout = pos 2000000000;
  write_timeout = pos 1000000000;
  read_timeout = pos 1000000000;
  backoff_min = pos 10000000;
  backoff_max = pos 1000000000;
  max_attempts = pos 3;
  watch_debounce = pos 25000000;
}

-- The socket cannot be dialed, and the file cannot be opened.
abbrev closed_round : Round
closed_round = record {
  cancelled = none;
  dial = some (external 1);
  conn_write = none;
  open_file = some (external 2);
  file_write = none;
}

-- The socket answers, and the write fails.
abbrev broken_round : Round
broken_round = record closed_round { dial = none; conn_write = some (external 3) }

abbrev pub good_round : Round
good_round = record closed_round { dial = none }

abbrev all_broken : Rounds
all_broken i = broken_round

abbrev third_good : Rounds
third_good zero = closed_round
third_good (suc zero) = closed_round
third_good (suc (suc i)) = good_round

call_supported_example : call daemontools_family client quit all_broken ≡ (
    if is_operation_supported (config_of daemontools_family) (op_of quit)
    then send_loop client
        (op_of quit)
        (control_path client)
        all_broken
        (pos_part client.max_attempts)
        0
        (start_loop client)
    else refused client (op_of quit) (type_of daemontools_family))
call_supported_example = call_supported daemontools_family client quit all_broken

call-IsSafeCall_example :
    IsSafeCall
      (op_byte (op_of up))
      (pos_part client.max_attempts)
      (call s6_family client up third_good)
call-IsSafeCall_example = call-IsSafeCall s6_family client up third_good

restart_delivers_example : Restarts (restart runit_family client third_good all_broken)
restart_delivers_example = restart_delivers runit_family client third_good all_broken

up_supported : Supports runit_family up
unfolding is_operation_supported config_runit
up_supported = refl

call_ok_iff_example :
    ((call runit_family client up third_good).error ≡ none)
    ↔ GetsThrough third_good 0 (pos_part client.max_attempts)
call_ok_iff_example = call_ok_iff runit_family client up third_good up_supported

call_final_example :
    (call runit_family client up all_broken).error
    ≡ some (final_error (op_of up) (control_path client) (left_error (all_broken 2)))
call_final_example =
    call_final runit_family client up all_broken 2 up_supported refl (λ i h. (refl, inr refl))

call_schedule_example :
    (n : ℕ) × (n ≤ 2)
    × (waits (call runit_family client up third_good).log ≡ delays 10000000 1000000000 0 n)
call_schedule_example =
    call_schedule runit_family client up third_good 10000000 1000000000 2 up_supported refl refl
      refl (omega arith) (omega arith)

abbrev file : StatusFile
file = record { open_error = none; bytes = running_file; read_error = none }

status_whole_example :
    (20 ≤ length file.bytes → status_runit client 0 file ≡ ok (runit_record 0 (take 20 file.bytes)))
    × (18 ≤ length file.bytes
        → status_daemontools client 0 file ≡ ok (daemontools_record 0 (take 18 file.bytes)))
    × (43 ≤ length file.bytes
        → status_s6 client 0 file ≡ ok (s6_current_record 0 (take 43 file.bytes)))
    × (length file.bytes ≡ 35
        → file.read_error ≡ none
        → status_s6 client 0 file ≡ ok (s6_pre220_record 0 file.bytes))
status_whole_example = status_whole client 0 file refl

status_reports_example :
    IsReport client (status_runit client 0 file)
    × IsReport client (status_daemontools client 0 file)
    × IsReport client (status_s6 client 0 file)
status_reports_example = status_reports client 0 file
