-- ===== src/Status/Decode.antt =====
-- status_decode.go: the decoders that the clients use. Every read of the data is a step that may
-- panic; the fields read are put together by a function of their values.
pub mod Total
pub mod Sense
use go_runit.Common.{
  ℕ, ◌+◌, Bool, true, false, not, ◌&&◌, List, [], ◌∷◌, ◌++◌, length, take, drop, ◌==◌, leb, ltb,
  if◌then◌else◌,
}
use go_runit.Common.Int.{ℤ, pos, int64, ltb_ℤ}
use go_runit.Common.Bits.{has_bits}
use go_runit.Service.{ServiceType}
use go_runit.Errors.{Result, ok, err, panic, ◌>>=◌, Error, decode_size}
use go_runit.Wire.{Bytes, byte_at, slice, copy, be_uint, le_uint}
use go_runit.Status.{
  State, state_unknown, state_down, state_running, state_paused, state_stopping, state_finishing,
  state_crashed, S6FormatVersion, s6_format_pre220, s6_format_current, Time, Flags, Status,
  zero_status, no_flags,
}
use go_runit.Status.Format.{
  runit_status_size, runit_tai64_start, runit_tai64_end, runit_nano_start, runit_nano_end,
  runit_pid_start, runit_pid_end, runit_paused_flag, runit_want_flag, runit_term_flag,
  runit_run_flag, daemontools_status_size, daemontools_tai64_start, daemontools_tai64_end,
  daemontools_nano_start, daemontools_nano_end, daemontools_pid_start, daemontools_pid_end,
  daemontools_want_flag, s6_status_size_pre220, s6_status_size_current, s6_pid_start_pre220,
  s6_pid_end_pre220, s6_flags_byte_pre220, s6_pid_start_current, s6_pid_end_current,
  s6_flags_byte_current,
}
use go_runit.Status.Stamp.{since_time, uptime_of}

-- The `switch` that ends the decoders of runit and daemontools.
unfoldable pub infer_state : Bool → Bool → Bool → Bool → Bool → State
infer_state is_running want_up want_down is_paused is_finishing =
    if not is_running && want_down
    then state_down
    else if not is_running && (want_up && not is_finishing)
    then state_crashed
    else if not is_running && is_finishing
    then state_finishing
    else if is_running && is_paused
    then state_paused
    else if is_running && is_finishing
    then state_finishing
    else if is_running && want_down
    then state_stopping
    else if is_running && want_up
    then state_running
    else if is_running
    then state_running
    else state_unknown

-- What `decodeStatusRunit` makes of the fields that it reads.
unfoldable pub runit_status : ℕ → Bytes → ℕ → ℕ → ℕ → ℕ → ℕ → ℕ → ℕ → Status
runit_status now contents sec nano pid paused_flag want_flag term_flag run_flag =
    let since = since_time sec nano in
    let want_up = want_flag == b'u' in
    let want_down = want_flag == b'd' in
    record zero_status {
      raw = copy zero_status.raw contents;
      since = since;
      uptime = uptime_of now since;
      pid = pos pid;
      flags = record {
        want_up = want_up;
        want_down = want_down;
        normally_up = not (run_flag == 0);
      };
      state =
          infer_state (ltb_ℤ (pos 0) (pos pid)) want_up want_down (not (paused_flag == 0))
            (not (term_flag == 0));
    }

unfoldable pub decode_runit_record : ℕ → Bytes → Result Status
decode_runit_record now contents = do
  sec ← be_uint 8 (← slice contents runit_tai64_start runit_tai64_end)
  nano ← be_uint 4 (← slice contents runit_nano_start runit_nano_end)
  pid ← le_uint 4 (← slice contents runit_pid_start runit_pid_end)
  paused_flag ← byte_at contents runit_paused_flag
  want_flag ← byte_at contents runit_want_flag
  term_flag ← byte_at contents runit_term_flag
  run_flag ← byte_at contents runit_run_flag
  ok (runit_status now contents sec nano pid paused_flag want_flag term_flag run_flag)

-- `decodeStatusRunit`, at the time `now`.
unfoldable pub decode_status_runit : ℕ → Bytes → Result Status
decode_status_runit now contents =
    if not (length contents == runit_status_size)
    then err (decode_size ServiceType.runit (length contents))
    else decode_runit_record now contents

-- What `decodeStatusDaemontools` makes of the fields that it reads.
unfoldable pub daemontools_status : ℕ → Bytes → ℕ → ℕ → ℕ → ℕ → Status
daemontools_status now contents sec nano pid want_flag =
    let since = since_time sec nano in
    let want_up = want_flag == b'u' in
    let want_down = want_flag == b'd' in
    let run_flag = if ltb_ℤ (pos 0) (pos pid) then 1 else 0 in
    record zero_status {
      raw =
          copy (take daemontools_status_size zero_status.raw) contents
          ++ drop daemontools_status_size zero_status.raw;
      since = since;
      uptime = uptime_of now since;
      pid = pos pid;
      flags = record no_flags { want_up = want_up; want_down = want_down };
      state = infer_state (not (run_flag == 0)) want_up want_down false false;
    }

unfoldable pub decode_daemontools_record : ℕ → Bytes → Result Status
decode_daemontools_record now contents = do
  sec ← be_uint 8 (← slice contents daemontools_tai64_start daemontools_tai64_end)
  nano ← be_uint 4 (← slice contents daemontools_nano_start daemontools_nano_end)
  pid ← le_uint 4 (← slice contents daemontools_pid_start daemontools_pid_end)
  want_flag ← byte_at contents daemontools_want_flag
  ok (daemontools_status now contents sec nano pid want_flag)

-- `decodeStatusDaemontools`, at the time `now`.
unfoldable pub decode_status_daemontools : ℕ → Bytes → Result Status
decode_status_daemontools now contents =
    if not (length contents == daemontools_status_size)
    then err (decode_size ServiceType.daemontools (length contents))
    else decode_daemontools_record now contents

-- The case of 35 bytes of `decodeStatusS6`, and what it makes of its fields.
unfoldable pub s6_pre220_status : ℕ → Bytes → ℕ → ℕ → ℕ → ℕ → Status
s6_pre220_status now raw pid tai64 ready_tai64 flag_byte =
    let since = since_time tai64 0 in
    let is_running = ltb_ℤ (pos 0) (pos pid) in
    record zero_status {
      raw = raw;
      s6_format = s6_format_pre220;
      pid = pos pid;
      since = since;
      uptime = uptime_of now since;
      ready_since = since_time ready_tai64 0;
      state = if is_running then state_running else state_down;
      flags = record {
        want_up = if is_running then true else false;
        want_down = if is_running then false else true;
        normally_up = has_bits flag_byte 0x02;
      };
      ready = has_bits flag_byte 0x08;
    }

unfoldable pub decode_s6_pre220 : ℕ → Bytes → Bytes → Result Status
decode_s6_pre220 now raw contents = do
  pid ← be_uint 4 (← slice contents s6_pid_start_pre220 s6_pid_end_pre220)
  tai64 ← be_uint 8 (← slice contents 0 8)
  ready_tai64 ← be_uint 8 (← slice contents 12 20)
  flag_byte ← byte_at contents s6_flags_byte_pre220
  ok (s6_pre220_status now raw pid tai64 ready_tai64 flag_byte)

-- The case of 43 bytes of `decodeStatusS6`. `int(pid)` of a uint64 may be negative.
unfoldable pub s6_current_status : ℕ → Bytes → ℕ → ℕ → ℕ → ℕ → Status
s6_current_status now raw pid tai64 ready_tai64 flag_byte =
    let since = since_time tai64 0 in
    let is_paused = has_bits flag_byte 0x01 in
    let is_finishing = has_bits flag_byte 0x02 in
    let want_up = has_bits flag_byte 0x04 in
    record zero_status {
      raw = raw;
      s6_format = s6_format_current;
      pid = int64 pid;
      since = since;
      uptime = uptime_of now since;
      ready_since = since_time ready_tai64 0;
      flags = record { want_up = want_up; want_down = not want_up; normally_up = want_up };
      ready = has_bits flag_byte 0x08;
      state =
          if ltb_ℤ (pos 0) (int64 pid)
          then (if is_paused
              then state_paused
              else if is_finishing
              then state_finishing
              else state_running)
          else if want_up
          then state_crashed
          else state_down;
    }

unfoldable pub decode_s6_current : ℕ → Bytes → Bytes → Result Status
decode_s6_current now raw contents = do
  pid ← be_uint 8 (← slice contents s6_pid_start_current s6_pid_end_current)
  tai64 ← be_uint 8 (← slice contents 0 8)
  ready_tai64 ← be_uint 8 (← slice contents 12 20)
  flag_byte ← byte_at contents s6_flags_byte_current
  ok (s6_current_status now raw pid tai64 ready_tai64 flag_byte)

-- `copy(st.Raw[:], contents[:20])`, if there are 20 bytes.
unfoldable pub s6_raw : Bytes → Result Bytes
s6_raw contents =
    if leb 20 (length contents)
    then (do prefix ← slice contents 0 20; ok (copy zero_status.raw prefix))
    else ok zero_status.raw

-- The `switch` on the size.
unfoldable pub decode_s6_sized : ℕ → Bytes → Bytes → Result Status
decode_s6_sized now raw contents =
    if length contents == s6_status_size_pre220
    then decode_s6_pre220 now raw contents
    else if length contents == s6_status_size_current
    then decode_s6_current now raw contents
    else err (decode_size ServiceType.s6 (length contents))

-- `decodeStatusS6`, at the time `now`.
unfoldable pub decode_status_s6 : ℕ → Bytes → Result Status
unfolding s6_raw decode_s6_sized
decode_status_s6 now contents = do raw ← s6_raw contents; decode_s6_sized now raw contents
