-- ===== src/Parser.antt =====
-- state_parser.go: the parsers of the status files behind the interface `StateParser`, and the choice
-- of a parser by service type and size. They read the files once more, beside status_decode.go.
mod Total
pub mod Agree
pub mod Choice
use go_runit.Common.{ℕ, String, Bool, true, false, not, ◌&&◌, length, ◌==◌, ltb, if◌then◌else◌}
use go_runit.Common.Int.{ℤ, pos, int64, ltb_ℤ}
use go_runit.Common.Bits.{has_bits}
use go_runit.Service.{ServiceType}
use go_runit.Errors.{Result, ok, err, panic, ◌>>=◌, invalid_size, unsupported_type}
use go_runit.Wire.{Bytes, byte_at, slice, be_uint, le_uint}
use go_runit.Status.{
  State, state_unknown, state_down, state_starting, state_running, state_paused, state_stopping,
  state_finishing, s6_format_pre220, s6_format_current, Status, zero_status,
}
use go_runit.Status.Format.{
  runit_status_size, runit_tai64_start, runit_tai64_end, runit_pid_start, runit_pid_end,
  runit_paused_flag, runit_want_flag, runit_term_flag, runit_run_flag, daemontools_status_size,
  daemontools_tai64_start, daemontools_tai64_end, daemontools_pid_start, daemontools_pid_end,
  daemontools_want_flag, s6_status_size_pre220, s6_status_size_current, s6_pid_start_pre220,
  s6_pid_end_pre220, s6_flags_byte_pre220, s6_pid_start_current, s6_pid_end_current,
  s6_flags_byte_current,
}
use go_runit.Status.Stamp.{since_time, uptime_of}

-- The interface. The time is an argument of `parse`.
pub record StateParser : Type 0 where
  pub parse : ℕ → Bytes → Result Status
  pub validate_size : ℕ → Bool
  pub name : String

-- The `switch` of `RunitStateParser.Parse`.
unfoldable pub parsed_state : Bool → ℕ → Bool → Bool → State
parsed_state has_process want_char is_paused is_terminating =
    if not has_process && want_char == b'd'
    then state_down
    else if not has_process && want_char == b'u'
    then state_starting
    else if has_process && is_paused
    then state_paused
    else if has_process && is_terminating
    then state_finishing
    else if has_process && want_char == b'u'
    then state_running
    else if has_process && want_char == b'd'
    then state_stopping
    else state_unknown

-- What `RunitStateParser.Parse` makes of the fields that it reads.
unfoldable pub runit_parsed : ℕ → ℕ → ℕ → ℕ → ℕ → ℕ → ℕ → Status
runit_parsed now tai64 pid paused want_char run term =
    let since = since_time tai64 0 in
    let want_up = want_char == b'u' in
    record zero_status {
      since = since;
      uptime = uptime_of now since;
      pid = pos pid;
      flags = record { want_up = want_up; want_down = want_char == b'd'; normally_up = want_up };
      state = parsed_state (not (run == 0)) want_char (not (paused == 0)) (not (term == 0));
    }

unfoldable pub parse_runit_record : ℕ → Bytes → Result Status
parse_runit_record now contents = do
  tai64 ← be_uint 8 (← slice contents runit_tai64_start runit_tai64_end)
  pid ← le_uint 4 (← slice contents runit_pid_start runit_pid_end)
  paused ← byte_at contents runit_paused_flag
  want_char ← byte_at contents runit_want_flag
  run ← byte_at contents runit_run_flag
  term ← byte_at contents runit_term_flag
  ok (runit_parsed now tai64 pid paused want_char run term)

unfoldable pub parse_runit : ℕ → Bytes → Result Status
parse_runit now contents =
    if not (length contents == runit_status_size)
    then err (invalid_size ServiceType.runit (length contents))
    else parse_runit_record now contents

abbrev pub runit_state_parser : StateParser
runit_state_parser = record {
  parse = parse_runit;
  validate_size = λ size. size == runit_status_size;
  name = "runit";
}

-- What `DaemontoolsStateParser.Parse` makes of the fields that it reads.
unfoldable pub daemontools_parsed : ℕ → ℕ → ℕ → ℕ → Status
daemontools_parsed now tai64 pid want_char =
    let since = since_time tai64 0 in
    let want_up = want_char == b'u' in
    record zero_status {
      since = since;
      uptime = uptime_of now since;
      pid = pos pid;
      flags = record { want_up = want_up; want_down = want_char == b'd'; normally_up = want_up };
      state =
          if ltb_ℤ (pos 0) (pos pid)
          then (if want_up then state_running else state_stopping)
          else if want_up
          then state_starting
          else state_down;
    }

unfoldable pub parse_daemontools_record : ℕ → Bytes → Result Status
parse_daemontools_record now contents = do
  tai64 ← be_uint 8 (← slice contents daemontools_tai64_start daemontools_tai64_end)
  pid ← le_uint 4 (← slice contents daemontools_pid_start daemontools_pid_end)
  want_char ← byte_at contents daemontools_want_flag
  ok (daemontools_parsed now tai64 pid want_char)

unfoldable pub parse_daemontools : ℕ → Bytes → Result Status
parse_daemontools now contents =
    if not (length contents == daemontools_status_size)
    then err (invalid_size ServiceType.daemontools (length contents))
    else parse_daemontools_record now contents

abbrev pub daemontools_state_parser : StateParser
daemontools_state_parser = record {
  parse = parse_daemontools;
  validate_size = λ size. size == daemontools_status_size;
  name = "daemontools";
}

-- What `S6StateParserPre220.Parse` makes of the fields that it reads.
unfoldable pub s6_pre220_parsed : ℕ → ℕ → ℕ → ℕ → ℕ → Status
s6_pre220_parsed now pid tai64 ready_tai64 flag_byte =
    let since = since_time tai64 0 in
    let is_running = ltb_ℤ (pos 0) (pos pid) in
    record zero_status {
      s6_format = s6_format_pre220;
      pid = pos pid;
      since = since;
      uptime = uptime_of now since;
      ready_since = since_time ready_tai64 0;
      ready = has_bits flag_byte 0x08;
      state = if is_running then state_running else state_down;
      flags = record {
        want_up = if is_running then true else false;
        want_down = if is_running then false else true;
        normally_up = has_bits flag_byte 0x02;
      };
    }

unfoldable pub parse_s6_pre220_record : ℕ → Bytes → Result Status
parse_s6_pre220_record now contents = do
  pid ← be_uint 4 (← slice contents s6_pid_start_pre220 s6_pid_end_pre220)
  tai64 ← be_uint 8 (← slice contents 0 8)
  ready_tai64 ← be_uint 8 (← slice contents 12 20)
  flag_byte ← byte_at contents s6_flags_byte_pre220
  ok (s6_pre220_parsed now pid tai64 ready_tai64 flag_byte)

unfoldable pub parse_s6_pre220 : ℕ → Bytes → Result Status
parse_s6_pre220 now contents =
    if not (length contents == s6_status_size_pre220)
    then err (invalid_size ServiceType.s6 (length contents))
    else parse_s6_pre220_record now contents

abbrev pub s6_state_parser_pre220 : StateParser
s6_state_parser_pre220 = record {
  parse = parse_s6_pre220;
  validate_size = λ size. size == s6_status_size_pre220;
  name = "s6-pre-2.20.0";
}

-- What `S6StateParserCurrent.Parse` makes of the fields that it reads.
unfoldable pub s6_current_parsed : ℕ → ℕ → ℕ → ℕ → ℕ → Status
s6_current_parsed now pid tai64 ready_tai64 flag_byte =
    let since = since_time tai64 0 in
    let is_paused = has_bits flag_byte 0x01 in
    let is_finishing = has_bits flag_byte 0x02 in
    let want_up = has_bits flag_byte 0x04 in
    record zero_status {
      s6_format = s6_format_current;
      pid = int64 pid;
      since = since;
      uptime = uptime_of now since;
      ready_since = since_time ready_tai64 0;
      flags = record { want_up = want_up; want_down = not want_up; normally_up = want_up };
      ready = has_bits flag_byte 0x08;
      state =
          if ltb_ℤ (pos 0) (int64 pid)
          then (if is_paused
              then state_paused
              else if is_finishing
              then state_finishing
              else state_running)
          else if want_up
          then state_starting
          else state_down;
    }

unfoldable pub parse_s6_current_record : ℕ → Bytes → Result Status
parse_s6_current_record now contents = do
  pid ← be_uint 8 (← slice contents s6_pid_start_current s6_pid_end_current)
  tai64 ← be_uint 8 (← slice contents 0 8)
  ready_tai64 ← be_uint 8 (← slice contents 12 20)
  flag_byte ← byte_at contents s6_flags_byte_current
  ok (s6_current_parsed now pid tai64 ready_tai64 flag_byte)

unfoldable pub parse_s6_current : ℕ → Bytes → Result Status
parse_s6_current now contents =
    if not (length contents == s6_status_size_current)
    then err (invalid_size ServiceType.s6 (length contents))
    else parse_s6_current_record now contents

abbrev pub s6_state_parser_current : StateParser
s6_state_parser_current = record {
  parse = parse_s6_current;
  validate_size = λ size. size == s6_status_size_current;
  name = "s6-current";
}

-- `GetStateParser`.
unfoldable pub get_state_parser : ServiceType → ℕ → Result StateParser
get_state_parser ServiceType.runit size =
    if not (runit_state_parser.validate_size size)
    then err (invalid_size ServiceType.runit size)
    else ok runit_state_parser
get_state_parser ServiceType.daemontools size =
    if not (daemontools_state_parser.validate_size size)
    then err (invalid_size ServiceType.daemontools size)
    else ok daemontools_state_parser
get_state_parser ServiceType.s6 size =
    if size == s6_status_size_pre220
    then ok s6_state_parser_pre220
    else if size == s6_status_size_current
    then ok s6_state_parser_current
    else err (invalid_size ServiceType.s6 size)
get_state_parser t size = err (unsupported_type t)
