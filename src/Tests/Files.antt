-- ===== src/Tests/Files.antt =====
-- Status files: those of state_parser_test.go, and a file for each theorem on decoding.
use go_runit.Common.{
  false, ◌≡◌, inl, refl, true, ◌||◌, [], ◌∷◌, ◌++◌, length, replicate, ◌==◌, arith,
}
use go_runit.Common.Int.{pos}
use go_runit.Service.{ServiceType}
use go_runit.Errors.{ok}
use go_runit.Wire.{Bytes, slice, be_uint, le_uint, byte_at}
use go_runit.Status.{state_running, state_paused}
use go_runit.Status.Decode.{
  decode_status_runit, decode_status_daemontools, decode_status_s6, decode_runit_record,
  runit_status, infer_state,
}
use go_runit.Status.Decode.Total.{Decodes, decoders_total, runit_record}
use go_runit.Status.Decode.Sense.{IsSensible, decoded-IsSensible}
use go_runit.Parser.{parse_runit, parse_daemontools, parse_s6_pre220, parse_s6_current}
use go_runit.Parser.Agree.{Agrees, BothRead, IsRunsvFile, SameRecord, parsers_agree}
use go_runit.Mock.{update_status}
use go_runit.Mock.Make.{initial_status}
use go_runit.Mock.Initial.{ShowsDown, mock-ReadsBack}
use go_runit.Mock.RoundTrip.{ReadsBack, S6ReadsBack}

-- `4000000067890abc00000000d204000000750001`: a running service with PID 1234.
abbrev pub running_file : Bytes
running_file =
    0x40 ∷ 0 ∷ 0 ∷ 0 ∷ 0x67 ∷ 0x89 ∷ 0x0a ∷ 0xbc ∷ 0 ∷ 0 ∷ 0 ∷ 0 ∷ 0xd2 ∷ 0x04 ∷ 0 ∷ 0 ∷ 0 ∷ 0x75
    ∷ 0 ∷ 1 ∷ []

-- `4000000067890abc000000002e16000001750001`: a paused service with PID 5678.
abbrev paused_file : Bytes
paused_file =
    0x40 ∷ 0 ∷ 0 ∷ 0 ∷ 0x67 ∷ 0x89 ∷ 0x0a ∷ 0xbc ∷ 0 ∷ 0 ∷ 0 ∷ 0 ∷ 0x2e ∷ 0x16 ∷ 0 ∷ 0 ∷ 1 ∷ 0x75
    ∷ 0 ∷ 1 ∷ []

-- A daemontools file of a running service.
abbrev daemontools_file : Bytes
daemontools_file =
    0x40 ∷ 0 ∷ 0 ∷ 0 ∷ 0x67 ∷ 0x89 ∷ 0x0a ∷ 0xbc ∷ 0 ∷ 0 ∷ 0 ∷ 0 ∷ 0xd2 ∷ 0x04 ∷ 0 ∷ 0 ∷ 0 ∷ 0x75
    ∷ []

running_decodes : decode_status_runit 0 running_file ≡ ok (runit_record 0 running_file)
unfolding decode_status_runit decode_runit_record slice be_uint le_uint byte_at
running_decodes = refl

running_state : (runit_record 0 running_file).state ≡ state_running
unfolding runit_status infer_state
running_state = refl

paused_state : (runit_record 0 paused_file).state ≡ state_paused
unfolding runit_status infer_state
paused_state = refl

decoders_total_example :
    Decodes
      (length running_file == 20)
      ServiceType.runit
      running_file
      (decode_status_runit 7 running_file)
    × Decodes
        (length running_file == 18)
        ServiceType.daemontools
        running_file
        (decode_status_daemontools 7 running_file)
    × Decodes
        (length running_file == 35 || length running_file == 43)
        ServiceType.s6
        running_file
        (decode_status_s6 7 running_file)
decoders_total_example = decoders_total 7 running_file

decoded-IsSensible_example : IsSensible (runit_record 0 running_file)
decoded-IsSensible_example =
    decoded-IsSensible 0 running_file (runit_record 0 running_file) (inl running_decodes)

running_file-IsRunsvFile : IsRunsvFile running_file
running_file-IsRunsvFile = record {
  size = refl;
  run = (λ e. absurd (omega arith), λ e. absurd (omega arith));
  want = inl refl;
  term = λ e. absurd (omega arith);
}

abbrev s6_old_file : Bytes
s6_old_file = running_file ++ replicate 11 0 ++ 1 ∷ 0 ∷ 0 ∷ 8 ∷ []

abbrev s6_new_file : Bytes
s6_new_file = replicate 43 1

parsers_agree_example :
    BothRead (parse_runit 0 running_file) (decode_status_runit 0 running_file) (Agrees true)
    × BothRead
        (parse_daemontools 0 daemontools_file)
        (decode_status_daemontools 0 daemontools_file)
        (Agrees false)
    × BothRead (parse_s6_pre220 0 s6_old_file) (decode_status_s6 0 s6_old_file) SameRecord
    × BothRead (parse_s6_current 0 s6_new_file) (decode_status_s6 0 s6_new_file) SameRecord
parsers_agree_example =
    parsers_agree 0 running_file daemontools_file s6_old_file s6_new_file running_file-IsRunsvFile
      refl (inl refl) refl refl

mock-ReadsBack_example :
    ReadsBack 1700000000 5 true 1234
      (decode_status_runit 0 (update_status ServiceType.runit 1700000000 5 true (pos 1234)))
    × ReadsBack 1700000000 5 true 1234 (
        decode_status_daemontools 0
          (update_status ServiceType.daemontools 1700000000 5 true (pos 1234)))
    × S6ReadsBack 1700000000 true 1234
        (decode_status_s6 0 (update_status ServiceType.s6 1700000000 5 true (pos 1234)))
    × ReadsBack 1700000000 0 false 0
        (decode_status_runit 0 (initial_status ServiceType.runit 1700000000))
    × ReadsBack 1700000000 0 false 0
        (decode_status_daemontools 0 (initial_status ServiceType.daemontools 1700000000))
    × ShowsDown (decode_status_s6 0 (initial_status ServiceType.s6 1700000000))
mock-ReadsBack_example =
    mock-ReadsBack 0 1700000000 5 true 1234 (omega arith) (omega arith) (omega arith) (omega arith)
