-- ===== src/Parser/Agree.antt =====
-- The parsers of state_parser.go against the decoders of status_decode.go on the same file.
use go_runit.Common.{not, false, Bool, ℕ, ◌≡◌, ◌⊎◌, ◌↔◌, refl, length, get_or, arith, ◌==◌}
use go_runit.Errors.{Result, ok}
use go_runit.Wire.{Bytes, le_value}
use go_runit.Wire.Values.{field}
use go_runit.Status.{State, state_starting, state_crashed, Status}
use go_runit.Status.Decode.{
  infer_state, runit_status, decode_status_runit, daemontools_status, decode_status_daemontools,
  s6_pre220_status, s6_current_status, decode_status_s6,
}
use go_runit.Status.Decode.Total.{
  decode_status_runit-ok, decode_status_daemontools-ok, decode_status_s6-pre220,
  decode_status_s6-current,
}
use go_runit.Parser.{
  parsed_state, runit_parsed, parse_runit, daemontools_parsed, parse_daemontools, s6_pre220_parsed,
  parse_s6_pre220, s6_current_parsed, parse_s6_current,
}
use go_runit.Parser.Total.{
  parse_runit-ok, parse_daemontools-ok, parse_s6_pre220-ok, parse_s6_current-ok,
}

-- The parsers call starting what the decoders call crashed: no process, though one is wanted.
abbrev pub as_decoded : State → State
as_decoded state_starting = state_crashed
as_decoded s = s

-- Both readers return a status, with the parser's state renamed, the same PID, the same wanted state
-- and the same readiness. The flag `NormallyUp` differs: the parser repeats the wanted state, and the
-- decoder has `normal`.
pub record Agrees (normal : Bool) (parsed decoded : Status) : Type 0 where
  pub state : decoded.state ≡ as_decoded parsed.state
  pub pid : decoded.pid ≡ parsed.pid
  pub want_up : decoded.flags.want_up ≡ parsed.flags.want_up
  pub want_down : decoded.flags.want_down ≡ parsed.flags.want_down
  pub parsed_normally_up : parsed.flags.normally_up ≡ parsed.flags.want_up
  pub decoded_normally_up : decoded.flags.normally_up ≡ normal
  pub ready : decoded.ready ≡ parsed.ready
  pub ready_since : decoded.ready_since ≡ parsed.ready_since
  pub s6_format : decoded.s6_format ≡ parsed.s6_format

abbrev pub BothRead : Result Status → Result Status → (Status → Status → Type 0) → Type 0
BothRead p d R = (s : Status) × (t : Status) × (p ≡ ok s) × (d ≡ ok t) × R s t

-- A runit file as runsv writes it: the run flag is set exactly while there is a process, the wanted
-- state is `u` or `d`, and the term flag is only set for a process.
pub record IsRunsvFile (d : Bytes) : Type 0 where
  pub size : length d ≡ 20
  pub run : (get_or d 19 0 ≡ 0) ↔ (le_value (field d 12 4) ≡ 0)
  pub want : (get_or d 17 0 ≡ b'u') ⊎ (get_or d 17 0 ≡ b'd')
  pub term : le_value (field d 12 4) ≡ 0 → get_or d 18 0 ≡ 0

-- The run flag, the last byte of a runit file.
abbrev pub run_flag : Bytes → Bool
run_flag d = not (get_or d 19 0 == 0)

-- On a runit file as runsv writes it, the parser and the decoder both return a status, and agree on it
-- but for the name of one state (starting for crashed), the flag `NormallyUp`, the times and the raw copy.
-- In that flag the parser repeats the wanted state and the decoder has the run flag.
runit_agree :
    (now : ℕ) (d : Bytes)
    → IsRunsvFile d
    → BothRead (parse_runit now d) (decode_status_runit now d) (Agrees (run_flag d))
unfolding runit_parsed parsed_state runit_status infer_state
runit_agree now d h = (
  _,
  _,
  parse_runit-ok now d h.size,
  decode_status_runit-ok now d h.size,
  record {
    state = ground arith;
    pid = refl;
    want_up = refl;
    want_down = refl;
    parsed_normally_up = refl;
    decoded_normally_up = refl;
    ready = refl;
    ready_since = refl;
    s6_format = refl;
  },
)

-- On a daemontools file of 18 bytes whose wanted state is `u` or `d`, the parser and the decoder both
-- return a status, and agree on it but for the name of one state (starting for crashed), the flag
-- `NormallyUp`, the times and the raw copy. In that flag the parser repeats the wanted state and the
-- decoder has false.
daemontools_agree :
    (now : ℕ) (d : Bytes)
    → length d ≡ 18
    → (get_or d 17 0 ≡ b'u') ⊎ (get_or d 17 0 ≡ b'd')
    → BothRead (parse_daemontools now d) (decode_status_daemontools now d) (Agrees false)
unfolding daemontools_parsed daemontools_status infer_state
daemontools_agree now d h w = (
  _,
  _,
  parse_daemontools-ok now d h,
  decode_status_daemontools-ok now d h,
  record {
    state = ground arith;
    pid = refl;
    want_up = refl;
    want_down = refl;
    parsed_normally_up = refl;
    decoded_normally_up = refl;
    ready = refl;
    ready_since = refl;
    s6_format = refl;
  },
)

-- Everything but the name of the state and the raw copy, which the parsers leave zero.
abbrev pub SameRecord : Status → Status → Type 0
SameRecord s t = t ≡ record s { state = as_decoded s.state; raw = t.raw }

s6_pre220_agree :
    (now : ℕ) (d : Bytes)
    → length d ≡ 35
    → BothRead (parse_s6_pre220 now d) (decode_status_s6 now d) SameRecord
unfolding s6_pre220_parsed s6_pre220_status
s6_pre220_agree now d h =
    (_, _, parse_s6_pre220-ok now d h, decode_status_s6-pre220 now d h, ground arith)

s6_current_agree :
    (now : ℕ) (d : Bytes)
    → length d ≡ 43
    → BothRead (parse_s6_current now d) (decode_status_s6 now d) SameRecord
unfolding s6_current_parsed s6_current_status
s6_current_agree now d h =
    (_, _, parse_s6_current-ok now d h, decode_status_s6-current now d h, ground arith)

-- The parser and the decoder of each format both return a status. On a runit file as
-- runsv writes it, and on a daemontools file of 18 bytes whose wanted state is `u` or `d`, they agree
-- on the state, but for one name (starting for crashed), the PID, the wanted state and the readiness. They
-- need not agree on the flag `NormallyUp`: there the parser repeats the wanted state, where the decoder has
-- the run flag of a runit file and false for a daemontools file. Of the times and the raw copy nothing is
-- said. On s6 files of 35 and of 43 bytes they read the same record, up to the name of that state and the
-- raw copy.
pub parsers_agree :
    (now : ℕ) (r t p c : Bytes)
    → IsRunsvFile r
    → length t ≡ 18
    → (get_or t 17 0 ≡ b'u') ⊎ (get_or t 17 0 ≡ b'd')
    → length p ≡ 35
    → length c ≡ 43
    → BothRead (parse_runit now r) (decode_status_runit now r) (Agrees (run_flag r))
      × BothRead (parse_daemontools now t) (decode_status_daemontools now t) (Agrees false)
      × BothRead (parse_s6_pre220 now p) (decode_status_s6 now p) SameRecord
      × BothRead (parse_s6_current now c) (decode_status_s6 now c) SameRecord
parsers_agree now r t p c hr ht w hp hc = (
  runit_agree now r hr,
  daemontools_agree now t ht w,
  s6_pre220_agree now p hp,
  s6_current_agree now c hc,
)
