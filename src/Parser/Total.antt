-- ===== src/Parser/Total.antt =====
-- What the parsers return on files of their sizes.
use go_runit.Common.{ℕ, ◌≡◌, length, get_or, arith}
use go_runit.Errors.{ok}
use go_runit.Wire.{Bytes, be_value, le_value}
use go_runit.Wire.Values.{field, slice_lem, be_uint-field, le_uint-field, byte_at_lem}
use go_runit.Parser.{
  runit_parsed, parse_runit_record, parse_runit, daemontools_parsed, parse_daemontools_record,
  parse_daemontools, s6_pre220_parsed, parse_s6_pre220_record, parse_s6_pre220, s6_current_parsed,
  parse_s6_current_record, parse_s6_current,
}

pub parse_runit-ok :
    (now : ℕ) (d : Bytes)
    → length d ≡ 20
    → parse_runit now d
      ≡ ok (
          runit_parsed now
            (be_value 0 (field d 0 8))
            (le_value (field d 12 4))
            (get_or d 16 0)
            (get_or d 17 0)
            (get_or d 19 0)
            (get_or d 18 0))
unfolding parse_runit parse_runit_record
parse_runit-ok now d h = ground (
  arith,
  slice_lem d 0 8 (omega arith) (omega arith),
  be_uint-field d 0 8 (omega arith),
  slice_lem d 12 16 (omega arith) (omega arith),
  le_uint-field d 12 4 (omega arith),
  byte_at_lem d 16 (omega arith),
  byte_at_lem d 17 (omega arith),
  byte_at_lem d 18 (omega arith),
  byte_at_lem d 19 (omega arith),
)

pub parse_daemontools-ok :
    (now : ℕ) (d : Bytes)
    → length d ≡ 18
    → parse_daemontools now d
      ≡ ok (
          daemontools_parsed now
            (be_value 0 (field d 0 8))
            (le_value (field d 12 4))
            (get_or d 17 0))
unfolding parse_daemontools parse_daemontools_record
parse_daemontools-ok now d h = ground (
  arith,
  slice_lem d 0 8 (omega arith) (omega arith),
  be_uint-field d 0 8 (omega arith),
  slice_lem d 12 16 (omega arith) (omega arith),
  le_uint-field d 12 4 (omega arith),
  byte_at_lem d 17 (omega arith),
)

pub parse_s6_pre220-ok :
    (now : ℕ) (d : Bytes)
    → length d ≡ 35
    → parse_s6_pre220 now d
      ≡ ok (
          s6_pre220_parsed now
            (be_value 0 (field d 28 4))
            (be_value 0 (field d 0 8))
            (be_value 0 (field d 12 8))
            (get_or d 34 0))
unfolding parse_s6_pre220 parse_s6_pre220_record
parse_s6_pre220-ok now d h = ground (
  arith,
  slice_lem d 28 32 (omega arith) (omega arith),
  be_uint-field d 28 4 (omega arith),
  slice_lem d 0 8 (omega arith) (omega arith),
  be_uint-field d 0 8 (omega arith),
  slice_lem d 12 20 (omega arith) (omega arith),
  be_uint-field d 12 8 (omega arith),
  byte_at_lem d 34 (omega arith),
)

pub parse_s6_current-ok :
    (now : ℕ) (d : Bytes)
    → length d ≡ 43
    → parse_s6_current now d
      ≡ ok (
          s6_current_parsed now
            (be_value 0 (field d 24 8))
            (be_value 0 (field d 0 8))
            (be_value 0 (field d 12 8))
            (get_or d 42 0))
unfolding parse_s6_current parse_s6_current_record
parse_s6_current-ok now d h = ground (
  arith,
  slice_lem d 24 32 (omega arith) (omega arith),
  be_uint-field d 24 8 (omega arith),
  slice_lem d 0 8 (omega arith) (omega arith),
  be_uint-field d 0 8 (omega arith),
  slice_lem d 12 20 (omega arith) (omega arith),
  be_uint-field d 12 8 (omega arith),
  byte_at_lem d 42 (omega arith),
)
