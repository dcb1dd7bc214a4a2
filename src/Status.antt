-- ===== src/Status.antt =====
-- status_decode.go (types, time stamps) and the constants of runit.go that they use: what a decoded
-- status file holds. Time is measured in nanoseconds since the Unix epoch; the clock is an argument.
pub mod Format
pub mod Stamp
pub mod Decode
use go_runit.Common.{true, ℕ, String, Bool, false, List, ◌^◌, replicate}
use go_runit.Common.Int.{ℤ, pos}
use go_runit.Wire.{Bytes}

pub data State : Type 0 where
  state_unknown state_down state_starting state_running state_paused : State
  state_stopping state_finishing state_crashed state_exited : State

-- The constants' values, by `iota`: Go compares states as integers.
abbrev pub state_index : State → ℕ
state_index state_unknown = 0
state_index state_down = 1
state_index state_starting = 2
state_index state_running = 3
state_index state_paused = 4
state_index state_stopping = 5
state_index state_finishing = 6
state_index state_crashed = 7
state_index state_exited = 8

-- `State.String`.
unfoldable pub state_string : State → String
state_string state_down = "down"
state_string state_starting = "starting"
state_string state_running = "running"
state_string state_paused = "paused"
state_string state_stopping = "stopping"
state_string state_finishing = "finishing"
state_string state_crashed = "crashed"
state_string state_exited = "exited"
state_string state_unknown = "unknown"

pub data S6FormatVersion : Type 0 where
  s6_format_unknown s6_format_pre220 s6_format_current : S6FormatVersion

-- A `time.Time`: its zero value, an instant, or `before n`, which is n + 1 nanoseconds before the epoch.
pub data Time : Type 0 where
  zero_time : Time
  at : ℕ → Time
  before : ℕ → Time

-- `Time.IsZero`
abbrev pub is_zero : Time → Bool
is_zero zero_time = true
is_zero t = false

pub record Flags : Type 0 where
  pub want_up : Bool
  pub want_down : Bool
  pub normally_up : Bool

pub record Status : Type 0 where
  pub state : State
  pub pid : ℤ
  pub since : Time
  pub uptime : ℤ
  pub ready : Bool
  pub ready_since : Time
  pub flags : Flags
  pub raw : Bytes
  pub s6_format : S6FormatVersion

abbrev pub status_file_size : ℕ
status_file_size = 20

abbrev pub no_flags : Flags
no_flags = record { want_up = false; want_down = false; normally_up = false }

-- `Status{}`: the zero value. `Raw` is an array of 20 bytes.
abbrev pub zero_status : Status
zero_status = record {
  state = state_unknown;
  pid = pos 0;
  since = zero_time;
  uptime = pos 0;
  ready = false;
  ready_since = zero_time;
  flags = no_flags;
  raw = replicate status_file_size 0;
  s6_format = s6_format_unknown;
}

-- `TAI64Offset` of status_decode.go.
abbrev pub tai64_offset : ℕ
tai64_offset = 2 ^ 62
