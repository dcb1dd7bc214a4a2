-- ===== src/Status/Stamp.antt =====
-- The time stamps of the status files, read the way each decoder of status_decode.go and
-- state_parser.go repeats it: a TAI64 label, checked against the offset and the year 9999.
pub mod Bounds
use go_runit.Common.{
  suc, ℕ, ◌+◌, ◌-◌, ◌*◌, ◌%◌, ◌^◌, Bool, ◌&&◌, Option, none, some, ltb, if◌then◌else◌,
}
use go_runit.Common.Int.{ℤ, pos, negsuc, pos_part, neg_part, sub_ℕ, ltb_ℤ, int64}
use go_runit.Status.{Time, zero_time, at, before, tai64_offset}

abbrev pub year_limit : ℕ
year_limit = 253402300800

abbrev pub second : ℕ
second = 1000000000

-- `int64(tai64 - TAI64Offset)`, in uint64 arithmetic.
unfoldable pub unix_sec : ℕ → ℤ
unix_sec tai = int64 ((tai + 2 ^ 64 - tai64_offset) % 2 ^ 64)

-- The seconds of a label that passes the checks, as a Unix time.
unfoldable pub checked_sec : ℕ → Option ℕ
unfolding unix_sec
checked_sec tai =
    if ltb tai64_offset tai
    then (if ltb_ℤ (pos 0) (unix_sec tai) && ltb_ℤ (unix_sec tai) (pos year_limit)
        then some (pos_part (unix_sec tai))
        else none)
    else none

-- `time.Unix(sec, nsec)`: nanoseconds beyond a second carry over.
abbrev pub unix_time : ℕ → ℕ → ℕ
unix_time sec nano = sec * second + nano

-- A difference, saturated to what an int64 holds.
saturate : ℤ → ℤ
saturate d =
    if ltb_ℤ (pos (2 ^ 63 - 1)) d
    then pos (2 ^ 63 - 1)
    else if ltb_ℤ d (negsuc (2 ^ 63 - 1))
    then negsuc (2 ^ 63 - 1)
    else d

-- `now.Sub(t)` for two instants.
unfoldable pub duration : ℕ → ℕ → ℤ
unfolding saturate
duration now t = saturate (sub_ℕ now t)

-- `now.Sub(t)`. The zero value is in the year 1, further back than an int64 can say.
unfoldable pub time_since : ℕ → Time → ℤ
unfolding duration saturate
time_since now zero_time = pos (2 ^ 63 - 1)
time_since now (at t) = duration now t
time_since now (before t) = saturate (pos (now + suc t))

-- `if st.Uptime < 0 { st.Uptime = 0 }`.
abbrev pub clamp_uptime : ℤ → ℤ
clamp_uptime d = if ltb_ℤ d (pos 0) then pos 0 else d

-- `Since` and `Uptime` from a label and nanoseconds, at the time `now`.
unfoldable pub since_time : ℕ → ℕ → Time
unfolding checked_sec
since_time tai nano = elim (checked_sec tai) [
  | none ↦ zero_time
  | some sec ↦ at (unix_time sec nano)
]

unfoldable pub uptime_of : ℕ → Time → ℤ
unfolding duration time_since
uptime_of now zero_time = pos 0
uptime_of now (at t) = clamp_uptime (duration now t)
uptime_of now (before t) = clamp_uptime (time_since now (before t))
