-- ===== src/Status/Stamp/Bounds.antt =====
-- Which labels are read, and the range of the durations.
use go_runit.Common.{leb, not, ℕ, ◌+◌, ◌-◌, ◌^◌, ◌<◌, ◌≡◌, ◌↔◌, some, arith}
use go_runit.Common.Int.{ltb_ℤ, pos, ◌≤ℤ◌}
use go_runit.Status.Stamp.{saturate, duration, time_since, year_limit, checked_sec, uptime_of}
use go_runit.Status.{Time, zero_time, at, before, tai64_offset}

-- A TAI64 label is read as a number of seconds exactly when it is the offset 2^62 plus that number, and
-- the number is positive and before the year 9999; any other label gives none.
pub checked_sec_lem :
    (tai : ℕ) (sec : ℕ)
    → tai < 2 ^ 64
    → (checked_sec tai ≡ some sec) ↔ ((tai ≡ tai64_offset + sec) × (0 < sec) × (sec < year_limit))
unfolding checked_sec
checked_sec_lem tai sec h = ground arith

-- The uptime is never negative, and fits an int64.
pub uptime_of_bounds :
    (now : ℕ) (t : Time) → (pos 0 ≤ℤ uptime_of now t) × (uptime_of now t ≤ℤ pos (2 ^ 63 - 1))
unfolding uptime_of
uptime_of_bounds now zero_time = omega arith
uptime_of_bounds now (at t) = ground arith
uptime_of_bounds now (before t) = ground (arith, time_since)

-- Whether an instant is at least so long ago, for a time that an int64 holds.
pub time_since-at_least :
    (now t d : ℕ) → d < 2 ^ 63 → not (ltb_ℤ (time_since now (at t)) (pos d)) ≡ leb (t + d) now
unfolding time_since duration saturate
time_since-at_least now t d h = ground (arith, h)
