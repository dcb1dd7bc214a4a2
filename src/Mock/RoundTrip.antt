-- ===== src/Mock/RoundTrip.antt =====
-- What the decoders read back from the files of the mock supervisor.
use go_runit.Common.{
  zero, suc, ℕ, ◌^◌, ◌<◌, ◌≡◌, refl, Bool, true, false, ◌&&◌, not, length, get_or, arith, ltb,
  if◌then◌else◌, some,
}
use go_runit.Common.Int.{pos}
use go_runit.Service.{ServiceType}
use go_runit.Errors.{Result, ok}
use go_runit.Wire.{Bytes, be_value, le_value}
use go_runit.Wire.Values.{field}
use go_runit.Status.{
  State, state_down, state_running, state_stopping, state_crashed, Status, zero_time, at,
}
use go_runit.Status.Stamp.{year_limit, second, unix_time, since_time, checked_sec}
use go_runit.Status.Stamp.Bounds.{checked_sec_lem}
use go_runit.Status.Decode.{
  infer_state, runit_status, decode_status_runit, daemontools_status, decode_status_daemontools,
  s6_pre220_status, decode_status_s6,
}
use go_runit.Status.Decode.Total.{
  decode_status_runit-ok, decode_status_daemontools-ok, decode_status_s6-pre220,
}
use go_runit.Mock.{tai_of, update_status, update_runit, update_daemontools, update_s6}

-- What a reader of the files of runit and daemontools should see.
abbrev pub expected_state : Bool → ℕ → State
expected_state running pid =
    if ltb 0 pid
    then (if running then state_running else state_stopping)
    else if running
    then state_crashed
    else state_down

module _ (sec : ℕ) (sec_pos : 0 < sec) (sec_lt : sec < year_limit) where
  since_of_mock : (n : ℕ) → since_time (tai_of sec) n ≡ at (unix_time sec n)
  unfolding since_time
  since_of_mock n =
      let e : checked_sec (tai_of sec) ≡ some sec =
        (checked_sec_lem (tai_of sec) sec (omega arith)).1 (omega arith, sec_pos, sec_lt) in
      rw (e, since_time)

-- The bytes that a reader takes apart.
abbrev RunitBytes : ℕ → ℕ → Bool → ℕ → Bytes → Type 0
RunitBytes sec nano running pid d =
    (length d ≡ 20)
    × (be_value 0 (field d 0 8) ≡ tai_of sec)
    × (be_value 0 (field d 8 4) ≡ nano)
    × (le_value (field d 12 4) ≡ pid)
    × (get_or d 16 0 ≡ 0)
    × (get_or d 17 0 ≡ (if running then b'u' else b'd'))
    × (get_or d 18 0 ≡ 0)
    × (get_or d 19 0 ≡ (if running && ltb 0 pid then 1 else 0))

runit_bytes :
    (sec nano : ℕ) (running : Bool) (pid : ℕ)
    → nano < second
    → pid < 2 ^ 32
    → RunitBytes sec nano running pid (update_runit sec nano running (pos pid))
unfolding update_runit
runit_bytes sec nano true pid h k = ground arith
runit_bytes sec nano false pid h k = ground arith

abbrev DaemontoolsBytes : ℕ → ℕ → Bool → ℕ → Bytes → Type 0
DaemontoolsBytes sec nano running pid d =
    (length d ≡ 18)
    × (be_value 0 (field d 0 8) ≡ tai_of sec)
    × (be_value 0 (field d 8 4) ≡ nano)
    × (le_value (field d 12 4) ≡ pid)
    × (get_or d 17 0 ≡ (if running then b'u' else b'd'))

daemontools_bytes :
    (sec nano : ℕ) (running : Bool) (pid : ℕ)
    → nano < second
    → pid < 2 ^ 32
    → DaemontoolsBytes sec nano running pid (update_daemontools sec nano running (pos pid))
unfolding update_daemontools
daemontools_bytes sec nano true pid h k = ground arith
daemontools_bytes sec nano false pid h k = ground arith

abbrev S6Bytes : ℕ → Bool → ℕ → Bytes → Type 0
S6Bytes sec running pid d =
    (length d ≡ 35)
    × (be_value 0 (field d 0 8) ≡ tai_of sec)
    × (be_value 0 (field d 12 8) ≡ (if running && ltb 0 pid then tai_of sec else 0))
    × (be_value 0 (field d 28 4) ≡ pid)
    × (get_or d 34 0 ≡ (if running then (if ltb 0 pid then 10 else 2) else 0))

s6_bytes :
    (sec nano : ℕ) (running : Bool) (pid : ℕ)
    → pid < 2 ^ 32
    → S6Bytes sec running pid (update_s6 sec nano running (pos pid))
unfolding update_s6
s6_bytes sec nano true zero k = ground arith
s6_bytes sec nano true (suc pid) k = ground arith
s6_bytes sec nano false zero k = ground arith
s6_bytes sec nano false (suc pid) k = ground arith

-- The decoder returns a status that shows the process, the time and the wanted state written.
abbrev pub ReadsBack : ℕ → ℕ → Bool → ℕ → Result Status → Type 0
ReadsBack sec nano running pid r =
    (s : Status) × (r ≡ ok s)
    × (s.pid ≡ pos pid)
    × (s.since ≡ at (unix_time sec nano))
    × (s.state ≡ expected_state running pid)
    × (s.flags.want_up ≡ running)
    × (s.flags.want_down ≡ not running)

module _ (now sec nano : ℕ) (running : Bool) (pid : ℕ) (sec_pos : 0 < sec)
    (sec_lt : sec < year_limit) where
  runit_ReadsBack :
      (d : Bytes)
      → RunitBytes sec nano running pid d
      → ReadsBack sec nano running pid (decode_status_runit now d)
  unfolding runit_status infer_state
  runit_ReadsBack d (size, tai, ns, process, paused, want, term, run) = (
    _,
    decode_status_runit-ok now d size,
    ground arith,
    rw (tai, ns) (since_of_mock sec sec_pos sec_lt nano),
    ground arith,
    ground arith,
    ground arith,
  )

  daemontools_ReadsBack :
      (d : Bytes)
      → DaemontoolsBytes sec nano running pid d
      → ReadsBack sec nano running pid (decode_status_daemontools now d)
  unfolding daemontools_status infer_state
  daemontools_ReadsBack d (size, tai, ns, process, want) = (
    _,
    decode_status_daemontools-ok now d size,
    ground arith,
    rw (tai, ns) (since_of_mock sec sec_pos sec_lt nano),
    ground arith,
    ground arith,
    ground arith,
  )

no_ready : since_time 0 0 ≡ zero_time
unfolding since_time
no_ready = refl

-- The decoder of s6 returns a status that shows the process, the time to the second, the readiness and
-- the flag normally up.
abbrev pub S6ReadsBack : ℕ → Bool → ℕ → Result Status → Type 0
S6ReadsBack sec running pid r =
    (s : Status) × (r ≡ ok s)
    × (s.pid ≡ pos pid)
    × (s.state ≡ (if ltb 0 pid then state_running else state_down))
    × (s.since ≡ at (unix_time sec 0))
    × (s.ready ≡ (running && ltb 0 pid))
    × (s.ready_since ≡ (if running && ltb 0 pid then at (unix_time sec 0) else zero_time))
    × (s.flags.normally_up ≡ running)

s6_reads :
    (now sec : ℕ) (running : Bool) (pid : ℕ)
    → 0 < sec
    → sec < year_limit
    → (d : Bytes) → S6Bytes sec running pid d
    → S6ReadsBack sec running pid (decode_status_s6 now d)
unfolding s6_pre220_status
s6_reads now sec running pid p q d (size, tai, ready, process, flags) =
    let stamp = since_of_mock sec p q 0 in
    (
      _,
      decode_status_s6-pre220 now d size,
      ground arith,
      ground arith,
      rw tai stamp,
      ground arith,
      ground (arith, no_ready),
      ground arith,
    )

-- The files that the mock writes are read back by the decoders, for every PID below 2^32 and every time
-- after the epoch, up to the year 9999. For runit and daemontools: PID, time stamp with its nanoseconds,
-- wanted state, and the state that follows from them (running or crashed where up is wanted, stopping
-- or down where not). For s6: the PID, the state that follows from it, the time stamp to the second,
-- the readiness and its time for a service that runs with a PID, and the flag normally up.
pub mock_round_trip :
    (now sec nano : ℕ) (running : Bool) (pid : ℕ)
    → 0 < sec
    → sec < year_limit
    → nano < second
    → pid < 2 ^ 32
    → ReadsBack sec nano running pid
        (decode_status_runit now (update_status ServiceType.runit sec nano running (pos pid)))
      × ReadsBack sec nano running pid (
          decode_status_daemontools now
            (update_status ServiceType.daemontools sec nano running (pos pid)))
      × S6ReadsBack sec running pid
          (decode_status_s6 now (update_status ServiceType.s6 sec nano running (pos pid)))
unfolding update_status
mock_round_trip now sec nano running pid p q n k = (
  runit_ReadsBack now sec nano running pid p q _ (runit_bytes sec nano running pid n k),
  daemontools_ReadsBack now sec nano running pid p q _ (daemontools_bytes sec nano running pid n k),
  s6_reads now sec running pid p q _ (s6_bytes sec nano running pid k),
)
