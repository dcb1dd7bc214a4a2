-- ===== src/Mock/Initial.antt =====
-- What the decoders read from the first status file of a mock supervisor.
use go_runit.Common.{ℕ, ◌<◌, ◌≡◌, Bool, ◌^◌, refl, false, arith}
use go_runit.Common.Int.{pos}
use go_runit.Service.{ServiceType}
use go_runit.Errors.{Result, ok}
use go_runit.Status.{Status, state_down}
use go_runit.Status.Stamp.{year_limit, second}
use go_runit.Status.Decode.{
  decode_status_runit, decode_status_daemontools, decode_status_s6, s6_pre220_status,
}
use go_runit.Mock.{update_runit, update_daemontools, update_status}
use go_runit.Status.Decode.Total.{decode_status_s6-pre220}
use go_runit.Mock.RoundTrip.{S6ReadsBack, mock_round_trip, ReadsBack}
use go_runit.Mock.Make.{initial_status, initial_runit, initial_daemontools, initial_s6}

-- A status of a service that is down, without a process.
abbrev pub ShowsDown : Result Status → Type 0
ShowsDown r = (s : Status) × (r ≡ ok s) × (s.pid ≡ pos 0) × (s.state ≡ state_down)

initial_runit-update : (sec : ℕ) → initial_runit sec ≡ update_runit sec 0 false (pos 0)
unfolding initial_runit update_runit
initial_runit-update sec = refl

initial_daemontools-update :
    (sec : ℕ) → initial_daemontools sec ≡ update_daemontools sec 0 false (pos 0)
unfolding initial_daemontools update_daemontools
initial_daemontools-update sec = refl

initial_s6_down : (now : ℕ) → ShowsDown (decode_status_s6 now initial_s6)
unfolding initial_s6 s6_pre220_status
initial_s6_down now = (_, decode_status_s6-pre220 now initial_s6 refl, ground arith, ground arith)

initial_is_down :
    (now sec : ℕ)
    → 0 < sec
    → sec < year_limit
    → ReadsBack sec 0 false 0 (decode_status_runit now (initial_status ServiceType.runit sec))
      × ReadsBack sec 0 false 0
          (decode_status_daemontools now (initial_status ServiceType.daemontools sec))
      × ShowsDown (decode_status_s6 now (initial_status ServiceType.s6 sec))
unfolding initial_status update_status
initial_is_down now sec p q =
    let r = mock_round_trip now sec 0 false 0 p q (omega arith) (omega arith) in
    (
      rw (initial_runit-update sec) (r.0),
      rw (initial_daemontools-update sec) (r.1),
      initial_s6_down now,
    )

-- The files that the mock writes are read back by the decoders, for every PID below 2^32 and every time
-- after the epoch, up to the year 9999. For runit and daemontools: PID, time stamp with its nanoseconds,
-- wanted state, and the state that follows from them (running or crashed where up is wanted, stopping
-- or down where not). For s6: the PID, the state that follows from it, the time stamp to the second,
-- the readiness and its time for a service that runs with a PID, and the flag normally up. The first
-- file of a new mock is read as that of a service that is down, without a process, and for runit and
-- daemontools since the time of the mock.
pub mock-ReadsBack :
    (now sec nano : ℕ) (running : Bool) (pid : ℕ)
    → 0 < sec
    → sec < year_limit
    → nano < second
    → pid < 2 ^ 32
    → ReadsBack sec nano running pid
        (decode_status_runit now (update_status ServiceType.runit sec nano running (pos pid)))
      × ReadsBack sec nano running pid (
          decode_status_daemontools now
            (update_status ServiceType.daemontools sec nano running (pos pid)))
      × S6ReadsBack sec running pid
          (decode_status_s6 now (update_status ServiceType.s6 sec nano running (pos pid)))
      × ReadsBack sec 0 false 0 (decode_status_runit now (initial_status ServiceType.runit sec))
      × ReadsBack sec 0 false 0
          (decode_status_daemontools now (initial_status ServiceType.daemontools sec))
      × ShowsDown (decode_status_s6 now (initial_status ServiceType.s6 sec))
mock-ReadsBack now sec nano running pid p q n k =
    let u = mock_round_trip now sec nano running pid p q n k in
    let i = initial_is_down now sec p q in (u.0, u.1, u.2, i.0, i.1, i.2)
