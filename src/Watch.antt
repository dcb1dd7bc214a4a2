-- ===== src/Watch.antt =====
-- watch_impl.go: what a watch makes of the events of the file system, with its state, its timer and
-- the events that it sends. The environment gives each reading its time, its result and whether the
-- watch is being stopped.
pub mod Log
pub mod Changes
pub mod Pace
pub mod Methods
use go_runit.Defaults.{status_name}
use go_runit.Common.{
  ◌⊎◌, inl, inr, ℕ, suc, ◌+◌, ◌-◌, ◌*◌, ◌^◌, String, Bool, true, false, not, ◌&&◌, Option, none,
  some, List, [], ◌∷◌, ◌++◌, length, replicate, ◌==◌, ltb, if◌then◌else◌,
}
use text.Mathlib.Text.{◌==◌ as str_eq}
use go_runit.Common.Int.{pos, ltb_ℤ}
use go_runit.Service.{ServiceType}
use go_runit.Errors.{Error}
use go_runit.Wire.{Bytes, copy}
use go_runit.Status.{Status, Time, zero_time, at, is_zero, status_file_size, zero_status}
use go_runit.Status.Format.{daemontools_status_size, s6_max_status_size}
use go_runit.Status.Stamp.{time_since}

-- A `WatchEvent` as the watch makes it: with a status, or with an error.
pub data WatchEvent : Type 0 where
  reported : Status → WatchEvent
  watch_error : Error → WatchEvent

-- The debouncer is the delay that its timer was last armed with. The mutex has no part in a sequence of
-- steps. Durations are nanoseconds.
pub record WatchState : Type 0 where
  pub last_raw : Bytes
  pub debouncer : Option ℕ
  pub spin_start_time : Time
  pub spin_count : ℕ
  pub backoff_interval : ℕ

-- `make([]byte, client.getStatusFileSize())`, and the zero values.
abbrev pub watch_start : ℕ → WatchState
watch_start size = record {
  last_raw = replicate size 0;
  debouncer = none;
  spin_start_time = zero_time;
  spin_count = 0;
  backoff_interval = 0;
}

-- The sizes of the three clients.
abbrev pub get_status_file_size : ServiceType → ℕ
get_status_file_size ServiceType.daemontools = daemontools_status_size
get_status_file_size ServiceType.s6 = s6_max_status_size
get_status_file_size _ = status_file_size

-- A call of `readAndSend`: whether the watch is stopping at its start, the time, the result of
-- `Status`, and whether the event goes to the channel, since the watch is not stopping by then.
pub record Reading : Type 0 where
  pub stopping : Bool
  pub now : ℕ
  pub status : Error ⊎ Status
  pub sends : Bool

-- `currentRaw`: a copy with the size of the last one.
abbrev pub window : ℕ → Status → Bytes
window size status = copy (replicate size 0) status.raw

-- The comparison of the bytes, and of the lengths first.
abbrev pub differ : Bytes → Bytes → Bool
differ [] [] = false
differ (x ∷ xs) (y ∷ ys) = if not (x == y) then true else differ xs ys
differ _ _ = true

unfoldable pub is_changed : Bytes → Bytes → Bool
is_changed current last = if not (length current == length last) then true else differ current last

abbrev pub send : Bool → WatchEvent → List WatchEvent
send true e = e ∷ []
send false e = []

-- The branch of an unchanged status: how long the watch has been spinning.
unfoldable pub spin : ℕ → WatchState → WatchState
spin now s =
    if is_zero s.spin_start_time
    then record s { spin_start_time = at now; spin_count = 1 }
    else record s {
      spin_count = suc s.spin_count;
      backoff_interval =
          if not (ltb_ℤ (time_since now s.spin_start_time) (pos 5000000000))
            && (s.backoff_interval == 0)
          then 1000000000
          else s.backoff_interval;
    }

-- The branch of a changed status.
abbrev pub renew : Bytes → WatchState → WatchState
renew current s = record s {
  last_raw = current;
  spin_start_time = zero_time;
  spin_count = 0;
  backoff_interval = 0;
}

pub record Watched : Type 0 where
  pub state : WatchState
  pub events : List WatchEvent

unfoldable pub compare_and_send : Reading → Status → WatchState → Watched
unfolding is_changed
compare_and_send r status s =
    let current = window (length s.last_raw) status in
    if is_changed current s.last_raw
    then record { state = renew current s; events = send r.sends (reported status) }
    else record { state = spin r.now s; events = [] }

unfoldable pub read_and_send : Reading → WatchState → Watched
unfolding compare_and_send
read_and_send r s = if r.stopping then record { state = s; events = [] } else (elim r.status [
  | inl e ↦ record { state = s; events = send r.sends (watch_error e) }
  | inr status ↦ compare_and_send r status s
])

-- The debounce time.
abbrev pub debounce_time : WatchState → ℕ
debounce_time s = if ltb 0 s.backoff_interval then s.backoff_interval else 10000000

-- What reaches the watch: an event of the watcher with the base name of its file, an error of the
-- watcher, and the end of the timer, or the first call, with the reading that follows.
pub data Input : Type 0 where
  notified : String → Input
  watcher_error : Error → Bool → Input
  fired : Reading → Input

unfoldable pub on_input : Input → WatchState → Watched
unfolding read_and_send
on_input (notified base) s =
    if str_eq base status_name
    then record { state = record s { debouncer = some (debounce_time s) }; events = [] }
    else record { state = s; events = [] }
on_input (watcher_error e sends) s = record { state = s; events = send sends (watch_error e) }
on_input (fired r) s = read_and_send r s

-- A watch, from its state on; the first input of a whole one is the initial reading.
unfoldable pub watch_from : List Input → WatchState → Watched
unfolding on_input
watch_from [] s = record { state = s; events = [] }
watch_from (i ∷ is) s =
    let w = on_input i s in
    let rest = watch_from is w.state in
    record { state = rest.state; events = w.events ++ rest.events }
