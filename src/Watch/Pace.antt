-- ===== src/Watch/Pace.antt =====
-- The pace of a watch: the delay of its timer and its backoff.
use go_runit.Common.{
  ℕ, suc, ◌+◌, ◌≡◌, ◌⊎◌, inl, inr, refl, Bool, true, false, ◌||◌, Option, none, some, List, [], ◌∷◌,
  ◌++◌, length, replicate, if◌then◌else◌, leb, arith, Bool-cases, length-append,
}
use go_runit.Common.Text.{equal}
use go_runit.Common.Text.Lines.{equal_refl, equal→eq}
use text.Mathlib.Text.{◌==◌ as str_eq}
use go_runit.Errors.{Error}
use go_runit.Wire.{Bytes}
use go_runit.Status.{Status, Time, zero_time, at}
use go_runit.Status.Stamp.Bounds.{time_since-at_least}
use go_runit.Watch.{
  WatchState, watch_start, spin, Reading, compare_and_send, read_and_send, Input, notified,
  watcher_error, fired, on_input, watch_from, window, is_changed,
}
use go_runit.Watch.Changes.{result-cases, is_changed_iff}

-- What the inputs of a watch say of its pace: the bytes of the last successful reading, the times of the
-- successful readings since the last one that changed them, oldest first, and the delay with which the
-- timer was last armed.
pub record Stretch : Type 0 where
  pub bytes : Bytes
  pub times : List ℕ
  pub armed : Option ℕ

-- One of the times is 5 s or more after the first one.
abbrev is_late : ℕ → List ℕ → Bool
is_late t [] = false
is_late t (u ∷ us) = leb (t + 5000000000) u || is_late t us

abbrev pub backs_off : List ℕ → Bool
backs_off [] = false
backs_off (t ∷ ts) = is_late t ts

abbrev look : ℕ → (Error ⊎ Status) → Stretch → Stretch
look now (inl e) q = q
look now (inr st) q =
    let current = window (length q.bytes) st in
    if equal current q.bytes
    then record q { times = q.times ++ now ∷ [] }
    else record q { bytes = current; times = [] }

abbrev take_in : Input → Stretch → Stretch
take_in (fired r) q = if r.stopping then q else look r.now r.status q
take_in (notified base) q =
    if str_eq base "status"
    then record q { armed = some (if backs_off q.times then 1000000000 else 10000000) }
    else q
take_in (watcher_error e sends) q = q

abbrev stretch_from : List Input → Stretch → Stretch
stretch_from [] q = q
stretch_from (i ∷ is) q = stretch_from is (take_in i q)

-- Before the first input nothing was read, which counts as `size` zeros.
abbrev pub stretch : ℕ → List Input → Stretch
stretch size is = stretch_from is (record { bytes = replicate size 0; times = []; armed = none })

abbrev first_time : List ℕ → Time
first_time [] = zero_time
first_time (t ∷ ts) = at t

pub record IsPaced (q : Stretch) (s : WatchState) : Type 0 where
  pub last_raw : s.last_raw ≡ q.bytes
  pub spin_start_time : s.spin_start_time ≡ first_time q.times
  pub spin_count : s.spin_count ≡ length q.times
  pub backoff_interval : s.backoff_interval ≡ (if backs_off q.times then 1000000000 else 0)
  pub debouncer : s.debouncer ≡ q.armed

is_late-append :
    (t : ℕ) (us : List ℕ) (u : ℕ)
    → is_late t (us ++ u ∷ []) ≡ (leb (t + 5000000000) u || is_late t us)
is_late-append t [] u = refl
is_late-append t (v ∷ us) u = ground (arith, is_late-append t us u)

-- A spin on a state that is spelt out.
spin-IsPaced :
    (now : ℕ) (ts : List ℕ) (q : Stretch) (s : WatchState)
    → q.times ≡ ts
    → IsPaced q s
    → IsPaced (record q { times = ts ++ now ∷ [] }) (spin now s)
unfolding spin
spin-IsPaced now [] q s e h =
    let start : s.spin_start_time ≡ zero_time = rw e at h.spin_start_time in
    let interval : s.backoff_interval ≡ 0 = rw e at h.backoff_interval in
    rw start (record {
      last_raw = h.last_raw;
      spin_start_time = refl;
      spin_count = refl;
      backoff_interval = interval;
      debouncer = h.debouncer;
    })
spin-IsPaced now (t ∷ ts) q s e h =
    let start : s.spin_start_time ≡ at t = rw e at h.spin_start_time in
    let count : s.spin_count ≡ suc (length ts) = rw e at h.spin_count in
    let interval : s.backoff_interval ≡ (if is_late t ts then 1000000000 else 0) =
      rw e at h.backoff_interval in
    rw (start, time_since-at_least now t 5000000000 (omega arith))
      (record {
        last_raw = h.last_raw;
        spin_start_time = refl;
        spin_count = ground (arith, count, length-append ts (now ∷ []));
        backoff_interval = rw (interval, is_late-append t ts now) (ground arith);
        debouncer = h.debouncer;
      })

differs : (xs ys : Bytes) → is_changed xs ys ≡ true → equal xs ys ≡ false
differs xs ys c = elim (Bool-cases (equal xs ys)) [
  | inl e ↦ absurd (grind (arith, (is_changed_iff xs ys).1 (equal→eq xs ys e)))
  | inr e ↦ e
]

unchanged : (xs ys : Bytes) → is_changed xs ys ≡ false → equal xs ys ≡ true
unchanged xs ys c = rw ((is_changed_iff xs ys).0 c) (equal_refl ys)

with_bytes :
    (q : Stretch) (s : WatchState) → IsPaced q s → IsPaced q (record s { last_raw = q.bytes })
with_bytes q s h = record {
  last_raw = refl;
  spin_start_time = h.spin_start_time;
  spin_count = h.spin_count;
  backoff_interval = h.backoff_interval;
  debouncer = h.debouncer;
}

compare_and_send-IsPaced :
    (r : Reading) (st : Status) (q : Stretch) (s : WatchState)
    → IsPaced q s
    → IsPaced (look r.now (inr st) q) (compare_and_send r st s).state
unfolding compare_and_send
compare_and_send-IsPaced r st q s h =
    elim (Bool-cases (is_changed (window (length q.bytes) st) q.bytes)) [
      | inl c ↦
          rw (h.last_raw, c, differs (window (length q.bytes) st) q.bytes c)
            (record {
              last_raw = refl;
              spin_start_time = refl;
              spin_count = refl;
              backoff_interval = refl;
              debouncer = h.debouncer;
            })
      | inr c ↦
          rw (h.last_raw, c, unchanged (window (length q.bytes) st) q.bytes c)
            (spin-IsPaced r.now q.times q (record s { last_raw = q.bytes }) refl (with_bytes q s h))
    ]

read_and_send-IsPaced :
    (r : Reading) (q : Stretch) (s : WatchState)
    → IsPaced q s
    → IsPaced (take_in (fired r) q) (read_and_send r s).state
unfolding read_and_send
read_and_send-IsPaced r q s h = elim (Bool-cases r.stopping) [
  | inl e ↦ rw e h
  | inr e ↦ elim (result-cases r.status) [
    | inl (x, p) ↦ rw (e, p) h
    | inr (st, p) ↦ rw (e, p) (compare_and_send-IsPaced r st q s h)
  ]
]

on_input-IsPaced :
    (i : Input) (q : Stretch) (s : WatchState)
    → IsPaced q s
    → IsPaced (take_in i q) (on_input i s).state
unfolding on_input
on_input-IsPaced (notified base) q s h = elim (Bool-cases (str_eq base "status")) [
  | inl e ↦ rw e (record {
    last_raw = h.last_raw;
    spin_start_time = h.spin_start_time;
    spin_count = h.spin_count;
    backoff_interval = h.backoff_interval;
    debouncer = rw h.backoff_interval (ground arith);
  })
  | inr e ↦ rw e h
]
on_input-IsPaced (watcher_error e sends) q s h = h
on_input-IsPaced (fired r) q s h = read_and_send-IsPaced r q s h

watch_from-IsPaced :
    (is : List Input) (q : Stretch) (s : WatchState)
    → IsPaced q s
    → IsPaced (stretch_from is q) (watch_from is s).state
unfolding watch_from
watch_from-IsPaced [] q s h = h
watch_from-IsPaced (i ∷ is) q s h =
    watch_from-IsPaced is (take_in i q) (on_input i s).state (on_input-IsPaced i q s h)

-- The state of a watch at any point, from its inputs so far. Take the times of the successful readings
-- since the last one that changed the compared bytes, which are zeros at first; a reading when the watch
-- is stopping does not count. The spin starts at the first of these times and counts all of them. The
-- backoff is 1 s exactly when one of them is 5 s or more after the first, and else it is none. An event
-- for the file `status` arms the timer with 1 s if there was a backoff at that point and else with 10 ms,
-- and nothing else arms it.
pub watch-IsPaced :
    (size : ℕ) (is : List Input)
    → IsPaced (stretch size is) (watch_from is (watch_start size)).state
watch-IsPaced size is = watch_from-IsPaced is _ (watch_start size) (record {
  last_raw = refl;
  spin_start_time = refl;
  spin_count = refl;
  backoff_interval = refl;
  debouncer = refl;
})
