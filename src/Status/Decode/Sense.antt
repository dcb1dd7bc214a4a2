-- ===== src/Status/Decode/Sense.antt =====
-- What every decoded status satisfies, whichever decoder made it.
use go_runit.Common.{
  ℕ, ◌≡◌, ◌≢◌, ◌⊎◌, inl, inr, refl, Bool, true, false, ◌&&◌, [], ◌∷◌, length, take, drop, arith,
  ◌==◌, Bool-cases, ==_iff, length-append,
}
use go_runit.Common.Int.{pos, ltb_ℤ, ◌≤ℤ◌}
use go_runit.Errors.{Result, ok}
use go_runit.Wire.{Bytes, copy}
use go_runit.Status.{
  State, state_unknown, state_down, state_starting, state_running, state_paused, state_stopping,
  state_crashed, state_exited, Status, zero_status,
}
use go_runit.Status.Stamp.{since_time}
use go_runit.Status.Stamp.Bounds.{uptime_of_bounds}
use go_runit.Status.Decode.{
  infer_state, runit_status, daemontools_status, s6_pre220_status, s6_current_status,
  decode_status_runit, decode_status_daemontools, decode_status_s6,
}
use go_runit.Status.Decode.Total.{
  decoders_total, decode_status_runit-ok, decode_status_daemontools-ok, decode_status_s6-pre220,
  decode_status_s6-current,
}

-- The states of a service with a process, and of one without.
abbrev pub is_live : State → Bool
is_live state_running = true
is_live state_paused = true
is_live state_stopping = true
is_live _ = false

abbrev pub is_dead : State → Bool
is_dead state_down = true
is_dead state_crashed = true
is_dead state_unknown = true
is_dead _ = false

pub record IsSensible (s : Status) : Type 0 where
  pub live : is_live s.state ≡ true → ltb_ℤ (pos 0) s.pid ≡ true
  pub dead : is_dead s.state ≡ true → ltb_ℤ (pos 0) s.pid ≡ false
  pub not_starting : s.state ≢ state_starting
  pub not_exited : s.state ≢ state_exited
  pub one_want : (s.flags.want_up && s.flags.want_down) ≡ false
  pub uptime_nonneg : pos 0 ≤ℤ s.uptime
  pub raw_size : length s.raw ≡ 20

length-copy : (d s : Bytes) → length (copy d s) ≡ length d
unfolding copy
length-copy [] s = refl
length-copy (x ∷ d) [] = refl
length-copy (x ∷ d) (y ∷ s) = omega (arith, length-copy d s)

runit_status-IsSensible :
    (now : ℕ) (d : Bytes) (sec nano pid paused want term run : ℕ)
    → IsSensible (runit_status now d sec nano pid paused want term run)
unfolding runit_status infer_state
runit_status-IsSensible now d sec nano pid paused want term run = record {
  live = ground arith;
  dead = ground arith;
  not_starting = ground arith;
  not_exited = ground arith;
  one_want = ground arith;
  uptime_nonneg = (uptime_of_bounds now (since_time sec nano)).0;
  raw_size = length-copy zero_status.raw d;
}

daemontools_status-IsSensible :
    (now : ℕ) (d : Bytes) (sec nano pid want : ℕ)
    → IsSensible (daemontools_status now d sec nano pid want)
unfolding daemontools_status infer_state
daemontools_status-IsSensible now d sec nano pid want = record {
  live = ground arith;
  dead = ground arith;
  not_starting = ground arith;
  not_exited = ground arith;
  one_want = ground arith;
  uptime_nonneg = (uptime_of_bounds now (since_time sec nano)).0;
  raw_size = omega (
    arith,
    length-append (copy (take 18 zero_status.raw) d) (drop 18 zero_status.raw),
    length-copy (take 18 zero_status.raw) d,
  );
}

s6_pre220_status-IsSensible :
    (now : ℕ) (raw : Bytes) (pid tai ready flag : ℕ)
    → length raw ≡ 20
    → IsSensible (s6_pre220_status now raw pid tai ready flag)
unfolding s6_pre220_status
s6_pre220_status-IsSensible now raw pid tai ready flag h = record {
  live = ground arith;
  dead = ground arith;
  not_starting = ground arith;
  not_exited = ground arith;
  one_want = ground arith;
  uptime_nonneg = (uptime_of_bounds now (since_time tai 0)).0;
  raw_size = h;
}

s6_current_status-IsSensible :
    (now : ℕ) (raw : Bytes) (pid tai ready flag : ℕ)
    → length raw ≡ 20
    → IsSensible (s6_current_status now raw pid tai ready flag)
unfolding s6_current_status
s6_current_status-IsSensible now raw pid tai ready flag h = record {
  live = ground arith;
  dead = ground arith;
  not_starting = ground arith;
  not_exited = ground arith;
  one_want = ground arith;
  uptime_nonneg = (uptime_of_bounds now (since_time tai 0)).0;
  raw_size = h;
}

same_result : {s t : Status} (r : Result Status) → r ≡ ok t → r ≡ ok s → IsSensible t → IsSensible s
same_result {s} {t} r p q h = let e : t ≡ s = cc in rw (← e) h

runit-IsSensible :
    (now : ℕ) (d : Bytes) (s : Status) → decode_status_runit now d ≡ ok s → IsSensible s
runit-IsSensible now d s h = elim (Bool-cases (length d == 20)) [
  | inl e ↦
      same_result _ (decode_status_runit-ok now d ((==_iff _ _).0 e)) h
        (runit_status-IsSensible now d _ _ _ _ _ _ _)
  | inr e ↦ absurd (ground (arith, (decoders_total now d).0))
]

daemontools-IsSensible :
    (now : ℕ) (d : Bytes) (s : Status) → decode_status_daemontools now d ≡ ok s → IsSensible s
daemontools-IsSensible now d s h = elim (Bool-cases (length d == 18)) [
  | inl e ↦
      same_result _ (decode_status_daemontools-ok now d ((==_iff _ _).0 e)) h
        (daemontools_status-IsSensible now d _ _ _ _)
  | inr e ↦ absurd (ground (arith, (decoders_total now d).1))
]

s6-IsSensible : (now : ℕ) (d : Bytes) (s : Status) → decode_status_s6 now d ≡ ok s → IsSensible s
s6-IsSensible now d s h = elim (Bool-cases (length d == 35)) [
  | inl e ↦
      same_result _ (decode_status_s6-pre220 now d ((==_iff _ _).0 e)) h
        (s6_pre220_status-IsSensible now _ _ _ _ _ (length-copy zero_status.raw _))
  | inr e ↦ elim (Bool-cases (length d == 43)) [
    | inl f ↦
        same_result _ (decode_status_s6-current now d ((==_iff _ _).0 f)) h
          (s6_current_status-IsSensible now _ _ _ _ _ (length-copy zero_status.raw _))
    | inr f ↦ absurd (ground (arith, (decoders_total now d).2))
  ]
]

-- Every status that one of the three decoders returns is sensible: a live state (running, paused,
-- stopping) comes with a positive PID and a dead one (down, crashed, unknown) without; the states
-- starting and exited are never reported; the service is not wanted up and down at once; the uptime
-- is not negative; and the raw copy has 20 bytes.
pub decoded-IsSensible :
    (now : ℕ) (d : Bytes) (s : Status)
    → (decode_status_runit now d ≡ ok s)
      ⊎ (decode_status_daemontools now d ≡ ok s)
      ⊎ (decode_status_s6 now d ≡ ok s)
    → IsSensible s
decoded-IsSensible now d s (inl h) = runit-IsSensible now d s h
decoded-IsSensible now d s (inr (inl h)) = daemontools-IsSensible now d s h
decoded-IsSensible now d s (inr (inr h)) = s6-IsSensible now d s h
