-- ===== src/Wait/Faults.antt =====
-- Where the error that a wait returns comes from.
use go_runit.Wait.{returned, on_selected, is_target, wait_loop}
use go_runit.Defaults.{status_name}
use go_runit.Common.{
  true, false, Bool-cases, ℕ, ◌≡◌, ◌⊎◌, inl, inr, refl, some, List, [], ◌∷◌, ◌++◌, arith, length,
}
use go_runit.Status.{State, Status}
use go_runit.Watch.Changes.{result-cases}
use go_runit.Watch.{
  on_input, read_and_send, is_changed, Reading, compare_and_send, window, WatchState, WatchEvent,
  reported, watch_error, Input, notified, watcher_error, fired, watch_from,
}
use text.Mathlib.Text.{◌==◌ as str_eq}
use go_runit.Errors.{Error}
use go_runit.Wait.Meeting.{taken, read_and_send-eq}

-- The error came from a reading, or from the watcher.
abbrev pub IsFault : Error → Input → Type 0
IsFault e (fired r) = r.status ≡ inl e
IsFault e (watcher_error x sends) = x ≡ e
IsFault e (notified base) = ⊥

abbrev pub SomeFault : Error → List Input → Type 0
SomeFault e [] = ⊥
SomeFault e (i ∷ is) = IsFault e i ⊎ SomeFault e is

abbrev pub HasError : Error → List WatchEvent → Type 0
HasError e [] = ⊥
HasError e (reported s ∷ es) = HasError e es
HasError e (watch_error x ∷ es) = (x ≡ e) ⊎ HasError e es

HasError-split :
    (e : Error) (xs ys : List WatchEvent) → HasError e (xs ++ ys) → HasError e xs ⊎ HasError e ys
HasError-split e [] ys h = inr h
HasError-split e (reported s ∷ xs) ys h = HasError-split e xs ys h
HasError-split e (watch_error x ∷ xs) ys (inl h) = inl (inl h)
HasError-split e (watch_error x ∷ xs) ys (inr h) = elim (HasError-split e xs ys h) [
  | inl a ↦ inl (inr a)
  | inr b ↦ inr b
]

compare_and_send-HasError :
    (e : Error) (r : Reading) (st : Status) (s : WatchState)
    → ¬ HasError e (compare_and_send r st s).events
unfolding compare_and_send
compare_and_send-HasError e r st s h =
    elim (Bool-cases (is_changed (window (length s.last_raw) st) s.last_raw)) [
      | inl q ↦ elim (Bool-cases r.sends) [ inl m ↦ rw (q, m) at h | inr m ↦ rw (q, m) at h ]
      | inr q ↦ rw q at h
    ]

read_and_send-HasError :
    (e : Error) (r : Reading) (s : WatchState)
    → HasError e (read_and_send r s).events
    → r.status ≡ inl e
unfolding read_and_send
read_and_send-HasError e r s h = elim (Bool-cases r.stopping) [
  | inl p ↦ absurd (rw p at h)
  | inr p ↦ elim (result-cases r.status) [
    | inl (x, q) ↦ elim (Bool-cases r.sends) [
      | inl m ↦
          let z : (x ≡ e) ⊎ ⊥ = rw (p, q, m) at h in
          elim z [ inl y ↦ rw (q, y) refl | inr y ↦ absurd y ]
      | inr m ↦ absurd (rw (p, q, m) at h)
    ]
    | inr (st, q) ↦
        absurd (compare_and_send-HasError e r st s (rw (read_and_send-eq r st s p q) at h))
  ]
]

on_input-HasError :
    (e : Error) (i : Input) (s : WatchState) → HasError e (on_input i s).events → IsFault e i
unfolding on_input read_and_send compare_and_send
on_input-HasError e (notified base) s h = elim (Bool-cases (str_eq base status_name)) [
  | inl q ↦ absurd (rw q at h)
  | inr q ↦ absurd (rw q at h)
]
on_input-HasError e (watcher_error x true) s h = elim h [ inl q ↦ q | inr z ↦ absurd z ]
on_input-HasError e (watcher_error x false) s h = absurd h
on_input-HasError e (fired r) s h = read_and_send-HasError e r s h

pub watch_from-HasError :
    (e : Error) (is : List Input) (s : WatchState)
    → HasError e (watch_from is s).events
    → SomeFault e is
unfolding watch_from
watch_from-HasError e [] s h = absurd h
watch_from-HasError e (i ∷ is) s h = elim (HasError-split e (on_input i s).events _ h) [
  | inl a ↦ inl (on_input-HasError e i s a)
  | inr b ↦ inr (watch_from-HasError e is (on_input i s).state b)
]

-- The wait returned an error, which is that of an event.
pub wait_loop-HasError :
    (states : List State) (es : List WatchEvent) (s : Status) (e : Error) (n : ℕ)
    → wait_loop states (taken es) ≡ returned s (some e) n
    → HasError e es
unfolding wait_loop on_selected
wait_loop-HasError states [] s e n h = absurd cc
wait_loop-HasError states (watch_error x ∷ es) s e n h = inl cc
wait_loop-HasError states (reported st ∷ es) s e n h =
    elim (Bool-cases (is_target states st.state)) [
      | inl q ↦ absurd (ground (arith, rw q at h))
      | inr q ↦ wait_loop-HasError states es s e n (rw q at h)
    ]
