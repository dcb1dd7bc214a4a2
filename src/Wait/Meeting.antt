-- ===== src/Wait/Meeting.antt =====
-- The events that a watch sends, against the states of a wait.
use go_runit.Wait.{
  on_selected, is_target, decided, Selected, event, closed, done, Waited, waiting, wait_loop,
}
use mathlib.Core.List.{append_assoc}
use go_runit.Common.{
  sym, ◌∙◌, true, false, Bool-cases, ap, ℕ, ◌≡◌, ◌≢◌, ◌⊎◌, inl, inr, refl, Option, none, some, List,
  [], ◌∷◌, ◌++◌, map, arith, replicate, length,
}
use go_runit.Status.{State, Status}
use go_runit.Watch.Changes.{
  result-cases, spin-last_raw, length-window, is_changed_iff, AllLive, IsLive,
}
use go_runit.Watch.{
  on_input, read_and_send, is_changed, Reading, compare_and_send, Watched, window, WatchState,
  WatchEvent, reported, watch_error, Input, notified, watcher_error, fired, watch_from,
}
use text.Mathlib.Text.{◌==◌ as str_eq}
use go_runit.Wire.{Bytes}
use go_runit.Errors.{Error}

-- What the wait's selects take of the events.
abbrev pub taken : List WatchEvent → List Selected
taken = map event

on_selected-ne_waiting : (states : List State) (x : Selected) → on_selected states x ≢ some waiting
unfolding on_selected
on_selected-ne_waiting states (event (watch_error e)) = ground arith
on_selected-ne_waiting states (event (reported s)) = ground arith
on_selected-ne_waiting states closed = ground arith
on_selected-ne_waiting states (done e) = ground arith

decided-ne_waiting :
    (o : Option Waited) (rest : Waited)
    → o ≢ some waiting
    → rest ≢ waiting
    → decided o rest ≢ waiting
decided-ne_waiting none rest h k = k
decided-ne_waiting (some w) rest h k = λ e. h (ap some e)

wait_loop-taken :
    (states : List State) (xs ys : List WatchEvent)
    → wait_loop states (taken ys) ≢ waiting
    → wait_loop states (taken (xs ++ ys)) ≢ waiting
unfolding wait_loop
wait_loop-taken states [] ys h = h
wait_loop-taken states (x ∷ xs) ys h =
    decided-ne_waiting _ _ (on_selected-ne_waiting states (event x))
      (wait_loop-taken states xs ys h)

-- The events end the wait, whatever follows.
abbrev Ends : List State → List WatchEvent → Type 0
Ends states es = (ys : List WatchEvent) → wait_loop states (taken (es ++ ys)) ≢ waiting

error-Ends : (states : List State) (e : Error) → Ends states (watch_error e ∷ [])
unfolding wait_loop on_selected
error-Ends states e ys = λ q. cc

target-Ends :
    (states : List State) (s : Status)
    → is_target states s.state ≡ true
    → Ends states (reported s ∷ [])
unfolding wait_loop on_selected
target-Ends states s h ys = ground (arith, h)

pub read_and_send-eq :
    (r : Reading) (st : Status) (s : WatchState)
    → r.stopping ≡ false
    → r.status ≡ inr st
    → read_and_send r s ≡ compare_and_send r st s
unfolding read_and_send
read_and_send-eq r st s stop q = rw (stop, q) refl

-- Every status that a reading gives is one of these.
abbrev pub IsOf : (Status → Type 0) → Input → Type 0
IsOf Is (fired r) = (s : Status) → r.status ≡ inr s → Is s
IsOf Is i = Unit

abbrev pub AllOf : (Status → Type 0) → List Input → Type 0
AllOf Is [] = Unit
AllOf Is (i ∷ is) = IsOf Is i × AllOf Is is

-- The service is read in one of the states, from a file that is not all zeros.
abbrev pub Meets : ℕ → List State → Input → Type 0
Meets size states (fired r) =
    (s : Status) × (r.status ≡ inr s)
    × (is_target states s.state ≡ true)
    × (window size s ≢ replicate size 0)
Meets size states i = ⊥

abbrev pub SomeMeets : ℕ → List State → List Input → Type 0
SomeMeets size states [] = ⊥
SomeMeets size states (i ∷ is) = Meets size states i ⊎ SomeMeets size states is

-- A watch of status files of a size whose bytes decide the state.
module _ (size : ℕ) (Is : Status → Type 0) (state_of : Bytes → State)
    (decides : (s : Status) → Is s → s.state ≡ state_of (window size s)) where
  -- The states of the wait have not been seen: the last window is the zero one of the start, or gives
  -- another state.
  abbrev IsUnmet : List State → Bytes → Type 0
  IsUnmet states raw = (raw ≡ replicate size 0) ⊎ (is_target states (state_of raw) ≡ false)

  abbrev Unmet : List State → WatchState → Type 0
  Unmet states s = (length s.last_raw ≡ size) × IsUnmet states s.last_raw

  -- An input ends the wait, or it does not meet the states and they stay unmet.
  abbrev Follows : List State → Input → Watched → Type 0
  Follows states i w = Ends states w.events ⊎ (¬ Meets size states i × Unmet states w.state)

  not_met :
      (states : List State) (r : Reading) (st : Status)
      → r.status ≡ inr st
      → is_target states st.state ≡ false
      → ¬ Meets size states (fired r)
  not_met states r st q m (s, e, t, z) =
      let same : st ≡ s = cc in absurd (ground (arith, rw same at m, t))

  still_unmet :
      (states : List State) (r : Reading) (st : Status) (s : WatchState)
      → r.status ≡ inr st
      → Is st
      → window size st ≡ s.last_raw
      → IsUnmet states s.last_raw
      → ¬ Meets size states (fired r)
  still_unmet states r st s q i eq (inl z) (x, e, t, nz) =
      let same : x ≡ st = cc in nz (rw (same, eq) z)
  still_unmet states r st s q i eq (inr u) m = not_met states r st q (rw (decides st i, eq) u) m

  compare_and_send-Follows :
      (states : List State) (r : Reading) (st : Status) (s : WatchState)
      → r.status ≡ inr st
      → r.sends ≡ true
      → Is st
      → Unmet states s
      → Follows states (fired r) (compare_and_send r st s)
  unfolding compare_and_send
  compare_and_send-Follows states r st s q live i (k, u) =
      let win : window (length s.last_raw) st ≡ window size st = rw k refl in
      let same = is_changed_iff (window (length s.last_raw) st) s.last_raw in
      let w = decides st i in
      elim (Bool-cases (is_changed (window (length s.last_raw) st) s.last_raw)) [
        | inl ch ↦ elim (Bool-cases (is_target states st.state)) [
          | inl m ↦ rw (ch, live) (inl (target-Ends states st m))
          | inr m ↦
              rw (ch, live, win)
                (inr (not_met states r st q m, (length-window size st, inr (rw w at m))))
        ]
        | inr ch ↦
            let eq : window size st ≡ s.last_raw = sym win ∙ same.0 ch in
            rw ch (
              inr (
                still_unmet states r st s q i eq u,
                (rw (spin-last_raw r.now s) k, rw (spin-last_raw r.now s) u),
              ))
      ]

  fired-Follows :
      (states : List State) (r : Reading) (s : WatchState)
      → IsLive (fired r)
      → IsOf Is (fired r)
      → Unmet states s
      → Follows states (fired r) (read_and_send r s)
  unfolding read_and_send
  fired-Follows states r s (stop, live) o u = elim (result-cases r.status) [
    | inl (e, q) ↦ rw (stop, q, live) (inl (error-Ends states e))
    | inr (st, q) ↦
        rw (read_and_send-eq r st s stop q)
          (compare_and_send-Follows states r st s q live (o st q) u)
  ]

  on_input-Follows :
      (states : List State) (i : Input) (s : WatchState)
      → IsLive i
      → IsOf Is i
      → Unmet states s
      → Follows states i (on_input i s)
  unfolding on_input
  on_input-Follows states (notified base) s l o u = elim (Bool-cases (str_eq base "status")) [
    | inl e ↦ rw e (inr (λ m. m, u))
    | inr e ↦ rw e (inr (λ m. m, u))
  ]
  on_input-Follows states (watcher_error e true) s l o u = inl (error-Ends states e)
  on_input-Follows states (watcher_error e false) s l o u = inr (λ m. m, u)
  on_input-Follows states (fired r) s l o u = fired-Follows states r s l o u

  pub watch_from-Ends :
      (states : List State) (is : List Input) (s : WatchState) (ys : List WatchEvent)
      → AllLive is
      → AllOf Is is
      → Unmet states s
      → SomeMeets size states is
      → wait_loop states (taken ((watch_from is s).events ++ ys)) ≢ waiting
  unfolding watch_from
  watch_from-Ends states [] s ys l o u m = absurd m
  watch_from-Ends states (i ∷ is) s ys (l, ls) (o, os) u m =
      elim (on_input-Follows states i s l o u) [
        | inl e ↦
            rw (append_assoc (on_input i s).events (watch_from is (on_input i s).state).events ys)
              (e _)
        | inr (n, u') ↦ elim m [
          | inl now ↦ absurd (n now)
          | inr later ↦
              rw (append_assoc (on_input i s).events (watch_from is (on_input i s).state).events ys)
                (wait_loop-taken states (on_input i s).events _
                  (watch_from-Ends states is (on_input i s).state ys ls os u' later))
        ]
      ]
