-- ===== src/Wait/Following.antt =====
-- `Wait` over the client's own watch, of which each reading is a `Status` of the client.
use go_runit.Wait.{returned, watching, WaitWorld, is_target, wait_impl, Waited, waiting, wait_loop}
use go_runit.Client.Methods.{Family, runit_family, daemontools_family, s6_family}
use mathlib.Core.List.{Mem, append-nil}
use go_runit.Common.{
  length-replicate, Bool-cases, Option-cases, ℕ, ◌≡◌, ◌≢◌, ◌⊎◌, inl, inr, refl, none, some, List,
  [], ◌∷◌, ◌++◌, arith,
}
use go_runit.Wait.Windows.{IsStatus, IsCompared, state_of, size_of, state-window}
use go_runit.Watch.Methods.{events_of, watch_failure_of, watch_impl, watch_of, WatcherWorld}
use go_runit.Wait.Methods.{supervised_waiter, wait_of}
use go_runit.Status.{State, Status}
use go_runit.Wait.Outcome.{IsReturn, wait_impl-IsReturn}
use go_runit.Watch.Changes.{AllLive}
use go_runit.Watch.{watch_start, Input, watch_from}
use go_runit.Errors.{Error}
use go_runit.Client.{Client}
use go_runit.Wait.Meeting.{taken, AllOf, SomeMeets, watch_from-Ends}
use go_runit.Wait.Faults.{SomeFault, HasError, watch_from-HasError, wait_loop-HasError}

wait_of-impl :
    (f : Family) (states : List State) (w : WaitWorld)
    → wait_of (supervised_waiter f) states w ≡ wait_impl states w
unfolding wait_of
wait_of-impl runit_family states w = refl
wait_of-impl daemontools_family states w = refl
wait_of-impl s6_family states w = refl

-- A wait whose first status is `s`, and whose selects take the events of the client's own watch with
-- these inputs.
abbrev pub following : Family → Client → WatcherWorld → Status → List Input → WaitWorld
following f c w s is =
    let watch = watch_of f c w is in
    record {
      status = inr s;
      watch_failure = watch_failure_of watch;
      selections = taken (events_of watch);
    }

watching-ends :
    (f : Family) (c : Client) (w : WatcherWorld) (states : List State) (s : Status)
    (is : List Input)
    → IsCompared f
    → AllLive is
    → AllOf (IsStatus f c) is
    → SomeMeets (size_of f) states is
    → watching (following f c w s is) (wait_loop states) ≢ waiting
unfolding watch_of watch_impl
watching-ends f c w states s is k l o m =
    let es = (watch_from is (watch_start (size_of f))).events in
    let ends : wait_loop states (taken (es ++ [])) ≢ waiting =
      watch_from-Ends (size_of f) (IsStatus f c) (state_of f) (λ x h. state-window f c x k h) states
        is (watch_start (size_of f)) [] l o (length-replicate (size_of f) 0, inl refl) m in
    elim (Option-cases w.new_watcher) [
      | inr (e, q) ↦ rw q (λ z. cc)
      | inl q ↦ elim (Option-cases w.add_directory) [
        | inr (e, q') ↦ rw (q, q') (λ z. cc)
        | inl q' ↦ rw (q, q') (rw (append-nil es) at ends)
      ]
    ]

wait_follows :
    (f : Family) (c : Client) (w : WatcherWorld) (t : State) (ts : List State) (s : Status)
    (is : List Input)
    → IsCompared f
    → AllLive is
    → AllOf (IsStatus f c) is
    → SomeMeets (size_of f) (t ∷ ts) is
    → wait_impl (t ∷ ts) (following f c w s is) ≢ waiting
unfolding wait_impl
wait_follows f c w t ts s is k l o m = elim (Bool-cases (is_target (t ∷ ts) s.state)) [
  | inl e ↦ rw e (λ q. cc)
  | inr e ↦ rw e (watching-ends f c w (t ∷ ts) s is k l o m)
]

events_of-HasError :
    (f : Family) (c : Client) (w : WatcherWorld) (is : List Input) (e : Error)
    → HasError e (events_of (watch_of f c w is))
    → SomeFault e is
unfolding watch_of watch_impl
events_of-HasError f c w is e h = elim (Option-cases w.new_watcher) [
  | inr (x, q) ↦ absurd (rw q at h)
  | inl q ↦ elim (Option-cases w.add_directory) [
    | inr (x, q') ↦ absurd (rw (q, q') at h)
    | inl q' ↦ watch_from-HasError e is (watch_start (size_of f)) (rw (q, q') at h)
  ]
]

-- The error came from making the watch, from a reading or from the watcher.
abbrev pub IsFrom : Family → Client → WatcherWorld → List Input → Error → Type 0
IsFrom f c w is e = (watch_failure_of (watch_of f c w is) ≡ some e) ⊎ SomeFault e is

watching-IsFrom :
    (f : Family) (c : Client) (w : WatcherWorld) (states : List State) (s st : Status)
    (is : List Input) (e : Error) (n : ℕ)
    → watching (following f c w s is) (wait_loop states) ≡ returned st (some e) n
    → IsFrom f c w is e
watching-IsFrom f c w states s st is e n h =
    elim (Option-cases (watch_failure_of (watch_of f c w is))) [
      | inr (x, q) ↦ inl (rw q (ground (arith, rw q at h)))
      | inl q ↦ inr (
          events_of-HasError f c w is e
            (wait_loop-HasError states (events_of (watch_of f c w is)) st e n (rw q at h)))
    ]

wait_impl-IsFrom :
    (f : Family) (c : Client) (w : WatcherWorld) (t : State) (ts : List State) (s st : Status)
    (is : List Input) (e : Error) (n : ℕ)
    → wait_impl (t ∷ ts) (following f c w s is) ≡ returned st (some e) n
    → IsFrom f c w is e
unfolding wait_impl
wait_impl-IsFrom f c w t ts s st is e n h = elim (Bool-cases (is_target (t ∷ ts) s.state)) [
  | inl q ↦ absurd (ground (arith, rw q at h))
  | inr q ↦ watching-IsFrom f c w (t ∷ ts) s st is e n (rw q at h)
]

-- A wait that has returned, with a status in one of the states or with an error that is explained.
abbrev pub HasReturned : List State → (Error → Type 0) → Waited → Type 0
HasReturned states Explained waiting = ⊥
HasReturned states Explained (returned s none n) = Mem s.state states
HasReturned states Explained (returned s (some e) n) = Explained e

to-HasReturned :
    (states : List State) (Explained : Error → Type 0) (r : Waited)
    → r ≢ waiting
    → IsReturn states r
    → ((s : Status) (e : Error) (n : ℕ) → r ≡ returned s (some e) n → Explained e)
    → HasReturned states Explained r
to-HasReturned states Explained waiting h k f = h refl
to-HasReturned states Explained (returned s none n) h k f = k.0
to-HasReturned states Explained (returned s (some e) n) h k f = f s e n refl

-- `Wait` of the client of runit or of daemontools for some states, over its own `Watch` and `Status`,
-- while the watch is not being stopped: if some reading of the watch finds the service in one of the
-- states, in a file that is not all zeros, the wait does not go on. It has returned nil with a status
-- in one of the states, or else the error of making the watch, of one of its readings or of the watcher.
pub wait_follows-HasReturned :
    (f : Family) (c : Client) (w : WatcherWorld) (t : State) (ts : List State) (s : Status)
    (is : List Input)
    → IsCompared f
    → AllLive is
    → AllOf (IsStatus f c) is
    → SomeMeets (size_of f) (t ∷ ts) is
    → HasReturned
        (t ∷ ts)
        (IsFrom f c w is)
        (wait_of (supervised_waiter f) (t ∷ ts) (following f c w s is))
wait_follows-HasReturned f c w t ts s is k l o m =
    rw (wait_of-impl f (t ∷ ts) (following f c w s is)) (
      to-HasReturned (t ∷ ts) (IsFrom f c w is) _ (wait_follows f c w t ts s is k l o m)
        (wait_impl-IsReturn t ts (following f c w s is))
        (λ st e n. wait_impl-IsFrom f c w t ts s st is e n))
