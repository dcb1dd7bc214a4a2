-- ===== src/Wait.antt =====
-- watch_wait_impl.go: `waitImpl`, over what its selects receive. The client's `Status` and `Watch` are
-- parameters: their results, and what the channel and the context give, one selection after another.
pub mod Outcome
pub mod Methods
pub mod Windows
pub mod Meeting
pub mod Faults
pub mod Following
use go_runit.Common.{
  ℕ, suc, Bool, true, false, ◌||◌, Option, none, some, List, [], ◌∷◌, if◌then◌else◌, ◌==◌, ◌⊎◌, inl,
  inr,
}
use go_runit.Errors.{Error}
use go_runit.Status.{State, state_index, Status, zero_status}
use go_runit.Watch.{WatchEvent, reported, watch_error}

-- What a select takes: an event, the zero event of a closed channel, or the end of the context.
pub data Selected : Type 0 where
  event : WatchEvent → Selected
  closed : Selected
  done : Error → Selected

-- A return of `waitImpl`, with the calls of `cleanup`; or it still waits when the selections end.
pub data Waited : Type 0 where
  returned : Status → Option Error → ℕ → Waited
  waiting : Waited

-- What the client gives: the first `Status`, the error of `Watch`, and the selections.
pub record WaitWorld : Type 0 where
  pub status : Error ⊎ Status
  pub watch_failure : Option Error
  pub selections : List Selected

abbrev pub state_eq : State → State → Bool
state_eq a b = state_index a == state_index b

-- `for _, targetState := range states`
unfoldable pub is_target : List State → State → Bool
is_target [] s = false
is_target (t ∷ ts) s = if state_eq s t then true else is_target ts s

-- One pass of the loop: the return, if there is one. The deferred `cleanup` runs on every return.
unfoldable pub on_selected : List State → Selected → Option Waited
on_selected states (event (watch_error e)) = some (returned zero_status (some e) 1)
on_selected states (event (reported s)) =
    if is_target states s.state then some (returned s none 1) else none
on_selected states closed =
    if is_target states zero_status.state then some (returned zero_status none 1) else none
on_selected states (done e) = some (returned zero_status (some e) 1)

-- A pass that does not return is followed by the rest of the loop.
abbrev pub decided : Option Waited → Waited → Waited
decided (some w) rest = w
decided none rest = rest

unfoldable pub wait_loop : List State → List Selected → Waited
wait_loop states [] = waiting
wait_loop states (x ∷ xs) = decided (on_selected states x) (wait_loop states xs)

-- The single select for an empty list of states.
unfoldable pub first_event : List Selected → Waited
first_event [] = waiting
first_event (event (watch_error e) ∷ xs) = returned zero_status (some e) 1
first_event (event (reported s) ∷ xs) = returned s none 1
first_event (closed ∷ xs) = returned zero_status none 1
first_event (done e ∷ xs) = returned zero_status (some e) 1

-- `client.Watch(ctx)`, and what follows.
abbrev watching : WaitWorld → (List Selected → Waited) → Waited
watching w rest = elim w.watch_failure [
  | some e ↦ returned zero_status (some e) 0
  | none ↦ rest w.selections
]

unfoldable pub wait_impl : List State → WaitWorld → Waited
unfolding wait_loop first_event
wait_impl [] w = watching w first_event
wait_impl (t ∷ ts) w = elim w.status [
  | inl e ↦ returned zero_status (some e) 0
  | inr s ↦
      if is_target (t ∷ ts) s.state then returned s none 0 else watching w (wait_loop (t ∷ ts))
]
