-- ===== src/Systemd/Watching.antt =====
-- `ClientSystemd.Watch`, which polls, and `WaitForState`.
use Prim.Native.String.{String}
use text.Mathlib.Text.{◌==◌ as str_eq}
use text.Mathlib.TextEquality.{eq_iff}
use go_runit.Common.{
  ◌≡◌, ◌≢◌, refl, sym, ap, ◌∙◌, ◌⊎◌, inl, inr, Bool, true, false, List, [], ◌∷◌, if◌then◌else◌,
  Bool-cases, arith,
}
use go_runit.Common.Text.{equal}
use go_runit.Status.{State, state_unknown, state_string, Status}
use go_runit.Watch.Log.{AllChanges, final}
use go_runit.Wire.{Bytes}
use go_runit.Systemd.Exec.{Failure}
use go_runit.Systemd.Show.{StatusSystemd}

pub data PollEvent : Type 0 where
  polled : Status → PollEvent
  poll_failed : Failure → PollEvent

-- A tick with the result of `Status`, and whether an event goes to the channel: if it does not, the watch
-- is stopping, and its loop ends.
pub record Tick : Type 0 where
  pub status : Failure ⊎ Status
  pub sends : Bool

-- The loop, with the name of the last state.
unfoldable pub poll : String → List Tick → List PollEvent
poll last [] = []
poll last (t ∷ ts) = elim t.status [
  | inl e ↦ if t.sends then poll_failed e ∷ poll last ts else []
  | inr s ↦
      if str_eq (state_string s.state) last
      then poll last ts
      else if t.sends
      then polled s ∷ poll (state_string s.state) ts
      else []
]

-- The whole watch: the first reading is sent if it succeeds.
unfoldable pub watch_systemd : Tick → List Tick → List PollEvent
watch_systemd first ts = elim first.status [
  | inl e ↦ poll "" ts
  | inr s ↦ if first.sends then polled s ∷ poll (state_string s.state) ts else []
]

-- The names of the states that are reported.
abbrev pub state_names : List PollEvent → List String
state_names [] = []
state_names (polled s ∷ es) = state_string s.state ∷ state_names es
state_names (poll_failed e ∷ es) = state_names es

-- The names of the states that are read, last of all.
abbrev seen_state : Failure ⊎ Status → String → String
seen_state (inl e) last = last
seen_state (inr s) last = state_string s.state

abbrev pub last_state : List Tick → String → String
last_state [] last = last
last_state (t ∷ ts) last = last_state ts (seen_state t.status last)

abbrev pub AllSent : List Tick → Type 0
AllSent [] = Unit
AllSent (t ∷ ts) = (t.sends ≡ true) × AllSent ts

status-cases : (x : Failure ⊎ Status) → ((e : Failure) × (x ≡ inl e)) ⊎ ((s : Status) × (x ≡ inr s))
status-cases (inl e) = inl (e, refl)
status-cases (inr s) = inr (s, refl)

abbrev pub Follows : String → List Tick → List PollEvent → Type 0
Follows last ts es =
    AllChanges last (state_names es)
    × (AllSent ts → final last (state_names es) ≡ last_state ts last)

differs : (a b : String) → str_eq a b ≡ false → a ≢ b
differs a b h = ground (arith, eq_iff a b)

poll-Follows : (last : String) (ts : List Tick) → Follows last ts (poll last ts)
unfolding poll
poll-Follows last [] = (tt, λ h. refl)
poll-Follows last (t ∷ ts) = elim (status-cases t.status) [
  | inl (e, q) ↦ elim (Bool-cases t.sends) [
    | inl k ↦ rw (q, k) ((poll-Follows last ts).0, λ h. (poll-Follows last ts).1 h.1)
    | inr k ↦ rw (q, k) (tt, λ h. absurd cc)
  ]
  | inr (s, q) ↦ elim (Bool-cases (str_eq (state_string s.state) last)) [
    | inl k ↦
        let same : state_string s.state ≡ last = (eq_iff _ _).0 k in
        rw (q, k)
          (
            (poll-Follows last ts).0,
            λ h. (poll-Follows last ts).1 h.1 ∙ ap (last_state ts) (sym same),
          )
    | inr k ↦ elim (Bool-cases t.sends) [
      | inl m ↦
          let ih = poll-Follows (state_string s.state) ts in
          rw (q, k, m) ((differs _ _ k, ih.0), λ h. ih.1 h.1)
      | inr m ↦ rw (q, k, m) (tt, λ h. absurd cc)
    ]
  ]
]

named : (s : State) → state_string s ≢ ""
unfolding state_string
named state_unknown = differs _ _ refl
named _ = differs _ _ refl

-- Of the statuses that a systemd watch sends, each is of another state than the one before it; and while
-- the watch is not stopping, the last one sent is of the state that was read last.
pub watch_systemd-Follows :
    (first : Tick) (ts : List Tick) → Follows "" (first ∷ ts) (watch_systemd first ts)
unfolding watch_systemd
watch_systemd-Follows first ts = elim (status-cases first.status) [
  | inl (e, q) ↦ rw q ((poll-Follows "" ts).0, λ h. (poll-Follows "" ts).1 h.1)
  | inr (s, q) ↦ elim (Bool-cases first.sends) [
    | inl m ↦
        let ih = poll-Follows (state_string s.state) ts in
        rw (q, m) ((named s.state, ih.0), λ h. ih.1 h.1)
    | inr m ↦ rw (q, m) (tt, λ h. absurd cc)
  ]
]

-- A turn of the loop of `WaitForState`: the context is done, the deadline has passed, or a status.
pub data Turn : Type 0 where
  context_done deadline_passed : Turn
  status_read : Failure ⊎ StatusSystemd → Turn

pub data WaitEnd : Type 0 where
  reached context_error timeout_error still_waiting : WaitEnd

pub wait_for_state : Bytes → List Turn → WaitEnd
wait_for_state target [] = still_waiting
wait_for_state target (context_done ∷ ts) = context_error
wait_for_state target (deadline_passed ∷ ts) = timeout_error
wait_for_state target (status_read (inl e) ∷ ts) = wait_for_state target ts
wait_for_state target (status_read (inr s) ∷ ts) =
    let rest = wait_for_state target ts in if equal s.active_state target then reached else rest
