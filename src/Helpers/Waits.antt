-- ===== src/Helpers/Waits.antt =====
-- When the waits of the tests return nil.
use go_runit.Common.{
  ==_iff, ap, ◌≡◌, ◌↔◌, ◌⊎◌, inl, inr, refl, true, Bool-cases, none, List, [], ◌∷◌, arith,
  if◌then◌else◌,
}
use go_runit.Status.{state_index, State, state_running}
use go_runit.Helpers.{wait_for_running, Seen, is_in, polls, last_look, wait_for_state}
use go_runit.Wait.{state_eq}
use go_runit.Wait.Outcome.{state_eq→eq}

-- The service was seen in the state.
abbrev pub IsIn : State → Seen → Type 0
IsIn expected (inl e) = ⊥
IsIn expected (inr s) = s.state ≡ expected

abbrev pub SeenIn : State → List Seen → Type 0
SeenIn expected [] = ⊥
SeenIn expected (x ∷ xs) = IsIn expected x ⊎ SeenIn expected xs

state_eq_iff : (a b : State) → (state_eq a b ≡ true) ↔ (a ≡ b)
state_eq_iff a b =
    (state_eq→eq a b, λ e. (==_iff (state_index a) (state_index b)).1 (ap state_index e))

is_in_iff : (expected : State) (x : Seen) → (is_in expected x ≡ true) ↔ IsIn expected x
is_in_iff expected (inl e) = (λ h. absurd cc, λ h. absurd h)
is_in_iff expected (inr s) = state_eq_iff s.state expected

polls_iff :
    (expected : State) (seen : List Seen) → (polls expected seen ≡ true) ↔ SeenIn expected seen
unfolding polls
polls_iff expected [] = (λ h. absurd cc, λ h. absurd h)
polls_iff expected (x ∷ xs) =
    let h = is_in_iff expected x in
    let t = polls_iff expected xs in
    elim (Bool-cases (is_in expected x)) [
      | inl e ↦ rw e (λ _. inl (h.0 e), λ _. refl)
      | inr e ↦ rw e (
        λ q. inr (t.0 q),
        λ q. elim q [ inl a ↦ absurd (ground (arith, h.1 a, e)) | inr b ↦ t.1 b ],
      )
    ]

last_look_iff : (x : Seen) → (last_look x ≡ none) ↔ IsIn state_running x
unfolding last_look
last_look_iff (inl e) = (λ h. absurd cc, λ h. absurd h)
last_look_iff (inr s) =
    let h = state_eq_iff s.state state_running in
    elim (Bool-cases (state_eq s.state state_running)) [
      | inl e ↦ rw e (λ _. h.0 e, λ _. refl)
      | inr e ↦ rw e (λ q. absurd cc, λ q. absurd (ground (arith, h.1 q, e)))
    ]

waits :
    (expected : State) (seen : List Seen) (last : Seen)
    → ((if polls expected seen then none else last_look last) ≡ none)
      ↔ (SeenIn expected seen ⊎ IsIn state_running last)
waits expected seen last =
    let p = polls_iff expected seen in
    let l = last_look_iff last in
    elim (Bool-cases (polls expected seen)) [
      | inl e ↦ rw e (λ _. inl (p.0 e), λ _. refl)
      | inr e ↦ rw e (
        λ q. inr (l.0 q),
        λ q. elim q [ inl a ↦ absurd (ground (arith, p.1 a, e)) | inr b ↦ l.1 b ],
      )
    ]

-- `WaitForState` returns nil exactly when the service was seen in the state before the deadline, or is
-- seen running, whatever the state waited for, behind it. So `WaitForRunning` returns nil exactly when
-- the service was seen running, before the deadline or behind it.
pub wait_for_state_nil :
    (expected : State) (seen : List Seen) (last : Seen)
    → ((wait_for_state expected seen last ≡ none)
        ↔ (SeenIn expected seen ⊎ IsIn state_running last))
      × ((wait_for_running seen last ≡ none)
          ↔ (SeenIn state_running seen ⊎ IsIn state_running last))
unfolding wait_for_state wait_for_running
wait_for_state_nil expected seen last = (waits expected seen last, waits state_running seen last)
