-- ===== src/Wait/Outcome.antt =====
-- What `waitImpl` returns, and when.
use mathlib.Core.List.{Mem, mem-cons_self, mem-cons_of_mem}
use go_runit.Common.{
  ℕ, ◌≡◌, ◌∙◌, ap, sym, inl, inr, refl, true, false, ◌==◌, ==_iff, if◌then◌else◌, Bool-cases,
  Option-cases, Option, none, some, List, [], ◌∷◌, ◌++◌, arith, ◌≤◌,
}
use go_runit.Status.{
  State, state_unknown, state_down, state_starting, state_running, state_paused, state_stopping,
  state_finishing, state_crashed, state_exited, state_index, Status, zero_status,
}
use go_runit.Watch.{reported, watch_error}
use go_runit.Watch.Changes.{result-cases}
use go_runit.Wait.{
  Selected, event, closed, done, Waited, returned, waiting, WaitWorld, state_eq, is_target,
  on_selected, wait_loop, wait_impl,
}

of_index : ℕ → State
of_index n =
    if n == 0
    then state_unknown
    else if n == 1
    then state_down
    else if n == 2
    then state_starting
    else if n == 3
    then state_running
    else if n == 4
    then state_paused
    else if n == 5
    then state_stopping
    else if n == 6
    then state_finishing
    else if n == 7
    then state_crashed
    else state_exited

of_index-state_index : (s : State) → of_index (state_index s) ≡ s
unfolding of_index
of_index-state_index state_unknown = refl
of_index-state_index _ = refl

pub state_eq→eq : (a b : State) → state_eq a b ≡ true → a ≡ b
state_eq→eq a b h =
    sym (of_index-state_index a)
    ∙ ap of_index ((==_iff (state_index a) (state_index b)).0 h)
    ∙ of_index-state_index b

is_target→Mem : (states : List State) (s : State) → is_target states s ≡ true → Mem s states
unfolding is_target
is_target→Mem [] s h = absurd cc
is_target→Mem (t ∷ ts) s h = elim (Bool-cases (state_eq s t)) [
  | inl e ↦ rw (state_eq→eq s t e) mem-cons_self
  | inr e ↦ mem-cons_of_mem t (is_target→Mem ts s (rw e at h))
]

-- A return: nil comes with a status in one of the states, an error with the zero status, and a watch
-- that was made is cleaned up once.
abbrev pub IsReturn : List State → Waited → Type 0
IsReturn states waiting = Unit
IsReturn states (returned s none n) = Mem s.state states × (n ≤ 1)
IsReturn states (returned s (some e) n) = (s ≡ zero_status) × (n ≤ 1)

abbrev IsDecision : List State → Option Waited → Type 0
IsDecision states none = Unit
IsDecision states (some w) = IsReturn states w

matched-IsDecision :
    (states : List State) (s : Status) (n : ℕ)
    → n ≤ 1
    → IsDecision states (if is_target states s.state then some (returned s none n) else none)
matched-IsDecision states s n k = elim (Bool-cases (is_target states s.state)) [
  | inl e ↦ rw e (is_target→Mem states s.state e, k)
  | inr e ↦ rw e tt
]

on_selected-IsDecision :
    (states : List State) (x : Selected) → IsDecision states (on_selected states x)
unfolding on_selected
on_selected-IsDecision states (event (watch_error e)) = (refl, omega arith)
on_selected-IsDecision states (event (reported s)) = matched-IsDecision states s 1 (omega arith)
on_selected-IsDecision states closed = matched-IsDecision states zero_status 1 (omega arith)
on_selected-IsDecision states (done e) = (refl, omega arith)

wait_loop-IsReturn :
    (states : List State) (xs : List Selected) → IsReturn states (wait_loop states xs)
unfolding wait_loop
wait_loop-IsReturn states [] = tt
wait_loop-IsReturn states (x ∷ xs) = elim (Option-cases (on_selected states x)) [
  | inl e ↦ rw e (wait_loop-IsReturn states xs)
  | inr (w, e) ↦ rw e (rw e at (on_selected-IsDecision states x))
]

-- Waiting for some states: a nil error comes with a status in one of them, any error with the zero
-- status, and the watch is cleaned up at most once.
pub wait_impl-IsReturn :
    (t : State) (ts : List State) (w : WaitWorld) → IsReturn (t ∷ ts) (wait_impl (t ∷ ts) w)
unfolding wait_impl
wait_impl-IsReturn t ts w = elim (result-cases w.status) [
  | inl (e, q) ↦ rw q (refl, omega arith)
  | inr (s, q) ↦ elim (Bool-cases (is_target (t ∷ ts) s.state)) [
    | inl k ↦ rw (q, k) (is_target→Mem (t ∷ ts) s.state k, omega arith)
    | inr k ↦ elim (Option-cases w.watch_failure) [
      | inl f ↦ rw (q, k, f) (wait_loop-IsReturn (t ∷ ts) w.selections)
      | inr (e, f) ↦ rw (q, k, f) (refl, omega arith)
    ]
  ]
]

-- No selection of the list decides.
abbrev pub AllPass : List State → List Selected → Type 0
AllPass states [] = Unit
AllPass states (x ∷ xs) = (on_selected states x ≡ none) × AllPass states xs

wait_loop-pass :
    (states : List State) (xs ys : List Selected)
    → AllPass states xs
    → wait_loop states (xs ++ ys) ≡ wait_loop states ys
unfolding wait_loop
wait_loop-pass states [] ys h = refl
wait_loop-pass states (x ∷ xs) ys h = rw (h.0) (wait_loop-pass states xs ys h.1)

wait_loop-decide :
    (states : List State) (x : Selected) (ys : List Selected) (r : Waited)
    → on_selected states x ≡ some r
    → wait_loop states (x ∷ ys) ≡ r
unfolding wait_loop
wait_loop-decide states x ys r h = rw h refl

-- Waiting for states that the first status is not in: the first selection that decides is what
-- `waitImpl` returns, whatever passed before it and whatever follows.
pub wait_first :
    (t : State) (ts : List State) (s : Status) (xs ys : List Selected) (x : Selected) (r : Waited)
    → is_target (t ∷ ts) s.state ≡ false
    → AllPass (t ∷ ts) xs
    → on_selected (t ∷ ts) x ≡ some r
    → wait_impl
        (t ∷ ts)
        (record { status = inr s; watch_failure = none; selections = xs ++ x ∷ ys })
      ≡ r
unfolding wait_impl
wait_first t ts s xs ys x r h pass decide =
    rw h (wait_loop-pass (t ∷ ts) xs (x ∷ ys) pass ∙ wait_loop-decide (t ∷ ts) x ys r decide)
