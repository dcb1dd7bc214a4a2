-- ===== src/Client/Outcome.antt =====
-- When `send` returns nil, and which error it returns otherwise.
use native.Mathlib.Decide.{ℕ_discrete}
use go_runit.Common.{
  ℕ, zero, suc, ◌+◌, ◌≤◌, ◌<◌, ◌≡◌, ◌≢◌, ◌↔◌, ◌⊎◌, refl, Bool, true, false, not, ◌&&◌, ◌||◌, Option,
  none, some, arith,
}
use go_runit.Operation.{Operation, op_byte}
use go_runit.Errors.{FilePath, Error, op_error, sentinel, control_not_ready}
use go_runit.Client.{
  Client, Round, Rounds, Loop, Sent, Next, returns, continues, round, settle, give_up, send_loop,
}

abbrev pub is_nil : Option Error → Bool
is_nil none = true
is_nil (some e) = false

-- The system takes the byte in this round: over the socket, or, where the socket cannot be dialed,
-- through the file.
abbrev pub works : Round → Bool
works r =
    (is_nil r.dial && is_nil r.conn_write)
    || (not (is_nil r.dial) && (is_nil r.open_file && is_nil r.file_write))

-- The wait before round `k` is not cut short; there is none before the first.
abbrev pub Waits : Rounds → ℕ → Type 0
Waits w k = (k ≡ 0) ⊎ ((w k).cancelled ≡ none)

abbrev RoundEnds : ℕ → Round → Next → Type 0
RoundEnds k r (returns none events deferred) = (works r ≡ true) × ((k ≡ 0) ⊎ (r.cancelled ≡ none))
RoundEnds k r (returns (some e) events deferred) = (k ≢ 0) × (r.cancelled ≡ some e)
RoundEnds k r (continues events s) = (works r ≡ false) × ((k ≡ 0) ⊎ (r.cancelled ≡ none))

round_ends :
    (c : Client) (path : FilePath) (b k : ℕ) (r : Round) (s : Loop)
    → RoundEnds k r (round c path b k r s)
unfolding round
round_ends c path b k r s = ground arith

-- Some round from `k` on, of those that are left, takes the byte, and no wait up to it is cut short.
abbrev pub GetsThrough : Rounds → ℕ → ℕ → Type 0
GetsThrough w k left =
    (i : ℕ) × (k ≤ i)
    × (i < k + left)
    × (works (w i) ≡ true)
    × ((j : ℕ) → k ≤ j → j ≤ i → Waits w j)

settle_sound :
    (w : Rounds) (k left : ℕ) (n : Next) (rest : Loop → Sent)
    → RoundEnds k (w k) n
    → ((s : Loop) → (rest s).error ≡ none → GetsThrough w (suc k) left)
    → (settle n rest).error ≡ none
    → GetsThrough w k (suc left)
settle_sound w k left (returns none events deferred) rest h ih e =
    (k, omega arith, omega arith, h.0, λ j lo hi. let same : k ≡ j = omega arith in rw (← same) h.1)
settle_sound w k left (returns (some x) events deferred) rest h ih e = cc
settle_sound w k left (continues events s) rest h ih e =
    let (i, lo, hi, ok, calm) = ih s e in
    (
      i,
      omega arith,
      omega arith,
      ok,
      λ j lo' hi'. elim (ℕ_discrete k j) [
        | yes same ↦ rw (← same) h.1
        | no other ↦ calm j (omega arith) hi'
      ],
    )

settle_complete :
    (w : Rounds) (k left : ℕ) (n : Next) (rest : Loop → Sent)
    → RoundEnds k (w k) n
    → ((s : Loop) → GetsThrough w (suc k) left → (rest s).error ≡ none)
    → GetsThrough w k (suc left)
    → (settle n rest).error ≡ none
settle_complete w k left (returns none events deferred) rest h ih g = refl
settle_complete w k left (returns (some x) events deferred) rest h ih (i, lo, hi, ok, calm) =
    absurd (ground (arith, calm k (omega arith) lo))
settle_complete w k left (continues events s) rest h ih (i, lo, hi, ok, calm) =
    ih s (i, ground arith, omega arith, ok, λ j lo' hi'. calm j (omega arith) hi')

give_up-ne-none : (op : Operation) (path : FilePath) (s : Loop) → (give_up op path s).error ≢ none
unfolding give_up
give_up-ne-none op path s = ground arith

send_loop_sound :
    (c : Client) (op : Operation) (path : FilePath) (w : Rounds) (left k : ℕ) (s : Loop)
    → (send_loop c op path w left k s).error ≡ none
    → GetsThrough w k left
unfolding send_loop
send_loop_sound c op path w zero k s e = absurd (give_up-ne-none op path s e)
send_loop_sound c op path w (suc left) k s e =
    settle_sound w k left (round c path (op_byte op) k (w k) s) _
      (round_ends c path (op_byte op) k (w k) s) (send_loop_sound c op path w left (suc k)) e

send_loop_complete :
    (c : Client) (op : Operation) (path : FilePath) (w : Rounds) (left k : ℕ) (s : Loop)
    → GetsThrough w k left
    → (send_loop c op path w left k s).error ≡ none
unfolding send_loop
send_loop_complete c op path w zero k s (i, lo, hi, ok, calm) = absurd (omega arith)
send_loop_complete c op path w (suc left) k s g =
    settle_complete w k left (round c path (op_byte op) k (w k) s) _
      (round_ends c path (op_byte op) k (w k) s) (send_loop_complete c op path w left (suc k)) g

-- `send` returns nil exactly when one of its rounds takes the byte before a wait is cut short.
pub send_loop_ok_iff :
    (c : Client) (op : Operation) (path : FilePath) (w : Rounds) (left k : ℕ) (s : Loop)
    → ((send_loop c op path w left k s).error ≡ none) ↔ GetsThrough w k left
send_loop_ok_iff c op path w left k s =
    (send_loop_sound c op path w left k s, send_loop_complete c op path w left k s)

-- The error that a round which fails leaves in `lastErr`: that of opening the file, and none where a
-- write failed.
abbrev pub left_error : Round → Option Error
left_error r = elim r.dial [ none ↦ none | some e ↦ r.open_file ]

-- What `send` returns for that error.
abbrev pub final_error : Operation → FilePath → Option Error → Error
final_error op path none = op_error op path (sentinel control_not_ready)
final_error op path (some e) = op_error op path e

abbrev RoundFails : Round → Next → Type 0
RoundFails r (returns e events deferred) = ⊥
RoundFails r (continues events s) = s.last_err ≡ left_error r

round_fails :
    (c : Client) (path : FilePath) (b k : ℕ) (r : Round) (s : Loop)
    → works r ≡ false
    → (k ≡ 0) ⊎ (r.cancelled ≡ none)
    → RoundFails r (round c path b k r s)
unfolding round
round_fails c path b k r s h v = ground arith

settle_fails :
    (op : Operation) (path : FilePath) (r : Round) (n : Next) (rest : Loop → Sent) (e : Error)
    → RoundFails r n
    → ((s : Loop) → s.last_err ≡ left_error r → (rest s).error ≡ some e)
    → (settle n rest).error ≡ some e
settle_fails op path r (returns x events deferred) rest e h ih = absurd h
settle_fails op path r (continues events s) rest e h ih = ih s h

give_up-final :
    (op : Operation) (path : FilePath) (s : Loop) (l : Option Error)
    → s.last_err ≡ l
    → (give_up op path s).error ≡ some (final_error op path l)
unfolding give_up
give_up-final op path s none h = ground arith
give_up-final op path s (some e) h = ground arith

-- If every round fails and no wait is cut short, the error depends on the last round alone.
pub send_loop_final :
    (c : Client) (op : Operation) (path : FilePath) (w : Rounds) (left k : ℕ) (s : Loop)
    → ((i : ℕ) → k ≤ i → i ≤ k + left → (works (w i) ≡ false) × Waits w i)
    → (send_loop c op path w (suc left) k s).error
      ≡ some (final_error op path (left_error (w (k + left))))
unfolding send_loop
send_loop_final c op path w zero k s all =
    let here = all k (omega arith) (omega arith) in
    let same : k ≡ k + 0 = omega arith in
    settle_fails op path (w k) (round c path (op_byte op) k (w k) s) _ _
      (round_fails c path (op_byte op) k (w k) s here.0 here.1)
      (λ s' e. give_up-final op path s' (left_error (w (k + 0))) (rw (← same) e))
send_loop_final c op path w (suc left) k s all =
    let here = all k (omega arith) (omega arith) in
    let same : suc k + left ≡ k + suc left = omega arith in
    settle_fails op path (w k) (round c path (op_byte op) k (w k) s) _ _
      (round_fails c path (op_byte op) k (w k) s here.0 here.1)
      (λ s' e. rw same at (
        send_loop_final c op path w left (suc k) s' (λ i lo hi. all i (omega arith) (omega arith))))
