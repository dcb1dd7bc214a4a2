-- ===== src/Client/Backoff.antt =====
-- The waits between the rounds of `send`: the first is `BackoffMin`, each later one twice the one
-- before, up to `BackoffMax`.
use mathlib.Core.Path.{ap₂}
use go_runit.Common.{
  ◌∙◌, ℕ, zero, suc, ◌*◌, ◌^◌, ◌≤◌, ◌<◌, ◌≡◌, ◌⊎◌, inl, inr, refl, ap, List, [], ◌∷◌, ◌++◌, arith,
}
use Prim.Native.Nat.{min}
use native.Mathlib.Nat.{pow-suc}
use go_runit.Common.Int.{ℤ, pos}
use go_runit.Operation.{Operation, op_byte}
use go_runit.Errors.{FilePath}
use go_runit.Client.{
  Client, Round, Rounds, Event, waited, dialed, set_deadline, wrote_conn, opened, wrote_file,
  closed_conn, closed_file, Loop, Sent, Next, returns, continues, round, next_backoff, settle,
  give_up, send_loop, start_loop,
}

-- The waits among the events.
abbrev pub waits : List Event → List ℤ
waits [] = []
waits (waited d ∷ es) = d ∷ waits es
waits (e ∷ es) = waits es

waits-append : (xs ys : List Event) → waits (xs ++ ys) ≡ waits xs ++ waits ys
waits-append [] ys = refl
waits-append (waited d ∷ xs) ys = ap (◌∷◌ d) (waits-append xs ys)
waits-append (dialed x y ∷ xs) ys = waits-append xs ys
waits-append (opened x y ∷ xs) ys = waits-append xs ys
waits-append (set_deadline x ∷ xs) ys = waits-append xs ys
waits-append (wrote_conn x y ∷ xs) ys = waits-append xs ys
waits-append (wrote_file x y ∷ xs) ys = waits-append xs ys
waits-append (closed_conn ∷ xs) ys = waits-append xs ys
waits-append (closed_file ∷ xs) ys = waits-append xs ys

-- The wait number `i`, for the bounds `low` and `high`.
abbrev pub delay : ℕ → ℕ → ℕ → ℕ
delay low high zero = low
delay low high (suc i) = min (2 ^ suc i * low) high

-- `n` waits from the number `i` on.
abbrev pub delays : ℕ → ℕ → ℕ → ℕ → List ℤ
delays low high i zero = []
delays low high i (suc n) = pos (delay low high i) ∷ delays low high (suc i) n

module _ (c : Client) (low high : ℕ) (min_eq : c.backoff_min ≡ pos low)
    (max_eq : c.backoff_max ≡ pos high) (low_lt : low < 2 ^ 62) (high_lt : high < 2 ^ 62) where
  doubled : (x : ℕ) → x < 2 ^ 62 → next_backoff c (pos x) ≡ pos (min (2 * x) high)
  unfolding next_backoff
  doubled x h = ground (arith, max_eq)

  delay-lt : (i : ℕ) → delay low high i < 2 ^ 62
  delay-lt zero = low_lt
  delay-lt (suc i) = omega arith

  capped : (i : ℕ) → min (2 * delay low high i) high ≡ delay low high (suc i)
  capped zero = omega arith
  capped (suc i) = omega (arith, ap (λ (t : ℕ). t * low) (pow-suc 2 (suc i)))

  next_delay : (i : ℕ) → next_backoff c (pos (delay low high i)) ≡ pos (delay low high (suc i))
  next_delay i = doubled (delay low high i) (delay-lt i) ∙ ap pos (capped i)

-- A later round waits once, for the present backoff, unless its wait is cut short.
abbrev RoundWaits : Client → Loop → Next → Type 0
RoundWaits c s (returns e events deferred) =
    (waits (events ++ deferred) ≡ []) ⊎ (waits (events ++ deferred) ≡ s.backoff ∷ [])
RoundWaits c s (continues events s') =
    (waits events ≡ s.backoff ∷ [])
    × (s'.backoff ≡ next_backoff c s.backoff)
    × (waits s'.deferred ≡ [])

round_waits :
    (c : Client) (path : FilePath) (b i : ℕ) (r : Round) (s : Loop)
    → waits s.deferred ≡ []
    → RoundWaits c s (round c path b (suc i) r s)
unfolding round
round_waits c path b i r s h = ground arith

-- The first round does not wait, and keeps the backoff.
abbrev FirstWaits : Loop → Next → Type 0
FirstWaits s (returns e events deferred) = waits (events ++ deferred) ≡ []
FirstWaits s (continues events s') =
    (waits events ≡ []) × (s'.backoff ≡ s.backoff) × (waits s'.deferred ≡ [])

first_waits :
    (c : Client) (path : FilePath) (b : ℕ) (r : Round) (s : Loop)
    → waits s.deferred ≡ []
    → FirstWaits s (round c path b 0 r s)
unfolding round
first_waits c path b r s h = ground arith

-- The waits are the next ones of the schedule, at most one for each round that is left.
abbrev pub Scheduled : ℕ → ℕ → ℕ → ℕ → Sent → Type 0
Scheduled low high i left r = (n : ℕ) × (n ≤ left) × (waits r.log ≡ delays low high i n)

settle-waits :
    (c : Client) (low high i left : ℕ) (s : Loop) (n : Next) (rest : Loop → Sent)
    → s.backoff ≡ pos (delay low high i)
    → next_backoff c (pos (delay low high i)) ≡ pos (delay low high (suc i))
    → RoundWaits c s n
    → ((s' : Loop)
        → waits s'.deferred ≡ []
        → s'.backoff ≡ pos (delay low high (suc i))
        → Scheduled low high (suc i) left (rest s'))
    → Scheduled low high i (suc left) (settle n rest)
settle-waits c low high i left s (returns e events deferred) rest b d (inl h) ih =
    (0, omega arith, h)
settle-waits c low high i left s (returns e events deferred) rest b d (inr h) ih =
    (1, omega arith, h ∙ ap (λ x. x ∷ []) b)
settle-waits c low high i left s (continues events s') rest b d (h, keep, none_deferred) ih =
    let (n, le, e) = ih s' none_deferred (keep ∙ ap (next_backoff c) b ∙ d) in
    (suc n, omega arith, waits-append events (rest s').log ∙ ap₂ ◌++◌ (h ∙ ap (λ x. x ∷ []) b) e)

send_loop-waits :
    (c : Client) (low high : ℕ)
    → c.backoff_min ≡ pos low
    → c.backoff_max ≡ pos high
    → low < 2 ^ 62
    → high < 2 ^ 62
    → (op : Operation) (path : FilePath) (w : Rounds) (left i : ℕ) (s : Loop)
    → waits s.deferred ≡ []
    → s.backoff ≡ pos (delay low high i)
    → Scheduled low high i left (send_loop c op path w left (suc i) s)
unfolding send_loop give_up
send_loop-waits c low high e f p q op path w zero i s h b = (0, omega arith, h)
send_loop-waits c low high e f p q op path w (suc left) i s h b =
    settle-waits c low high i left s (round c path (op_byte op) (suc i) (w (suc i)) s) _ b
      (next_delay c low high e f p q i) (round_waits c path (op_byte op) i (w (suc i)) s h)
      (send_loop-waits c low high e f p q op path w left (suc i))

settle_first :
    (low high left : ℕ) (s : Loop) (n : Next) (rest : Loop → Sent)
    → s.backoff ≡ pos low
    → FirstWaits s n
    → ((s' : Loop)
        → waits s'.deferred ≡ []
        → s'.backoff ≡ pos low
        → Scheduled low high 0 left (rest s'))
    → Scheduled low high 0 left (settle n rest)
settle_first low high left s (returns e events deferred) rest b h ih = (0, omega arith, h)
settle_first low high left s (continues events s') rest b (h, keep, none_deferred) ih =
    let (n, le, e) = ih s' none_deferred (keep ∙ b) in
    (n, le, waits-append events (rest s').log ∙ rw (h, e))

-- The waits of a call of `send` with `left + 1` attempts are the first ones of the schedule, at most
-- `left` of them.
pub send_loop_schedule :
    (c : Client) (low high : ℕ)
    → c.backoff_min ≡ pos low
    → c.backoff_max ≡ pos high
    → low < 2 ^ 62
    → high < 2 ^ 62
    → (op : Operation) (path : FilePath) (w : Rounds) (left : ℕ)
    → Scheduled low high 0 left (send_loop c op path w (suc left) 0 (start_loop c))
unfolding send_loop
send_loop_schedule c low high e f p q op path w left =
    settle_first low high left (start_loop c) (round c path (op_byte op) 0 (w 0) (start_loop c)) _ e
      (first_waits c path (op_byte op) (w 0) (start_loop c) refl)
      (send_loop-waits c low high e f p q op path w left 0)
