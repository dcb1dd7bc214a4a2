-- ===== src/Client/Deliver.antt =====
-- What `send` delivers: at most one control byte, exactly one if it returns nil; when it returns nil;
-- and that it closes what it opens.
use go_runit.Client.{
  settle, Client, Round, Rounds, Event, waited, dialed, set_deadline, wrote_conn, opened,
  wrote_file, closed_conn, closed_file, Loop, Sent, Next, returns, continues, round, give_up,
  send_loop,
}
use go_runit.Common.{
  ℕ, zero, suc, ◌+◌, ◌≤◌, ◌≡◌, refl, ap, Option, none, some, List, [], ◌∷◌, ◌++◌, arith,
}
use go_runit.Operation.{Operation, op_byte}
use go_runit.Errors.{FilePath, Error}

-- The bytes that reach the supervisor.
abbrev pub delivered : List Event → List ℕ
delivered [] = []
delivered (wrote_conn b none ∷ es) = b ∷ delivered es
delivered (wrote_file b none ∷ es) = b ∷ delivered es
delivered (e ∷ es) = delivered es

pub delivered-append : (xs ys : List Event) → delivered (xs ++ ys) ≡ delivered xs ++ delivered ys
delivered-append [] ys = refl
delivered-append (wrote_conn b none ∷ xs) ys = ap (◌∷◌ b) (delivered-append xs ys)
delivered-append (wrote_file b none ∷ xs) ys = ap (◌∷◌ b) (delivered-append xs ys)
delivered-append (wrote_conn b (some x) ∷ xs) ys = delivered-append xs ys
delivered-append (wrote_file b (some x) ∷ xs) ys = delivered-append xs ys
delivered-append (waited x ∷ xs) ys = delivered-append xs ys
delivered-append (dialed x y ∷ xs) ys = delivered-append xs ys
delivered-append (set_deadline x ∷ xs) ys = delivered-append xs ys
delivered-append (opened x y ∷ xs) ys = delivered-append xs ys
delivered-append (closed_conn ∷ xs) ys = delivered-append xs ys
delivered-append (closed_file ∷ xs) ys = delivered-append xs ys

-- A call that returns nil delivers one byte, and any other none.
abbrev pub Delivers : ℕ → Option Error → List ℕ → Type 0
Delivers b none bs = bs ≡ b ∷ []
Delivers b (some e) bs = bs ≡ []

-- The deferred calls deliver nothing.
abbrev RoundDelivers : ℕ → Next → Type 0
RoundDelivers b (returns e events deferred) = Delivers b e (delivered (events ++ deferred))
RoundDelivers b (continues events s) = (delivered events ≡ []) × (delivered s.deferred ≡ [])

round_delivers :
    (c : Client) (path : FilePath) (b k : ℕ) (r : Round) (s : Loop)
    → delivered s.deferred ≡ []
    → RoundDelivers b (round c path b k r s)
unfolding round
round_delivers c path b k r s h = ground arith

abbrev pub DeliversRest : ℕ → Sent → Type 0
DeliversRest b r = Delivers b r.error (delivered r.log)

settle_delivers :
    (b : ℕ) (n : Next) (rest : Loop → Sent)
    → RoundDelivers b n
    → ((s : Loop) → delivered s.deferred ≡ [] → DeliversRest b (rest s))
    → DeliversRest b (settle n rest)
settle_delivers b (returns e events deferred) rest h ih = h
settle_delivers b (continues events s) rest h ih =
    ground (arith, ih s, delivered-append events (rest s).log)

pub send_loop_delivers :
    (c : Client) (op : Operation) (path : FilePath) (w : Rounds) (left k : ℕ) (s : Loop)
    → delivered s.deferred ≡ []
    → DeliversRest (op_byte op) (send_loop c op path w left k s)
unfolding send_loop give_up
send_loop_delivers c op path w zero k s h = ground arith
send_loop_delivers c op path w (suc left) k s h =
    settle_delivers (op_byte op) (round c path (op_byte op) k (w k) s) _
      (round_delivers c path (op_byte op) k (w k) s h) (send_loop_delivers c op path w left (suc k))

-- Opened handles and closed ones.
abbrev pub opens : List Event → ℕ
opens [] = 0
opens (dialed p none ∷ es) = suc (opens es)
opens (opened p none ∷ es) = suc (opens es)
opens (e ∷ es) = opens es

abbrev pub closes : List Event → ℕ
closes [] = 0
closes (closed_conn ∷ es) = suc (closes es)
closes (closed_file ∷ es) = suc (closes es)
closes (e ∷ es) = closes es

-- Connections and rounds: a round dials once.
abbrev pub dials : List Event → ℕ
dials [] = 0
dials (dialed p e ∷ es) = suc (dials es)
dials (e ∷ es) = dials es

-- One round leaves as many closing calls deferred as it opens handles, and dials at most once.
abbrev RoundCloses : Loop → Next → Type 0
RoundCloses s (returns e events deferred) =
    (closes events ≡ 0)
    × (opens events + closes s.deferred ≡ closes deferred)
    × (opens deferred ≡ 0)
    × (dials events ≤ 1)
    × (dials deferred ≡ 0)
RoundCloses s (continues events s') =
    (closes events ≡ 0)
    × (opens events + closes s.deferred ≡ closes s'.deferred)
    × (opens s'.deferred ≡ 0)
    × (dials events ≤ 1)
    × (dials s'.deferred ≡ 0)

round_closes :
    (c : Client) (path : FilePath) (b k : ℕ) (r : Round) (s : Loop)
    → opens s.deferred ≡ 0
    → dials s.deferred ≡ 0
    → RoundCloses s (round c path b k r s)
unfolding round
round_closes c path b k r s h d = ground arith

opens-append : (xs ys : List Event) → opens (xs ++ ys) ≡ opens xs + opens ys
opens-append [] ys = omega arith
opens-append (dialed p none ∷ xs) ys = omega (arith, opens-append xs ys)
opens-append (opened p none ∷ xs) ys = omega (arith, opens-append xs ys)
opens-append (dialed p (some e) ∷ xs) ys = opens-append xs ys
opens-append (opened p (some e) ∷ xs) ys = opens-append xs ys
opens-append (waited x ∷ xs) ys = opens-append xs ys
opens-append (set_deadline x ∷ xs) ys = opens-append xs ys
opens-append (wrote_conn x y ∷ xs) ys = opens-append xs ys
opens-append (wrote_file x y ∷ xs) ys = opens-append xs ys
opens-append (closed_conn ∷ xs) ys = opens-append xs ys
opens-append (closed_file ∷ xs) ys = opens-append xs ys

closes-append : (xs ys : List Event) → closes (xs ++ ys) ≡ closes xs + closes ys
closes-append [] ys = omega arith
closes-append (closed_conn ∷ xs) ys = omega (arith, closes-append xs ys)
closes-append (closed_file ∷ xs) ys = omega (arith, closes-append xs ys)
closes-append (dialed x y ∷ xs) ys = closes-append xs ys
closes-append (opened x y ∷ xs) ys = closes-append xs ys
closes-append (waited x ∷ xs) ys = closes-append xs ys
closes-append (set_deadline x ∷ xs) ys = closes-append xs ys
closes-append (wrote_conn x y ∷ xs) ys = closes-append xs ys
closes-append (wrote_file x y ∷ xs) ys = closes-append xs ys

dials-append : (xs ys : List Event) → dials (xs ++ ys) ≡ dials xs + dials ys
dials-append [] ys = omega arith
dials-append (dialed x y ∷ xs) ys = omega (arith, dials-append xs ys)
dials-append (opened x y ∷ xs) ys = dials-append xs ys
dials-append (waited x ∷ xs) ys = dials-append xs ys
dials-append (set_deadline x ∷ xs) ys = dials-append xs ys
dials-append (wrote_conn x y ∷ xs) ys = dials-append xs ys
dials-append (wrote_file x y ∷ xs) ys = dials-append xs ys
dials-append (closed_conn ∷ xs) ys = dials-append xs ys
dials-append (closed_file ∷ xs) ys = dials-append xs ys

abbrev pub ClosesRest : ℕ → Loop → Sent → Type 0
ClosesRest left s r = (opens r.log + closes s.deferred ≡ closes r.log) × (dials r.log ≤ left)

settle_closes :
    (left : ℕ) (s : Loop) (n : Next) (rest : Loop → Sent)
    → RoundCloses s n
    → ((s' : Loop) → opens s'.deferred ≡ 0 → dials s'.deferred ≡ 0 → ClosesRest left s' (rest s'))
    → ClosesRest (suc left) s (settle n rest)
settle_closes left s (returns e events deferred) rest h ih = omega (
  arith,
  opens-append events deferred,
  closes-append events deferred,
  dials-append events deferred,
)
settle_closes left s (continues events s') rest h ih =
    let k = ih s' (omega arith) (omega arith) in
    omega (
      arith,
      k,
      opens-append events (rest s').log,
      closes-append events (rest s').log,
      dials-append events (rest s').log,
    )

pub send_loop_closes :
    (c : Client) (op : Operation) (path : FilePath) (w : Rounds) (left k : ℕ) (s : Loop)
    → opens s.deferred ≡ 0
    → dials s.deferred ≡ 0
    → ClosesRest left s (send_loop c op path w left k s)
unfolding send_loop give_up
send_loop_closes c op path w zero k s h d = omega arith
send_loop_closes c op path w (suc left) k s h d =
    settle_closes left s (round c path (op_byte op) k (w k) s) _
      (round_closes c path (op_byte op) k (w k) s h d) (send_loop_closes c op path w left (suc k))
