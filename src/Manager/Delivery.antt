-- ===== src/Manager/Delivery.antt =====
-- A control method of a manager, down to the bytes in the control files of its services.

use go_runit.Manager.Ends.{execute_nil_iff, Move-todo, AllFine}
use go_runit.Errors.{err_of, FilePath, ok}
use go_runit.Manager.{
  AllStopped, executing, launch, Reach, cancelled, unopened, failed, fine, goroutine, stopped,
  start, holding, leaving, first, later, acquire, abandon, refuse, fail, finish, release, move,
  expire, here, next, Move, Shared, Kind, Task, Phase, Status, Error, Outcome,
}
use go_runit.Common.{
  true, false, Bool, inl, inr, ℕ, ◌≡◌, ◌↔◌, refl, Option, none, some, List, [], ◌∷◌, arith,
}
use go_runit.Manager.Calls.{
  AllCalled, all_up, all_down, all_term, all_kill, method_of, Site, Control, execute_outcome,
  by_error,
}
use go_runit.Errors.Collect.{Result-cases}
use go_runit.Client.Report.{call_ok_iff, Supports}
use go_runit.Common.Int.{pos_part}
use go_runit.Client.Refuse.{call-IsSafeCall}
use go_runit.Operation.{op_byte}
use go_runit.Client.Deliver.{delivered, Delivers}
use go_runit.Client.Methods.{op_of, runit_family, runit_call, call}
use go_runit.Client.Outcome.{GetsThrough}
use go_runit.Client.Make.{new_client_runit}
use go_runit.Status.{zero_status}
use go_runit.Service.{config_runit, is_operation_supported}
use go_runit.Client.{Client}

-- The byte in the control file that each method stands for.
abbrev pub control_byte : Control → ℕ
control_byte all_up = b'u'
control_byte all_down = b'd'
control_byte all_term = b't'
control_byte all_kill = b'k'

-- The client of a site can be made, an attempt gets through before the context cuts a wait short, and
-- the control file gets the byte of the method, once.
abbrev pub IsReached : Control → Site → Type 0
IsReached m x =
    (c : Client) × (new_client_runit x.directory ≡ ok c)
    × GetsThrough x.rounds 0 (pos_part c.max_attempts)
    × (delivered (runit_call c (method_of m) x.rounds).log ≡ control_byte m ∷ [])

abbrev pub AllReached : Control → List Site → Type 0
AllReached m [] = Unit
AllReached m (x ∷ xs) = IsReached m x × AllReached m xs

control_supported : (m : Control) → Supports runit_family (method_of m)
unfolding is_operation_supported config_runit
control_supported all_up = refl
control_supported all_down = refl
control_supported all_term = refl
control_supported all_kill = refl

method_byte : (m : Control) → op_byte (op_of (method_of m)) ≡ control_byte m
unfolding op_byte
method_byte all_up = refl
method_byte all_down = refl
method_byte all_term = refl
method_byte all_kill = refl

runit_call_ok_iff :
    (m : Control) (c : Client) (x : Site)
    → ((runit_call c (method_of m) x.rounds).error ≡ none)
      ↔ GetsThrough x.rounds 0 (pos_part c.max_attempts)
unfolding call
runit_call_ok_iff m c x = call_ok_iff runit_family c (method_of m) x.rounds (control_supported m)

runit_call-Delivers :
    (m : Control) (c : Client) (x : Site)
    → Delivers
        (control_byte m)
        (runit_call c (method_of m) x.rounds).error
        (delivered (runit_call c (method_of m) x.rounds).log)
unfolding call
runit_call-Delivers m c x =
    rw (method_byte m) at ((call-IsSafeCall runit_family c (method_of m) x.rounds).delivers)

by_error-fine : (e : Option Error) (s : Status) → some (by_error e) ≡ some (fine s) → e ≡ none
by_error-fine none s h = refl
by_error-fine (some e) s h = absurd cc

fine-IsReached :
    (m : Control) (x : Site) (s : Status) → execute_outcome m x ≡ some (fine s) → IsReached m x
unfolding execute_outcome
fine-IsReached m x s h = elim (Result-cases (new_client_runit x.directory)) [
  | inl (c, q) ↦
      let e = by_error-fine _ s (rw q at h) in
      (c, q, (runit_call_ok_iff m c x).0 e, rw e at (runit_call-Delivers m c x))
  | inr (inl (e, q)) ↦ absurd (ground (arith, rw q at h))
  | inr (inr q) ↦ absurd (ground (arith, rw q at h))
]

reached_fine :
    (m : Control) (x : Site) → IsReached m x → execute_outcome m x ≡ some (fine zero_status)
unfolding execute_outcome
reached_fine m x (c, q, g, d) = rw (q, (runit_call_ok_iff m c x).1 g) refl

-- No goroutine lost its slot to the end of the context.
abbrev was_cancelled : Phase → Bool
was_cancelled (stopped (cancelled e)) = true
was_cancelled (leaving (cancelled e)) = true
was_cancelled p = false

abbrev pub NoneCancelled : List Task → Type 0
NoneCancelled [] = Unit
NoneCancelled (goroutine svc p ∷ ts) = (was_cancelled p ≡ false) × NoneCancelled ts

Move-NoneCancelled :
    {k : Kind} {cap : ℕ} {ts us : List Task} {s u : Shared}
    → Move k cap ts s us u
    → s.ctx_error ≡ none
    → NoneCancelled ts
    → NoneCancelled us
Move-NoneCancelled (first (acquire h)) e (a, b) = (refl, b)
Move-NoneCancelled (first (abandon x h)) e (a, b) = absurd (ground (arith, h, e))
Move-NoneCancelled (first (refuse x)) e (a, b) = (refl, b)
Move-NoneCancelled (first (fail x)) e (a, b) = (refl, b)
Move-NoneCancelled (first (finish st)) e (a, b) = (refl, b)
Move-NoneCancelled (first (release {o = cancelled x})) e (a, b) = (a, b)
Move-NoneCancelled (first (release {o = unopened x})) e (a, b) = (refl, b)
Move-NoneCancelled (first (release {o = failed x})) e (a, b) = (refl, b)
Move-NoneCancelled (first (release {o = fine x})) e (a, b) = (refl, b)
Move-NoneCancelled (later {t = goroutine svc p} m) e (a, b) = (a, Move-NoneCancelled m e b)

launch-NoneCancelled : (services : List FilePath) → NoneCancelled (launch services)
launch-NoneCancelled [] = tt
launch-NoneCancelled (svc ∷ services) = (refl, launch-NoneCancelled services)

pub Reach-NoneCancelled :
    {k : Kind} {cap : ℕ} {services : List FilePath} {n : ℕ} {ts : List Task} {s : Shared}
    → Reach k cap services n ts s
    → s.ctx_error ≡ none
    → NoneCancelled ts
Reach-NoneCancelled {services = services} here e = launch-NoneCancelled services
Reach-NoneCancelled (next r (move m)) e =
    let q = (Move-todo m).1 in
    let live = rw q at e in Move-NoneCancelled m live (Reach-NoneCancelled r live)
Reach-NoneCancelled (next r (expire x h)) e = absurd cc

fine-AllReached :
    (m : Control) (xs : List Site) (ts : List Task)
    → AllCalled (execute_outcome m) xs ts
    → AllFine ts
    → AllReached m xs
fine-AllReached m [] [] c f = tt
fine-AllReached m (x ∷ xs) (goroutine svc (stopped (fine st)) ∷ ts) (c, cs) (f, fs) =
    (fine-IsReached m x st c, fine-AllReached m xs ts cs fs)
fine-AllReached m (x ∷ xs) (goroutine svc (stopped (cancelled e)) ∷ ts) c f = absurd cc
fine-AllReached m (x ∷ xs) (goroutine svc (stopped (unopened e)) ∷ ts) c f = absurd cc
fine-AllReached m (x ∷ xs) (goroutine svc (stopped (failed e)) ∷ ts) c f = absurd cc
fine-AllReached m (x ∷ xs) (goroutine svc start ∷ ts) c f = absurd cc
fine-AllReached m (x ∷ xs) (goroutine svc holding ∷ ts) c f = absurd cc
fine-AllReached m (x ∷ xs) (goroutine svc (leaving o) ∷ ts) c f = absurd cc
fine-AllReached m [] (t ∷ ts) c f = absurd c
fine-AllReached m (x ∷ xs) [] c f = absurd c

-- Every site gives success.
abbrev pub AllSucceed : (Site → Option Outcome) → List Site → Type 0
AllSucceed run [] = Unit
AllSucceed run (x ∷ xs) = ((st : Status) × (run x ≡ some (fine st))) × AllSucceed run xs

pub succeed-AllFine :
    (run : Site → Option Outcome) (xs : List Site) (ts : List Task)
    → AllCalled run xs ts
    → AllStopped ts
    → NoneCancelled ts
    → AllSucceed run xs
    → AllFine ts
succeed-AllFine run [] [] c h l a = tt
succeed-AllFine run (x ∷ xs) (goroutine svc (stopped (fine st)) ∷ ts) (c, cs) (h, hs) (l, ls)
      (a, bs) =
    (refl, succeed-AllFine run xs ts cs hs ls bs)
succeed-AllFine run (x ∷ xs) (goroutine svc (stopped (cancelled e)) ∷ ts) c h (l, ls) a = absurd cc
succeed-AllFine run (x ∷ xs) (goroutine svc (stopped (unopened e)) ∷ ts) (c, cs) h l ((st, a), bs) =
    absurd (ground (arith, c, a))
succeed-AllFine run (x ∷ xs) (goroutine svc (stopped (failed e)) ∷ ts) (c, cs) h l ((st, a), bs) =
    absurd (ground (arith, c, a))
succeed-AllFine run (x ∷ xs) (goroutine svc start ∷ ts) c (h, hs) l a = absurd cc
succeed-AllFine run (x ∷ xs) (goroutine svc holding ∷ ts) c (h, hs) l a = absurd cc
succeed-AllFine run (x ∷ xs) (goroutine svc (leaving o) ∷ ts) c (h, hs) l a = absurd cc
succeed-AllFine run [] (t ∷ ts) c h l a = absurd c
succeed-AllFine run (x ∷ xs) [] c h l a = absurd c

reached_succeed :
    (m : Control) (xs : List Site) → AllReached m xs → AllSucceed (execute_outcome m) xs
reached_succeed m [] a = tt
reached_succeed m (x ∷ xs) (a, bs) = ((_, reached_fine m x a), reached_succeed m xs bs)

-- `Up`, `Down`, `Term` and `Kill` of a manager, however the goroutines are interleaved. If the method
-- returns nil, then for each service the client could be made, an attempt of its call got through, and
-- the control file or socket got the byte of the method exactly once. If all that is so for each
-- service, and the context has not ended, the method returns nil.
pub manager_delivers :
    (m : Control) (xs : List Site) {cap : ℕ} {services : List FilePath} {n : ℕ} {ts : List Task}
    {s : Shared}
    → Reach executing cap services n ts s
    → AllStopped ts
    → AllCalled (execute_outcome m) xs ts
    → (err_of s.merr ≡ none → AllReached m xs)
      × (s.ctx_error ≡ none → AllReached m xs → err_of s.merr ≡ none)
manager_delivers m xs {ts = ts} {s = s} r h c =
    let e = execute_nil_iff r h in
    (
      λ q. fine-AllReached m xs ts c (e.0 q),
      λ q a. e.1 (
          succeed-AllFine (execute_outcome m) xs ts c h (Reach-NoneCancelled r q)
            (reached_succeed m xs a)),
    )
