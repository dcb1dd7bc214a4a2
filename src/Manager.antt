-- ===== src/Manager.antt =====
-- manager.go: `NewManager`, and the goroutines of `execute` and of `Status`, one for each service,
-- which share a semaphore, a context, the errors and, for `Status`, the results.
pub mod Slots
pub mod Outcomes
pub mod Ends
pub mod Calls
pub mod Delivery
pub mod Readings
use go_runit.Common.{
  ℕ, suc, ◌+◌, ◌-◌, ◌<◌, ◌≡◌, Bool, true, false, Option, none, some, List, [], ◌∷◌, ◌++◌, map,
  if◌then◌else◌,
}
use go_runit.Common.Int.{ℤ, pos, ltb_ℤ}
use go_runit.Operation.{Operation, op_unknown, op_status}
use go_runit.Errors.{FilePath, Error, op_error, MultiError, no_errors, add, err_of}
use go_runit.Status.{Status}

pub record Manager : Type 0 where
  pub concurrency : ℤ
  pub timeout : ℤ

abbrev pub ManagerOption : Type 0
ManagerOption = Manager → Manager

abbrev pub with_concurrency : ℤ → ManagerOption
with_concurrency n m = record m { concurrency = n }

abbrev pub with_timeout : ℤ → ManagerOption
with_timeout d m = record m { timeout = d }

abbrev apply_options : List ManagerOption → Manager → Manager
apply_options [] m = m
apply_options (opt ∷ opts) m = apply_options opts (opt m)

-- `if m.Concurrency < 1 { m.Concurrency = 1 }`
unfoldable pub at_least_one : Manager → Manager
at_least_one m = if ltb_ℤ m.concurrency (pos 1) then record m { concurrency = pos 1 } else m

unfoldable pub new_manager : List ManagerOption → Manager
new_manager opts =
    at_least_one (apply_options opts (record { concurrency = pos 10; timeout = pos 5000000000 }))

-- `execute` for a control method, or `Status`.
pub data Kind : Type 0 where
  executing reading : Kind

-- The operation in the error of a client that cannot be made.
abbrev pub tag : Kind → Operation
tag executing = op_unknown
tag reading = op_status

-- What a goroutine comes to: the error of the context before it got a slot, that of `NewClientRunit`,
-- that of the client's method, or success, with the status that `Status` returned.
pub data Outcome : Type 0 where
  cancelled unopened failed : Error → Outcome
  fine : Status → Outcome

-- The error that the goroutine adds.
abbrev pub error_of : Kind → FilePath → Outcome → Option Error
error_of k svc (cancelled e) = some e
error_of k svc (unopened e) = some (op_error (tag k) svc e)
error_of k svc (failed e) = some e
error_of k svc (fine s) = none

-- What it writes to the map: nothing in `execute`.
abbrev pub stored : Kind → FilePath → Outcome → List (FilePath × Status)
stored reading svc (fine s) = (svc, s) ∷ []
stored _ svc _ = []

-- Where a goroutine is: at the select, with a slot, with a slot and its outcome told, or at its end.
-- The outcome in the last two is only for the statements: no step looks at it.
pub data Phase : Type 0 where
  start holding : Phase
  leaving stopped : Outcome → Phase

pub data Task : Type 0 where
  goroutine : FilePath → Phase → Task

-- The slots taken, the error of the context once it is done, the errors so far, and the writes to the
-- map in their order, of which the last one of a key counts.
pub record Shared : Type 0 where
  pub slots : ℕ
  pub ctx_error : Option Error
  pub merr : MultiError
  pub results : List (FilePath × Status)

-- The sections under the mutex.
unfoldable pub tell : Kind → FilePath → Outcome → Shared → Shared
tell k svc o s = record s {
  merr = add s.merr (error_of k svc o);
  results = s.results ++ stored k svc o;
}

-- One action of one goroutine, for a semaphore of `cap` slots.
pub data Act (k : Kind) (cap : ℕ) (svc : FilePath) : Phase → Shared → Phase → Shared → Type 0 where
  acquire :
      {s : Shared}
      → s.slots < cap
      → Act k cap svc start s holding (record s { slots = suc s.slots })
  abandon :
      {s : Shared} (e : Error)
      → s.ctx_error ≡ some e
      → Act k cap svc start s (stopped (cancelled e)) (tell k svc (cancelled e) s)
  refuse :
      {s : Shared} (e : Error)
      → Act k cap svc holding s (leaving (unopened e)) (tell k svc (unopened e) s)
  fail :
      {s : Shared} (e : Error)
      → Act k cap svc holding s (leaving (failed e)) (tell k svc (failed e) s)
  finish :
      {s : Shared} (st : Status)
      → Act k cap svc holding s (leaving (fine st)) (tell k svc (fine st) s)
  release :
      {s : Shared} {o : Outcome}
      → Act k cap svc (leaving o) s (stopped o) (record s { slots = s.slots - 1 })

-- One of the goroutines acts.
pub data Move (k : Kind) (cap : ℕ) : List Task → Shared → List Task → Shared → Type 0 where
  first :
      {svc : FilePath} {p q : Phase} {s u : Shared} {ts : List Task}
      → Act k cap svc p s q u
      → Move k cap (goroutine svc p ∷ ts) s (goroutine svc q ∷ ts) u
  later :
      {t : Task} {ts us : List Task} {s u : Shared}
      → Move k cap ts s us u
      → Move k cap (t ∷ ts) s (t ∷ us) u

pub data Step (k : Kind) (cap : ℕ) (ts : List Task) (s : Shared) : List Task → Shared → Type 0 where
  move : {us : List Task} {u : Shared} → Move k cap ts s us u → Step k cap ts s us u
  expire : (e : Error) → s.ctx_error ≡ none → Step k cap ts s ts (record s { ctx_error = some e })

abbrev pub launch : List FilePath → List Task
launch = map (λ svc. goroutine svc start)

abbrev pub fresh : Shared
fresh = record { slots = 0; ctx_error = none; merr = no_errors; results = [] }

-- What the goroutines can come to, in `n` steps in any order.
pub data Reach (k : Kind) (cap : ℕ) (services : List FilePath)
    : ℕ → List Task → Shared → Type 0 where
  here : Reach k cap services 0 (launch services) fresh
  next :
      {n : ℕ} {ts us : List Task} {s u : Shared}
      → Reach k cap services n ts s
      → Step k cap ts s us u
      → Reach k cap services (suc n) us u

-- `wg.Wait` returns once all goroutines have ended.
abbrev pub ended : Task → Bool
ended (goroutine svc (stopped o)) = true
ended t = false

abbrev pub AllStopped : List Task → Type 0
AllStopped [] = Unit
AllStopped (t ∷ ts) = (ended t ≡ true) × AllStopped ts
