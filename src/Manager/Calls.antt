-- ===== src/Manager/Calls.antt =====
-- manager.go: `Up`, `Down`, `Term`, `Kill` and `Status`: what a goroutine that has a slot comes to, by
-- the client that it makes and the method that it calls.
use go_runit.Common.{ℕ, ◌≡◌, Option, none, some, List, [], ◌∷◌}
use go_runit.Errors.{Error, Result, ok, err, panic}
use go_runit.Status.{Status, zero_status}
use go_runit.Client.{Client, Rounds}
use go_runit.Client.Methods.{Method, runit_call}
use go_runit.Client.Make.{Directory, new_client_runit}
use go_runit.Client.Read.{StatusFile, status_runit}
use go_runit.Manager.{Outcome, cancelled, unopened, failed, fine, Task, goroutine, Phase}

-- What the system answers to one goroutine. An operation context that times out shows in the rounds.
pub record Site : Type 0 where
  pub directory : Directory
  pub rounds : Rounds
  pub now : ℕ
  pub status_file : StatusFile

-- The methods that use `execute`.
pub data Control : Type 0 where
  all_up all_down all_term all_kill : Control

-- The method that the function `op` calls.
abbrev pub method_of : Control → Method
method_of all_up = Method.up
method_of all_down = Method.down
method_of all_term = Method.term
method_of all_kill = Method.kill

-- Success of `execute` has no status: the zero one stands for it, and is not stored.
abbrev pub by_error : Option Error → Outcome
by_error (some e) = failed e
by_error none = fine zero_status

abbrev pub by_status : Result Status → Option Outcome
by_status (ok s) = some (fine s)
by_status (err e) = some (failed e)
by_status panic = none

-- Behind `NewClientRunit`; `none` is a panic.
abbrev pub with_client : (Client → Option Outcome) → Result Client → Option Outcome
with_client op (ok c) = op c
with_client op (err e) = some (unopened e)
with_client op panic = none

unfoldable pub execute_outcome : Control → Site → Option Outcome
execute_outcome m x =
    with_client (λ c. some (by_error (runit_call c (method_of m) x.rounds).error))
      (new_client_runit x.directory)

unfoldable pub status_outcome : Site → Option Outcome
status_outcome x =
    with_client (λ c. by_status (status_runit c x.now x.status_file)) (new_client_runit x.directory)

-- An outcome is that of the client, unless the context ended before the goroutine had a slot.
abbrev pub IsCalled : Option Outcome → Phase → Type 0
IsCalled r (Phase.stopped (cancelled e)) = Unit
IsCalled r (Phase.stopped o) = r ≡ some o
IsCalled r _ = Unit

-- Each goroutine has a site of its own.
abbrev pub AllCalled : (Site → Option Outcome) → List Site → List Task → Type 0
AllCalled run [] [] = Unit
AllCalled run (x ∷ xs) (goroutine svc p ∷ ts) = IsCalled (run x) p × AllCalled run xs ts
AllCalled run _ _ = ⊥
