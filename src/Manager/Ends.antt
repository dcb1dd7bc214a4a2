-- ===== src/Manager/Ends.antt =====
-- The end of `execute` and `Status`: how many steps there are, and when the error is nil.
use mathlib.Core.List.{Perm}
use mathlib.Core.List.Perm
use go_runit.Common.{
  ℕ, ◌+◌, ◌*◌, ◌≤◌, ◌<◌, ◌≡◌, ◌↔◌, refl, Bool, true, false, Option, none, some, List, [], ◌∷◌,
  length, arith, ◌⊎◌,
}
use go_runit.Errors.{FilePath, Error, err_of}
use go_runit.Errors.Collect.{err_of-eq-none}
use go_runit.Manager.{
  Kind, cancelled, unopened, failed, fine, Phase, start, holding, leaving, stopped, Task, goroutine,
  Shared, tell, Act, acquire, abandon, refuse, fail, finish, release, Move, first, later, move,
  expire, Reach, here, next, launch, AllStopped, ManagerOption, new_manager,
}
use go_runit.Common.Int.{pos_part}
use go_runit.Manager.Slots.{CanMove, goroutines_progress}
use go_runit.Manager.Outcomes.{all_told, errors_of, outcomes_collected}

-- The actions that a goroutine has before it.
abbrev todo : Phase → ℕ
todo start = 3
todo holding = 2
todo (leaving o) = 1
todo (stopped o) = 0

abbrev all_todo : List Task → ℕ
all_todo [] = 0
all_todo (goroutine svc p ∷ ts) = todo p + all_todo ts

-- The expiry that the context has before it.
abbrev to_expire : Option Error → ℕ
to_expire none = 1
to_expire (some e) = 0

Act-todo :
    {k : Kind} {cap : ℕ} {svc : FilePath} {p q : Phase} {s u : Shared}
    → Act k cap svc p s q u
    → (todo q < todo p) × (u.ctx_error ≡ s.ctx_error)
unfolding tell
Act-todo (acquire h) = (omega arith, refl)
Act-todo (abandon e h) = (omega arith, refl)
Act-todo (refuse e) = (omega arith, refl)
Act-todo (fail e) = (omega arith, refl)
Act-todo (finish st) = (omega arith, refl)
Act-todo release = (omega arith, refl)

pub Move-todo :
    {k : Kind} {cap : ℕ} {ts us : List Task} {s u : Shared}
    → Move k cap ts s us u
    → (all_todo us < all_todo ts) × (u.ctx_error ≡ s.ctx_error)
Move-todo (first a) = let r = Act-todo a in (omega (arith, r.0), r.1)
Move-todo (later {t = goroutine svc p} m) = let r = Move-todo m in (omega (arith, r.0), r.1)

all_todo-launch : (services : List FilePath) → all_todo (launch services) ≡ 3 * length services
all_todo-launch [] = refl
all_todo-launch (svc ∷ services) = omega (arith, all_todo-launch services)

Reach-todo :
    {k : Kind} {cap : ℕ} {services : List FilePath} {n : ℕ} {ts : List Task} {s : Shared}
    → Reach k cap services n ts s
    → n + all_todo ts + to_expire s.ctx_error ≤ 3 * length services + 1
Reach-todo {services = services} here = omega (arith, all_todo-launch services)
Reach-todo (next r (move m)) =
    let g = Move-todo m in let h = Reach-todo r in rw (g.1) (omega (arith, h, g.0))
Reach-todo (next r (expire e h)) = let g = rw h at (Reach-todo r) in omega (arith, g)

run_bounded :
    {k : Kind} {cap : ℕ} {services : List FilePath} {n : ℕ} {ts : List Task} {s : Shared}
    → Reach k cap services n ts s
    → n ≤ 3 * length services + 1
run_bounded r = omega (arith, Reach-todo r)

-- All goroutines ended with success.
abbrev pub is_fine : Task → Bool
is_fine (goroutine svc (stopped (fine s))) = true
is_fine t = false

abbrev pub AllFine : List Task → Type 0
AllFine [] = Unit
AllFine (t ∷ ts) = (is_fine t ≡ true) × AllFine ts

no_errors-AllFine :
    (k : Kind) (ts : List Task) → AllStopped ts → (all_told (errors_of k) ts ≡ []) ↔ AllFine ts
no_errors-AllFine k [] h = (λ _. tt, λ _. refl)
no_errors-AllFine k (goroutine svc (stopped (fine s)) ∷ ts) h =
    let r = no_errors-AllFine k ts h.1 in (λ e. (refl, r.0 e), λ a. r.1 a.1)
no_errors-AllFine k (goroutine svc (stopped (cancelled x)) ∷ ts) h = (λ e. cc, λ a. cc)
no_errors-AllFine k (goroutine svc (stopped (unopened x)) ∷ ts) h = (λ e. cc, λ a. cc)
no_errors-AllFine k (goroutine svc (stopped (failed x)) ∷ ts) h = (λ e. cc, λ a. cc)
no_errors-AllFine k (goroutine svc start ∷ ts) h = absurd cc
no_errors-AllFine k (goroutine svc holding ∷ ts) h = absurd cc
no_errors-AllFine k (goroutine svc (leaving o) ∷ ts) h = absurd cc

perm-eq-nil {ℓ} : {A : Type ℓ} {xs ys : List A} → Perm xs ys → (xs ≡ []) ↔ (ys ≡ [])
perm-eq-nil p = (λ e. Perm.eq-nil (rw e at (Perm.symm p)), λ e. Perm.eq-nil (rw e at p))

-- The goroutines of a manager that `NewManager` made, with any options, come to their end in whatever
-- order they act. No run has more steps than three for each service and one for the context, and as
-- long as one of them has not ended, one of them can act, where a call of a client counts as an action:
-- they never block one another.
pub goroutines_end :
    (opts : List ManagerOption) (k : Kind) (services : List FilePath) {n : ℕ} {ts : List Task}
    {s : Shared}
    → Reach k (pos_part (new_manager opts).concurrency) services n ts s
    → (n ≤ 3 * length services + 1)
      × (AllStopped ts ⊎ CanMove k (pos_part (new_manager opts).concurrency) ts s)
goroutines_end opts k services r = (run_bounded r, goroutines_progress opts k services r)

-- Once all goroutines have ended, in whatever order they acted, the error that `execute` and `Status`
-- return is nil exactly when every one of them ended with success.
pub execute_nil_iff :
    {k : Kind} {cap : ℕ} {services : List FilePath} {n : ℕ} {ts : List Task} {s : Shared}
    → Reach k cap services n ts s
    → AllStopped ts
    → (err_of s.merr ≡ none) ↔ AllFine ts
execute_nil_iff {k} {ts = ts} {s = s} r h =
    let e = err_of-eq-none s.merr in
    let p = perm-eq-nil (outcomes_collected r).1 in
    let f = no_errors-AllFine k ts h in (λ x. f.0 (p.0 (e.0 x)), λ a. e.1 (p.1 (f.1 a)))
