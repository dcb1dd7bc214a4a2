-- ===== src/Manager/Readings.antt =====
-- `Status` of a manager, down to the status files of its services.
use go_runit.Manager.Outcomes.{service_of, all_told, outcomes_collected}
use go_runit.Client.Read.{status_runit}
use go_runit.Client.Make.{new_client_runit}
use go_runit.Errors.Collect.{Result-cases}
use go_runit.Manager.Delivery.{AllSucceed, succeed-AllFine, Reach-NoneCancelled}
use go_runit.Client.{Client}
use go_runit.Manager.Ends.{execute_nil_iff, AllFine}
use go_runit.Manager.{
  Status, AllStopped, stored, goroutine, stopped, start, holding, leaving, cancelled, unopened,
  failed, fine, reading, Task, Shared, Reach,
}
use go_runit.Errors.{Result, FilePath, ok, err, panic, err_of}
use go_runit.Manager.Calls.{AllCalled, Site, status_outcome, by_status}
use mathlib.Core.List.{Perm}
use go_runit.Common.{ℕ, ◌≡◌, inl, inr, refl, ap, none, some, List, [], ◌∷◌, map, arith}

-- The client of a site can be made, and decodes this status.
abbrev pub IsRead : Site → Status → Type 0
IsRead x st =
    (c : Client) × (new_client_runit x.directory ≡ ok c)
    × (status_runit c x.now x.status_file ≡ ok st)

abbrev pub AllRead : List Site → List Status → Type 0
AllRead [] [] = Unit
AllRead (x ∷ xs) (st ∷ sts) = IsRead x st × AllRead xs sts
AllRead _ _ = ⊥

abbrev pub zip : List FilePath → List Status → List (FilePath × Status)
zip (svc ∷ services) (st ∷ sts) = (svc, st) ∷ zip services sts
zip _ _ = []

by_status-fine : (r : Result Status) (st : Status) → by_status r ≡ some (fine st) → r ≡ ok st
by_status-fine (ok x) st h = cc
by_status-fine (err e) st h = absurd cc
by_status-fine panic st h = absurd cc

fine-IsRead : (x : Site) (st : Status) → status_outcome x ≡ some (fine st) → IsRead x st
unfolding status_outcome
fine-IsRead x st h = elim (Result-cases (new_client_runit x.directory)) [
  | inl (c, q) ↦ (c, q, by_status-fine _ st (rw q at h))
  | inr (inl (e, q)) ↦ absurd (ground (arith, rw q at h))
  | inr (inr q) ↦ absurd (ground (arith, rw q at h))
]

read_fine : (x : Site) (st : Status) → IsRead x st → status_outcome x ≡ some (fine st)
unfolding status_outcome
read_fine x st (c, q, g) = rw (q, g) refl

read_succeed : (xs : List Site) (sts : List Status) → AllRead xs sts → AllSucceed status_outcome xs
read_succeed [] [] a = tt
read_succeed (x ∷ xs) (st ∷ sts) (a, bs) = ((st, read_fine x st a), read_succeed xs sts bs)
read_succeed [] (st ∷ sts) a = absurd a
read_succeed (x ∷ xs) [] a = absurd a

-- What the goroutines that all end with success have stored.
AreRead : List Site → List Task → Type 0
AreRead xs ts =
    (sts : List Status) × AllRead xs sts
    × (all_told (stored reading) ts ≡ zip (map service_of ts) sts)

fine-AreRead :
    (xs : List Site) (ts : List Task) → AllCalled status_outcome xs ts → AllFine ts → AreRead xs ts
unfolding AreRead
fine-AreRead [] [] c f = ([], tt, refl)
fine-AreRead (x ∷ xs) (goroutine svc (stopped (fine st)) ∷ ts) (c, cs) (f, fs) =
    let r = fine-AreRead xs ts cs fs in
    (st ∷ r.0, (fine-IsRead x st c, r.1), ap (λ l. (svc, st) ∷ l) r.2)
fine-AreRead (x ∷ xs) (goroutine svc (stopped (cancelled e)) ∷ ts) c f = absurd cc
fine-AreRead (x ∷ xs) (goroutine svc (stopped (unopened e)) ∷ ts) c f = absurd cc
fine-AreRead (x ∷ xs) (goroutine svc (stopped (failed e)) ∷ ts) c f = absurd cc
fine-AreRead (x ∷ xs) (goroutine svc start ∷ ts) c f = absurd cc
fine-AreRead (x ∷ xs) (goroutine svc holding ∷ ts) c f = absurd cc
fine-AreRead (x ∷ xs) (goroutine svc (leaving o) ∷ ts) c f = absurd cc
fine-AreRead [] (t ∷ ts) c f = absurd c
fine-AreRead (x ∷ xs) [] c f = absurd c

-- `Status` of a manager, however the goroutines are interleaved. If its error is nil, every status file
-- could be read and decoded, and the writes to the map are, up to their order, one for each service
-- with the status that its file decodes to. If every status file can be read and decoded, and the
-- context has not ended, the error is nil.
pub manager_reads :
    (xs : List Site) {cap : ℕ} {services : List FilePath} {n : ℕ} {ts : List Task} {s : Shared}
    → Reach reading cap services n ts s
    → AllStopped ts
    → AllCalled status_outcome xs ts
    → (err_of s.merr ≡ none
        → (sts : List Status) × AllRead xs sts × Perm s.results (zip services sts))
      × (s.ctx_error ≡ none → (sts : List Status) → AllRead xs sts → err_of s.merr ≡ none)
unfolding AreRead
manager_reads xs {services = services} {ts = ts} r h c =
    let e = execute_nil_iff r h in
    let o = outcomes_collected r in
    (
      λ q.
          let (sts, a, t) = fine-AreRead xs ts c (e.0 q) in
          let z : zip (map service_of ts) sts ≡ zip services sts = ap (λ l. zip l sts) o.0 in
          (sts, a, rw (← z, ← t) (o.2)),
      λ q sts a. e.1 (
          succeed-AllFine status_outcome xs ts c h (Reach-NoneCancelled r q)
            (read_succeed xs sts a)),
    )
