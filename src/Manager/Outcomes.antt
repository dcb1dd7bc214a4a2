-- ===== src/Manager/Outcomes.antt =====
-- What the goroutines leave: the errors and the writes to the map, against their outcomes.
use mathlib.Core.List.{Perm, append_assoc, append-nil, perm_append_comm}
use mathlib.Core.List.Perm
use go_runit.Common.{ℕ, ◌≡◌, refl, sym, ap, ◌∙◌, Option, none, some, List, [], ◌∷◌, ◌++◌, map}
use go_runit.Errors.{FilePath, Error, MultiError, add}
use go_runit.Errors.Collect.{present}
use go_runit.Manager.{
  Kind, Outcome, error_of, stored, Phase, start, holding, leaving, stopped, Task, goroutine, Shared,
  tell, Act, acquire, abandon, refuse, fail, finish, release, Move, first, later, move, expire,
  Reach, here, next, launch, fresh,
}

swap_front {ℓ} : {A : Type ℓ} (p a x : List A) → Perm (p ++ (a ++ x)) (a ++ (p ++ x))
swap_front p a x =
    rw (← append_assoc p a x, ← append_assoc a p x) (Perm.append_right x (perm_append_comm p a))

-- What the goroutines have told, by a function of service and outcome, and where it is logged.
module _ {ℓ} {A : Type ℓ} (of : FilePath → Outcome → List A) where
  abbrev pub told : FilePath → Phase → List A
  told svc start = []
  told svc holding = []
  told svc (leaving o) = of svc o
  told svc (stopped o) = of svc o

  abbrev pub all_told : List Task → List A
  all_told [] = []
  all_told (goroutine svc p ∷ ts) = told svc p ++ all_told ts

  all_told-launch : (services : List FilePath) → all_told (launch services) ≡ []
  all_told-launch [] = refl
  all_told-launch (svc ∷ services) = all_told-launch services

-- A log that only `tell` writes.
record IsLog {ℓ} {A : Type ℓ} (k : Kind) (of : FilePath → Outcome → List A) (log : Shared → List A)
    : Type ℓ where
  log_fresh : log fresh ≡ []
  log_tell : (svc : FilePath) (o : Outcome) (s : Shared) → log (tell k svc o s) ≡ log s ++ of svc o
  log_slots : (s : Shared) (n : ℕ) → log (record s { slots = n }) ≡ log s
  log_ctx : (s : Shared) (e : Option Error) → log (record s { ctx_error = e }) ≡ log s

module _ {ℓ} {A : Type ℓ} {k : Kind} {of : FilePath → Outcome → List A} {log : Shared → List A}
    (is_log : IsLog k of log) where
  Act-told :
      {cap : ℕ} {svc : FilePath} {p q : Phase} {s u : Shared}
      → Act k cap svc p s q u
      → (a : List A) × (told of svc q ≡ told of svc p ++ a) × (log u ≡ log s ++ a)
  Act-told (acquire {s = s} h) = ([], refl, is_log.log_slots s _ ∙ sym (append-nil (log s)))
  Act-told (abandon {s = s} e h) = (_, refl, is_log.log_tell _ _ s)
  Act-told (refuse {s = s} e) = (_, refl, is_log.log_tell _ _ s)
  Act-told (fail {s = s} e) = (_, refl, is_log.log_tell _ _ s)
  Act-told (finish {s = s} st) = (_, refl, is_log.log_tell _ _ s)
  Act-told {svc = svc} (release {s = s} {o = o}) =
      ([], sym (append-nil (of svc o)), is_log.log_slots s _ ∙ sym (append-nil (log s)))

  Move-told :
      {cap : ℕ} {ts us : List Task} {s u : Shared}
      → Move k cap ts s us u
      → (a : List A) × Perm (a ++ all_told of ts) (all_told of us) × (log u ≡ log s ++ a)
  Move-told (first {svc} {p} {q} {ts = ts} act) =
      let r = Act-told act in
      (
        r.0,
        rw (r.1, append_assoc (told of svc p) r.0 (all_told of ts))
            (swap_front r.0 (told of svc p) (all_told of ts)),
        r.2,
      )
  Move-told (later {t = goroutine svc p} {ts = ts} m) =
      let r = Move-told m in
      (
        r.0,
        Perm.trans (swap_front r.0 (told of svc p) (all_told of ts))
            (Perm.append_left (told of svc p) r.1),
        r.2,
      )

  Reach-told :
      {cap : ℕ} {services : List FilePath} {n : ℕ} {ts : List Task} {s : Shared}
      → Reach k cap services n ts s
      → Perm (log s) (all_told of ts)
  Reach-told {services = services} here =
      rw (is_log.log_fresh, all_told-launch of services) Perm.nil
  Reach-told (next {s = s} r (move m)) =
      let g = Move-told m in
      rw (g.2) (
        Perm.trans (perm_append_comm (log s) g.0)
          (Perm.trans (Perm.append_left g.0 (Reach-told r)) g.1))
  Reach-told (next {s = s} r (expire e h)) = rw (is_log.log_ctx s (some e)) (Reach-told r)

abbrev pub errors_of : Kind → FilePath → Outcome → List Error
errors_of k svc o = present (error_of k svc o ∷ [])

add-errors : (m : MultiError) (e : Option Error) → (add m e).errors ≡ m.errors ++ present (e ∷ [])
unfolding add
add-errors m none = sym (append-nil m.errors)
add-errors m (some e) = refl

errors-IsLog : (k : Kind) → IsLog k (errors_of k) (λ s. s.merr.errors)
unfolding tell
errors-IsLog k = record {
  log_fresh = refl;
  log_tell = λ svc o s. add-errors s.merr (error_of k svc o);
  log_slots = λ s n. refl;
  log_ctx = λ s e. refl;
}

results-IsLog : (k : Kind) → IsLog k (stored k) (λ s. s.results)
unfolding tell
results-IsLog k = record {
  log_fresh = refl;
  log_tell = λ svc o s. refl;
  log_slots = λ s n. refl;
  log_ctx = λ s e. refl;
}

abbrev pub service_of : Task → FilePath
service_of (goroutine svc p) = svc

Move-services :
    {k : Kind} {cap : ℕ} {ts us : List Task} {s u : Shared}
    → Move k cap ts s us u
    → map service_of us ≡ map service_of ts
Move-services (first a) = refl
Move-services (later {t = t} m) = ap (λ l. service_of t ∷ l) (Move-services m)

Reach-services :
    {k : Kind} {cap : ℕ} {services : List FilePath} {n : ℕ} {ts : List Task} {s : Shared}
    → Reach k cap services n ts s
    → map service_of ts ≡ services
Reach-services {services = []} here = refl
Reach-services {services = svc ∷ services} here =
    ap (λ l. svc ∷ l) (Reach-services {k = Kind.reading} {cap = 0} here)
Reach-services (next r (move m)) = Move-services m ∙ Reach-services r
Reach-services (next r (expire e h)) = Reach-services r

-- However the goroutines are interleaved: there is one for each service, in the order given; the errors
-- collected are, up to their order, those of the outcomes told so far, and the writes to the map are,
-- up to their order, the statuses told so far. None is lost and none is doubled.
pub outcomes_collected :
    {k : Kind} {cap : ℕ} {services : List FilePath} {n : ℕ} {ts : List Task} {s : Shared}
    → Reach k cap services n ts s
    → (map service_of ts ≡ services)
      × Perm s.merr.errors (all_told (errors_of k) ts)
      × Perm s.results (all_told (stored k) ts)
outcomes_collected {k} r =
    (Reach-services r, Reach-told (errors-IsLog k) r, Reach-told (results-IsLog k) r)
