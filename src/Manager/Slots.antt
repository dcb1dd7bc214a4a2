-- ===== src/Manager/Slots.antt =====
-- The semaphore: which goroutines hold a slot, and that some goroutine can always act.
use go_runit.Common.{ℕ, ◌+◌, ◌≤◌, ◌<◌, ◌≡◌, ◌⊎◌, inl, inr, refl, List, [], ◌∷◌, arith}
use go_runit.Common.Int.{pos_part}
use go_runit.Errors.{FilePath}
use go_runit.Status.{zero_status}
use go_runit.Manager.{
  ManagerOption, new_manager, at_least_one, Kind, Phase, start, holding, leaving, stopped, Task,
  goroutine, Shared, tell, Act, acquire, abandon, refuse, fail, finish, release, Move, first, later,
  move, expire, Reach, here, next, launch, AllStopped,
}

-- A goroutine holds a slot from the select to the deferred receive.
abbrev pub holds : Phase → ℕ
holds start = 0
holds holding = 1
holds (leaving o) = 1
holds (stopped o) = 0

abbrev pub holders : List Task → ℕ
holders [] = 0
holders (goroutine svc p ∷ ts) = holds p + holders ts

abbrev HasSlots : ℕ → List Task → Shared → Type 0
HasSlots cap ts s = (s.slots ≡ holders ts) × (s.slots ≤ cap)

Act-slots :
    {k : Kind} {cap : ℕ} {svc : FilePath} {p q : Phase} {s u : Shared} (n : ℕ)
    → Act k cap svc p s q u
    → s.slots ≡ holds p + n
    → s.slots ≤ cap
    → (u.slots ≡ holds q + n) × (u.slots ≤ cap)
unfolding tell
Act-slots n (acquire h) e b = omega (arith, e)
Act-slots n (abandon r h) e b = (e, b)
Act-slots n (refuse r) e b = (e, b)
Act-slots n (fail r) e b = (e, b)
Act-slots n (finish r) e b = (e, b)
Act-slots n release e b = omega (arith, e)

Move-slots :
    {k : Kind} {cap : ℕ} {ts us : List Task} {s u : Shared} (n : ℕ)
    → Move k cap ts s us u
    → s.slots ≡ holders ts + n
    → s.slots ≤ cap
    → (u.slots ≡ holders us + n) × (u.slots ≤ cap)
Move-slots n (first {ts = ts} a) e b =
    let r = Act-slots (holders ts + n) a (omega arith) b in (omega (arith, r.0), r.1)
Move-slots n (later {t = goroutine svc p} m) e b =
    let r = Move-slots (holds p + n) m (omega arith) b in (omega (arith, r.0), r.1)

holders-launch : (services : List FilePath) → holders (launch services) ≡ 0
holders-launch [] = refl
holders-launch (svc ∷ services) = omega (arith, holders-launch services)

-- However the goroutines are interleaved, the semaphore counts those that hold a slot, and they are
-- never more than it has.
pub holders-bounded :
    {k : Kind} {cap : ℕ} {services : List FilePath} {n : ℕ} {ts : List Task} {s : Shared}
    → Reach k cap services n ts s
    → (s.slots ≡ holders ts) × (holders ts ≤ cap)
holders-bounded {services = services} here =
    (omega (arith, holders-launch services), omega (arith, holders-launch services))
holders-bounded (next r (move m)) =
    let h = holders-bounded r in
    let g = Move-slots 0 m (omega (arith, h.0)) (omega (arith, h.0, h.1)) in
    (omega (arith, g.0), omega (arith, g.0, g.1))
holders-bounded (next r (expire e h)) = holders-bounded r

-- Some goroutine of the list can act.
abbrev pub CanMove : Kind → ℕ → List Task → Shared → Type 0
CanMove k cap ts s = (us : List Task) × (u : Shared) × Move k cap ts s us u

holder-moves :
    (k : Kind) (cap : ℕ) (ts : List Task) (s : Shared) → 0 < holders ts → CanMove k cap ts s
holder-moves k cap [] s h = absurd (omega arith)
holder-moves k cap (goroutine svc holding ∷ ts) s h = (_, _, first (finish zero_status))
holder-moves k cap (goroutine svc (leaving o) ∷ ts) s h = (_, _, first release)
holder-moves k cap (goroutine svc start ∷ ts) s h =
    let r = holder-moves k cap ts s (omega arith) in (_, _, later r.2)
holder-moves k cap (goroutine svc (stopped o) ∷ ts) s h =
    let r = holder-moves k cap ts s (omega arith) in (_, _, later r.2)

free-moves :
    (k : Kind) (cap : ℕ) (ts : List Task) (s : Shared)
    → s.slots < cap
    → AllStopped ts ⊎ CanMove k cap ts s
free-moves k cap [] s h = inl tt
free-moves k cap (goroutine svc start ∷ ts) s h = inr (_, _, first (acquire h))
free-moves k cap (goroutine svc holding ∷ ts) s h = inr (_, _, first (finish zero_status))
free-moves k cap (goroutine svc (leaving o) ∷ ts) s h = inr (_, _, first release)
free-moves k cap (goroutine svc (stopped o) ∷ ts) s h = elim (free-moves k cap ts s h) [
  | inl a ↦ inl (refl, a)
  | inr m ↦ inr (_, _, later m.2)
]

new_manager_positive : (opts : List ManagerOption) → 0 < pos_part (new_manager opts).concurrency
unfolding new_manager at_least_one
new_manager_positive opts = ground arith

zero_or_pos : (n : ℕ) → (n ≡ 0) ⊎ (0 < n)
zero_or_pos n = omega arith

pub goroutines_progress :
    (opts : List ManagerOption) (k : Kind) (services : List FilePath) {n : ℕ} {ts : List Task}
    {s : Shared}
    → Reach k (pos_part (new_manager opts).concurrency) services n ts s
    → AllStopped ts ⊎ CanMove k (pos_part (new_manager opts).concurrency) ts s
goroutines_progress opts k services {ts = ts} {s = s} r = elim (zero_or_pos (holders ts)) [
  | inl z ↦ free-moves k _ ts s (omega (arith, (holders-bounded r).0, new_manager_positive opts))
  | inr p ↦ inr (holder-moves k _ ts s p)
]
