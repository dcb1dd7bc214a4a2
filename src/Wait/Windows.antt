-- ===== src/Wait/Windows.antt =====
-- The bytes of a status that a watch compares, and its state, for the clients of runit and daemontools.
use go_runit.Client.Methods.{Family, runit_family, daemontools_family, s6_family}
use go_runit.Client.Refuse.{type_of}
use go_runit.Status.Decode.Total.{
  decode_status_daemontools-ok, daemontools_record, decode_status_runit-ok, runit_record,
}
use go_runit.Client.Read.{
  status_s6, status_daemontools, ReadFull, wrap_status, read_full, exact_read, status_runit,
  StatusFile,
}
use go_runit.Watch.{get_status_file_size, window}
use go_runit.Status.Decode.{
  decode_status_daemontools, daemontools_status, runit_status, decode_status_runit,
}
use go_runit.Status.{State, Status}
use mathlib.Core.List.{append-nil}
use go_runit.Common.{
  ==_iff, Option-cases, ap, ℕ, ◌≡◌, inl, inr, refl, [], ◌∷◌, ◌++◌, arith, replicate, length,
}
use go_runit.Service.{ServiceType}
use go_runit.Wire.{copy, Bytes}
use go_runit.Errors.{Result, err, panic, ok}
use native.Mathlib.Decide.{ℕ_discrete}
use go_runit.Client.{Client}

-- A result of the method `Status` of the client that is a status.
abbrev pub IsStatus : Family → Client → Status → Type 0
IsStatus runit_family c s = (now : ℕ) × (f : StatusFile) × (status_runit c now f ≡ ok s)
IsStatus daemontools_family c s = (now : ℕ) × (f : StatusFile) × (status_daemontools c now f ≡ ok s)
IsStatus s6_family c s = (now : ℕ) × (f : StatusFile) × (status_s6 c now f ≡ ok s)

-- The clients whose watch compares the whole file.
abbrev pub IsCompared : Family → Type 0
IsCompared runit_family = Unit
IsCompared daemontools_family = Unit
IsCompared s6_family = ⊥

-- The state that such a file gives.
abbrev pub state_of : Family → Bytes → State
state_of daemontools_family d = (daemontools_record 0 d).state
state_of _ d = (runit_record 0 d).state

abbrev pub size_of : Family → ℕ
size_of f = get_status_file_size (type_of f)

runit-decoded :
    (now : ℕ) (d : Bytes) (s : Status)
    → decode_status_runit now d ≡ ok s
    → (length d ≡ 20) × (s ≡ runit_record now d)
unfolding decode_status_runit
runit-decoded now d s h = elim (ℕ_discrete (length d) 20) [
  | yes e ↦ let q = decode_status_runit-ok now d e in (e, cc)
  | no e ↦ absurd (ground (arith, h, e, ==_iff (length d) 20))
]

daemontools-decoded :
    (now : ℕ) (d : Bytes) (s : Status)
    → decode_status_daemontools now d ≡ ok s
    → (length d ≡ 18) × (s ≡ daemontools_record now d)
unfolding decode_status_daemontools
daemontools-decoded now d s h = elim (ℕ_discrete (length d) 18) [
  | yes e ↦ let q = decode_status_daemontools-ok now d e in (e, cc)
  | no e ↦ absurd (ground (arith, h, e, ==_iff (length d) 18))
]

wrap_status-ok : (c : Client) (r : Result Status) (s : Status) → wrap_status c r ≡ ok s → r ≡ ok s
wrap_status-ok c (ok x) s h = cc
wrap_status-ok c (err e) s h = absurd cc
wrap_status-ok c panic s h = absurd cc

exact_read-ok :
    (t : ServiceType) (size : ℕ) (decode : Bytes → Result Status) (r : ReadFull) (s : Status)
    → exact_read t size decode r ≡ ok s
    → decode r.buf ≡ ok s
unfolding exact_read
exact_read-ok t size decode r s h = ground arith

status_runit-decodes :
    (c : Client) (now : ℕ) (f : StatusFile) (s : Status)
    → status_runit c now f ≡ ok s
    → (d : Bytes) × (decode_status_runit now d ≡ ok s)
unfolding status_runit read_full
status_runit-decodes c now f s h = elim (Option-cases f.open_error) [
  | inl q ↦ (
    _,
    exact_read-ok ServiceType.runit 20 (decode_status_runit now) (read_full 20 f) s
        (wrap_status-ok c _ s (rw q at h)),
  )
  | inr (e, q) ↦ absurd (ground (arith, rw q at h))
]

status_daemontools-decodes :
    (c : Client) (now : ℕ) (f : StatusFile) (s : Status)
    → status_daemontools c now f ≡ ok s
    → (d : Bytes) × (decode_status_daemontools now d ≡ ok s)
unfolding status_daemontools read_full
status_daemontools-decodes c now f s h = elim (Option-cases f.open_error) [
  | inl q ↦ (
    _,
    exact_read-ok ServiceType.daemontools 18 (decode_status_daemontools now) (read_full 18 f) s
        (wrap_status-ok c _ s (rw q at h)),
  )
  | inr (e, q) ↦ absurd (ground (arith, rw q at h))
]

copy-all : (xs ys zs : Bytes) → length ys ≡ length xs → copy xs (ys ++ zs) ≡ ys
unfolding copy
copy-all [] [] zs h = refl
copy-all [] (y ∷ ys) zs h = absurd (omega (arith, h))
copy-all (x ∷ xs) [] zs h = absurd (omega (arith, h))
copy-all (x ∷ xs) (y ∷ ys) zs h = ap (λ l. y ∷ l) (copy-all xs ys zs (omega (arith, h)))

copy-same : (xs ys : Bytes) → length ys ≡ length xs → copy xs ys ≡ ys
copy-same xs ys h = rw (append-nil ys) at (copy-all xs ys [] h)

window-runit_record : (now : ℕ) (d : Bytes) → length d ≡ 20 → window 20 (runit_record now d) ≡ d
unfolding runit_status
window-runit_record now d h =
    let inner : copy (replicate 20 0) d ≡ d = copy-same (replicate 20 0) d h in rw inner inner

window-daemontools_record :
    (now : ℕ) (d : Bytes) → length d ≡ 18 → window 18 (daemontools_record now d) ≡ d
unfolding daemontools_status
window-daemontools_record now d h =
    let inner : copy (replicate 18 0) d ≡ d = copy-same (replicate 18 0) d h in
    rw inner (copy-all (replicate 18 0) d (0 ∷ 0 ∷ []) h)

state-runit_record : (now : ℕ) (d : Bytes) → (runit_record now d).state ≡ state_of runit_family d
unfolding runit_status
state-runit_record now d = refl

state-daemontools_record :
    (now : ℕ) (d : Bytes) → (daemontools_record now d).state ≡ state_of daemontools_family d
unfolding daemontools_status
state-daemontools_record now d = refl

-- The window of a status decides its state.
pub state-window :
    (f : Family) (c : Client) (s : Status)
    → IsCompared f
    → IsStatus f c s
    → s.state ≡ state_of f (window (size_of f) s)
state-window runit_family c s k (now, f, h) =
    let (d, q) = status_runit-decodes c now f s h in
    let (n, e) = runit-decoded now d s q in
    rw (e, window-runit_record now d n) (state-runit_record now d)
state-window daemontools_family c s k (now, f, h) =
    let (d, q) = status_daemontools-decodes c now f s h in
    let (n, e) = daemontools-decoded now d s q in
    rw (e, window-daemontools_record now d n) (state-daemontools_record now d)
state-window s6_family c s k h = absurd k
