-- ===== src/Watch/Changes.antt =====
-- Which events a watch sends: the changes of the status file, each one once.
use go_runit.Status.Decode.Total.{decode_status_s6-current}
use go_runit.Status.Decode.{decode_status_s6, s6_current_status}
use go_runit.Service.{ServiceType}
use go_runit.Watch.Log.{AllChanges, final}
use go_runit.Watch.{
  watch_start, get_status_file_size, WatchEvent, reported, watch_error, WatchState, window, differ,
  is_changed, spin, Reading, compare_and_send, read_and_send, Input, notified, watcher_error, fired,
  on_input, watch_from, Watched,
}
use go_runit.Common.{
  ℕ, suc, ◌≡◌, ◌≢◌, ◌⊎◌, ◌↔◌, ◌∙◌, sym, ap, inl, inr, refl, true, false, List, [], ◌∷◌, ◌++◌,
  length, replicate, Bool-cases, length-replicate, arith, take,
}
use go_runit.Errors.{Error, ok}
use go_runit.Wire.{Bytes, copy}
use go_runit.Status.{Status}

differ_iff : (xs ys : Bytes) → (differ xs ys ≡ false) ↔ (xs ≡ ys)
differ_iff [] [] = (λ _. refl, λ _. refl)
differ_iff [] (y ∷ ys) = (λ e. cc, λ e. cc)
differ_iff (x ∷ xs) [] = (λ e. cc, λ e. cc)
differ_iff (x ∷ xs) (y ∷ ys) = grind (arith, differ_iff xs ys)

pub is_changed_iff : (xs ys : Bytes) → (is_changed xs ys ≡ false) ↔ (xs ≡ ys)
unfolding is_changed
is_changed_iff xs ys = grind (arith, differ_iff xs ys)

length-copy : (xs ys : Bytes) → length (copy xs ys) ≡ length xs
unfolding copy
length-copy [] ys = refl
length-copy (x ∷ xs) [] = refl
length-copy (x ∷ xs) (y ∷ ys) = ap suc (length-copy xs ys)

pub length-window : (n : ℕ) (s : Status) → length (window n s) ≡ n
length-window n s = length-copy (replicate n 0) s.raw ∙ length-replicate n 0

-- The windows of the statuses among the events.
abbrev pub windows : ℕ → List WatchEvent → List Bytes
windows n [] = []
windows n (reported s ∷ es) = window n s ∷ windows n es
windows n (watch_error e ∷ es) = windows n es

windows-append :
    (n : ℕ) (xs ys : List WatchEvent) → windows n (xs ++ ys) ≡ windows n xs ++ windows n ys
windows-append n [] ys = refl
windows-append n (reported s ∷ xs) ys = ap (λ l. window n s ∷ l) (windows-append n xs ys)
windows-append n (watch_error e ∷ xs) ys = windows-append n xs ys

-- The window of the last successful reading.
abbrev seen_status : ℕ → (Error ⊎ Status) → Bytes → Bytes
seen_status n (inl e) last = last
seen_status n (inr s) last = window n s

abbrev seen : ℕ → Input → Bytes → Bytes
seen n (fired r) last = seen_status n r.status last
seen n i last = last

abbrev pub last_seen : ℕ → List Input → Bytes → Bytes
last_seen n [] last = last
last_seen n (i ∷ is) last = last_seen n is (seen n i last)

-- The watch is not being stopped.
abbrev pub IsLive : Input → Type 0
IsLive (fired r) = (r.stopping ≡ false) × (r.sends ≡ true)
IsLive i = Unit

abbrev pub AllLive : List Input → Type 0
AllLive [] = Unit
AllLive (i ∷ is) = IsLive i × AllLive is

abbrev Reports : ℕ → Bytes → Bytes → Watched → Type 0
Reports n last next w =
    (w.state.last_raw ≡ next)
    × (((windows n w.events ≡ []) × (next ≡ last))
        ⊎ ((windows n w.events ≡ next ∷ []) × (next ≢ last)))

pub spin-last_raw : (now : ℕ) (s : WatchState) → (spin now s).last_raw ≡ s.last_raw
unfolding spin
spin-last_raw now s = ground arith

compare_and_send-Reports :
    (r : Reading) (st : Status) (s : WatchState)
    → r.sends ≡ true
    → Reports
        (length s.last_raw)
        s.last_raw
        (window (length s.last_raw) st)
        (compare_and_send r st s)
unfolding compare_and_send
compare_and_send-Reports r st s live =
    let c_iff = is_changed_iff (window (length s.last_raw) st) s.last_raw in
    elim (Bool-cases (is_changed (window (length s.last_raw) st) s.last_raw)) [
      | inl c ↦ rw (c, live) (refl, inr (refl, λ q. absurd (grind (arith, c_iff.1 q))))
      | inr c ↦ rw c (spin-last_raw r.now s ∙ sym (c_iff.0 c), inl (refl, c_iff.0 c))
    ]

pub result-cases :
    (x : Error ⊎ Status) → ((e : Error) × (x ≡ inl e)) ⊎ ((st : Status) × (x ≡ inr st))
result-cases (inl e) = inl (e, refl)
result-cases (inr st) = inr (st, refl)

read_and_send-Reports :
    (r : Reading) (s : WatchState)
    → r.stopping ≡ false
    → r.sends ≡ true
    → Reports
        (length s.last_raw)
        s.last_raw
        (seen_status (length s.last_raw) r.status s.last_raw)
        (read_and_send r s)
unfolding read_and_send
read_and_send-Reports r s h live = elim (result-cases r.status) [
  | inl (e, q) ↦ rw (h, q, live) (refl, inl (refl, refl))
  | inr (st, q) ↦ rw (h, q) (compare_and_send-Reports r st s live)
]

on_input-Reports :
    (i : Input) (s : WatchState)
    → IsLive i
    → Reports (length s.last_raw) s.last_raw (seen (length s.last_raw) i s.last_raw) (on_input i s)
unfolding on_input
on_input-Reports (notified base) s h = ground arith
on_input-Reports (watcher_error e true) s h = (refl, inl (refl, refl))
on_input-Reports (watcher_error e false) s h = (refl, inl (refl, refl))
on_input-Reports (fired r) s h = read_and_send-Reports r s h.0 h.1

length-seen : (n : ℕ) (i : Input) (last : Bytes) → length last ≡ n → length (seen n i last) ≡ n
length-seen n (notified base) last h = h
length-seen n (watcher_error e sends) last h = h
length-seen n (fired r) last h = elim (result-cases r.status) [
  | inl (e, q) ↦ rw q h
  | inr (st, q) ↦ rw q (length-window n st)
]

-- What the events of a watch say of its inputs, from a last window on.
pub record IsFaithful (n : ℕ) (last : Bytes) (is : List Input) (w : Watched) : Type 0 where
  pub changes : AllChanges last (windows n w.events)
  pub current : final last (windows n w.events) ≡ last_seen n is last
  pub kept : w.state.last_raw ≡ last_seen n is last

IsFaithful-step :
    (n : ℕ) (last next : Bytes) (is : List Input) (w rest : Watched)
    → Reports n last next w
    → IsFaithful n next is rest
    → AllChanges last (windows n (w.events ++ rest.events))
      × (final last (windows n (w.events ++ rest.events)) ≡ last_seen n is next)
IsFaithful-step n last next is w rest r f = elim r.1 [
  | inl (e, q) ↦
      rw (windows-append n w.events rest.events, e) (rw q at f.changes, rw (← q) f.current)
  | inr (e, q) ↦ rw (windows-append n w.events rest.events, e) ((q, f.changes), f.current)
]

watch_from-IsFaithful :
    (n : ℕ) (is : List Input) (s : WatchState)
    → length s.last_raw ≡ n
    → AllLive is
    → IsFaithful n s.last_raw is (watch_from is s)
unfolding watch_from
watch_from-IsFaithful n [] s e h = record { changes = tt; current = refl; kept = refl }
watch_from-IsFaithful n (i ∷ is) s e h =
    let r : Reports n s.last_raw (seen n i s.last_raw) (on_input i s) =
      rw e at (on_input-Reports i s h.0) in
    let k : length (on_input i s).state.last_raw ≡ n = rw (r.0) (length-seen n i s.last_raw e) in
    let f : IsFaithful n (seen n i s.last_raw) is (watch_from is (on_input i s).state) =
      rw (r.0) at (watch_from-IsFaithful n is (on_input i s).state k h.1) in
    let g = IsFaithful-step n s.last_raw (seen n i s.last_raw) is (on_input i s) _ r f in
    record { changes = g.0; current = g.1; kept = f.kept }

-- While a watch is not being stopped, whatever it is notified of and whatever it reads: of the statuses
-- that it sends, each differs from the one before it in the bytes that it compares, and the first one
-- from all zeros; the last one sent has the bytes of the last successful reading.
pub watch_reports :
    (t : ServiceType) (is : List Input)
    → AllLive is
    → IsFaithful
        (get_status_file_size t)
        (replicate (get_status_file_size t) 0)
        is
        (watch_from is (watch_start (get_status_file_size t)))
watch_reports t is h =
    watch_from-IsFaithful (get_status_file_size t) is (watch_start (get_status_file_size t))
      (length-replicate (get_status_file_size t) 0) h

-- Two s6 files of 43 bytes with the same first 20 bytes are both decoded, and are the same to a watch:
-- it compares no byte of the PID, of the exit status or of the flags.
pub s6_unseen :
    (now now' : ℕ) (d d' : Bytes)
    → length d ≡ 43
    → length d' ≡ 43
    → take 20 d ≡ take 20 d'
    → (s : Status) × (s' : Status) × (decode_status_s6 now d ≡ ok s)
      × (decode_status_s6 now' d' ≡ ok s')
      × ((n : ℕ) → is_changed (window n s) (window n s') ≡ false)
unfolding s6_current_status
s6_unseen now now' d d' h h' e = (
  _,
  _,
  decode_status_s6-current now d h,
  decode_status_s6-current now' d' h',
  λ n. (is_changed_iff _ _).1 (ap (λ p. copy (replicate n 0) (copy (replicate 20 0) p)) e),
)
