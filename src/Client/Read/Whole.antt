-- ===== src/Client/Read/Whole.antt =====
-- `Status` on every file: what it returns on a whole one, and that nothing else than an `OpError`
-- comes back on any other.
use go_runit.Common.{
  Option-cases, sym, ℕ, ◌-◌, ◌≤◌, ◌≡◌, ◌≢◌, ◌⊎◌, inl, inr, refl, ap, ◌∙◌, min, none, some, [], ◌∷◌,
  ◌++◌, length, take, drop, replicate, arith, append-nil, length-take, length-append,
}
use go_runit.Status.Decode.{decode_status_runit, decode_status_daemontools, decode_status_s6}
use go_runit.Service.{ServiceType}
use go_runit.Client.Read.{
  exact_read, s6_read, StatusFile, ReadFull, read_full, status_path, wrap_status, status_runit,
  status_daemontools, status_s6, s6_sized,
}
use go_runit.Operation.{op_status}
use go_runit.Errors.{Error, op_error, unexpected_eof, Result, ok, err, panic}
use go_runit.Wire.{Bytes, slice}
use go_runit.Wire.Values.{slice_lem}
use go_runit.Status.{Status}
use go_runit.Status.Decode.Total.{
  runit_record, daemontools_record, s6_pre220_record, s6_current_record, decode_status_runit-ok,
  decode_status_daemontools-ok, decode_status_s6-pre220, decode_status_s6-current, decoders_total,
}
use go_runit.Client.{Client}

-- A file with enough bytes fills the buffer.
full_read :
    (size : ℕ) (f : StatusFile)
    → size ≤ length f.bytes
    → ((read_full size f).n ≡ size)
      × ((read_full size f).error ≡ none)
      × ((read_full size f).buf ≡ take size f.bytes)
unfolding read_full
full_read size f h =
    let count : min size (length f.bytes) ≡ size = omega arith in
    let room : size - size ≡ 0 = omega arith in
    (
      count,
      ground arith,
      ap (λ k. take k f.bytes ++ replicate (size - k) 0) count
          ∙ ap (λ k. take size f.bytes ++ replicate k 0) room
          ∙ append-nil (take size f.bytes),
    )

size_taken : (size : ℕ) (s : Bytes) → size ≤ length s → length (take size s) ≡ size
size_taken size s h = omega (arith, length-take size s)

status_runit_whole :
    (c : Client) (now : ℕ) (f : StatusFile)
    → f.open_error ≡ none
    → 20 ≤ length f.bytes
    → status_runit c now f ≡ ok (runit_record now (take 20 f.bytes))
unfolding status_runit
status_runit_whole c now f o h = ground (
  arith,
  full_read 20 f h,
  decode_status_runit-ok now (take 20 f.bytes) (size_taken 20 f.bytes h),
)

status_daemontools_whole :
    (c : Client) (now : ℕ) (f : StatusFile)
    → f.open_error ≡ none
    → 18 ≤ length f.bytes
    → status_daemontools c now f ≡ ok (daemontools_record now (take 18 f.bytes))
unfolding status_daemontools
status_daemontools_whole c now f o h = ground (
  arith,
  full_read 18 f h,
  decode_status_daemontools-ok now (take 18 f.bytes) (size_taken 18 f.bytes h),
)

take-append_self : (s t : Bytes) → take (length s) (s ++ t) ≡ s
take-append_self [] t = refl
take-append_self (b ∷ s) t = ap (◌∷◌ b) (take-append_self s t)

-- The part of a buffer that was filled.
filled : (n : ℕ) (s t : Bytes) → length s ≡ n → slice (s ++ t) 0 n ≡ ok s
filled n s t h =
    let count : n - 0 ≡ length s = omega arith in
    slice_lem (s ++ t) 0 n (omega arith) (omega (arith, length-append s t))
    ∙ ap (λ k. ok (take k (s ++ t))) count
    ∙ ap ok (take-append_self s t)

status_s6_current :
    (c : Client) (now : ℕ) (f : StatusFile)
    → f.open_error ≡ none
    → 43 ≤ length f.bytes
    → status_s6 c now f ≡ ok (s6_current_record now (take 43 f.bytes))
unfolding status_s6
status_s6_current c now f o h = ground (
  arith,
  full_read 43 f h,
  append-nil (take 43 f.bytes),
  filled 43 (take 43 f.bytes) [] (size_taken 43 f.bytes h),
  decode_status_s6-current now (take 43 f.bytes) (size_taken 43 f.bytes h),
)

short_read :
    (f : StatusFile)
    → length f.bytes ≡ 35
    → f.read_error ≡ none
    → ((read_full 43 f).n ≡ 35)
      × ((read_full 43 f).error ≡ some unexpected_eof)
      × (slice (read_full 43 f).buf 0 35 ≡ ok f.bytes)
unfolding read_full
short_read f h e =
    let count : min 43 (length f.bytes) ≡ length f.bytes = omega arith in
    let whole : take (min 43 (length f.bytes)) f.bytes ≡ f.bytes =
      ap (λ k. take k f.bytes) count
      ∙ ap (take (length f.bytes)) (sym (append-nil f.bytes))
      ∙ take-append_self f.bytes [] in
    let zeros : Bytes = replicate (43 - min 43 (length f.bytes)) 0 in
    (omega arith, ground arith, ap (λ s. slice (s ++ zeros) 0 35) whole ∙ filled 35 f.bytes zeros h)

status_s6_pre220 :
    (c : Client) (now : ℕ) (f : StatusFile)
    → f.open_error ≡ none
    → length f.bytes ≡ 35
    → f.read_error ≡ none
    → status_s6 c now f ≡ ok (s6_pre220_record now f.bytes)
unfolding status_s6
status_s6_pre220 c now f o h e =
    ground (arith, short_read f h e, decode_status_s6-pre220 now f.bytes h)

-- A status file that opens and is whole is decoded, whichever client reads it: the first 20 bytes for
-- runit, the first 18 for daemontools, for s6 the first 43, or 35 if the file ends there.
pub status_whole :
    (c : Client) (now : ℕ) (f : StatusFile)
    → f.open_error ≡ none
    → (20 ≤ length f.bytes → status_runit c now f ≡ ok (runit_record now (take 20 f.bytes)))
      × (18 ≤ length f.bytes
          → status_daemontools c now f ≡ ok (daemontools_record now (take 18 f.bytes)))
      × (43 ≤ length f.bytes → status_s6 c now f ≡ ok (s6_current_record now (take 43 f.bytes)))
      × (length f.bytes ≡ 35
          → f.read_error ≡ none
          → status_s6 c now f ≡ ok (s6_pre220_record now f.bytes))
status_whole c now f o = (
  status_runit_whole c now f o,
  status_daemontools_whole c now f o,
  status_s6_current c now f o,
  status_s6_pre220 c now f o,
)

-- A status, or an `OpError` with the operation and the path of the status file.
abbrev pub IsReport : Client → Result Status → Type 0
IsReport c r =
    ((s : Status) × (r ≡ ok s)) ⊎ ((e : Error) × (r ≡ err (op_error op_status (status_path c) e)))

wrapped : (c : Client) (r : Result Status) → r ≢ panic → IsReport c (wrap_status c r)
wrapped c (ok s) h = inl (s, refl)
wrapped c (err e) h = inr (e, refl)
wrapped c panic h = absurd (h refl)

exact_read-ne-panic :
    (t : ServiceType) (size : ℕ) (decode : Bytes → Result Status) (r : ReadFull)
    → decode r.buf ≢ panic
    → exact_read t size decode r ≢ panic
unfolding exact_read
exact_read-ne-panic t size decode r h = ground arith

runit-ne-panic : (now : ℕ) (d : Bytes) → decode_status_runit now d ≢ panic
runit-ne-panic now d = ground (arith, (decoders_total now d).0)

daemontools-ne-panic : (now : ℕ) (d : Bytes) → decode_status_daemontools now d ≢ panic
daemontools-ne-panic now d = ground (arith, (decoders_total now d).1)

s6-ne-panic : (now : ℕ) (d : Bytes) → decode_status_s6 now d ≢ panic
s6-ne-panic now d = ground (arith, (decoders_total now d).2)

n-le-length-buf : (size : ℕ) (f : StatusFile) → (read_full size f).n ≤ length (read_full size f).buf
unfolding read_full
n-le-length-buf size f =
    let n = min size (length f.bytes) in
    omega (arith, length-append (take n f.bytes) (replicate (size - n) 0), length-take n f.bytes)

s6_sized-ne-panic : (now : ℕ) (r : ReadFull) → r.n ≤ length r.buf → s6_sized now r ≢ panic
unfolding s6_sized
s6_sized-ne-panic now r h =
    ground (
      arith,
      slice_lem r.buf 0 r.n (omega arith) h,
      s6-ne-panic now (take (r.n - 0) (drop 0 r.buf)),
    )

s6_read-ne-panic : (now : ℕ) (r : ReadFull) → r.n ≤ length r.buf → s6_read now r ≢ panic
unfolding s6_read
s6_read-ne-panic now r h = ground (arith, s6_sized-ne-panic now r h)

-- Whatever the status file holds, and whichever client reads it, `Status` returns a status, or an
-- `OpError` for the operation status and the path of the file. It never panics.
pub status_reports :
    (c : Client) (now : ℕ) (f : StatusFile)
    → IsReport c (status_runit c now f)
      × IsReport c (status_daemontools c now f)
      × IsReport c (status_s6 c now f)
unfolding status_runit status_daemontools status_s6
status_reports c now f = elim (Option-cases f.open_error) [
  | inr (e, o) ↦ (
    inr (e, rw (o, status_runit)),
    inr (e, rw (o, status_daemontools)),
    inr (e, rw (o, status_s6)),
  )
  | inl o ↦ (
    rw (o, status_runit)
        (wrapped c _ (
          exact_read-ne-panic ServiceType.runit 20 (decode_status_runit now) (read_full 20 f)
            (runit-ne-panic now (read_full 20 f).buf))),
    rw (o, status_daemontools)
        (wrapped c _ (
          exact_read-ne-panic ServiceType.daemontools 18 (decode_status_daemontools now)
            (read_full 18 f) (daemontools-ne-panic now (read_full 18 f).buf))),
    rw (o, status_s6) (wrapped c _ (s6_read-ne-panic now (read_full 43 f) (n-le-length-buf 43 f))),
  )
]
