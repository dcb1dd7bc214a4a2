-- ===== src/Status/Decode/Total.antt =====
-- The decoders are total: on a file of the right size every read succeeds, on any other they report
-- its size. So none of them ever panics.
use go_runit.Common.{
  ℕ, ◌≤◌, ◌≡◌, ◌≢◌, ◌⊎◌, inl, inr, Bool, true, false, length, get_or, arith, ◌==◌, Bool-cases,
  ==_iff, ◌||◌,
}
use go_runit.Service.{ServiceType}
use go_runit.Errors.{Result, ok, err, decode_size}
use go_runit.Wire.{Bytes, be_value, le_value, copy}
use go_runit.Wire.Values.{field, slice_lem, be_uint-field, le_uint-field, byte_at_lem}
use go_runit.Status.{Status, zero_status}
use go_runit.Status.Decode.{
  runit_status, decode_runit_record, decode_status_runit, daemontools_status,
  decode_daemontools_record, decode_status_daemontools, s6_pre220_status, decode_s6_pre220,
  s6_current_status, decode_s6_current, s6_raw, decode_status_s6,
}

-- The status of a runit file of 20 bytes.
abbrev pub runit_record : ℕ → Bytes → Status
runit_record now d =
    runit_status now d (be_value 0 (field d 0 8)) (be_value 0 (field d 8 4))
      (le_value (field d 12 4)) (get_or d 16 0) (get_or d 17 0) (get_or d 18 0) (get_or d 19 0)

pub decode_status_runit-ok :
    (now : ℕ) (d : Bytes) → length d ≡ 20 → decode_status_runit now d ≡ ok (runit_record now d)
unfolding decode_status_runit decode_runit_record
decode_status_runit-ok now d h = ground (
  arith,
  slice_lem d 0 8 (omega arith) (omega arith),
  be_uint-field d 0 8 (omega arith),
  slice_lem d 8 12 (omega arith) (omega arith),
  be_uint-field d 8 4 (omega arith),
  slice_lem d 12 16 (omega arith) (omega arith),
  le_uint-field d 12 4 (omega arith),
  byte_at_lem d 16 (omega arith),
  byte_at_lem d 17 (omega arith),
  byte_at_lem d 18 (omega arith),
  byte_at_lem d 19 (omega arith),
)

-- The status of a daemontools file of 18 bytes.
abbrev pub daemontools_record : ℕ → Bytes → Status
daemontools_record now d =
    daemontools_status now d (be_value 0 (field d 0 8)) (be_value 0 (field d 8 4))
      (le_value (field d 12 4)) (get_or d 17 0)

pub decode_status_daemontools-ok :
    (now : ℕ) (d : Bytes)
    → length d ≡ 18
    → decode_status_daemontools now d ≡ ok (daemontools_record now d)
unfolding decode_status_daemontools decode_daemontools_record
decode_status_daemontools-ok now d h = ground (
  arith,
  slice_lem d 0 8 (omega arith) (omega arith),
  be_uint-field d 0 8 (omega arith),
  slice_lem d 8 12 (omega arith) (omega arith),
  be_uint-field d 8 4 (omega arith),
  slice_lem d 12 16 (omega arith) (omega arith),
  le_uint-field d 12 4 (omega arith),
  byte_at_lem d 17 (omega arith),
)

-- The first 20 bytes, as the s6 decoder keeps them.
abbrev pub raw_prefix : Bytes → Bytes
raw_prefix d = copy zero_status.raw (field d 0 20)

s6_raw-ok : (d : Bytes) → 20 ≤ length d → s6_raw d ≡ ok (raw_prefix d)
unfolding s6_raw
s6_raw-ok d h = ground (arith, slice_lem d 0 20 (omega arith) h)

-- The status of an s6 file of 35 bytes.
abbrev pub s6_pre220_record : ℕ → Bytes → Status
s6_pre220_record now d =
    s6_pre220_status now (raw_prefix d) (be_value 0 (field d 28 4)) (be_value 0 (field d 0 8))
      (be_value 0 (field d 12 8)) (get_or d 34 0)

pub decode_status_s6-pre220 :
    (now : ℕ) (d : Bytes) → length d ≡ 35 → decode_status_s6 now d ≡ ok (s6_pre220_record now d)
unfolding decode_status_s6 decode_s6_pre220
decode_status_s6-pre220 now d h = ground (
  arith,
  slice_lem d 0 20 (omega arith) (omega arith),
  slice_lem d 28 32 (omega arith) (omega arith),
  be_uint-field d 28 4 (omega arith),
  slice_lem d 0 8 (omega arith) (omega arith),
  be_uint-field d 0 8 (omega arith),
  slice_lem d 12 20 (omega arith) (omega arith),
  be_uint-field d 12 8 (omega arith),
  byte_at_lem d 34 (omega arith),
)

-- The status of an s6 file of 43 bytes.
abbrev pub s6_current_record : ℕ → Bytes → Status
s6_current_record now d =
    s6_current_status now (raw_prefix d) (be_value 0 (field d 24 8)) (be_value 0 (field d 0 8))
      (be_value 0 (field d 12 8)) (get_or d 42 0)

pub decode_status_s6-current :
    (now : ℕ) (d : Bytes) → length d ≡ 43 → decode_status_s6 now d ≡ ok (s6_current_record now d)
unfolding decode_status_s6 decode_s6_current
decode_status_s6-current now d h = ground (
  arith,
  slice_lem d 0 20 (omega arith) (omega arith),
  slice_lem d 24 32 (omega arith) (omega arith),
  be_uint-field d 24 8 (omega arith),
  slice_lem d 0 8 (omega arith) (omega arith),
  be_uint-field d 0 8 (omega arith),
  slice_lem d 12 20 (omega arith) (omega arith),
  be_uint-field d 12 8 (omega arith),
  byte_at_lem d 42 (omega arith),
)

decode_status_s6-err :
    (now : ℕ) (d : Bytes)
    → length d ≢ 35
    → length d ≢ 43
    → decode_status_s6 now d ≡ err (decode_size ServiceType.s6 (length d))
unfolding decode_status_s6
decode_status_s6-err now d h k = ground (arith, s6_raw-ok d)

-- The outcomes of a decoder on a file: a status where the size is one of its sizes, and otherwise
-- the error that wraps `ErrDecode` and names the size.
abbrev pub Decodes : Bool → ServiceType → Bytes → Result Status → Type 0
Decodes fits t d r =
    ((fits ≡ true) × ((s : Status) × (r ≡ ok s)))
    ⊎ ((fits ≡ false) × (r ≡ err (decode_size t (length d))))

runit_outcome :
    (now : ℕ) (d : Bytes) → Decodes (length d == 20) ServiceType.runit d (decode_status_runit now d)
unfolding decode_status_runit
runit_outcome now d = elim (Bool-cases (length d == 20)) [
  | inl e ↦ inl (e, (runit_record now d, decode_status_runit-ok now d ((==_iff _ _).0 e)))
  | inr e ↦ inr (e, rw e)
]

daemontools_outcome :
    (now : ℕ) (d : Bytes)
    → Decodes (length d == 18) ServiceType.daemontools d (decode_status_daemontools now d)
unfolding decode_status_daemontools
daemontools_outcome now d = elim (Bool-cases (length d == 18)) [
  | inl e ↦
      inl (e, (daemontools_record now d, decode_status_daemontools-ok now d ((==_iff _ _).0 e)))
  | inr e ↦ inr (e, rw e)
]

s6_outcome :
    (now : ℕ) (d : Bytes)
    → Decodes (length d == 35 || length d == 43) ServiceType.s6 d (decode_status_s6 now d)
s6_outcome now d = elim (Bool-cases (length d == 35)) [
  | inl e ↦ inl (rw e, (s6_pre220_record now d, decode_status_s6-pre220 now d ((==_iff _ _).0 e)))
  | inr e ↦ elim (Bool-cases (length d == 43)) [
    | inl f ↦
        inl (
          ground arith,
          (s6_current_record now d, decode_status_s6-current now d ((==_iff _ _).0 f)),
        )
    | inr f ↦ inr (ground arith, decode_status_s6-err now d (ground arith) (ground arith))
  ]
]

-- For every input, of any length and content, each decoder returns: a status exactly for the sizes
-- of its format (20 for runit; 18 for daemontools; 35 and 43 for s6) and otherwise the decode error
-- with the size. None of them panics.
pub decoders_total :
    (now : ℕ) (d : Bytes)
    → Decodes (length d == 20) ServiceType.runit d (decode_status_runit now d)
      × Decodes (length d == 18) ServiceType.daemontools d (decode_status_daemontools now d)
      × Decodes (length d == 35 || length d == 43) ServiceType.s6 d (decode_status_s6 now d)
decoders_total now d = (runit_outcome now d, daemontools_outcome now d, s6_outcome now d)
