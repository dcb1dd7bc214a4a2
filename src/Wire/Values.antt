-- ===== src/Wire/Values.antt =====
-- Reads inside a slice succeed; what they give is bounded by the width read.
use go_runit.Common.{
  ℕ, zero, suc, ◌+◌, ◌-◌, ◌*◌, ◌^◌, ◌≤◌, ◌<◌, ◌≡◌, refl, ap, [], ◌∷◌, length, get_or, get_elem?,
  take, drop, arith, some, length-take, length-drop,
}
use native.Mathlib.Nat.{pow-suc}
use go_runit.Errors.{ok}
use go_runit.Wire.{Bytes, byte_at, slice, be_uint, le_uint, be_value, le_value}

-- Every element is a byte.
abbrev pub AreBytes : Bytes → Type 0
AreBytes [] = Unit {0}
AreBytes (b ∷ bs) = (b < 256) × AreBytes bs

get_elem?-get_or : (s : Bytes) (i : ℕ) → i < length s → get_elem? s i ≡ some (get_or s i 0)
get_elem?-get_or [] i h = elim h [ ]
get_elem?-get_or (b ∷ s) zero h = refl
get_elem?-get_or (b ∷ s) (suc i) h = get_elem?-get_or s i (omega arith)

pub byte_at_lem : (s : Bytes) (i : ℕ) → i < length s → byte_at s i ≡ ok (get_or s i 0)
unfolding byte_at
byte_at_lem s i h = rw (get_elem?-get_or s i h)

pub slice_lem :
    (s : Bytes) (a b : ℕ) → a ≤ b → b ≤ length s → slice s a b ≡ ok (take (b - a) (drop a s))
unfolding slice
slice_lem s a b h k = ground arith

-- The bytes from `a` on, `n` of them.
abbrev pub field : Bytes → ℕ → ℕ → Bytes
field s a n = take n (drop a s)

length-field : (s : Bytes) (a n : ℕ) → a + n ≤ length s → length (field s a n) ≡ n
length-field s a n h = omega (arith, length-take n (drop a s), length-drop a s)

take-field : (n : ℕ) (s : Bytes) → take n (take n s) ≡ take n s
take-field zero s = refl
take-field (suc n) [] = refl
take-field (suc n) (b ∷ s) = ap (◌∷◌ b) (take-field n s)

pub be_uint-field :
    (s : Bytes) (a n : ℕ)
    → a + n ≤ length s
    → be_uint n (field s a n) ≡ ok (be_value 0 (field s a n))
unfolding be_uint
be_uint-field s a n h = ground (arith, length-field s a n h, take-field n (drop a s))

pub le_uint-field :
    (s : Bytes) (a n : ℕ) → a + n ≤ length s → le_uint n (field s a n) ≡ ok (le_value (field s a n))
unfolding le_uint
le_uint-field s a n h = ground (arith, length-field s a n h, take-field n (drop a s))

AreBytes-drop : (a : ℕ) (s : Bytes) → AreBytes s → AreBytes (drop a s)
AreBytes-drop zero s h = h
AreBytes-drop (suc a) [] h = tt
AreBytes-drop (suc a) (b ∷ s) h = AreBytes-drop a s h.1

AreBytes-take : (n : ℕ) (s : Bytes) → AreBytes s → AreBytes (take n s)
AreBytes-take zero s h = tt
AreBytes-take (suc n) [] h = tt
AreBytes-take (suc n) (b ∷ s) h = (h.0, AreBytes-take n s h.1)

pub AreBytes-field : (s : Bytes) (a n : ℕ) → AreBytes s → AreBytes (field s a n)
AreBytes-field s a n h = AreBytes-take n (drop a s) (AreBytes-drop a s h)

pub get_or-lt : (s : Bytes) (i : ℕ) → AreBytes s → get_or s i 0 < 256
get_or-lt [] i h = omega arith
get_or-lt (b ∷ s) zero h = h.0
get_or-lt (b ∷ s) (suc i) h = get_or-lt s i h.1

le_value-lt : (s : Bytes) → AreBytes s → le_value s < 256 ^ length s
le_value-lt [] h = omega arith
le_value-lt (b ∷ s) h = omega (arith, le_value-lt s h.1, pow-suc 256 (length s), h.0)

-- Four bytes make a uint32.
pub le_value-field-lt :
    (s : Bytes) (a : ℕ) → AreBytes s → a + 4 ≤ length s → le_value (field s a 4) < 2 ^ 32
le_value-field-lt s a h k =
    rw (length-field s a 4 k) at (le_value-lt (field s a 4) (AreBytes-field s a 4 h))

mul_step : (a b p : ℕ) → b < 256 → (a * 256 + b + 1) * p ≤ (a + 1) * (p * 256)
mul_step a b p h = grind arith

be_value-lt : (s : Bytes) (acc : ℕ) → AreBytes s → be_value acc s < (acc + 1) * 256 ^ length s
be_value-lt [] acc h = omega arith
be_value-lt (b ∷ s) acc h = omega (
  arith,
  be_value-lt s (acc * 256 + b) h.1,
  pow-suc 256 (length s),
  mul_step acc b (256 ^ length s) h.0,
  ap (λ (t : ℕ). (acc + 1) * t) (pow-suc 256 (length s)),
)

-- Eight bytes make a uint64, four a uint32.
pub be_value-field-lt :
    (s : Bytes) (a n : ℕ) → AreBytes s → a + n ≤ length s → be_value 0 (field s a n) < 256 ^ n
be_value-field-lt s a n h k =
    let bound : be_value 0 (field s a n) < 256 ^ length (field s a n) =
      omega (arith, be_value-lt (field s a n) 0 (AreBytes-field s a n h)) in
    rw (length-field s a n k) at bound
