-- ===== src/Wire/RoundTrip.antt =====
-- Reading back the words that were written: `PutUint64` and `Uint64`, in both byte orders.
use native.Mathlib.Nat.{pow-suc}
use go_runit.Common.{
  ℕ, zero, suc, ◌+◌, ◌*◌, ◌/◌, ◌%◌, ◌^◌, ◌<◌, ◌≡◌, refl, [], ◌∷◌, ◌++◌, length, arith,
  length-append,
}
use go_runit.Wire.{Bytes, be_value, le_value, be_bytes, le_bytes}

pub length-le_bytes : (n v : ℕ) → length (le_bytes n v) ≡ n
length-le_bytes zero v = refl
length-le_bytes (suc n) v = omega (arith, length-le_bytes n (v / 256))

pub length-be_bytes : (n v : ℕ) → length (be_bytes n v) ≡ n
length-be_bytes zero v = refl
length-be_bytes (suc n) v =
    omega
      (arith, length-append (be_bytes n (v / 256)) ((v % 256) ∷ []), length-be_bytes n (v / 256))

be_value-append : (acc : ℕ) (s t : Bytes) → be_value acc (s ++ t) ≡ be_value (be_value acc s) t
be_value-append acc [] t = refl
be_value-append acc (b ∷ s) t = be_value-append (acc * 256 + b) s t

pub le_value-le_bytes : (n v : ℕ) → v < 256 ^ n → le_value (le_bytes n v) ≡ v
le_value-le_bytes zero v h = omega arith
le_value-le_bytes (suc n) v h =
    omega (arith, le_value-le_bytes n (v / 256) (omega (arith, pow-suc 256 n)))

pub be_value-be_bytes : (n v : ℕ) → v < 256 ^ n → be_value 0 (be_bytes n v) ≡ v
be_value-be_bytes zero v h = omega arith
be_value-be_bytes (suc n) v h = omega (
  arith,
  be_value-append 0 (be_bytes n (v / 256)) ((v % 256) ∷ []),
  be_value-be_bytes n (v / 256) (omega (arith, pow-suc 256 n)),
)
