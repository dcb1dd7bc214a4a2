-- ===== src/Wire.antt =====
-- Go's byte slices and `encoding/binary`, as far as the status files use them. A slice is a list of
-- byte values; an index or a bound out of range panics.
pub mod Values
pub mod RoundTrip
use go_runit.Common.{
  ℕ, zero, suc, ◌+◌, ◌-◌, ◌*◌, ◌/◌, ◌%◌, ◌^◌, Bool, true, false, ◌&&◌, Option, none, some, List, [],
  ◌∷◌, ◌++◌, length, get_elem?, take, drop, replicate, leb, if◌then◌else◌,
}
use go_runit.Errors.{Result, ok, err, panic, ◌>>=◌}

abbrev pub Bytes : Type 0
Bytes = List ℕ

-- `data[i]`.
from_option {ℓ} : {A : Type ℓ} → Option A → Result A
from_option none = panic
from_option (some a) = ok a

unfoldable pub byte_at : Bytes → ℕ → Result ℕ
unfolding from_option
byte_at s i = from_option (get_elem? s i)

-- `data[a:b]`.
unfoldable pub slice : Bytes → ℕ → ℕ → Result Bytes
slice s a b = if leb a b && leb b (length s) then ok (take (b - a) (drop a s)) else panic

-- `copy(dst, src)`: overwrites as many bytes as both have.
unfoldable pub copy : Bytes → Bytes → Bytes
copy [] src = []
copy (d ∷ ds) [] = d ∷ ds
copy (d ∷ ds) (s ∷ ss) = s ∷ copy ds ss

-- The number that bytes spell, the first one the most or the least significant.
abbrev pub be_value : ℕ → Bytes → ℕ
be_value acc [] = acc
be_value acc (b ∷ bs) = be_value (acc * 256 + b) bs

abbrev pub le_value : Bytes → ℕ
le_value [] = 0
le_value (b ∷ bs) = b + 256 * le_value bs

-- `binary.BigEndian.Uint64` and the like read the first `n` bytes, and panic if there are fewer.
unfoldable pub be_uint : ℕ → Bytes → Result ℕ
be_uint n s = if leb n (length s) then ok (be_value 0 (take n s)) else panic

unfoldable pub le_uint : ℕ → Bytes → Result ℕ
le_uint n s = if leb n (length s) then ok (le_value (take n s)) else panic

-- The bytes of a word of `n` bytes, as `PutUint64` and `PutUint32` write them.
abbrev pub le_bytes : ℕ → ℕ → Bytes
le_bytes zero v = []
le_bytes (suc n) v = (v % 256) ∷ le_bytes n (v / 256)

abbrev pub be_bytes : ℕ → ℕ → Bytes
be_bytes zero v = []
be_bytes (suc n) v = be_bytes n (v / 256) ++ (v % 256) ∷ []

-- Writes `bs` at the offset `a` of a buffer that has room for it.
abbrev pub write_at : Bytes → ℕ → Bytes → Bytes
write_at s a bs = take a s ++ copy (drop a s) bs
