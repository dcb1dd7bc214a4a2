-- ===== src/Common/Text/Decimal.antt =====
-- The verbs `%d` and `%04o`, and `strconv.Atoi`, which is `strconv.ParseInt` in base 10.
pub mod Digits
use mathlib.Core.Logic.{◌≢◌, inl, inr}
use Prim.Native.Nat.{ℕ, zero, suc, ◌+◌, ◌-◌, ◌*◌, ◌/◌, ◌%◌, ◌^◌, ◌≤◌, ◌<◌}
use mathlib.Core.Path.{◌≡◌, refl, ◌∙◌}
use mathlib.Core.Bool.{Bool, ◌&&◌}
use mathlib.Core.Option.{Option, none, some}
use mathlib.Core.List.{List, [], ◌∷◌, ◌++◌}
use native.Mathlib.Omega.{arith}
use go_runit.Common.Tests.{ltb, leb, ◌==◌, if◌then◌else◌, Bool-cases}
use go_runit.Common.Lists.{length, replicate}
use go_runit.Common.Int.{ℤ, pos, negsuc, pos_part, neg_part}

-- The digits of a number, in a base of at most ten; the fuel is for its number of digits.
digits : ℕ → ℕ → ℕ → List ℕ
digits zero b n = []
digits (suc f) b n =
    let more = digits f b (n / b) ++ (48 + n % b) ∷ [] in if ltb n b then (48 + n) ∷ [] else more

unfoldable pub decimal : ℕ → List ℕ
unfolding digits
decimal n = digits (suc n) 10 n

-- `%d`
unfoldable pub format_int : ℤ → List ℕ
unfolding decimal
format_int (pos n) = decimal n
format_int (negsuc n) = b'-' ∷ decimal (suc n)

-- `%04o`
unfoldable pub format_mode : ℕ → List ℕ
unfolding digits
format_mode n = let o = digits (suc n) 8 n in replicate (4 - length o) b'0' ++ o

abbrev pub is_digit : ℕ → Bool
is_digit c = leb b'0' c && leb c b'9'

abbrev append_digit : ℕ → ℕ → Option ℕ
append_digit v c = if is_digit c then some (v * 10 + (c - 48)) else none

read_digits : ℕ → List ℕ → Option ℕ
read_digits v [] = some v
read_digits v (c ∷ cs) = elim (append_digit v c) [ none ↦ none | some w ↦ read_digits w cs ]

abbrev read_number : List ℕ → Option ℕ
read_number [] = none
read_number (c ∷ cs) = read_digits 0 (c ∷ cs)

abbrev in_range : Option ℕ → Option ℤ
in_range none = none
in_range (some n) = if ltb n (2 ^ 63) then some (pos n) else none

abbrev negative_in_range : Option ℕ → Option ℤ
negative_in_range none = none
negative_in_range (some zero) = some (pos 0)
negative_in_range (some (suc n)) = if ltb n (2 ^ 63) then some (negsuc n) else none

-- An optional sign and digits, of a value that an int64 holds.
unfoldable pub atoi : List ℕ → Option ℤ
unfolding read_digits
atoi [] = none
atoi (c ∷ cs) =
    if c == b'-'
    then negative_in_range (read_number cs)
    else if c == b'+'
    then in_range (read_number cs)
    else in_range (read_number (c ∷ cs))

read_digits-append :
    (v w : ℕ) (xs : List ℕ) (c : ℕ)
    → read_digits v xs ≡ some w
    → read_digits v (xs ++ c ∷ []) ≡ append_digit w c
unfolding read_digits
read_digits-append v w [] c h = ground arith
read_digits-append v w (x ∷ xs) c h = ground (arith, read_digits-append (v * 10 + (x - 48)) w xs c)

read_digits-digits : (f n : ℕ) → n < f → read_digits 0 (digits f 10 n) ≡ some n
unfolding digits read_digits
read_digits-digits zero n h = absurd (omega arith)
read_digits-digits (suc f) n h = elim (Bool-cases (ltb n 10)) [
  | inl e ↦ rw e (ground arith)
  | inr e ↦ rw e (
      read_digits-append 0 (n / 10) (digits f 10 (n / 10)) (48 + n % 10)
        (read_digits-digits f (n / 10) (ground arith))
      ∙ ground arith)
]

append-ne-nil : (xs : List ℕ) (c : ℕ) → xs ++ c ∷ [] ≢ []
append-ne-nil [] c e = cc
append-ne-nil (x ∷ xs) c e = cc

digits-ne-nil : (f b n : ℕ) → digits (suc f) b n ≢ []
unfolding digits
digits-ne-nil f b n = elim (Bool-cases (ltb n b)) [
  | inl e ↦ rw e (λ q. cc)
  | inr e ↦ rw e (append-ne-nil (digits f b (n / b)) (48 + n % b))
]

read_number-eq : (xs : List ℕ) → xs ≢ [] → read_number xs ≡ read_digits 0 xs
read_number-eq [] h = absurd (h refl)
read_number-eq (c ∷ cs) h = refl

read_number-decimal : (n : ℕ) → read_number (decimal n) ≡ some n
unfolding decimal
read_number-decimal n =
    read_number-eq (digits (suc n) 10 n) (digits-ne-nil n 10 n)
    ∙ read_digits-digits (suc n) n (omega arith)

atoi-number : (xs : List ℕ) (n : ℕ) → read_number xs ≡ some n → atoi xs ≡ in_range (some n)
unfolding atoi read_digits
atoi-number [] n h = cc
atoi-number (c ∷ cs) n h = ground arith

negative :
    (xs : List ℕ) (n : ℕ)
    → read_number xs ≡ some (suc n)
    → n < 2 ^ 63
    → atoi (b'-' ∷ xs) ≡ some (negsuc n)
unfolding atoi
negative xs n h k = rw h (ground arith)

-- What `%d` prints of an int64 is read back.
pub atoi-format_int :
    (z : ℤ) → pos_part z < 2 ^ 63 → neg_part z ≤ 2 ^ 63 → atoi (format_int z) ≡ some z
unfolding format_int
atoi-format_int (pos n) p q = atoi-number (decimal n) n (read_number-decimal n) ∙ ground arith
atoi-format_int (negsuc n) p q = negative _ n (read_number-decimal (suc n)) (omega arith)
