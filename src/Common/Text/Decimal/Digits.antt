-- ===== src/Common/Text/Decimal/Digits.antt =====
-- The digits of a number, and no other byte.
use go_runit.Common.Text.Decimal.{decimal, digits, format_int, format_mode}
use go_runit.Common.{
  ℕ, zero, suc, ◌+◌, ◌-◌, ◌/◌, ◌%◌, ◌≡◌, refl, false, inl, inr, [], ◌∷◌, replicate, ltb, ◌==◌,
  Bool-cases, arith, length,
}
use go_runit.Common.Int.{ℤ, pos, negsuc}
use go_runit.Common.Text.Lines.{Lacks, Lacks-append}

above : (n : ℕ) → ((48 + n) == 10) ≡ false
above n = ground arith

digits-Lacks : (f b n : ℕ) → Lacks 10 (digits f b n)
unfolding digits
digits-Lacks zero b n = tt
digits-Lacks (suc f) b n = elim (Bool-cases (ltb n b)) [
  | inl e ↦ rw e (above n, tt)
  | inr e ↦ rw e (
      Lacks-append 10 (digits f b (n / b)) ((48 + n % b) ∷ []) (digits-Lacks f b (n / b))
        (above (n % b), tt))
]

zeros-Lacks : (n : ℕ) → Lacks 10 (replicate n b'0')
zeros-Lacks zero = tt
zeros-Lacks (suc n) = (refl, zeros-Lacks n)

-- No number has a newline.
pub format_int-Lacks : (z : ℤ) → Lacks 10 (format_int z)
unfolding format_int decimal
format_int-Lacks (pos n) = digits-Lacks (suc n) 10 n
format_int-Lacks (negsuc n) = (refl, digits-Lacks (suc (suc n)) 10 (suc n))

pub format_mode-Lacks : (n : ℕ) → Lacks 10 (format_mode n)
unfolding format_mode
format_mode-Lacks n =
    Lacks-append 10 (replicate (4 - length (digits (suc n) 8 n)) b'0') (digits (suc n) 8 n)
      (zeros-Lacks (4 - length (digits (suc n) 8 n))) (digits-Lacks (suc n) 8 n)
