-- ===== src/Common/Text/Lines.antt =====
-- Lines and `key=value` pairs: what splitting finds in a text that was put together.
use go_runit.Common.Text.{not, Bool, equal, split, split_first}
use go_runit.Common.Tests.{Bool-cases, ◌==◌}
use Prim.Native.Nat.{ℕ}
use mathlib.Core.Path.{◌≡◌, refl}
use mathlib.Core.Bool.{Bool, true, false, not, ◌&&◌}
use mathlib.Core.Logic.{inl, inr}
use mathlib.Core.Option.{some}
use native.Mathlib.Omega.{arith}
use mathlib.Core.List.{List, [], ◌∷◌, ◌++◌}

-- The byte does not stand in the text.
abbrev pub Lacks : ℕ → List ℕ → Type 0
Lacks b [] = Unit
Lacks b (c ∷ cs) = (c == b ≡ false) × Lacks b cs

pub split-append :
    (b : ℕ) (w rest : List ℕ) → Lacks b w → split (w ++ b ∷ rest) b ≡ w ∷ split rest b
unfolding split
split-append b [] rest h = ground arith
split-append b (c ∷ cs) rest h = rw (h.0, split-append b cs rest h.1) refl

pub split_first-append :
    (b : ℕ) (k v : List ℕ) → Lacks b k → split_first (k ++ b ∷ v) b ≡ some (k, v)
unfolding split_first
split_first-append b [] v h = ground arith
split_first-append b (c ∷ cs) v h = rw (h.0, split_first-append b cs v h.1) refl

pub Lacks-append : (b : ℕ) (v w : List ℕ) → Lacks b v → Lacks b w → Lacks b (v ++ w)
Lacks-append b [] w h k = k
Lacks-append b (c ∷ cs) w h k = (h.0, Lacks-append b cs w h.1 k)

pub equal_refl : (xs : List ℕ) → equal xs xs ≡ true
equal_refl [] = refl
equal_refl (x ∷ xs) = ground (arith, equal_refl xs)

pub equal→eq : (xs ys : List ℕ) → equal xs ys ≡ true → xs ≡ ys
equal→eq [] [] h = refl
equal→eq [] (y ∷ ys) h = cc
equal→eq (x ∷ xs) [] h = cc
equal→eq (x ∷ xs) (y ∷ ys) h = ground (arith, equal→eq xs ys)

-- The same, as a test.
unfoldable pub lacks : ℕ → List ℕ → Bool
lacks b [] = true
lacks b (c ∷ cs) = not (c == b) && lacks b cs

pub lacks-Lacks : (b : ℕ) (w : List ℕ) → lacks b w ≡ true → Lacks b w
unfolding lacks
lacks-Lacks b [] h = tt
lacks-Lacks b (c ∷ cs) h = elim (Bool-cases (c == b)) [
  | inl e ↦ absurd (ground (arith, e))
  | inr e ↦ (e, lacks-Lacks b cs (rw e at h))
]
