-- ===== src/Helpers/Tools.antt =====
-- The cache of the tool checks over a sequence of calls.
use go_runit.Common.{
  ◌≡◌, inl, inr, refl, Bool, true, false, Bool-cases, Option-cases, some, List, [], ◌∷◌, arith,
  ==_iff,
}
use go_runit.Common.Text.{equal}
use go_runit.Wire.{Bytes}
use go_runit.Helpers.{ToolCache, lookup, Checked, check_tool_cached, check_each}

equal_refl : (xs : Bytes) → equal xs xs ≡ true
equal_refl [] = refl
equal_refl (x ∷ xs) = ground (arith, equal_refl xs, ==_iff x x)

equal→eq : (xs ys : Bytes) → equal xs ys ≡ true → xs ≡ ys
equal→eq [] [] h = refl
equal→eq [] (y ∷ ys) h = absurd cc
equal→eq (x ∷ xs) [] h = absurd cc
equal→eq (x ∷ xs) (y ∷ ys) h = grind (arith, equal→eq xs ys, ==_iff x y)

-- What a call does to the entry of a tool.
check-keeps :
    (p : Bool) (name other : Bytes) (cache : ToolCache) (b : Bool)
    → lookup cache other ≡ some b
    → lookup (check_tool_cached p name cache).cache other ≡ some b
unfolding check_tool_cached lookup
check-keeps p name other cache b h = elim (Option-cases (lookup cache name)) [
  | inr (x, e) ↦ rw (check_tool_cached, e) h
  | inl e ↦ elim (Bool-cases (equal name other)) [
    | inl q ↦ absurd (ground (arith, rw (equal→eq name other q) at e, h))
    | inr q ↦ rw (check_tool_cached, e, lookup, q) h
  ]
]

check-sets :
    (p : Bool) (name : Bytes) (cache : ToolCache)
    → lookup (check_tool_cached p name cache).cache name
      ≡ some (check_tool_cached p name cache).available
unfolding check_tool_cached lookup
check-sets p name cache = elim (Option-cases (lookup cache name)) [
  | inr (x, e) ↦ rw (check_tool_cached, e, e) refl
  | inl e ↦ rw (check_tool_cached, e, lookup, equal_refl name) refl
]

check-hits :
    (p : Bool) (name : Bytes) (cache : ToolCache) (b : Bool)
    → lookup cache name ≡ some b
    → ((check_tool_cached p name cache).available ≡ b)
      × ((check_tool_cached p name cache).looked ≡ false)
unfolding check_tool_cached
check-hits p name cache b h = (rw (check_tool_cached, h) refl, rw (check_tool_cached, h) refl)

-- Each call for the tool answers `b` without a look at the path.
abbrev pub AllAnswer : Bytes → Bool → List (Bytes × Bool) → List Checked → Type 0
AllAnswer name b ((n, p) ∷ calls) (c ∷ cs) =
    (n ≡ name → (c.available ≡ b) × (c.looked ≡ false)) × AllAnswer name b calls cs
AllAnswer name b _ _ = Unit

check_each-answers :
    (name : Bytes) (b : Bool) (calls : List (Bytes × Bool)) (cache : ToolCache)
    → lookup cache name ≡ some b
    → AllAnswer name b calls (check_each calls cache)
unfolding check_each
check_each-answers name b [] cache h = tt
check_each-answers name b ((n, p) ∷ calls) cache h = (
  λ e. check-hits p n cache b (rw e h),
  check_each-answers name b calls _ (check-keeps p n name cache b h),
)

-- Once a tool has been checked, every later check of it gives the same answer, without another look at
-- the path, whatever other tools are checked in between and whatever the path holds by then.
pub checks_stable :
    (name : Bytes) (p : Bool) (cache : ToolCache) (calls : List (Bytes × Bool))
    → AllAnswer name
        (check_tool_cached p name cache).available
        calls
        (check_each calls (check_tool_cached p name cache).cache)
checks_stable name p cache calls = check_each-answers name _ calls _ (check-sets p name cache)
