-- ===== src/Errors/Collect.antt =====
-- `MultiError` collects errors: adding keeps order, forgets nils, and `Err` is nil for none.
use mathlib.Core.List.{append-nil, append_assoc}
use go_runit.Common.{
  ◌⊎◌, inl, inr, refl, Option, none, some, List, [], ◌∷◌, ◌++◌, ◌≡◌, ◌↔◌, ◌∙◌, arith,
}
use go_runit.Errors.{Result, ok, err, panic, Error, MultiError, no_errors, add, err_of}

pub add_all : MultiError → List (Option Error) → MultiError
add_all m [] = m
add_all m (e ∷ es) = add_all (add m e) es

abbrev pub present : List (Option Error) → List Error
present [] = []
present (none ∷ es) = present es
present (some e ∷ es) = e ∷ present es

errors-add_all :
    (m : MultiError) (es : List (Option Error)) → (add_all m es).errors ≡ m.errors ++ present es
unfolding add_all add
errors-add_all m [] = ground (arith, append-nil m.errors)
errors-add_all m (none ∷ es) = errors-add_all m es
errors-add_all m (some e ∷ es) =
    errors-add_all (add m (some e)) es ∙ append_assoc m.errors (e ∷ []) (present es)

pub err_of-eq-none : (m : MultiError) → (err_of m ≡ none) ↔ (m.errors ≡ [])
unfolding err_of
err_of-eq-none m = ground arith

-- However many results are added, `Err` is nil exactly when every one of them was nil.
pub err_of-add_all :
    (es : List (Option Error)) → (err_of (add_all no_errors es) ≡ none) ↔ (present es ≡ [])
err_of-add_all es =
    ground (arith, err_of-eq-none (add_all no_errors es), errors-add_all no_errors es)

pub Result-cases {ℓ} :
    {A : Type ℓ} (r : Result A) → ((a : A) × (r ≡ ok a)) ⊎ ((e : Error) × (r ≡ err e)) ⊎ (r ≡ panic)
Result-cases (ok a) = inl (a, refl)
Result-cases (err e) = inr (inl (e, refl))
Result-cases panic = inr (inr refl)
