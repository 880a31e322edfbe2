-- ===== src/VisitTransform/Tests.antt =====
-- Three arguments, and a transformer that tries every smaller number.
use vcpkg_test.Prelude.{ℕ, zero, suc, ◌≡◌, refl, some, List, [], ◌∷◌, ◌++◌}
use vcpkg_test.VisitTransform.{
  lvalue, rvalue, Argument, Passed, by_reference, moved, forward_as, visit_transform,
  visit_transform2, visit_transform2_detail,
}
use vcpkg_test.VisitTransform.Nesting.{
  nested, visit_transform2-nested, visit_transform-visit_transform2,
}

abbrev temporary : ℕ → Argument ℕ
temporary n = record { category = rvalue; object = n }

abbrev variable : ℕ → Argument ℕ
variable n = record { category = lvalue; object = n }

abbrev below : (Argument ℕ → List (List (Argument ℕ))) → ℕ → List (List (Argument ℕ))
below k zero = []
below k (suc n) = below k n ++ k (temporary n)

-- An argument by reference is handed on itself as well.
abbrev each_below : (Argument ℕ → List (List (Argument ℕ))) → Passed ℕ → List (List (Argument ℕ))
each_below k (moved n) = below k n
each_below k (by_reference n) = below k n ++ k (variable n)

abbrev collect : List (Argument ℕ) → List (List (Argument ℕ))
collect args = args ∷ []

abbrev arguments : List (Argument ℕ)
arguments = temporary 2 ∷ variable 1 ∷ temporary 1 ∷ []

every_triple :
    visit_transform2 each_below collect arguments
    ≡ some (
        (temporary 0 ∷ temporary 0 ∷ temporary 0 ∷ [])
        ∷ (temporary 0 ∷ variable 1 ∷ temporary 0 ∷ [])
        ∷ (temporary 1 ∷ temporary 0 ∷ temporary 0 ∷ [])
        ∷ (temporary 1 ∷ variable 1 ∷ temporary 0 ∷ [])
        ∷ [])
unfolding visit_transform2 visit_transform2_detail forward_as
every_triple = refl

visit_transform2-nested_example :
    visit_transform2 each_below collect arguments ≡ nested each_below collect arguments
visit_transform2-nested_example = visit_transform2-nested each_below collect arguments

visit_transform-visit_transform2_example :
    visit_transform each_below collect arguments ≡ visit_transform2 each_below collect arguments
visit_transform-visit_transform2_example =
    visit_transform-visit_transform2 each_below collect arguments
