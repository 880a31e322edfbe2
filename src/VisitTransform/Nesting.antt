-- ===== src/VisitTransform/Nesting.antt =====
-- The two ways of src/visit_transform.h against nested calls of the transformer.
use vcpkg_test.Prelude.{
  ◌≡◌, ◌∙◌, refl, sym, ap, ap₂, fun_ext, Option, none, some, List, [], ◌∷◌, ◌++◌, length,
  append-nil, append_assoc,
}
use vcpkg_test.VisitTransform.{
  Category, lvalue, rvalue, Argument, Passed, by_reference, moved, deduced, collapsed, forward_as,
  visitor, fold_visitors, visit_transform2_detail, visit_transform2, call, visit_transform,
}

-- An lvalue is passed on as it is, and an rvalue is moved.
abbrev pub pass : {V : Type 0} → Category → V → Passed V
pass lvalue object = by_reference object
pass rvalue object = moved object

forward_as-deduced :
    {V : Type 0} (category : Category) (object : V)
    → forward_as (deduced category) object ≡ pass category object
unfolding forward_as
forward_as-deduced lvalue object = refl
forward_as-deduced rvalue object = refl

forward_as-collapsed :
    {V : Type 0} (category : Category) (object : V)
    → forward_as (collapsed (deduced category)) object ≡ pass category object
unfolding forward_as
forward_as-collapsed lvalue object = refl
forward_as-collapsed rvalue object = refl

module _ {V R : Type 0} (transformer : (Argument V → R) → Passed V → R)
    (function : List (Argument V) → R) where
  -- The transformer on the first argument, inside of it on the second, and so on; the function gets
  -- what they hand on, in the order of the arguments and with its category.
  abbrev pub nest : List (Argument V) → List (Argument V) → R
  nest transformed [] = function transformed
  nest transformed (t ∷ ts) =
      transformer (λ u. nest (transformed ++ u ∷ []) ts) (pass t.category t.object)

  -- What a list of arguments should lead to.
  abbrev pub nested : List (Argument V) → Option R
  nested [] = none
  nested (t ∷ ts) = some (nest [] (t ∷ ts))

  detail-nest :
      (transformed : List (Argument V)) (t : Argument V) (ts : List (Argument V))
      → visit_transform2_detail transformer function (length ts) t (ts ++ transformed)
        ≡ nest transformed (t ∷ ts)
  unfolding visit_transform2_detail
  detail-nest transformed t [] = rw (forward_as-deduced t.category t.object) refl
  detail-nest transformed t (t' ∷ ts) =
      ap₂ transformer
        (fun_ext λ u.
          ap (visit_transform2_detail transformer function (length ts) t')
            (append_assoc ts transformed (u ∷ []))
          ∙ detail-nest (transformed ++ u ∷ []) t' ts)
        (forward_as-deduced t.category t.object)

  -- For any number of arguments, `visit_transform2` is the nested calls of the transformer in the
  -- order of the arguments, with the function inside: each lvalue is passed by reference, each
  -- rvalue is moved, and what the transformer hands on keeps its category. With none it does not
  -- compile.
  pub visit_transform2-nested :
      (ts : List (Argument V)) → visit_transform2 transformer function ts ≡ nested ts
  unfolding visit_transform2
  visit_transform2-nested [] = refl
  visit_transform2-nested (t ∷ ts) = ap some (
      ap (visit_transform2_detail transformer function (length ts) t) (sym (append-nil ts))
      ∙ detail-nest [] t ts)

  call-nest :
      (transformed : List (Argument V)) (t : Argument V) (ts : List (Argument V))
      → call transformer function
          (visitor (fold_visitors t ts).type (fold_visitors t ts).t (fold_visitors t ts).function)
          transformed
        ≡ nest transformed (t ∷ ts)
  unfolding call fold_visitors
  call-nest transformed t [] = rw (forward_as-collapsed t.category t.object) refl
  call-nest transformed t (t' ∷ ts) =
      ap₂ transformer (fun_ext λ u. call-nest (transformed ++ u ∷ []) t' ts)
        (forward_as-collapsed t.category t.object)

  -- `visit_transform` and `visit_transform2` do the same for every list of arguments, though they
  -- instantiate `forward_as` at different types.
  pub visit_transform-visit_transform2 :
      (ts : List (Argument V))
      → visit_transform transformer function ts ≡ visit_transform2 transformer function ts
  unfolding visit_transform
  visit_transform-visit_transform2 [] = sym (visit_transform2-nested [])
  visit_transform-visit_transform2 (t ∷ ts) =
      ap some (call-nest [] t ts) ∙ sym (visit_transform2-nested (t ∷ ts))
