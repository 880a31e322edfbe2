-- ===== src/VisitTransform.antt =====
-- src/visit_transform.h: the two ways to pass every argument through a transformer before a
-- function gets them. The templates take arguments of any types; `V` stands for the objects of all
-- of them, before and after, and `R` is what the transformer and the function return. A transformer
-- may call what it is given any number of times. `none` is a call that no template matches.
pub mod Nesting
mod Tests
use vcpkg_test.Prelude.{
  ℕ, zero, suc, Bool, true, false, ◌||◌, if◌then◌else◌, Option, none, some, List, [], ◌∷◌, ◌++◌,
  length,
}

-- An argument is an object and the category of the expression that stands for it.
pub data Category : Type 0 where
  lvalue rvalue : Category

pub record Argument (V : Type 0) : Type 0 where
  pub category : Category
  pub object : V

-- A template argument `X`, `X&` or `X&&`.
pub data TypeArgument : Type 0 where
  value lvalue_reference rvalue_reference : TypeArgument

-- `T`, as it is deduced for a parameter `T&&`.
abbrev pub deduced : Category → TypeArgument
deduced lvalue = lvalue_reference
deduced rvalue = value

-- `T&&`, by the collapse of references.
abbrev pub collapsed : TypeArgument → TypeArgument
collapsed value = rvalue_reference
collapsed lvalue_reference = lvalue_reference
collapsed rvalue_reference = rvalue_reference

abbrev is_rvalue_reference : TypeArgument → Bool
is_rvalue_reference rvalue_reference = true
is_rvalue_reference value = false
is_rvalue_reference lvalue_reference = false

abbrev is_value : TypeArgument → Bool
is_value value = true
is_value lvalue_reference = false
is_value rvalue_reference = false

-- What the transformer gets: a reference to the object, or a new one that it was moved into.
pub data Passed (V : Type 0) : Type 0 where
  by_reference moved : V → Passed V

-- `forward_as<T>(u)`
unfoldable pub forward_as : {V : Type 0} → TypeArgument → V → Passed V
forward_as t u = if is_rvalue_reference t || is_value t then moved u else by_reference u

-- The `function` of a `TransformVisitor`: the user's, or the visitor behind it with its own `T` and
-- `t`.
pub data Target (V : Type 0) : Type 0 where
  user_function : Target V
  visitor : TypeArgument → V → Target V → Target V

-- A `TransformVisitor`: its `T`, its `t` and its `function`. All visitors of a call share the
-- transformer.
pub record TransformVisitor (V : Type 0) : Type 0 where
  pub type : TypeArgument
  pub t : V
  pub function : Target V

module _ {V : Type 0} where
  -- `lhs | rhs`
  abbrev pipe : TransformVisitor V → TransformVisitor V → TransformVisitor V
  pipe lhs rhs = record lhs { function = visitor rhs.type rhs.t rhs.function }

  -- `TransformVisitor<T&&, …>{t, transformer, function}`
  abbrev visitor_of : Argument V → TransformVisitor V
  visitor_of t = record {
    type = collapsed (deduced t.category);
    t = t.object;
    function = user_function;
  }

  -- `(TransformVisitor<T&&, …>{t, transformer, function} | ...)`, a right fold.
  unfoldable pub fold_visitors : Argument V → List (Argument V) → TransformVisitor V
  fold_visitors t [] = visitor_of t
  fold_visitors t (t' ∷ ts) = pipe (visitor_of t) (fold_visitors t' ts)

module _ {V R : Type 0} (transformer : (Argument V → R) → Passed V → R)
    (function : List (Argument V) → R) where
  -- `detail::visit_transform2`; the first argument is N - 1. `std::forward` keeps the category of
  -- an argument.
  unfoldable pub visit_transform2_detail : ℕ → Argument V → List (Argument V) → R
  visit_transform2_detail zero t args =
      transformer (λ transformed_t. function (args ++ transformed_t ∷ []))
        (forward_as (deduced t.category) t.object)
  visit_transform2_detail (suc n) t [] =
      transformer (λ transformed_t. visit_transform2_detail n transformed_t [])
        (forward_as (deduced t.category) t.object)
  visit_transform2_detail (suc n) t (t' ∷ args) =
      transformer (λ transformed_t. visit_transform2_detail n t' (args ++ transformed_t ∷ []))
        (forward_as (deduced t.category) t.object)

  unfoldable pub visit_transform2 : List (Argument V) → Option R
  visit_transform2 [] = none
  visit_transform2 (t ∷ ts) = some (visit_transform2_detail (length ts) t ts)

  -- `TransformVisitor::operator()` of what is called.
  unfoldable pub call : Target V → List (Argument V) → R
  call user_function args = function args
  call (visitor type t f) args =
      transformer (λ transformed_t. call f (args ++ transformed_t ∷ [])) (forward_as type t)

  unfoldable pub visit_transform : List (Argument V) → Option R
  visit_transform [] = none
  visit_transform (t ∷ ts) =
      let folded = fold_visitors t ts in
      some (call (visitor folded.type folded.t folded.function) [])
