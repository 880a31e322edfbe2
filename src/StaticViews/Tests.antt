-- ===== src/StaticViews/Tests.antt =====
-- Views of a short text, and of a vector, which has no `traits_type`.
use vcpkg_test.Prelude.{ℕ, List, [], ◌∷◌, Bool, true, false, ◌≡◌, some, none, codes}
use vcpkg_test.StaticViews.{Returned, to_span, to_string_view}
use vcpkg_test.StaticViews.RightSized.{to_span-returned}

abbrev standard : Bool → List ℕ → Returned ℕ
standard traits items = record {
  has_begin = true;
  has_end = true;
  has_size = true;
  has_value_type = true;
  has_traits_type = traits;
  is_constant = true;
  is_structural = true;
  is_char_like = true;
  items = items;
}

abbrev hello_world : Returned ℕ
hello_world = standard true (codes "Hello World")

hello : to_string_view 0 7 hello_world ≡ some (codes "Hello World")
hello = (to_span-returned 0 7 hello_world).1

vector : to_span 0 7 (standard false (1 ∷ 2 ∷ [])) ≡ some (1 ∷ 2 ∷ [])
vector = (to_span-returned 0 7 (standard false (1 ∷ 2 ∷ []))).0

no_string : to_string_view 0 7 (standard false (1 ∷ 2 ∷ [])) ≡ none
no_string = (to_span-returned 0 7 (standard false (1 ∷ 2 ∷ []))).1

-- A lambda that captures, and elements whose type is not structural, have no view.
captured : to_span 0 7 (record hello_world { is_constant = false }) ≡ none
captured = (to_span-returned 0 7 (record hello_world { is_constant = false })).0

not_structural : to_span 0 7 (record hello_world { is_structural = false }) ≡ none
not_structural = (to_span-returned 0 7 (record hello_world { is_structural = false })).0
