-- ===== src/StaticViews.antt =====
-- src/static_views.hpp: what a callable returns, put into an array of exactly its size at compile
-- time. A list is an array with its elements; `none` is an ill-formed program: a concept that does
-- not hold, a name that is not there, what no constant expression may do, as an access out of
-- range, or an array that is no template argument.
pub mod RightSized
mod Tests
use vcpkg_test.Prelude.{
  Bool, ◌&&◌, if◌then◌else◌, ℕ, ◌*◌, Option, none, some, List, [], ◌∷◌, ◌>>=◌, length, take,
  replicate,
}

unfoldable pub oversized_size : ℕ
oversized_size = 10 * 1024

-- What a callable returns: its elements, which names its type has, and what C++ allows. A callable
-- is constant if its call and the arrays of its elements are constant expressions, as far as they
-- stay in range: it reads no capture, a value of the element type can be made by `Value{}` and
-- assigned there, and no element points to the heap or into its array. The elements are structural
-- if an array of them may be a template argument: so is their type, and none points into a string
-- literal. They are like characters if `std::basic_string_view` takes their type.
pub record Returned (Value : Type 0) : Type 0 where
  pub has_begin : Bool
  pub has_end : Bool
  pub has_size : Bool
  pub has_value_type : Bool
  pub has_traits_type : Bool
  pub is_constant : Bool
  pub is_structural : Bool
  pub is_char_like : Bool
  pub items : List Value

module _ {Value : Type 0} where
  unfoldable pub is_iterable : Returned Value → Bool
  is_iterable returned = returned.has_begin && returned.has_end

  unfoldable pub creates_iterable : Returned Value → Bool
  creates_iterable returned = is_iterable returned

  unfoldable pub creates_string_like : Returned Value → Bool
  creates_string_like returned = creates_iterable returned && returned.has_traits_type

pub record OversizedArray (Value : Type 0) : Type 0 where
  pub buffer : List Value
  pub size : ℕ

module _ {Value : Type 0} where
  -- `std::copy` from a range to the begin of an array; the rest of the array stays.
  unfoldable pub copy : List Value → List Value → Option (List Value)
  copy [] array = some array
  copy (x ∷ xs) [] = none
  copy (x ∷ xs) (y ∷ array) = do rest ← copy xs array; some (x ∷ rest)

  -- From `begin()` to `end()`, which is `size` behind it.
  abbrev pub elements : OversizedArray Value → List Value
  elements oversized = take oversized.size oversized.buffer

-- `init` is the value of `Value{}`.
module _ {Value : Type 0} (init : Value) where
  -- Both are written with no concept for `value_type` and `size`.
  unfoldable pub to_oversized_array : Returned Value → Option (OversizedArray Value)
  to_oversized_array str =
      let filled = (do
        buffer ← copy str.items (replicate oversized_size init)
        some (record { buffer = buffer; size = length str.items })) in
      if str.has_value_type && str.has_size then filled else none

  -- `result` has no initializer; `garbage` is what it holds.
  unfoldable pub to_right_sized_array : Value → Returned Value → Option (List Value)
  to_right_sized_array garbage returned =
      let filled = (do
        oversized ← to_oversized_array returned
        copy (elements oversized) (replicate oversized.size garbage)) in
      if creates_iterable returned && returned.is_constant then filled else none

  -- `make_static<array>`, for the array of what a callable returns.
  unfoldable pub make_static : Returned Value → List Value → Option (List Value)
  make_static returned array = if returned.is_structural then some array else none

  -- `to_string_view` and `to_span` view the whole array, which is made static.
  unfoldable pub to_string_view : Value → Returned Value → Option (List Value)
  to_string_view garbage returned =
      let static_data = (do
        array ← to_right_sized_array garbage returned
        make_static returned array) in
      if creates_string_like returned && returned.is_char_like then static_data else none

  unfoldable pub to_span : Value → Returned Value → Option (List Value)
  to_span garbage returned =
      let static_data = (do
        array ← to_right_sized_array garbage returned
        make_static returned array) in
      if creates_iterable returned then static_data else none
