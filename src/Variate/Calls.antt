-- ===== src/Variate/Calls.antt =====
-- `a`, `b` and `main` of src/variate.cpp with their assertions, as a build that has `assert` runs
-- them: `none` is also a `static_assert` that does not hold, an `assert` that aborts, and
-- `std::bad_variant_access`.
use vcpkg_test.Prelude.{
  ℕ, ◌≤◌, ◌≡◌, refl, Bool, true, false, Option, none, some, List, [], ◌∷◌, if◌then◌else◌, All, ℤ,
  pos, ◌>>=◌, ◌==◌, get_elem?,
}
use vcpkg_test.Variate.{Variant, when_same}
use vcpkg_test.Variate.Injection.{DistinctTypes}
use vcpkg_test.Variate.MakeVariant.{make_variant_lem, when_same_self}
use vcpkg_test.Variate.Prod.{
  CxxType, CxxType-discrete, float_type, int_type, string_type, const_char_pointer_type, Value,
  Value-discrete, dyadic, int, long_text, code, code1, code2, code3, made, returning,
  three_distinct,
}

-- `std::get<k>(v)`
unfoldable pub std_get : ℕ → Variant CxxType Value → Option Value
std_get k v = if v.alternative == k then some v.object.payload else none

-- `assert(expected == actual)`
unfoldable pub assert_equal : Value → Value → Option (Unit {0})
assert_equal expected actual = when_same (Value-discrete expected actual) tt

-- `static_assert(std::is_same_v<decltype(v), std::variant<types...>>)`
unfoldable pub assert_types : List CxxType → Variant CxxType Value → Option (Unit {0})
assert_types types v = when_same (types-discrete types v.types) tt
  where
    types-discrete : Discrete (List CxxType)
    types-discrete = hlevel (CxxType-discrete)

unfoldable pub a : (CxxType → ℕ) → ℕ → Bool → Option (Variant CxxType Value)
a size_of size ok = do
  r ← made size_of size (code2 ok)
  _ ← assert_types (float_type ∷ const_char_pointer_type ∷ []) r
  _ ←
      if ok
      then (std_get 0 r >>= assert_equal (dyadic 3 1))
      else (std_get 1 r >>= assert_equal long_text)
  some r

unfoldable pub b : (CxxType → ℕ) → ℕ → Option (Variant CxxType Value)
b size_of size = do
  r ← made size_of size code1
  _ ← assert_types (int_type ∷ []) r
  _ ← std_get 0 r >>= assert_equal (int 42)
  some r

unfoldable pub main : (CxxType → ℕ) → ℕ → Option ℤ
main size_of size = do
  _ ← a size_of size true
  _ ← a size_of size false
  v ← made size_of size (code true)
  _ ← assert_types (int_type ∷ string_type ∷ []) v
  _ ← std_get 0 v >>= assert_equal (int 42)
  w ← made size_of size (code3 (pos 12))
  _ ← std_get 2 w >>= assert_equal long_text
  some (pos 0)

assert_equal_self : (v : Value) → assert_equal v v ≡ some tt
unfolding assert_equal
assert_equal_self v = when_same_self (Value-discrete v v)

assert_types_self : (v : Variant CxxType Value) → assert_types v.types v ≡ some tt
unfolding assert_types
assert_types_self v = when_same_self _

abbrev pub variant_of : List CxxType → ℕ → CxxType → Value → Variant CxxType Value
variant_of types k t v = record {
  types = types;
  alternative = k;
  object = record { type = t; payload = v };
}

-- What the assertions of `a` say of its variant.
abbrev pub returned_by_a : Bool → Variant CxxType Value
returned_by_a true =
    variant_of (float_type ∷ const_char_pointer_type ∷ []) 0 float_type (dyadic 3 1)
returned_by_a false =
    variant_of (float_type ∷ const_char_pointer_type ∷ []) 1 const_char_pointer_type long_text

module _ (size_of : CxxType → ℕ) (size : ℕ) where
  made_lem :
      (ts : List CxxType) (k : ℕ) (t : CxxType) (v : Value)
      → get_elem? ts k ≡ some t
      → DistinctTypes ts
      → All (λ u. size_of u ≤ size) ts
      → made size_of size (returning ts k v) ≡ some (variant_of ts k t v)
  made_lem ts k t v = make_variant_lem CxxType-discrete size_of size (returning ts k v)

  module _ (f : size_of float_type ≤ size) (p : size_of const_char_pointer_type ≤ size) where
    a_lem : (ok : Bool) → a size_of size ok ≡ some (returned_by_a ok)
    unfolding a code2 std_get
    a_lem true =
        rw
          (
            made_lem (float_type ∷ const_char_pointer_type ∷ []) 0 float_type (dyadic 3 1) refl
                (((λ e. cc e), tt), (tt, tt)) (f, (p, tt)),
            assert_types_self (returned_by_a true),
            assert_equal_self (dyadic 3 1),
          )
          refl
    a_lem false =
        rw
          (
            made_lem (float_type ∷ const_char_pointer_type ∷ []) 1 const_char_pointer_type long_text
                refl (((λ e. cc e), tt), (tt, tt)) (f, (p, tt)),
            assert_types_self (returned_by_a false),
            assert_equal_self long_text,
          )
          refl

  module _ (i : size_of int_type ≤ size) where
    b_lem : b size_of size ≡ some (variant_of (int_type ∷ []) 0 int_type (int 42))
    unfolding b code1 std_get
    b_lem =
        let r = variant_of (int_type ∷ []) 0 int_type (int 42) in
        rw
          (
            made_lem (int_type ∷ []) 0 int_type (int 42) refl (tt, tt) (i, tt),
            assert_types_self r,
            assert_equal_self (int 42),
          )
          refl

    -- Where the types fit the buffer, all assertions of `a` hold for both arguments, and those of
    -- `b`, and both return the variant that was made.
    pub asserted-a-b :
        size_of float_type ≤ size
        → size_of const_char_pointer_type ≤ size
        → (ok : Bool)
        → (a size_of size ok ≡ some (returned_by_a ok))
          × (b size_of size ≡ some (variant_of (int_type ∷ []) 0 int_type (int 42)))
    asserted-a-b f p ok = (a_lem f p ok, b_lem)

    -- Where the types fit the buffer, `main` is well-formed, no assertion of it or of `a` fails, no
    -- alternative that it reads is another than the one held, and it returns 0.
    pub main_lem :
        size_of float_type ≤ size
        → size_of const_char_pointer_type ≤ size
        → size_of string_type ≤ size
        → main size_of size ≡ some (pos 0)
    unfolding main code code3 std_get
    main_lem f p s =
        let v = variant_of (int_type ∷ string_type ∷ []) 0 int_type (int 42) in
        rw
          (
            a_lem f p true,
            a_lem f p false,
            made_lem (int_type ∷ string_type ∷ []) 0 int_type (int 42) refl
                (((λ e. cc e), tt), (tt, tt)) (i, (s, tt)),
            assert_types_self v,
            assert_equal_self (int 42),
            made_lem (float_type ∷ int_type ∷ string_type ∷ []) 2 string_type long_text refl
                three_distinct (f, (i, (s, tt))),
            assert_equal_self long_text,
          )
          refl
