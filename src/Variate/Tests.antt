-- ===== src/Variate/Tests.antt =====
-- The assertions of `a`, `b` and `main` in src/variate.cpp, and instances of the theorems.
use vcpkg_test.Prelude.{
  List, Option, length, ◌>>=◌, pos, suc, ℕ, ◌≡◌, refl, none, some, [], ◌∷◌, arith,
}
use native.Mathlib.Decide.{ℕ_discrete}
use vcpkg_test.Variate.{
  max_value, Instantiated, nothing_instantiated, instantiate_all, instantiate_next_flag,
  last_flag_instantiation,
}
use vcpkg_test.Variate.Injection.{instantiate_all-last_flag_instantiation}
use vcpkg_test.Variate.MakeVariant.{make_variant_lem}
use vcpkg_test.Variate.Prod.{
  CxxType, CxxType-discrete, float_type, int_type, string_type, const_char_pointer_type, int,
  long_text, code3, comp3, made, returning, three_distinct, code3-comp3,
}
use vcpkg_test.Variate.Calls.{main, std_get, variant_of, main_lem}

-- The sizes on a common 64-bit machine.
abbrev size_of : CxxType → ℕ
size_of float_type = 4
size_of int_type = 4
size_of string_type = 32
size_of const_char_pointer_type = 8

main_lem_example : main size_of 256 ≡ some (pos 0)
main_lem_example = main_lem size_of 256 (omega arith) (omega arith) (omega arith) (omega arith)

bad_variant_access : std_get 1 (variant_of (int_type ∷ string_type ∷ []) 0 int_type (int 42)) ≡ none
unfolding std_get
bad_variant_access = refl

make_variant_lem_example :
    made size_of 256 (returning (float_type ∷ int_type ∷ string_type ∷ []) 2 long_text)
    ≡ some (record {
      types = float_type ∷ int_type ∷ string_type ∷ [];
      alternative = 2;
      object = record { type = string_type; payload = long_text };
    })
make_variant_lem_example =
    make_variant_lem CxxType-discrete size_of 256
      (returning (float_type ∷ int_type ∷ string_type ∷ []) 2 long_text) refl three_distinct
      (omega arith)

code3-comp3_example : made size_of 256 (code3 (pos 12)) ≡ some (comp3 (pos 12))
code3-comp3_example = code3-comp3 size_of 256 (omega arith) (omega arith) (omega arith) (pos 12)

sizes : max_value (4 ∷ 32 ∷ 8 ∷ []) ≡ some 32
unfolding max_value
sizes = refl

instantiate_all-last_flag_instantiation_example :
    (c : Instantiated CxxType) × (last : ℕ) × (instantiate_all CxxType-discrete 4
        (float_type ∷ int_type ∷ string_type ∷ [])
        nothing_instantiated
      ≡ some (0 ∷ 1 ∷ 2 ∷ [], c))
    × (last_flag_instantiation 4 0 c.flags ≡ some last)
    × (c.flags last ≡ some (float_type ∷ int_type ∷ string_type ∷ []))
    × (c.flags (suc last) ≡ none)
instantiate_all-last_flag_instantiation_example =
    instantiate_all-last_flag_instantiation CxxType-discrete 4 float_type
      (int_type ∷ string_type ∷ []) three_distinct (omega arith)

-- Types are numbers here.
abbrev indices : List ℕ → Option (List ℕ)
indices ts = do
  (found, c) ← instantiate_all ℕ_discrete (suc (length ts)) ts nothing_instantiated
  some found

-- A type that a call site behind the first one has passed already shares its alternative; the type
-- of the first call site gets a second one.
repeated_type : indices (7 ∷ 8 ∷ 8 ∷ []) ≡ some (0 ∷ 1 ∷ 1 ∷ [])
unfolding instantiate_all instantiate_next_flag ℕ_discrete
repeated_type = refl

repeated_first_type : indices (8 ∷ 8 ∷ 7 ∷ 8 ∷ []) ≡ some (0 ∷ 1 ∷ 2 ∷ 1 ∷ [])
unfolding instantiate_all instantiate_next_flag ℕ_discrete
repeated_first_type = refl
