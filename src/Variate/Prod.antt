-- ===== src/Variate/Prod.antt =====
-- `prod::code` … `prod::code3` and `prod::comp3` of src/variate.cpp.
use vcpkg_test.Prelude.{
  ℕ, ◌≤◌, ◌≡◌, refl, Bool, true, false, ◌&&◌, Option, some, List, [], ◌∷◌, Bytes, codes, leb, ltb,
  if◌then◌else◌, All, ℤ, pos, negsuc, Bool-cases, inl, inr,
}
use native.Mathlib.Decide.{ℕ_discrete}
use vcpkg_test.Variate.{Callable, Variant, make_variant}
use vcpkg_test.Variate.Injection.{DistinctTypes}
use vcpkg_test.Variate.MakeVariant.{make_variant_lem}

pub data CxxType : Type 0 where
  float_type int_type string_type const_char_pointer_type : CxxType

pub CxxType-discrete : Discrete CxxType
CxxType-discrete = hlevel

abbrev leb_int : ℤ → ℕ → Bool
leb_int (pos n) k = leb n k
leb_int (negsuc n) k = true

abbrev gtb_int : ℤ → ℕ → Bool
gtb_int (pos n) k = ltb k n
gtb_int (negsuc n) k = false

-- The literals that the functions pass: `dyadic m e` is m / 2 ^ e.
pub data Value : Type 0 where
  dyadic : ℕ → ℕ → Value
  int : ℕ → Value
  text : Bytes → Value

pub Value-discrete : Discrete Value
Value-discrete = hlevel (ℕ_discrete)

abbrev Code : Type 0
Code = Callable CxxType Value

abbrev pub long_text : Value
long_text = text (codes "a very very long test test")

abbrev pub returning : List CxxType → ℕ → Value → Code
returning ts k v = record { sites = ts; site = k; payload = v }

unfoldable pub code : Bool → Code
code ok =
    let sites = int_type ∷ string_type ∷ [] in
    if ok then returning sites 0 (int 42) else returning sites 1 long_text

unfoldable pub code1 : Code
code1 = returning (int_type ∷ []) 0 (int 42)

unfoldable pub code2 : Bool → Code
code2 ok =
    let sites = float_type ∷ const_char_pointer_type ∷ [] in
    if ok then returning sites 0 (dyadic 3 1) else returning sites 1 long_text

unfoldable pub code3 : ℤ → Code
code3 ok =
    let sites = float_type ∷ int_type ∷ string_type ∷ [] in
    if leb_int ok 5
    then returning sites 0 (dyadic 3 1)
    else if gtb_int ok 5 && leb_int ok 10
    then returning sites 1 (int 42)
    else returning sites 2 long_text

-- A `std::variant<float, int, std::string>` from a value of one of its alternatives.
abbrev alternative3 : ℕ → CxxType → Value → Variant CxxType Value
alternative3 k t v = record {
  types = float_type ∷ int_type ∷ string_type ∷ [];
  alternative = k;
  object = record { type = t; payload = v };
}

unfoldable pub comp3 : ℤ → Variant CxxType Value
comp3 ok =
    if leb_int ok 5
    then alternative3 0 float_type (dyadic 3 1)
    else if gtb_int ok 5 && leb_int ok 10
    then alternative3 1 int_type (int 42)
    else alternative3 2 string_type long_text

abbrev pub made : (CxxType → ℕ) → ℕ → Code → Option (Variant CxxType Value)
made = make_variant CxxType-discrete

pub three_distinct : DistinctTypes (float_type ∷ int_type ∷ string_type ∷ [])
three_distinct = (((λ e. cc e), ((λ e. cc e), tt)), (((λ e. cc e), tt), (tt, tt)))

-- Where the three types fit the buffer, `make_variant` of `code3` is the hand-written `comp3`, for
-- every argument.
pub code3-comp3 :
    (size_of : CxxType → ℕ) (size : ℕ)
    → size_of float_type ≤ size
    → size_of int_type ≤ size
    → size_of string_type ≤ size
    → (ok : ℤ) → made size_of size (code3 ok) ≡ some (comp3 ok)
unfolding code3 comp3
code3-comp3 size_of size f i s ok = elim (Bool-cases (leb_int ok 5)) [
  | inl e ↦ rw e (
      make_variant_lem CxxType-discrete size_of size (returning sites 0 (dyadic 3 1)) refl
        three_distinct fits)
  | inr e ↦ rw e (elim (Bool-cases (gtb_int ok 5 && leb_int ok 10)) [
    | inl e' ↦ rw e' (
        make_variant_lem CxxType-discrete size_of size (returning sites 1 (int 42)) refl
          three_distinct fits)
    | inr e' ↦ rw e' (
        make_variant_lem CxxType-discrete size_of size (returning sites 2 long_text) refl
          three_distinct fits)
  ])
]
  where
    sites : List CxxType
    sites = float_type ∷ int_type ∷ string_type ∷ []

    fits : All (λ u. size_of u ≤ size) (float_type ∷ int_type ∷ string_type ∷ [])
    fits = (f, (i, (s, tt)))
