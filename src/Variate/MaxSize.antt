-- ===== src/Variate/MaxSize.antt =====
-- `max_value` of src/variate.cpp, which `MAX_SIZE` is.
use vcpkg_test.Prelude.{
  ℕ, ◌≤◌, ◌≡◌, refl, some, true, List, [], ◌∷◌, arith, mem, All, ltb, if◌then◌else◌,
}
use vcpkg_test.Variate.{max_element_unchecked, max_value}

le-max : (found : ℕ) (xs : List ℕ) → found ≤ max_element_unchecked found xs
le-max found [] = omega arith
le-max found (x ∷ xs) = ground (arith, le-max (if ltb found x then x else found) xs)

All-max : (found : ℕ) (xs : List ℕ) → All (λ x. x ≤ max_element_unchecked found xs) xs
All-max found [] = tt
All-max found (x ∷ xs) =
    let found' = if ltb found x then x else found in
    (ground (arith, le-max found' xs), All-max found' xs)

mem-max : (found : ℕ) (xs : List ℕ) → mem (max_element_unchecked found xs) (found ∷ xs) ≡ true
mem-max found [] = ground arith
mem-max found (x ∷ xs) = ground (arith, mem-max (if ltb found x then x else found) xs)

pub max-le :
    (bound found : ℕ) (xs : List ℕ)
    → found ≤ bound
    → All (λ x. x ≤ bound) xs
    → max_element_unchecked found xs ≤ bound
max-le bound found [] h all = h
max-le bound found (x ∷ xs) h (hx, all) =
    max-le bound (if ltb found x then x else found) xs (ground arith) all

-- For a list that is not empty, `max_value` yields a size; it is one of the list's, and none of
-- them is larger.
pub max_value-greatest :
    (x : ℕ) (xs : List ℕ)
    → (m : ℕ) × (max_value (x ∷ xs) ≡ some m) × All (λ y. y ≤ m) (x ∷ xs) × (mem m (x ∷ xs) ≡ true)
unfolding max_value
max_value-greatest x xs =
    (max_element_unchecked x xs, refl, (le-max x xs, All-max x xs), mem-max x xs)
