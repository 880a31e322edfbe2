-- ===== src/StaticViews/RightSized.antt =====
-- What the views of src/static_views.hpp show, and for which sizes there is one.
use vcpkg_test.Prelude.{
  Bool, true, false, ◌&&◌, Option, ◌>>=◌, ℕ, zero, suc, ◌-◌, ◌*◌, leb, Bool-cases, inl, inr,
  if◌then◌else◌, ◌≤◌, ◌<◌, ◌≡◌, refl, ap, none, some, List, [], ◌∷◌, ◌++◌, length, replicate, ◌∙◌,
  take-length-append, arith,
}
use vcpkg_test.StaticViews.{
  Returned, elements, is_iterable, creates_iterable, creates_string_like, oversized_size, copy,
  to_oversized_array, to_right_sized_array, make_static, to_span, to_string_view,
}

module _ {Value : Type 0} where
  copy-replicate :
      (xs : List Value) (n : ℕ) (y : Value)
      → length xs ≤ n
      → copy xs (replicate n y) ≡ some (xs ++ replicate (n - length xs) y)
  unfolding copy
  copy-replicate [] n y le = ap (λ k. some (replicate k y)) (omega arith)
  copy-replicate (x ∷ xs) zero y le = absurd (omega arith)
  copy-replicate (x ∷ xs) (suc n) y le =
      rw (copy-replicate xs n y (omega arith))
        (ap (λ k. some (x ∷ (xs ++ replicate k y))) (omega arith))

  copy_whole : (xs : List Value) (y : Value) → copy xs (replicate (length xs) y) ≡ some xs
  unfolding copy
  copy_whole [] y = refl
  copy_whole (x ∷ xs) y = rw (copy_whole xs y) refl

  copy_overflow :
      (xs : List Value) (n : ℕ) (y : Value) → n < length xs → copy xs (replicate n y) ≡ none
  unfolding copy
  copy_overflow [] n y lt = absurd (omega arith)
  copy_overflow (x ∷ xs) zero y lt = refl
  copy_overflow (x ∷ xs) (suc n) y lt = rw (copy_overflow xs n y (omega arith)) refl

  -- The names that both views use.
  abbrev pub has_names : Returned Value → Bool
  has_names returned =
      returned.has_begin && (returned.has_end && (returned.has_value_type && returned.has_size))

  -- What C++ asks of a view.
  abbrev pub is_viewable : Returned Value → Bool
  is_viewable returned = has_names returned && (returned.is_constant && returned.is_structural)

  -- What a view of a callable shows, if there is one.
  abbrev pub shown : Bool → Returned Value → Option (List Value)
  shown accepted returned =
      if accepted && leb (length returned.items) (10 * 1024) then some returned.items else none

  -- Both passes, by the names that the type has, and whether the callable is constant.
  passes :
      (init garbage : Value) (xs : List Value) (b e v s c : Bool)
      → (if (b && e) && c
          then ((if v && s
                then (copy xs (replicate oversized_size init) >>= λ buffer.
                    some (record { buffer = buffer; size = length xs }))
                else none)
              >>= λ oversized. copy (elements oversized) (replicate oversized.size garbage))
          else none)
        ≡ (if ((b && (e && (v && s))) && c) && leb (length xs) (10 * 1024) then some xs else none)
  unfolding oversized_size
  passes init garbage xs false e v s c = refl
  passes init garbage xs true false v s c = refl
  passes init garbage xs true true false s false = refl
  passes init garbage xs true true false s true = refl
  passes init garbage xs true true true false false = refl
  passes init garbage xs true true true false true = refl
  passes init garbage xs true true true true false = refl
  passes init garbage xs true true true true true =
      elim (Bool-cases (leb (length xs) (10 * 1024))) [
        | inl fits ↦
            rw
              (
                fits,
                copy-replicate xs (10 * 1024) init (ground arith),
                take-length-append xs (replicate (10 * 1024 - length xs) init),
              )
              (copy_whole xs garbage)
        | inr long ↦ rw (long, copy_overflow xs (10 * 1024) init (ground arith)) refl
      ]

  to_right_sized_array-shown :
      (init garbage : Value) (returned : Returned Value)
      → to_right_sized_array init garbage returned
        ≡ shown (has_names returned && returned.is_constant) returned
  unfolding to_right_sized_array to_oversized_array creates_iterable is_iterable
  to_right_sized_array-shown init garbage returned =
      passes init garbage returned.items returned.has_begin returned.has_end returned.has_value_type
        returned.has_size returned.is_constant

  -- A second test of the same names changes nothing.
  checked_twice :
      (b e g c s f : Bool) (xs : List Value)
      → (if b && e
          then ((if ((b && (e && g)) && c) && f then some xs else none) >>= λ array.
              if s then some array else none)
          else none)
        ≡ (if ((b && (e && g)) && (c && s)) && f then some xs else none)
  checked_twice false e g c s f xs = refl
  checked_twice true false g c s f xs = refl
  checked_twice true true false c s f xs = refl
  checked_twice true true true false s f xs = refl
  checked_twice true true true true false false xs = refl
  checked_twice true true true true false true xs = refl
  checked_twice true true true true true false xs = refl
  checked_twice true true true true true true xs = refl

  and_then :
      (a t f : Bool) (xs : List Value)
      → (if t then (if a && f then some xs else none) else none)
        ≡ (if (a && t) && f then some xs else none)
  and_then false false f xs = refl
  and_then false true f xs = refl
  and_then true false f xs = refl
  and_then true true f xs = refl

  nested_test :
      (a t : Bool) (x : Option (List Value))
      → (if a && t then x else none) ≡ (if t then (if a then x else none) else none)
  nested_test false false x = refl
  nested_test false true x = refl
  nested_test true false x = refl
  nested_test true true x = refl

  pub to_span-returned :
      (init garbage : Value) (returned : Returned Value)
      → (to_span init garbage returned ≡ shown (is_viewable returned) returned)
        × (to_string_view init garbage returned
            ≡ shown
                ((is_viewable returned && returned.has_traits_type) && returned.is_char_like)
                returned)
  unfolding to_span to_string_view make_static creates_string_like creates_iterable is_iterable
  to_span-returned init garbage returned =
      let array = to_right_sized_array-shown init garbage returned in
      let fits : Bool = leb (length returned.items) (10 * 1024) in
      let names : Bool = returned.has_begin && returned.has_end in
      let viewed =
        checked_twice returned.has_begin returned.has_end
          (returned.has_value_type && returned.has_size) returned.is_constant returned.is_structural
          fits returned.items in
      (
        rw array viewed,
        rw array (
            nested_test (names && returned.has_traits_type) returned.is_char_like _
            ∙ ap (λ view. if returned.is_char_like then view else none)
                (nested_test names returned.has_traits_type _
                  ∙ ap (λ view. if returned.has_traits_type then view else none) viewed
                  ∙ and_then (is_viewable returned) returned.has_traits_type fits returned.items)
            ∙ and_then (is_viewable returned && returned.has_traits_type) returned.is_char_like fits
                returned.items),
      )
