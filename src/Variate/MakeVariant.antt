-- ===== src/Variate/MakeVariant.antt =====
-- `make_variant` of src/variate.cpp: the variant that is made.
use vcpkg_test.Prelude.{
  ℕ, zero, suc, ◌+◌, ◌≤◌, ◌≡◌, ◌∙◌, refl, sym, ap, subst, some, true, false, List, [], ◌∷◌, map,
  arith, All, length, take, get_elem?, leb, ◌==◌,
}
use vcpkg_test.Variate.{
  Callable, erase, to_variant_recursive, to_variant, make_variant, max_value, max_element_unchecked,
  when_same,
}
use vcpkg_test.Variate.MaxSize.{max-le}
use vcpkg_test.Variate.Injection.{
  take_all, get-lt, get-upfrom, DistinctTypes, instantiate_all_first, last_flag_instantiation_lem,
}

pub when_same_self : {A X : Type 0} {a : A} {x : X} (d : Dec (a ≡ a)) → when_same d x ≡ some x
when_same_self (yes e) = refl
when_same_self (no e) = absurd (e refl)

All-map :
    {T : Type 0} (size_of : T → ℕ) (size : ℕ) (ts : List T)
    → All (λ u. size_of u ≤ size) ts
    → All (λ x. x ≤ size) (map size_of ts)
All-map size_of size [] fits = tt
All-map size_of size (u ∷ ts) (fu, fits) = (fu, All-map size_of size ts fits)

max_fits :
    {T : Type 0} (size_of : T → ℕ) (size k : ℕ) (ts : List T) {t : T}
    → get_elem? ts k ≡ some t
    → All (λ u. size_of u ≤ size) ts
    → (m : ℕ) × (max_value (map size_of ts) ≡ some m) × (leb m size ≡ true)
unfolding max_value
max_fits size_of size k [] e fits = absurd (cc)
max_fits size_of size k (u ∷ ts) e (fu, fits) =
    let le = max-le size (size_of u) (map size_of ts) fu (All-map size_of size ts fits) in
    (max_element_unchecked (size_of u) (map size_of ts), refl, ground arith)

module _ {T V : Type 0} (same_type : Discrete T) where
  to_variant_recursive_lem :
      (types : List T) (i k : ℕ) (ts : List T) (t : T) (v : V)
      → get_elem? ts k ≡ some t
      → to_variant_recursive same_type types i ts (erase (i + k) t v)
        ≡ some (record {
          types = types;
          alternative = i + k;
          object = record { type = t; payload = v };
        })
  unfolding to_variant_recursive
  to_variant_recursive_lem types i k [] t v e = absurd (cc)
  to_variant_recursive_lem types i zero (u ∷ ts) t v e =
      let same : u ≡ t = cc in
      let here : (i + 0 == i) ≡ true = ground arith in
      let zero_more : i + 0 ≡ i = omega arith in
      rw (here, same, when_same_self (same_type t t))
        (λ j. some (record {
          types = types;
          alternative = sym zero_more j;
          object = record { type = t; payload = v };
        }))
  to_variant_recursive_lem types i (suc k) (u ∷ ts) t v e =
      let behind : (i + suc k == i) ≡ false = ground arith in
      let step : suc i + k ≡ i + suc k = omega arith in
      rw behind (
        subst
          (λ n.
            to_variant_recursive same_type types (suc i) ts (erase n t v)
            ≡ some (record {
              types = types;
              alternative = n;
              object = record { type = t; payload = v };
            }))
          step (to_variant_recursive_lem types (suc i) k ts t v e))

  -- For a function that returns from one of its call sites, and call sites whose types all differ
  -- and fit the buffer, `make_variant` is well-formed and returns a `std::variant` over the types
  -- of the call sites, in order; it holds the value that was passed, at the alternative of the call
  -- site that the function returned from.
  pub make_variant_lem :
      (size_of : T → ℕ) (size : ℕ) (f : Callable T V) {t : T}
      → get_elem? f.sites f.site ≡ some t
      → DistinctTypes f.sites
      → All (λ u. size_of u ≤ size) f.sites
      → make_variant same_type size_of size f
        ≡ some (record {
          types = f.sites;
          alternative = f.site;
          object = record { type = t; payload = f.payload };
        })
  unfolding make_variant to_variant
  make_variant_lem size_of size f {t} at distinct fits =
      let ts = f.sites in
      let long = get-lt ts f.site at in
      let (c, e, h) = instantiate_all_first same_type (suc (length ts)) ts distinct (omega arith) in
      let (last, e', at_end) =
        last_flag_instantiation_lem (length ts) 0 c.flags ts h (omega arith) (omega arith) in
      let (m, max, ok) = max_fits size_of size f.site ts at fits in
      let types : c.flags last ≡ some ts =
        h.defined last (omega arith) ∙ ap some (ap (λ n. take n ts) at_end ∙ take_all ts) in
      rw (e, get-upfrom 0 f.site ts at, at, e', types, max, ok)
        (to_variant_recursive_lem ts 0 f.site ts t f.payload at ∙ (λ j. some (record {
          types = ts;
          alternative = zero_add j;
          object = record { type = t; payload = f.payload };
        })))
    where
      zero_add : 0 + f.site ≡ f.site
      zero_add = omega arith
