-- ===== src/Variate/Injection.antt =====
-- The flags that the call sites of one `variate` of src/variate.cpp inject, and the last one.
use vcpkg_test.Prelude.{
  ◌≢◌, All, ℕ, zero, suc, ◌+◌, ◌≤◌, ◌<◌, ◌≡◌, ◌∙◌, refl, sym, ap, subst, none, some, false, List,
  [], ◌∷◌, ◌++◌, arith, length, length-append, take, get_elem?, ltb, if◌then◌else◌, ◌==◌,
  Bool-cases, inl, inr, append-nil, append_assoc, ltb→lt, ltb→le, ==→eq,
}
use vcpkg_test.Variate.{
  Instantiated, nothing_instantiated, choose, if_same, Flags, no_flags, inject, flag_types,
  instantiate_next_flag, instantiate_all, last_flag_instantiation,
}

module _ {T : Type 0} where
  -- The flags below `length ts` are injected, each with its types in front; no others are.
  pub record Holds (flags : Flags T) (ts : List T) : Type 0 where
    pub defined : (i : ℕ) → i < length ts → flags i ≡ some (take (suc i) ts)
    pub undefined : (i : ℕ) → length ts ≤ i → flags i ≡ none

  pub Holds-none : Holds no_flags []
  Holds-none = record { defined = λ i lt. elim lt [ ]; undefined = λ i le. refl }

  pub take_all : (ts : List T) → take (length ts) ts ≡ ts
  take_all [] = refl
  take_all (t ∷ ts) = ap (λ us. t ∷ us) (take_all ts)

  take-append : (n : ℕ) (ts us : List T) → n ≤ length ts → take n (ts ++ us) ≡ take n ts
  take-append zero ts us h = refl
  take-append (suc n) [] us h = absurd (omega arith)
  take-append (suc n) (t ∷ ts) us h = ap (λ vs. t ∷ vs) (take-append n ts us (omega arith))

  flag_types_lem :
      (t : T) (flags : Flags T) (ts : List T)
      → Holds flags ts
      → flag_types t (length ts) flags ≡ some (ts ++ t ∷ [])
  flag_types_lem t flags [] h = refl
  flag_types_lem t flags (u ∷ ts) h =
      rw (h.defined (length ts) (omega arith)) (ap (λ us. some (us ++ t ∷ [])) (take_all (u ∷ ts)))

  inject_lem :
      (t : T) (flags : Flags T) (ts : List T)
      → Holds flags ts
      → (flags' : Flags T) × (inject t (length ts) flags ≡ some flags')
        × Holds flags' (ts ++ t ∷ [])
  inject_lem t flags ts h = (
    (λ i. if i == length ts then some (ts ++ t ∷ []) else flags i),
    rw (flag_types_lem t flags ts h),
    record {
      defined = λ i lt. elim (Bool-cases (i == length ts)) [
        | inl e ↦
            rw e (ap some (sym (rw (==→eq i (length ts) e, ← long) (take_all (ts ++ t ∷ [])))))
        | inr e ↦
            let below : i < length ts = ground (arith, long) in
            rw e (h.defined i below ∙ ap some (sym (take-append (suc i) ts (t ∷ []) below)))
      ];
      undefined = λ i le.
          let e : (i == length ts) ≡ false = ground (arith, long) in
          rw e (h.undefined i (omega (arith, long)));
    },
  )
    where
      long : length (ts ++ t ∷ []) ≡ suc (length ts)
      long = omega (arith, length-append ts (t ∷ []))

  pub last_flag_instantiation_lem :
      (depth i : ℕ) (flags : Flags T) (ts : List T)
      → Holds flags ts
      → i < length ts
      → length ts ≤ i + depth
      → (last : ℕ) × (last_flag_instantiation depth i flags ≡ some last) × (suc last ≡ length ts)
  unfolding last_flag_instantiation
  last_flag_instantiation_lem zero i flags ts h lt deep = absurd (omega arith)
  last_flag_instantiation_lem (suc depth) i flags ts h lt deep =
      elim (Bool-cases (ltb (suc i) (length ts))) [
        | inl more ↦
            rw
              (
                h.defined i lt,
                last_flag_instantiation,
                h.defined (suc i) (ltb→lt (suc i) (length ts) more),
              )
              (last_flag_instantiation_lem depth (suc i) flags ts h
                (ltb→lt (suc i) (length ts) more) (omega arith))
        | inr no_more ↦
            let end = ltb→le (suc i) (length ts) no_more in
            (i, rw (h.defined i lt, last_flag_instantiation, h.undefined (suc i) end), omega arith)
      ]

  pub get-lt : (ts : List T) (k : ℕ) {t : T} → get_elem? ts k ≡ some t → k < length ts
  get-lt [] k e = absurd (cc)
  get-lt (u ∷ ts) zero e = omega arith
  get-lt (u ∷ ts) (suc k) e = omega (arith, get-lt ts k e)

  -- The numbers from `n` on, one for each call site.
  abbrev pub upfrom : ℕ → List T → List ℕ
  upfrom n [] = []
  upfrom n (t ∷ ts) = n ∷ upfrom (suc n) ts

  pub get-upfrom :
      (n k : ℕ) (ts : List T) {t : T}
      → get_elem? ts k ≡ some t
      → get_elem? (upfrom n ts) k ≡ some (n + k)
  get-upfrom n k [] e = absurd (cc)
  get-upfrom n zero (u ∷ ts) e = ap some (omega arith)
  get-upfrom n (suc k) (u ∷ ts) e = get-upfrom (suc n) k ts e ∙ ap some (omega arith)

  -- No two call sites pass the same type.
  abbrev pub DistinctTypes : List T → Type 0
  DistinctTypes [] = Unit
  DistinctTypes (t ∷ ts) = All (λ u. u ≢ t) ts × DistinctTypes ts

  -- No specialization for a type is instantiated.
  abbrev IsNew : Instantiated T → T → Type 0
  IsNew c t = (i : ℕ) → c.chosen t i ≡ none

  -- The next flag is injected behind the last one, and no specialization for another type is
  -- instantiated.
  record Injected (t : T) (c c' : Instantiated T) (ts : List T) : Type 0 where
    pub holds : Holds c'.flags (ts ++ t ∷ [])
    pub others : (u : T) → u ≢ t → (i : ℕ) → c'.chosen u i ≡ c.chosen u i

if_same_no : {A X : Type 0} (d : Dec A) (x y : X) → ¬ A → if_same d x y ≡ y
if_same_no (yes e) x y ne = absurd (ne e)
if_same_no (no e) x y ne = refl

module _ {T : Type 0} (same_type : Discrete T) where
  instantiate_next_flag_lem :
      (depth : ℕ) (t : T) (index : ℕ) (c : Instantiated T) (ts : List T)
      → Holds c.flags ts
      → IsNew c t
      → index ≤ length ts
      → length ts < index + depth
      → (c' : Instantiated T) × (instantiate_next_flag same_type depth t index c
          ≡ some (length ts, c'))
        × Injected t c c' ts
  unfolding instantiate_next_flag
  instantiate_next_flag_lem zero t index c ts h new le deep = absurd (omega arith)
  instantiate_next_flag_lem (suc depth) t index c ts h new le deep =
      elim (Bool-cases (ltb index (length ts))) [
        | inl lt ↦
            let (c', e, injected) =
              instantiate_next_flag_lem depth t (suc index) c ts h new (ltb→lt index (length ts) lt)
                (omega arith) in
            (
              choose same_type t index (length ts) c',
              rw
                  (
                    h.defined index (ltb→lt index (length ts) lt),
                    instantiate_next_flag,
                    new index,
                    e,
                  )
                  refl,
              record {
                holds = injected.holds;
                others = λ u ne i.
                    if_same_no (same_type u t) _ (c'.chosen u i) ne ∙ injected.others u ne i;
              },
            )
        | inr ge ↦
            let here : index ≡ length ts = omega (arith, ltb→le index (length ts) ge) in
            let (flags', e, h') = inject_lem t c.flags ts h in
            (
              record { flags = flags'; chosen = c.chosen },
              rw (h.undefined index (omega arith), instantiate_next_flag, here, e) refl,
              record { holds = h'; others = λ u ne i. refl },
            )
      ]

  still-IsNew :
      (t : T) (c c' : Instantiated T) (done us : List T)
      → Injected t c c' done
      → All (λ u. u ≢ t) us
      → All (IsNew c) us
      → All (IsNew c') us
  still-IsNew t c c' done [] injected others new = tt
  still-IsNew t c c' done (u ∷ us) injected (ne, others) (n, new) =
      ((λ i. injected.others u ne i ∙ n i), still-IsNew t c c' done us injected others new)

  pub instantiate_all_lem :
      (depth : ℕ) (c : Instantiated T) (done ts : List T)
      → Holds c.flags done
      → All (IsNew c) ts
      → DistinctTypes ts
      → length done + length ts < depth
      → (c' : Instantiated T) × (instantiate_all same_type depth ts c
          ≡ some (upfrom (length done) ts, c'))
        × Holds c'.flags (done ++ ts)
  unfolding instantiate_all
  instantiate_all_lem depth c done [] h new distinct deep =
      (c, refl, subst (Holds c.flags) (sym (append-nil done)) h)
  instantiate_all_lem depth c done (t ∷ ts) h (n, new) (others, distinct) deep =
      let (c1, e1, injected) =
        instantiate_next_flag_lem depth t 0 c done h n (omega arith) (omega arith) in
      let long : length (done ++ t ∷ []) ≡ suc (length done) =
        omega (arith, length-append done (t ∷ [])) in
      let (c2, e2, h2) =
        instantiate_all_lem depth c1 (done ++ t ∷ []) ts injected.holds
          (still-IsNew t c c1 done ts injected others new) distinct (omega arith) in
      (c2, rw (e1, e2, long) refl, subst (Holds c2.flags) (append_assoc done (t ∷ []) ts) h2)

  all-IsNew : (ts : List T) → All (IsNew nothing_instantiated) ts
  all-IsNew [] = tt
  all-IsNew (t ∷ ts) = ((λ i. refl), all-IsNew ts)

  pub instantiate_all_first :
      (depth : ℕ) (ts : List T)
      → DistinctTypes ts
      → length ts < depth
      → (c : Instantiated T) × (instantiate_all same_type depth ts nothing_instantiated
          ≡ some (upfrom 0 ts, c))
        × Holds c.flags ts
  instantiate_all_first depth ts distinct deep =
      instantiate_all_lem depth nothing_instantiated [] ts Holds-none (all-IsNew ts) distinct
        (omega (arith, deep))

  -- For the call sites of a body, one at least and of types that all differ, and enough depth for
  -- the compiler's recursion: the injectors get the indices 0, 1, … in the order of the call sites,
  -- the search for the last flag ends at one behind which none is injected, and that flag names the
  -- types of all call sites in order.
  pub instantiate_all-last_flag_instantiation :
      (depth : ℕ) (t : T) (ts : List T)
      → DistinctTypes (t ∷ ts)
      → length (t ∷ ts) < depth
      → (c : Instantiated T) × (last : ℕ) × (instantiate_all same_type depth
            (t ∷ ts)
            nothing_instantiated
          ≡ some (upfrom 0 (t ∷ ts), c))
        × (last_flag_instantiation depth 0 c.flags ≡ some last)
        × (c.flags last ≡ some (t ∷ ts))
        × (c.flags (suc last) ≡ none)
  instantiate_all-last_flag_instantiation depth t ts distinct deep =
      let us = t ∷ ts in
      let (c, e, h) = instantiate_all_first depth us distinct deep in
      let (last, e', at_end) =
        last_flag_instantiation_lem depth 0 c.flags us h (omega arith) (omega (arith, deep)) in
      (
        c,
        last,
        e,
        e',
        h.defined last (omega (arith, at_end)) ∙ ap some (ap (λ n. take n us) at_end ∙ take_all us),
        h.undefined (suc last) (omega (arith, at_end)),
      )
