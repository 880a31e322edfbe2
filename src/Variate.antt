-- ===== src/Variate.antt =====
-- src/variate.cpp: `meta::variate` and `meta::make_variant`. `T` is the type of the C++ types that
-- the call sites pass (after decay) and `V` that of the values that they pass. `none` is an
-- ill-formed program, or `unreachable()`, or a cast to a type that the buffer does not hold.
pub mod Injection
pub mod MakeVariant
pub mod MaxSize
pub mod Prod
pub mod Calls
mod Tests
use vcpkg_test.Prelude.{
  ℕ, zero, suc, Option, none, some, List, [], ◌∷◌, ◌++◌, map, ltb, leb, ◌==◌, if◌then◌else◌, ◌>>=◌,
  get_elem?, length,
}

-- `while (++first != last) if (*found < *first) found = first;`
abbrev pub max_element_unchecked : ℕ → List ℕ → ℕ
max_element_unchecked found [] = found
max_element_unchecked found (x ∷ xs) = max_element_unchecked (if ltb found x then x else found) xs

-- An empty list has no `*result`.
unfoldable pub max_value : List ℕ → Option ℕ
max_value [] = none
max_value (x ∷ xs) = some (max_element_unchecked x xs)

-- The definitions of `flag(Flag<Index, Tag>)` that are injected so far for one `Tag`: the list of
-- the types in the `std::variant` that each names.
abbrev pub Flags : Type 0 → Type 0
Flags T = ℕ → Option (List T)

abbrev pub no_flags : {T : Type 0} → Flags T
no_flags i = none

module _ {T : Type 0} where
  -- `AppendTypeToListT<List, T>`
  abbrev append_type_to_list : List T → T → List T
  append_type_to_list types t = types ++ t ∷ []

  -- The body of the injected `flag`: the previous one's types and `t`.
  abbrev pub flag_types : T → ℕ → Flags T → Option (List T)
  flag_types t zero flags = some (t ∷ [])
  flag_types t (suc i) flags = do previous ← flags i; some (append_type_to_list previous t)

  abbrev pub inject : T → ℕ → Flags T → Option (Flags T)
  inject t index flags = do
    types ← flag_types t index flags
    some (λ i. if i == index then some types else flags i)

  -- `LastFlagInstantation<I, Tag>`: the first index that is valid while the next one is not.
  unfoldable pub last_flag_instantiation : ℕ → ℕ → Flags T → Option ℕ
  last_flag_instantiation zero i flags = none
  last_flag_instantiation (suc depth) i flags = elim (flags i) [
    | none ↦ last_flag_instantiation depth (suc i) flags
    | some types ↦ elim (flags (suc i)) [
      | none ↦ some i
      | some more ↦ last_flag_instantiation depth (suc i) flags
    ]
  ]

-- What the compiler has instantiated so far for one `Tag`: the flags, and by `T` and `Index` the
-- specializations of the overload for `int`, each with the `INDEX` of the injector that it returns.
pub record Instantiated (T : Type 0) : Type 0 where
  pub flags : Flags T
  pub chosen : T → ℕ → Option ℕ

abbrev pub nothing_instantiated : {T : Type 0} → Instantiated T
nothing_instantiated = record { flags = no_flags; chosen = λ t index. none }

abbrev pub if_same : {A X : Type 0} → Dec A → X → X → X
if_same (yes _) x y = x
if_same (no _) x y = y

module _ {T : Type 0} (same_type : Discrete T) where
  -- The specialization for `t` and `index` is instantiated.
  abbrev pub choose : T → ℕ → ℕ → Instantiated T → Instantiated T
  choose t index injector c = record {
    flags = c.flags;
    chosen = λ u i.
        if_same (same_type u t) (if i == index then some injector else c.chosen u i) (c.chosen u i);
  }

  -- The overload for `int` is there if `flag(Flag<Index, Tag>)` is, and goes on at the next index,
  -- unless this specialization is instantiated already: a compiler does that once, and its return
  -- type stays. Else the overload for `long` injects. The result is `INDEX` of the injector. The
  -- compiler recurs as deep as it has to; the fuel here is the depth.
  unfoldable pub instantiate_next_flag : ℕ → T → ℕ → Instantiated T → Option (ℕ × Instantiated T)
  instantiate_next_flag zero t index c = none
  instantiate_next_flag (suc depth) t index c = elim (c.flags index) [
    | none ↦ inject t index c.flags >>= λ flags.
        some (index, record { flags = flags; chosen = c.chosen })
    | some types ↦ elim (c.chosen t index) [
      | some injector ↦ some (injector, c)
      | none ↦ instantiate_next_flag depth t (suc index) c >>= λ next.
          some (next.0, choose t index next.0 next.1)
    ]
  ]

  -- The call sites of one `variate` in the body of a function, in order: their indices, and what is
  -- instantiated behind them.
  unfoldable pub instantiate_all : ℕ → List T → Instantiated T → Option (List ℕ × Instantiated T)
  instantiate_all depth [] c = some ([], c)
  instantiate_all depth (t ∷ ts) c = do
    (index, c') ← instantiate_next_flag depth t 0 c
    (indices, c'') ← instantiate_all depth ts c'
    some (index ∷ indices, c'')

-- The object that lives in the buffer `value`.
pub record Object (T V : Type 0) : Type 0 where
  pub type : T
  pub payload : V

pub record Erased (T V : Type 0) : Type 0 where
  pub index : ℕ
  pub value : Object T V

-- A `std::variant<types...>`: the alternative that it holds and its object.
pub record Variant (T V : Type 0) : Type 0 where
  pub types : List T
  pub alternative : ℕ
  pub object : Object T V

-- What a function that is given to `make_variant` is to the compiler and at run time: the types of
-- its call sites in order, and the call site that it returns from with the value passed there.
pub record Callable (T V : Type 0) : Type 0 where
  pub sites : List T
  pub site : ℕ
  pub payload : V

abbrev pub when_same {ℓ} : {A X : Type ℓ} → Dec A → X → Option X
when_same (yes _) x = some x
when_same (no _) x = none

module _ {T V : Type 0} where
  -- `VariateFn::operator()` at the call site `site`, whose injector has `INDEX = index`.
  abbrev pub erase : ℕ → T → V → Erased T V
  erase index t v = record { index = index; value = record { type = t; payload = v } }

  -- `std::invoke(f, args...)`
  abbrev invoke : Callable T V → List ℕ → Option (Erased T V)
  invoke f indices = do
    index ← get_elem? indices f.site
    t ← get_elem? f.sites f.site
    some (erase index t f.payload)

  module _ (same_type : Discrete T) where
    -- `std::move(*reinterpret_cast<std::variant_alternative_t<I, Variant>*>(e.value))`
    abbrev cast : T → Object T V → Option (Object T V)
    cast t o = when_same (same_type t o.type) o

    -- The third argument is the alternatives of `types` from `I` on.
    unfoldable pub to_variant_recursive : List T → ℕ → List T → Erased T V → Option (Variant T V)
    to_variant_recursive types i [] e = none
    to_variant_recursive types i (t ∷ ts) e =
        let rest = to_variant_recursive types (suc i) ts e in
        if e.index == i
        then (cast t e.value >>= λ o. some (record { types = types; alternative = i; object = o }))
        else rest

    -- `requires(MAX_SIZE<Variant> <= Size)`
    unfoldable pub to_variant : (T → ℕ) → ℕ → List T → Erased T V → Option (Variant T V)
    to_variant size_of size types e = do
      max_size ← max_value (map size_of types)
      if leb max_size size then to_variant_recursive types 0 types e else none

    unfoldable pub make_variant : (T → ℕ) → ℕ → Callable T V → Option (Variant T V)
    make_variant size_of size f = do
      (indices, c) ← instantiate_all same_type (suc (length f.sites)) f.sites nothing_instantiated
      erased ← invoke f indices
      last ← last_flag_instantiation (length f.sites) 0 c.flags
      types ← c.flags last
      to_variant size_of size types erased
