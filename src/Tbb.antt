-- ===== src/Tbb.antt =====
-- src/tbb/main.cpp and src/tbb/lib.cpp: a program that runs algorithms of TBB under a limit of the
-- parallelism, and meshes the parts of a CAD model. What the CAD library answers is given by
-- arguments; a boundary representation is its handle.
pub mod Limits
pub mod Meshes
mod Tests
use vcpkg_test.Prelude.{ℕ, Bool, Option, none, some, List, [], ◌∷◌, ◌++◌, if◌then◌else◌, ℤ, pos}

-- The function that a `global_control` is a variable of.
pub data Owner : Type 0 where
  of_main of_lib_a : Owner

-- The calls, in order. A `global_control` ends where its scope does.
pub data Event : Type 0 where
  begin_control : Owner → ℕ → Event
  end_control : Owner → Event
  parallel_for_each parallel_sort : List ℕ → Event
  activate_license read_model : Event
  compute : ℕ → Event
  poly_representation : Event

-- A `tbb::global_control g(max_allowed_parallelism, n)` around the rest of a function.
abbrev pub controlled : Owner → ℕ → List Event → List Event
controlled owner n events = begin_control owner n ∷ (events ++ end_control owner ∷ [])

-- `lib::a`
abbrev pub lib_a : List Event
lib_a =
    controlled of_lib_a 2 (parallel_for_each (0 ∷ 1 ∷ 2 ∷ []) ∷ parallel_sort (0 ∷ 1 ∷ 2 ∷ []) ∷ [])

-- `FirstFaceGetter::operator()`; the part has a boundary representation or a null one.
unfoldable pub visit_part : Option ℕ → Event
visit_part none = poly_representation
visit_part (some brep) = compute brep

-- `aModel.Accept(aVisitor)`: the visitor is called with each part.
unfoldable pub accept : List (Option ℕ) → List Event
accept [] = []
accept (part ∷ parts) = visit_part part ∷ accept parts

-- The end of `main` behind a successful activation, from the result of `Read`, and what it returns.
unfoldable pub read_and_accept : Option (List (Option ℕ)) → List Event × ℤ
read_and_accept none = (read_model ∷ [], pos 1)
read_and_accept (some parts) = (read_model ∷ accept parts, pos 0)

-- The body of `main` behind `g`, from whether the license is activated.
unfoldable pub body : Bool → Option (List (Option ℕ)) → List Event × ℤ
body activated parts =
    let rest = if activated then read_and_accept parts else ([], pos 1) in
    (parallel_for_each (0 ∷ 1 ∷ 2 ∷ []) ∷ (lib_a ++ activate_license ∷ rest.0), rest.1)

unfoldable pub main : Bool → Option (List (Option ℕ)) → List Event × ℤ
main activated parts = (controlled of_main 2 (body activated parts).0, (body activated parts).1)
