-- ===== src/Tbb/Meshes.antt =====
-- The parts that src/tbb/main.cpp meshes.
use vcpkg_test.Prelude.{
  ℕ, ◌≡◌, refl, ap, Bool, true, false, Option, none, some, List, [], ◌∷◌, ◌++◌, ℤ, pos,
}
use vcpkg_test.Tbb.{
  Owner, of_main, Event, begin_control, end_control, parallel_for_each, parallel_sort,
  activate_license, read_model, compute, poly_representation, visit_part, accept, read_and_accept,
  body, main,
}

-- The boundary representations that are meshed, and how often a part's polygons are asked for.
abbrev pub meshed : List Event → List ℕ
meshed [] = []
meshed (compute brep ∷ events) = brep ∷ meshed events
meshed (begin_control owner n ∷ events) = meshed events
meshed (end_control owner ∷ events) = meshed events
meshed (parallel_for_each xs ∷ events) = meshed events
meshed (parallel_sort xs ∷ events) = meshed events
meshed (activate_license ∷ events) = meshed events
meshed (read_model ∷ events) = meshed events
meshed (poly_representation ∷ events) = meshed events

-- The boundary representations of a model.
abbrev pub breps : List (Option ℕ) → List ℕ
breps [] = []
breps (none ∷ parts) = breps parts
breps (some brep ∷ parts) = brep ∷ breps parts

meshed-accept :
    (parts : List (Option ℕ)) (owner : Owner)
    → meshed (accept parts ++ end_control owner ∷ []) ≡ breps parts
unfolding accept visit_part
meshed-accept [] owner = refl
meshed-accept (none ∷ parts) owner = meshed-accept parts owner
meshed-accept (some brep ∷ parts) owner = ap (◌∷◌ brep) (meshed-accept parts owner)

abbrev pub wanted : Bool → Option (List (Option ℕ)) → List ℕ × ℤ
wanted true (some parts) = (breps parts, pos 0)
wanted _ _ = ([], pos 1)

-- `main` returns 0 where the license is activated and the model is read, and then it has meshed
-- every boundary representation of the model once, in order; else it returns 1 and has meshed none.
pub meshed-main :
    (activated : Bool) (parts : Option (List (Option ℕ)))
    → (meshed (main activated parts).0, (main activated parts).1) ≡ wanted activated parts
unfolding main body read_and_accept
meshed-main false none = refl
meshed-main false (some parts) = refl
meshed-main true none = refl
meshed-main true (some parts) = ap (λ ms. (ms, pos 0)) (meshed-accept parts of_main)
