-- ===== src/Tbb/Tests.antt =====
-- A model of three parts, one of which has no boundary representation.
use vcpkg_test.Prelude.{ℕ, ◌≡◌, refl, true, Option, none, some, List, [], ◌∷◌, pos}
use vcpkg_test.Tbb.{main}
use vcpkg_test.Tbb.Limits.{limited, parallel_events, wanted_events, limited-main}
use vcpkg_test.Tbb.Meshes.{meshed, wanted, meshed-main}

abbrev model : List (Option ℕ)
model = some 4 ∷ none ∷ some 7 ∷ []

limited-main_example :
    (limited 2 [] (main true (some model)).0 ≡ some [])
    × (parallel_events (main true (some model)).0 ≡ wanted_events)
limited-main_example = limited-main true (some model)

meshed-main_example :
    (meshed (main true (some model)).0, (main true (some model)).1) ≡ wanted true (some model)
meshed-main_example = meshed-main true (some model)

meshed_model : wanted true (some model) ≡ (4 ∷ 7 ∷ [], pos 0)
meshed_model = refl
