-- ===== src/Arcus/Tests.antt =====
-- An object list on floats that are pairs of a numerator and a denominator.
use vcpkg_test.Prelude.{ℕ, ◌*◌, ◌/◌, ◌≡◌, refl, List, [], ◌∷◌, ◌++◌, map, codes, some, none}
use vcpkg_test.Arcus.{
  Object, FloatOps, Message, Polls, opened, connected, initial, connecting, main, error,
  other_message, closed, run_loop, wait_connected, amount, object_list, handle_message,
  sliced_object_list,
}
use vcpkg_test.Arcus.Loop.{
  Run, fails, takes, idles, waits, handle_all, run_loop-handle_all, main-handle_all,
}
use vcpkg_test.Arcus.Ending.{Progress, main-Progress}
use vcpkg_test.Arcus.Slicing.{updates, sliced, handle_message-object_list}

abbrev fractions : FloatOps (ℕ × ℕ)
fractions = record {
  from_int = λ n. (n, 1);
  divide = λ x y. (x.0 * y.1, x.1 * y.0);
  multiply = λ x y. (x.0 * y.0, x.1 * y.1);
  to_int = λ x. x.0 / x.1;
}

abbrev cube : Object
cube = record { id = 5; vertices = codes "v"; normals = codes "n"; indices = codes "i" }

abbrev ball : Object
ball = record { id = 6; vertices = codes "w"; normals = []; indices = [] }

half : amount fractions 1 2 ≡ 50
half = refl

handle_message-object_list_example :
    handle_message fractions (object_list (cube ∷ ball ∷ [])) (ball ∷ []) ≡ (
      cube ∷ ball ∷ [],
      updates fractions 2 0 (cube ∷ ball ∷ [])
          ++ sliced_object_list (map sliced (cube ∷ ball ∷ [])) ∷ [],
    )
handle_message-object_list_example =
    handle_message-object_list fractions (cube ∷ ball ∷ []) (ball ∷ [])

abbrev polls : Polls
polls =
    (connected, some (object_list (cube ∷ [])))
    ∷ (connected, none)
    ∷ (opened, none)
    ∷ (opened, none)
    ∷ (opened, none)
    ∷ (connected, some other_message)
    ∷ (opened, none)
    ∷ (opened, none)
    ∷ (error, none)
    ∷ []

abbrev messages : List Message
messages = object_list (cube ∷ []) ∷ other_message ∷ []

abbrev ended : Run polls messages
ended = takes (object_list (cube ∷ [])) _ _ (
    idles _ _ (
      waits (opened, none) (opened, none) (opened, none) _ _ refl refl refl
        (takes other_message _ _
          (fails (opened, none) (opened, none) (error, none) [] refl refl refl))))

run_loop-handle_all_example :
    run_loop fractions polls [] []
    ≡ some ((handle_all fractions messages []).0, [] ++ (handle_all fractions messages []).1)
run_loop-handle_all_example = run_loop-handle_all fractions polls messages ended [] []

abbrev before : Polls
before = (initial, none) ∷ (connecting, none) ∷ []

main-Progress_example :
    Progress fractions
      (before ++ (connected, some other_message) ∷ polls)
      (main fractions (before ++ (connected, some other_message) ∷ polls))
main-Progress_example = main-Progress fractions (before ++ (connected, some other_message) ∷ polls)

main_ends :
    main fractions (before ++ (connected, some other_message) ∷ polls)
    ≡ some (handle_all fractions messages [])
main_ends =
    main-handle_all fractions before (some other_message) polls messages (refl, (refl, tt)) ended

-- An attempt to connect that fails is waited for.
waits_for_ever : main fractions ((connecting, none) ∷ (error, none) ∷ (closed, none) ∷ []) ≡ none
unfolding main wait_connected
waits_for_ever = refl
