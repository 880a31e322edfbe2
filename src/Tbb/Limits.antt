-- ===== src/Tbb/Limits.antt =====
-- The limits of the parallelism in src/tbb/main.cpp.
use vcpkg_test.Prelude.{
  ℕ, ◌≡◌, refl, ap, Bool, true, false, Option, none, some, List, [], ◌∷◌, ◌++◌, leb, if◌then◌else◌,
  ◌>>=◌, ◌||◌,
}
use vcpkg_test.Tbb.{
  Owner, of_main, of_lib_a, Event, begin_control, end_control, parallel_for_each, parallel_sort,
  activate_license, read_model, compute, poly_representation, visit_part, accept, read_and_accept,
  body, main,
}

abbrev same_owner : Owner → Owner → Bool
same_owner of_main of_main = true
same_owner of_lib_a of_lib_a = true
same_owner _ _ = false

-- The limits in force, innermost first.
abbrev Limits : Type 0
Limits = List (Owner × ℕ)

-- One of the limits in force is at most `n`: the least one counts.
abbrev pub at_most : ℕ → Limits → Bool
at_most n [] = false
at_most n ((owner, limit) ∷ limits) = leb limit n || at_most n limits

-- The limits behind an event; `none` is an algorithm that may use more than `n` threads, or a limit
-- that ends while it is not the innermost one.
abbrev pub limited_step : ℕ → Limits → Event → Option Limits
limited_step n limits (begin_control owner limit) = some ((owner, limit) ∷ limits)
limited_step n [] (end_control owner) = none
limited_step n ((o, l) ∷ limits) (end_control owner) =
    if same_owner o owner then some limits else none
limited_step n limits (parallel_for_each xs) = if at_most n limits then some limits else none
limited_step n limits (parallel_sort xs) = if at_most n limits then some limits else none
limited_step n limits activate_license = some limits
limited_step n limits read_model = some limits
limited_step n limits (compute brep) = some limits
limited_step n limits poly_representation = some limits

abbrev pub limited : ℕ → Limits → List Event → Option Limits
limited n limits [] = some limits
limited n limits (event ∷ events) = do
  limits' ← limited_step n limits event
  limited n limits' events

limited-accept :
    (n : ℕ) (limits : Limits) (parts : List (Option ℕ)) (events : List Event)
    → limited n limits (accept parts ++ events) ≡ limited n limits events
unfolding accept visit_part
limited-accept n limits [] events = refl
limited-accept n limits (none ∷ parts) events = limited-accept n limits parts events
limited-accept n limits (some brep ∷ parts) events = limited-accept n limits parts events

-- The events of limits and of algorithms.
abbrev pub parallel_events : List Event → List Event
parallel_events [] = []
parallel_events (begin_control owner n ∷ events) = begin_control owner n ∷ parallel_events events
parallel_events (end_control owner ∷ events) = end_control owner ∷ parallel_events events
parallel_events (parallel_for_each xs ∷ events) = parallel_for_each xs ∷ parallel_events events
parallel_events (parallel_sort xs ∷ events) = parallel_sort xs ∷ parallel_events events
parallel_events (activate_license ∷ events) = parallel_events events
parallel_events (read_model ∷ events) = parallel_events events
parallel_events (compute brep ∷ events) = parallel_events events
parallel_events (poly_representation ∷ events) = parallel_events events

parallel_events-accept :
    (parts : List (Option ℕ)) (events : List Event)
    → parallel_events (accept parts ++ events) ≡ parallel_events events
unfolding accept visit_part
parallel_events-accept [] events = refl
parallel_events-accept (none ∷ parts) events = parallel_events-accept parts events
parallel_events-accept (some brep ∷ parts) events = parallel_events-accept parts events

-- What the limits and the algorithms of a run should be.
abbrev pub wanted_events : List Event
wanted_events =
    begin_control of_main 2
    ∷ parallel_for_each (0 ∷ 1 ∷ 2 ∷ [])
    ∷ begin_control of_lib_a 2
    ∷ parallel_for_each (0 ∷ 1 ∷ 2 ∷ [])
    ∷ parallel_sort (0 ∷ 1 ∷ 2 ∷ [])
    ∷ end_control of_lib_a
    ∷ end_control of_main
    ∷ []

-- Whatever the CAD library answers: every algorithm of TBB in `main` and in `lib::a` runs while the
-- parallelism is limited to 2; the limit of `main` begins first and ends last, also where `main`
-- returns early, and that of `lib::a` is in force inside of it for the two algorithms there.
pub limited-main :
    (activated : Bool) (parts : Option (List (Option ℕ)))
    → (limited 2 [] (main activated parts).0 ≡ some [])
      × (parallel_events (main activated parts).0 ≡ wanted_events)
unfolding main body read_and_accept
limited-main false parts = (refl, refl)
limited-main true none = (refl, refl)
limited-main true (some parts) = (
  limited-accept 2 ((of_main, 2) ∷ []) parts (end_control of_main ∷ []),
  ap
      (λ events.
        begin_control of_main 2
        ∷ parallel_for_each (0 ∷ 1 ∷ 2 ∷ [])
        ∷ begin_control of_lib_a 2
        ∷ parallel_for_each (0 ∷ 1 ∷ 2 ∷ [])
        ∷ parallel_sort (0 ∷ 1 ∷ 2 ∷ [])
        ∷ end_control of_lib_a
        ∷ events)
      (parallel_events-accept parts (end_control of_main ∷ [])),
)
