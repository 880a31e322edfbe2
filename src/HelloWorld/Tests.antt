-- ===== src/HelloWorld/Tests.antt =====
-- `main` with three threads that begin out of order, and with a port that is taken.
use vcpkg_test.Prelude.{
  ◌≡◌, refl, true, false, Option, some, ℤ, pos, List, if◌then◌else◌, mem, Bytes, codes, [], ◌∷◌,
  arith,
}
use vcpkg_test.Servers.{add_queues, move_queue, build, undefined_behaviour, serving}
use vcpkg_test.HelloWorld.{main, run, start_threads, thread_actions}
use vcpkg_test.HelloWorld.Health.{own_actions, is_safe, all_health_checks}
use vcpkg_test.HelloWorld.Startup.{set_up, main-own}

abbrev always_three : Bytes → Option ℤ
always_three text = some (pos 3)

abbrev three : List Bytes
three = codes "server" ∷ codes "3" ∷ []

port_taken : main always_three false three (2 ∷ 0 ∷ []) ≡ undefined_behaviour
unfolding main run build start_threads thread_actions add_queues move_queue
port_taken = refl

main-own_example :
    (main always_three true three (2 ∷ 0 ∷ 1 ∷ []) ≡ (
      if is_safe true (2 ∷ 0 ∷ 1 ∷ [])
      then serving (set_up 3) (own_actions (2 ∷ 0 ∷ 1 ∷ []))
      else undefined_behaviour))
    × (all_health_checks (own_actions (2 ∷ 0 ∷ 1 ∷ [])) ≡ (if mem 0 (2 ∷ 0 ∷ 1 ∷ []) then 1 else 0))
main-own_example =
    main-own always_three true three 3 (2 ∷ 0 ∷ 1 ∷ []) refl (refl, (refl, (refl, tt)))
      (omega arith, (omega arith, (omega arith, tt)))
