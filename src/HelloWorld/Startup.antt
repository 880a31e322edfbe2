-- ===== src/HelloWorld/Startup.antt =====
-- The whole `main` of src/asio-grpc/main.cpp.
use vcpkg_test.Prelude.{
  ℕ, ◌<◌, ◌≡◌, refl, Bool, Option, some, ℤ, pos, List, [], ◌∷◌, ◌++◌, Bytes, codes, replicate,
  if◌then◌else◌, Bool-cases, inl, inr, All, mem, Distinct,
}
use vcpkg_test.Servers.{
  Setup, add_listening_port, register_service, add_health_check_service, add_completion_queue,
  build_and_start, undefined_behaviour, serving, thread_count,
}
use vcpkg_test.Greeter.Startup.{build-replicate}
use vcpkg_test.HelloWorld.{run, main}
use vcpkg_test.HelloWorld.Health.{
  own_actions, is_safe, all_health_checks, health_checks_lem, start_threads-own,
}

-- The calls of the builder for `n` threads.
abbrev pub set_up : ℕ → List Setup
set_up n =
    add_listening_port (codes "localhost:50051")
    ∷ register_service
    ∷ add_health_check_service
    ∷ (replicate n add_completion_queue ++ build_and_start ∷ [])

run-own :
    (started : Bool) (order : List ℕ) (n : ℕ)
    → Distinct order
    → All (λ i. i < n) order
    → run started order n ≡ (
        if is_safe started order
        then serving (set_up n) (own_actions order)
        else undefined_behaviour)
unfolding run
run-own started order n distinct below = elim (Bool-cases (is_safe started order)) [
  | inl e ↦ rw (start_threads-own n started order distinct below, build-replicate n, e) refl
  | inr e ↦ rw (start_threads-own n started order distinct below, build-replicate n, e) refl
]

-- Let the arguments ask for `n` threads, which is 1 if they ask for nothing, and let threads with
-- different numbers below `n` have begun, in any order. If the server has started or thread 0 is
-- not among them, then `main` has added the port, the service and the health checks, has
-- added a queue for each of the `n` threads and has built the server behind that; each thread
-- serves requests on the queue of its own number, and the health check service is started once by
-- thread 0 and by no other. If the server has not started, thread 0 reads a null pointer.
pub main-own :
    (stoi : Bytes → Option ℤ) (started : Bool) (arguments : List Bytes) (n : ℕ) (order : List ℕ)
    → thread_count stoi arguments ≡ some (pos n)
    → Distinct order
    → All (λ i. i < n) order
    → (main stoi started arguments order ≡ (
        if is_safe started order
        then serving (set_up n) (own_actions order)
        else undefined_behaviour))
      × (all_health_checks (own_actions order) ≡ (if mem 0 order then 1 else 0))
unfolding main
main-own stoi started arguments n order e distinct below =
    (rw e (run-own started order n distinct below), health_checks_lem order distinct)
