-- ===== src/Greeter/Startup.antt =====
-- The whole `main` of src/asio-grpc/main2.cpp.
use vcpkg_test.Prelude.{
  ℕ, zero, suc, ◌<◌, ◌≡◌, refl, ap, Option, some, ℤ, pos, List, [], ◌∷◌, ◌++◌, map, Bytes, codes,
  replicate, All, Distinct,
}
use vcpkg_test.Servers.{
  Setup, add_listening_port, register_service, add_completion_queue, build_and_start, build, Action,
  make_context, register_say_hello, register_say_many_hellos, run_context, serving, thread_count,
}
use vcpkg_test.Greeter.{Transport, client_main, serve_on, run, main}
use vcpkg_test.Greeter.Threads.{run_threads-own}

-- The calls of the builder for `n` threads.
abbrev pub set_up : ℕ → List Setup
set_up n =
    add_listening_port (codes "localhost:50051")
    ∷ register_service
    ∷ (replicate n add_completion_queue ++ build_and_start ∷ [])

pub build-replicate : (n : ℕ) → build n ≡ replicate n add_completion_queue ++ build_and_start ∷ []
unfolding build
build-replicate zero = refl
build-replicate (suc n) = ap (◌∷◌ add_completion_queue) (build-replicate n)

-- What the threads of these numbers do, each on the queue of its own number.
abbrev pub own_threads : List ℕ → List (List Action)
own_threads [] = []
own_threads (i ∷ order) =
    (make_context (some i) ∷ register_say_hello ∷ register_say_many_hellos ∷ run_context ∷ [])
    ∷ own_threads order

map-own_threads :
    (order : List ℕ)
    → map (λ c. serve_on c.1) (map {A = ℕ} {B = ℕ × Option ℕ} (λ i. (i, some i)) order)
      ≡ own_threads order
map-own_threads [] = refl
map-own_threads (i ∷ order) = ap (◌∷◌ (serve_on (some i))) (map-own_threads order)

module _ (transport : Transport) where
  run-own :
      (order : List ℕ) (n : ℕ)
      → Distinct order
      → All (λ i. i < n) order
      → run transport order n ≡ serving (set_up n) (own_threads order, client_main transport)
  unfolding run
  run-own order n distinct below =
      rw (run_threads-own n order distinct below, build-replicate n, map-own_threads order) refl

  -- Let the arguments ask for `n` threads, which is 1 if they ask for nothing, and let threads with
  -- different numbers below `n` have begun, in any order. Then `main` has added the port and the
  -- service, has added a queue for each of the `n` threads and has built the server behind that; no
  -- thread reads outside of the vector, each makes its context with the queue of its own number,
  -- which is not null, registers both handlers and runs; and the client's thread does what
  -- `client_main` does.
  pub main-client_main :
      (stoi : Bytes → Option ℤ) (arguments : List Bytes) (n : ℕ) (order : List ℕ)
      → thread_count stoi arguments ≡ some (pos n)
      → Distinct order
      → All (λ i. i < n) order
      → main transport stoi arguments order
        ≡ serving (set_up n) (own_threads order, client_main transport)
  unfolding main
  main-client_main stoi arguments n order e distinct below = rw e (run-own order n distinct below)
